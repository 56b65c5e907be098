-- ===== src/Tests/Inventory.antt =====
-- The inventory of the sample account.
use keymaker.Prelude.{true, some, [], ◌∷◌, ◌≡◌, refl, In, here, length, if◌then◌else◌, int_equality}
use keymaker.Text.{text}
use keymaker.Failure.{as_incomplete, api_error, err, is, translate, status_code}
use keymaker.Audit.Branches.{Code}
use keymaker.Ovh.Client.{Api, ◌>>=◌}
use keymaker.Legacy.FanOut.{fan_out, run_jobs}
use keymaker.Legacy.Reading.{credential_slot, read_credentials, representatives, known}
use keymaker.Legacy.Provider
use keymaker.Http.Replies.{answered, refused, code_credential_unusable, code_permission_denied}
use keymaker.Http.Sweep.{read_listing, known_current}
use keymaker.Http.Inventory.{
  Setting, InventoryResponse, inventory_response, inventory_listed, inventory, describe, described,
  may_precede,
}
use keymaker.Http.Inventory.Listing.{
  Shows, inventory-Shows, IsOffered, inventory_response-IsOffered,
}
use keymaker.Http.Inventory.Counts.{is_read, kept, inventory_response-counts}
use keymaker.Http.Inventory.Refusals.{is_refused, inventory-refused}
use keymaker.Audit.Counting.{is_flagged, is_risky, raises}
use keymaker.Tests.World.{own, old, account, backwards}

abbrev setting : Setting
setting = record {
  endpoint = text "ovh-eu";
  may_look_up = true;
  now = 9;
  print = λ p. text "192.0.2.0/24";
  upper_beyond = λ c. c;
}

abbrev response : InventoryResponse
response = inventory_response setting (some own) (own ∷ old ∷ []) 1

answers : (inventory setting account backwards []).0 ≡ answered response
unfolding inventory inventory_listed Provider.current Provider.list fan_out run_jobs credential_slot
    read_credentials Provider.read_application representatives known status_code translate is
    read_listing as_incomplete ◌>>=◌
answers = refl

old_is_shown :
    In
      (described setting (own ∷ old ∷ []) (some own) old)
      (inventory_response setting (some own) (own ∷ old ∷ []) 1).credentials
unfolding inventory_response may_precede described describe
old_is_shown = here refl

inventory_response-IsOffered_example :
    IsOffered own (described setting (own ∷ old ∷ []) (some own) old)
inventory_response-IsOffered_example =
    inventory_response-IsOffered setting own (own ∷ old ∷ []) 1
      (described setting (own ∷ old ∷ []) (some own) old) old_is_shown

inventory_response-counts_example :
    let r = response in
    (r.summary.total ≡ length r.credentials)
    × (r.summary.examined ≡ kept is_read r.credentials)
    × (r.summary.flagged ≡ kept (λ d. is_flagged d.findings) r.credentials)
    × (r.summary.at_risk ≡ kept (λ d. is_risky d.findings) r.credentials)
    × ((k : Code) → r.summary.counts k ≡ kept (λ d. raises k d.findings) r.credentials)
inventory_response-counts_example = inventory_response-counts setting (some own) (own ∷ old ∷ []) 1

inventory-Shows_example :
    let current = Provider.current account backwards [] in
    Shows setting
      (known_current current.0)
      (read_listing (Provider.list account backwards current.1).0)
      response
inventory-Shows_example = inventory-Shows setting account backwards [] response answers

-- An account that answers every call by a refusal.
abbrev closed_account : Api
closed_account = record account {
  current_credential = λ h. err (api_error 403);
  list_credential_ids = λ h. err (api_error 403);
}

inventory-refused_example :
    (inventory setting closed_account backwards []).0
    ≡ refused 403 (
        if is_refused (closed_account.current_credential [])
        then code_credential_unusable
        else code_permission_denied)
unfolding status_code
inventory-refused_example =
    inventory-refused setting closed_account backwards [] (api_error 403) (λ h. refl) refl tt
