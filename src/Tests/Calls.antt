-- ===== src/Tests/Calls.antt =====
-- The provider on the sample account.
use keymaker.Prelude.{
  ℤ, pos, true, false, Option, some, List, [], ◌∷◌, ◌≡◌, refl, any, ◌==◌, int_equality,
}
use keymaker.Failure.{
  Failure, nil, cons, api_error, context, joined, incomplete, is, status_code, translate, sentinel,
  application_in_use,
}
use keymaker.Ovh.Client.{Call, History, ◌>>=◌}
use keymaker.Legacy.FanOut.{fan_out, run_jobs}
use keymaker.Legacy.Reading.{credential_slot, read_credentials, representatives, known}
use keymaker.Legacy.Provider.{
  write_error, revoke, retire, delete_application_against, delete_application, list,
  read_application, fetch_all,
}
use keymaker.Legacy.Writes.{
  RevokeEnds, revoke-RevokeEnds, RetireEnds, retire-RetireEnds, delete_application_against_lem,
  DeleteEnds, delete_application-DeleteEnds,
}
use keymaker.Legacy.Listing.{Accounted, fetch_all-Accounted}
use keymaker.Tests.World.{own, old, account, backwards}

revoke-RevokeEnds_example :
    RevokeEnds account (pos 2) [] (revoke account (pos 2) []).0 (revoke account (pos 2) []).1
revoke-RevokeEnds_example = revoke-RevokeEnds account (pos 2) []

retire-RetireEnds_example : RetireEnds account [] (retire account []).0 (retire account []).1
retire-RetireEnds_example = retire-RetireEnds account []

abbrev three : List ℤ
three = pos 1 ∷ pos 2 ∷ pos 3 ∷ []

abbrev one_unreadable : Option Failure
one_unreadable = some (incomplete 1 (joined (cons (context (api_error 500)) nil)))

fetched_two : (fetch_all account backwards three []).0 ≡ (some (own ∷ old ∷ []), one_unreadable)
unfolding fetch_all fan_out run_jobs credential_slot read_credentials status_code translate is ◌>>=◌
fetched_two = refl

fetch_all-Accounted_example : Accounted account three (own ∷ old ∷ []) one_unreadable
fetch_all-Accounted_example = fetch_all-Accounted account backwards three [] fetched_two

delete_application_against_lem_example :
    (any (λ c. c.application.id == pos 11) (old ∷ []) ≡ true
      → delete_application_against account (old ∷ []) (pos 11) []
        ≡ (some (sentinel application_in_use), []))
    × (any (λ c. c.application.id == pos 11) (old ∷ []) ≡ false
        → delete_application_against account (old ∷ []) (pos 11) [] ≡ (
          write_error (account.delete_application [] (pos 11)),
          Call.delete_application (pos 11) ∷ [],
        ))
delete_application_against_lem_example =
    delete_application_against_lem account (old ∷ []) (pos 11) []

-- The calls of a listing of the sample account, the last one first.
abbrev after_listing : History
after_listing =
    Call.application (pos 10)
    ∷ Call.application (pos 11)
    ∷ Call.credential (pos 1)
    ∷ Call.credential (pos 2)
    ∷ Call.credential (pos 3)
    ∷ Call.list_credential_ids
    ∷ []

listed_two : list account backwards [] ≡ ((some (own ∷ old ∷ []), one_unreadable), after_listing)
unfolding list fan_out run_jobs credential_slot read_credentials read_application representatives
    known status_code translate is ◌>>=◌
listed_two = refl

delete_application-DeleteEnds_example :
    let r = delete_application account backwards (pos 12) [] in
    DeleteEnds account backwards (pos 12) [] r.0 r.1
delete_application-DeleteEnds_example = delete_application-DeleteEnds account backwards (pos 12) []

-- Key 3 was issued under application 12 and cannot be read: the application is deleted.
deleted_unread :
    (delete_application account backwards (pos 12) []).1
    ≡ Call.delete_application (pos 12) ∷ after_listing
unfolding delete_application delete_application_against list fan_out run_jobs credential_slot
    read_credentials read_application representatives known status_code translate is ◌>>=◌
deleted_unread = refl
