-- ===== src/Http/Offers.antt =====
-- internal/httpapi: whether the interface offers an action on a credential or an application.
use keymaker.Prelude.{
  ℕ, ℤ, Bool, true, false, not, ◌&&◌, ◌||◌, Option, none, some, ◌==◌, int_equality, ltb,
  if◌then◌else◌,
}
use keymaker.Credential.{Status, expired, refused, is_validated, Credential}
use keymaker.Legacy.Provider.{revocable, addresses_editable, deletable_application}

pub data Reason : Type 0 where
  no_reason self missing_rule inactive_key lookup_off in_use : Reason

pub record Offer : Type 0 where
  pub allowed : Bool
  pub reason : Reason

abbrev pub allow : Offer
allow = record { allowed = true; reason = no_reason }

abbrev pub deny : Reason → Offer
deny r = record { allowed = false; reason = r }

unfoldable pub revocation_offer : Option Credential → Credential → Offer
revocation_offer none target = allow
revocation_offer (some current) target =
    if current.id == target.id
    then deny self
    else if not (revocable current target)
    then deny missing_rule
    else allow

unfoldable pub deletion_offer : Option Credential → ℤ → ℕ → Offer
deletion_offer none id credentials = if ltb 0 credentials then deny in_use else allow
deletion_offer (some current) id credentials =
    if ltb 0 credentials
    then deny in_use
    else if not (deletable_application current id)
    then deny missing_rule
    else allow

-- The last argument says whether the instance may look its address up.
unfoldable pub address_offer : Option Credential → Credential → Bool → Offer
address_offer none target enabled =
    if not (is_validated target.status) || target.application.deleted
    then deny inactive_key
    else allow
address_offer (some current) target enabled =
    if not (is_validated target.status) || target.application.deleted
    then deny inactive_key
    else if not (addresses_editable current target)
    then deny missing_rule
    else if current.id == target.id && not enabled
    then deny lookup_off
    else allow

unfoldable pub inactive : Status → Bool
inactive expired = true
inactive refused = true
inactive _ = false
