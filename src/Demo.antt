-- ===== src/Demo.antt =====
-- tools/demo/main.go: an account held in memory behind the real server. A method returns its error
-- and the account it leaves; each runs under the lock of the store, but for `delete_application`,
-- which takes it twice. Instants are as in internal/credential.
pub mod Keys
pub mod Steps
pub mod Simulation
pub mod Accounts
pub mod Padding
use keymaker.Prelude.{
  Bool, true, false, not, ◌||◌, Option, none, some, List, [], ◌∷◌, ◌==◌, nat_equality,
  list_equality, int_equality, ℤ, if◌then◌else◌, any, filter, length,
}
use keymaker.Text.{Text, text}
use keymaker.Netip.{IpPrefix}
use keymaker.Failure.{
  Failure, sentinel, self_revocation, application_in_use, not_found, Result, ok, err,
}
use keymaker.Credential.{
  Status, expired, pending_validation, refused, validated, other, Application, Credential, permits,
}
use keymaker.Ovh.Paths.{credential_path, application_path}
use keymaker.Legacy.Provider.{Retirement}

-- The values that the API publishes.
unfoldable pub status_text : Status → Text
status_text expired = text "expired"
status_text pending_validation = text "pendingValidation"
status_text refused = text "refused"
status_text validated = text "validated"
status_text (other s) = s

pub record Store : Type 0 where
  pub current : Credential
  pub credentials : List Credential
  pub applications : List Application

abbrev pub has_id : ℤ → Credential → Bool
has_id id c = c.id == id

abbrev pub without_key : ℤ → List Credential → List Credential
without_key id credentials = filter (λ c. not (has_id id c)) credentials

-- `List`; the empty status stands for all of them.
unfoldable pub list : Store → Text → List Credential
unfolding status_text
list s status = filter (λ c. status == [] || status_text c.status == status) s.credentials

unfoldable pub find : ℤ → List Credential → Result Credential
find id [] = err (sentinel not_found)
find id (c ∷ credentials) = let rest = find id credentials in if c.id == id then ok c else rest

unfoldable pub get : Store → ℤ → Result Credential
unfolding find
get s id = find id s.credentials

-- The error of a deletion, from the lengths before and after.
abbrev pub missing_if : Bool → Option Failure
missing_if true = some (sentinel not_found)
missing_if false = none

unfoldable pub revoke_against : Credential → ℤ → Store → Option Failure × Store
revoke_against current id s =
    let left = without_key id s.credentials in
    if current.id == id
    then (some (sentinel self_revocation), s)
    else (missing_if (length left == length s.credentials), record s { credentials = left })

unfoldable pub revoke : ℤ → Store → Option Failure × Store
unfolding revoke_against
revoke id s = revoke_against s.current id s

unfoldable pub retire : Store → Retirement × Store
retire s = (
  record { id = s.current.id; deleted = true },
  record s { credentials = without_key s.current.id s.credentials },
)

unfoldable pub revocable : Credential → Credential → Bool
revocable current target = permits current (text "DELETE") (credential_path target.id)

abbrev pub with_addresses : List IpPrefix → Credential → Credential
with_addresses allowed c = record c { allowed_ips = allowed }

-- The loop of `SetAddresses` writes the first key of that identifier.
unfoldable pub write_blocks : ℤ → List IpPrefix → List Credential → List Credential
write_blocks id allowed [] = []
write_blocks id allowed (c ∷ credentials) =
    let rest = write_blocks id allowed credentials in
    if c.id == id then with_addresses allowed c ∷ credentials else c ∷ rest

unfoldable pub set_addresses : ℤ → List IpPrefix → Store → Option Failure × Store
unfolding write_blocks
set_addresses id allowed s =
    if any (has_id id) s.credentials
    then (
      none,
      record s {
        current = if id == s.current.id then with_addresses allowed s.current else s.current;
        credentials = write_blocks id allowed s.credentials;
      },
    )
    else (some (sentinel not_found), s)

unfoldable pub addresses_editable : Credential → Credential → Bool
addresses_editable current target = permits current (text "PUT") (credential_path target.id)

abbrev pub holds : ℤ → List Credential → Bool
holds id credentials = any (λ c. c.application.id == id) credentials

abbrev pub without_application : ℤ → List Application → List Application
without_application id applications = filter (λ a. not (a.id == id)) applications

unfoldable pub delete_application_against : List Credential → ℤ → Store → Option Failure × Store
delete_application_against credentials id s =
    let left = without_application id s.applications in
    if holds id credentials
    then (some (sentinel application_in_use), s)
    else (missing_if (length left == length s.applications), record s { applications = left })

-- `DeleteApplication` lets go of the lock between its listing of `before` and its write to `s`.
unfoldable pub delete_application : ℤ → Store → Store → Option Failure × Store
unfolding list delete_application_against
delete_application id before s = delete_application_against (list before []) id s

unfoldable pub deletable_application : Credential → ℤ → Bool
deletable_application current id = permits current (text "DELETE") (application_path id)
