-- ===== src/Http/Replies.antt =====
-- internal/httpapi: what a handler answers, and how it words an error. A refusal is its status and
-- its code; the sentence beside the code is fixed by it and is left out.
use keymaker.Prelude.{ℕ, Bool, false, ◌&&◌, Option, none, some, ◌≡◌, arith, if◌then◌else◌}
use keymaker.Failure.{
  Failure, is, self_revocation, permission_denied, application_in_use, not_found,
  identity_unavailable,
}

pub data ErrorCode : Type 0 where
  code_permission_denied code_api_failure code_self_revocation code_identity_unknown : ErrorCode
  code_bad_identifier code_missing_token code_already_revoked code_application_in_use : ErrorCode
  code_application_gone code_credential_unusable : ErrorCode
  code_bad_address code_any_address_block code_too_many_addresses code_inactive : ErrorCode
  code_self_lookup_off code_self_lockout code_lookup_disabled code_lookup_failed : ErrorCode
  code_malformed_rule code_no_rules : ErrorCode

pub data Reply {ℓ} (A : Type ℓ) : Type ℓ where
  answered : A → Reply A
  no_content : Reply A
  refused : ℕ → ErrorCode → Reply A

-- `errors.Is(err, ErrPermissionDenied)`, which is false of no error.
abbrev pub is_denied : Option Failure → Bool
is_denied none = false
is_denied (some e) = is permission_denied e

module _ {ℓ} {A : Type ℓ} where
  unfoldable pub fail_revocation : Failure → Reply A
  fail_revocation e =
      if is not_found e
      then refused 404 code_already_revoked
      else if is identity_unavailable e
      then refused 502 code_identity_unknown
      else if is self_revocation e
      then refused 409 code_self_revocation
      else if is permission_denied e
      then refused 403 code_permission_denied
      else refused 502 code_api_failure

  unfoldable pub fail_application_deletion : Failure → Reply A
  fail_application_deletion e =
      if is application_in_use e
      then refused 409 code_application_in_use
      else if is not_found e
      then refused 404 code_application_gone
      else if is permission_denied e
      then refused 403 code_permission_denied
      else refused 502 code_api_failure

  unfoldable pub fail_addresses : Failure → Reply A
  fail_addresses e =
      if is identity_unavailable e
      then refused 502 code_identity_unknown
      else if is not_found e
      then refused 404 code_already_revoked
      else if is permission_denied e
      then refused 403 code_permission_denied
      else refused 502 code_api_failure

  unfoldable pub fail : Failure → Reply A
  fail e =
      if is permission_denied e
      then refused 403 code_permission_denied
      else refused 502 code_api_failure

  unfoldable pub fail_inventory : Failure → Option Failure → Reply A
  unfolding fail
  fail_inventory listing identity =
      if is permission_denied listing && is_denied identity
      then refused 403 code_credential_unusable
      else fail listing

unfoldable pub revocation_code : Failure → ErrorCode
revocation_code e =
    if is identity_unavailable e
    then code_identity_unknown
    else if is self_revocation e
    then code_self_revocation
    else if is permission_denied e
    then code_permission_denied
    else code_api_failure

unfoldable pub application_error_code : Failure → ErrorCode
application_error_code e =
    if is application_in_use e
    then code_application_in_use
    else if is not_found e
    then code_application_gone
    else if is permission_denied e
    then code_permission_denied
    else code_api_failure

abbrev pub code_of {ℓ} : {A : Type ℓ} → Reply A → Option ErrorCode
code_of (answered a) = none
code_of no_content = none
code_of (refused status code) = some code

-- A sweep words an error as the single call does: of a revocation whenever the error does not say
-- that the key is gone, which a sweep takes for done, and of a deletion always.
pub sweep_codes_agree :
    (e : Failure)
    → (is not_found e ≡ false
        → code_of {A = Unit {0}} (fail_revocation e) ≡ some (revocation_code e))
      × (code_of {A = Unit {0}} (fail_application_deletion e) ≡ some (application_error_code e))
unfolding fail_revocation revocation_code fail_application_deletion application_error_code
sweep_codes_agree e = ground arith
