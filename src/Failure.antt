-- ===== src/Failure.antt =====
-- Go errors as the program builds and reads them: the sentinels of internal/credential and
-- internal/publicip, an API error with its HTTP status, wrapping by %w, and errors.Join.
use keymaker.Prelude.{
  ℕ, Bool, true, false, ◌||◌, Option, none, some, ◌==◌, nat_equality, if◌then◌else◌,
}

pub data Sentinel : Type 0 where
  self_revocation permission_denied application_in_use not_found : Sentinel
  identity_unavailable lookup_disabled : Sentinel

abbrev pub Sentinel-beq : Sentinel → Sentinel → Bool
Sentinel-beq self_revocation self_revocation = true
Sentinel-beq permission_denied permission_denied = true
Sentinel-beq application_in_use application_in_use = true
Sentinel-beq not_found not_found = true
Sentinel-beq identity_unavailable identity_unavailable = true
Sentinel-beq lookup_disabled lookup_disabled = true
Sentinel-beq _ _ = false

mutual
  -- `wrap` is "%w: %w" and `context` is "context: %w"; `unread` is any failure with no API answer;
  -- `incomplete` is *credential.IncompleteError.
  pub data Failure : Type 0 where
    api_error : ℕ → Failure
    unread : ℕ → Failure
    sentinel : Sentinel → Failure
    wrap : Failure → Failure → Failure
    context : Failure → Failure
    joined : Failures → Failure
    incomplete : ℕ → Failure → Failure

  pub data Failures : Type 0 where
    nil : Failures
    cons : Failure → Failures → Failures

abbrev or_else {ℓ} : {A : Type ℓ} → Option A → Option A → Option A
or_else none b = b
or_else (some a) b = some a

unfoldable mutual
  -- `errors.Is`
  pub is : Sentinel → Failure → Bool
  is s (api_error code) = false
  is s (unread n) = false
  is s (sentinel t) = Sentinel-beq s t
  is s (wrap e f) = is s e || is s f
  is s (context e) = is s e
  is s (joined es) = is_any s es
  is s (incomplete n e) = is s e

  pub is_any : Sentinel → Failures → Bool
  is_any s nil = false
  is_any s (cons e es) = is s e || is_any s es

unfoldable mutual
  -- `errors.As` into an *APIError: the first one, depth first.
  pub as_api_error : Failure → Option ℕ
  as_api_error (api_error code) = some code
  as_api_error (unread n) = none
  as_api_error (sentinel t) = none
  as_api_error (wrap e f) = or_else (as_api_error e) (as_api_error f)
  as_api_error (context e) = as_api_error e
  as_api_error (joined es) = as_any_api_error es
  as_api_error (incomplete n e) = as_api_error e

  pub as_any_api_error : Failures → Option ℕ
  as_any_api_error nil = none
  as_any_api_error (cons e es) = or_else (as_api_error e) (as_any_api_error es)

unfoldable mutual
  -- `errors.As` into an *IncompleteError: its count, at the first one.
  pub as_incomplete : Failure → Option ℕ
  as_incomplete (api_error code) = none
  as_incomplete (unread n) = none
  as_incomplete (sentinel t) = none
  as_incomplete (wrap e f) = or_else (as_incomplete e) (as_incomplete f)
  as_incomplete (context e) = as_incomplete e
  as_incomplete (joined es) = as_any_incomplete es
  as_incomplete (incomplete n e) = some n

  pub as_any_incomplete : Failures → Option ℕ
  as_any_incomplete nil = none
  as_any_incomplete (cons e es) = or_else (as_incomplete e) (as_any_incomplete es)

-- `ovh.StatusCode`
unfoldable pub status_code : Failure → ℕ
unfolding as_api_error
status_code e = elim (as_api_error e) [ none ↦ 0 | some code ↦ code ]

-- `translate` of internal/legacy/provider.go
unfoldable pub translate : Failure → Failure
translate e =
    if status_code e == 403
    then wrap (sentinel permission_denied) e
    else if status_code e == 404
    then wrap (sentinel not_found) e
    else e

-- A value or an error.
pub data Result {ℓ} (A : Type ℓ) : Type ℓ where
  ok : A → Result A
  err : Failure → Result A
