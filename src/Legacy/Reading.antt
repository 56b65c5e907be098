-- ===== src/Legacy/Reading.antt =====
-- internal/legacy/provider.go: what is made of the answers to the detail calls, before and after
-- the calls themselves.
use keymaker.Prelude.{
  ℕ, suc, ◌+◌, ℤ, pos, true, false, not, ◌&&◌, Option, none, some, List, [], ◌∷◌, ◌==◌,
  nat_equality, int_equality, if◌then◌else◌, any,
}
use keymaker.Failure.{
  Failure, Failures, cons, context, joined, incomplete, Result, ok, err, is, permission_denied,
  status_code, translate,
}
use keymaker.Credential.{Application, Credential, other}

-- The three arrays `fetched`, `revoked` and `failures` at one index.
pub data Slot {ℓ} (A : Type ℓ) : Type ℓ where
  fetched : A → Slot A
  revoked : Slot A
  failed : Failure → Slot A

abbrev pub no_application : Application
no_application = record {
  id = pos 0;
  key = [];
  name = [];
  description = [];
  external = false;
  deleted = false;
}

-- Go's zero value.
abbrev pub no_credential : Credential
no_credential = record {
  id = pos 0;
  application = no_application;
  status = other [];
  rules = [];
  allowed_ips = [];
  created_at = 0;
  expires_at = 0;
  last_used_at = 0;
  issued_by_support = false;
}

-- The switch of a worker of `fetchAll`: a credential that is gone was revoked meanwhile.
unfoldable pub credential_slot : Result Credential → Slot Credential
credential_slot (ok c) = fetched c
credential_slot (err e) = if status_code e == 404 then revoked else failed (context (translate e))

-- The body of a worker of `Applications`.
unfoldable pub application_slot : Result Application → Slot Application
application_slot (ok a) = fetched a
application_slot (err e) = failed (context (translate e))

-- A slice and an error; `none` is a nil slice, and no error.
abbrev pub Listing {ℓ} : Type ℓ → Type ℓ
Listing A = Option (List A) × Option Failure

module _ {ℓ} {A : Type ℓ} where
  abbrev pub values : List (Slot A) → List A
  values [] = []
  values (fetched a ∷ slots) = a ∷ values slots
  values (revoked ∷ slots) = values slots
  values (failed e ∷ slots) = values slots

  abbrev pub failures : List (Slot A) → Failures
  failures [] = Failures.nil
  failures (fetched a ∷ slots) = failures slots
  failures (revoked ∷ slots) = failures slots
  failures (failed e ∷ slots) = cons e (failures slots)

  abbrev pub unreadable : List (Slot A) → ℕ
  unreadable [] = 0
  unreadable (fetched a ∷ slots) = unreadable slots
  unreadable (revoked ∷ slots) = unreadable slots
  unreadable (failed e ∷ slots) = unreadable slots + 1

  abbrev partial : List A → ℕ → Failure → Listing A
  partial [] n e = (none, some e)
  partial (a ∷ as') n e = (some (a ∷ as'), some (incomplete n e))

  -- The end of `Applications`: nothing at all, or what could be read beside the count of the rest.
  unfoldable pub read_applications : List A → ℕ → Failures → Listing A
  read_applications as' n Failures.nil = (some as', none)
  read_applications as' n (cons e es) = partial as' n (joined (cons e es))

  -- The end of `fetchAll`: a refusal fails the whole listing.
  unfoldable pub read_credentials : List A → ℕ → Failures → Listing A
  read_credentials as' n Failures.nil = (some as', none)
  read_credentials as' n (cons e es) =
      if is permission_denied (joined (cons e es))
      then (none, some (joined (cons e es)))
      else partial as' n (joined (cons e es))

-- The first loop of `resolveApplications`: one credential for each application.
unfoldable pub representatives : List ℤ → List Credential → List Credential
representatives seen [] = []
representatives seen (c ∷ cs) =
    let id = c.application.id in
    let fresh = not (id == pos 0) && not (any (λ s. s == id) seen) in
    let rest = representatives (if fresh then id ∷ seen else seen) cs in
    if fresh then c ∷ rest else rest

-- The end of `application`, on the answers of both routes when the first one failed.
unfoldable pub settle : Credential → Failure → Result Application → Application
settle c e (ok found) = record found { external = status_code e == 404 }
settle c e (err fallback) =
    if status_code e == 404 && status_code fallback == 404
    then record no_application { id = c.application.id; deleted = true }
    else c.application

-- The map `known`, from the representatives and what was resolved for each.
unfoldable pub known : ℕ → List Credential → (ℕ → Application) → ℤ → Option Application
known i [] resolved id = none
known i (c ∷ cs) resolved id =
    let later = known (suc i) cs resolved id in
    if c.application.id == id then some (resolved i) else later

abbrev pub with_application : Credential → Option Application → Credential
with_application c none = c
with_application c (some a) = record c { application = a }
