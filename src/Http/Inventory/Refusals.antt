-- ===== src/Http/Inventory/Refusals.antt =====
-- internal/httpapi/inventory.go: what the inventory asks of the API, and how it tells a key that no
-- longer works from one that lacks a rule.
use keymaker.Prelude.{
  Bool, true, false, Option, ◌≡◌, refl, ap, ◌∙◌, arith, ◌==◌, nat_equality, if◌then◌else◌, inl, inr,
  subst, ◌⊎◌,
}
use keymaker.Failure.{
  Failure, api_error, unread, joined, incomplete, Result, ok, err, is, sentinel, wrap, context,
  permission_denied, status_code, translate,
}
use keymaker.Credential.{Credential}
use keymaker.Ovh.Client.{Api, History, ◌>>=◌}
use keymaker.Ovh.Makes.{Makes, Makes-pure, Makes-bind, IsRead}
use keymaker.Legacy.FanOut.{Scheduler}
use keymaker.Legacy.Provider
use keymaker.Legacy.Reads.{current-Makes, list-Makes}
use keymaker.Http.Replies.{
  Reply, refused, code_permission_denied, code_credential_unusable, fail, fail_inventory, is_denied,
}
use keymaker.Http.Sweep.{unlisted, read_listing, identity_error}
use keymaker.Http.Inventory.{Setting, InventoryResponse, inventory_listed, inventory}

-- The inventory changes nothing at the API: every call it makes is a read.
pub inventory-Makes :
    (set : Setting) (api : Api) (s : Scheduler) → Makes IsRead (inventory set api s)
unfolding inventory
inventory-Makes set api s =
    Makes-bind _ _ (current-Makes api s)
      (λ own. Makes-bind _ _ (list-Makes api s) (λ l. Makes-pure _))

-- The answer to the call that identifies the key in use, where that call could be sent or not.
abbrev pub IsAnswer : Result Credential → Type 0
IsAnswer (ok c) = Unit
IsAnswer (err (api_error code)) = Unit
IsAnswer (err (unread n)) = Unit
IsAnswer (err e) = ⊥

abbrev pub is_refused : Result Credential → Bool
is_refused (ok c) = false
is_refused (err e) = status_code e == 403

denied_of_403 :
    (e : Failure) → status_code e ≡ 403 → is permission_denied (context (translate e)) ≡ true
unfolding is translate
denied_of_403 e h = rw h refl

is_denied-translate :
    (e : Failure)
    → IsAnswer (err e)
    → is permission_denied (context (translate e)) ≡ (status_code e == 403)
unfolding is translate status_code
is_denied-translate (api_error code) i = ground arith
is_denied-translate (unread n) i = refl
is_denied-translate (sentinel t) i = absurd i
is_denied-translate (wrap e f) i = absurd i
is_denied-translate (context e) i = absurd i
is_denied-translate (joined es) i = absurd i
is_denied-translate (incomplete n e) i = absurd i

Result-cases {ℓ} :
    {A : Type ℓ} (r : Result A) → ((a : A) × (r ≡ ok a)) ⊎ ((e : Failure) × (r ≡ err e))
Result-cases (ok a) = inl (a, refl)
Result-cases (err e) = inr (e, refl)

module _ (api : Api) (s : Scheduler) where
  current_refused :
      (h : History)
      → IsAnswer (api.current_credential h)
      → is_denied (identity_error (Provider.current api s h).0)
        ≡ is_refused (api.current_credential h)
  unfolding Provider.current ◌>>=◌
  current_refused h i = elim (Result-cases (api.current_credential h)) [
    | inl (c, e) ↦ rw e refl
    | inr (f, e) ↦ rw e (is_denied-translate f (subst IsAnswer e i))
  ]

  list_refused :
      (h : History) (e : Failure)
      → api.list_credential_ids h ≡ err e
      → read_listing (Provider.list api s h).0 ≡ unlisted (context (translate e))
  unfolding Provider.list read_listing ◌>>=◌
  list_refused h e l = rw l refl

fail_inventory-denied :
    (e : Failure) (identity : Option Failure)
    → is permission_denied e ≡ true
    → ◌≡◌ {A = Reply InventoryResponse} (fail_inventory e identity) (
        refused 403
          (if is_denied identity then code_credential_unusable else code_permission_denied))
unfolding fail_inventory fail
fail_inventory-denied e identity d = ground arith

-- When the API refuses the listing by a 403, the inventory answers 403: it calls the key unusable
-- where the call that identifies the key was refused by a 403 too, which needs no rule, and names a
-- missing rule in every other case. The identification is answered by the API, or not at all.
pub inventory-refused :
    (set : Setting) (api : Api) (s : Scheduler) (h : History) (e : Failure)
    → ((before : History) → api.list_credential_ids before ≡ err e)
    → status_code e ≡ 403
    → IsAnswer (api.current_credential h)
    → (inventory set api s h).0
      ≡ refused 403 (
          if is_refused (api.current_credential h)
          then code_credential_unusable
          else code_permission_denied)
unfolding inventory inventory_listed ◌>>=◌
inventory-refused set api s h e l d i =
    let own = Provider.current api s h in
    ap (inventory_listed set own.0) (list_refused api s own.1 e (l own.1))
    ∙ fail_inventory-denied (context (translate e)) (identity_error own.0) (denied_of_403 e d)
    ∙ ap (λ b. refused 403 (if b then code_credential_unusable else code_permission_denied))
        (current_refused api s h i)
