-- ===== src/Http/Inventory/Listing.antt =====
-- internal/httpapi/inventory.go: what the list shows, in which order, and what it offers.
use mathlib.Core.List.{Perm}
use keymaker.Prelude.{
  ℕ, ◌<◌, ℤ, ◌≤ℤ◌, true, false, Option, none, some, List, [], ◌∷◌, map, ◌≡◌, ◌⊎◌, ◌↔◌, refl, sym,
  subst, arith, In, In-map, In-sort, IsOrdered, IsSorted-IsOrdered, sort, sort-perm, sort-IsSorted,
  ◌≢◌, int_equality, int_beq_iff,
}
use keymaker.Text.{text}
use keymaker.Failure.{Failure, Result}
use keymaker.Credential.{Instant, Credential, permits}
use keymaker.Ovh.Client.{Api, History, ◌>>=◌}
use keymaker.Ovh.Paths.{credential_path}
use keymaker.Legacy.FanOut.{Scheduler}
use keymaker.Legacy.Provider
use keymaker.Legacy.Provider.{revocable}
use keymaker.Http.Offers.{self, deny, revocation_offer}
use keymaker.Http.Replies.{answered, fail, fail_inventory}
use keymaker.Http.Sweep.{Listed, listed, unlisted, read_listing, known_current, identity_error}
use keymaker.Http.Inventory.{
  describe, unneeded, summarise_response, CredentialResponse, InventoryResponse, Setting, is_self,
  compare_use, compare_ids, may_precede, described, inventory_response, inventory_listed, inventory,
}

-- The order of two keys by their last uses and, where those agree, their identifiers.
abbrev pub Precedes : Option Instant → Option Instant → ℤ → ℤ → Type 0
Precedes (some a) (some b) i j = (b < a) ⊎ ((a ≡ b) × (j ≤ℤ i))
Precedes (some a) none i j = Unit
Precedes none (some b) i j = ⊥
Precedes none none i j = j ≤ℤ i

abbrev pub IsListed : List CredentialResponse → Type 0
IsListed [] = Unit
IsListed (x ∷ xs) =
    ((y : CredentialResponse) → In y xs → Precedes x.last_used_at y.last_used_at x.id y.id)
    × IsListed xs

may_precede-Precedes :
    (x y : CredentialResponse)
    → may_precede x y ≡ true
    → Precedes x.last_used_at y.last_used_at x.id y.id
unfolding may_precede compare_use compare_ids
may_precede-Precedes x y h = ground arith

may_precede_total : (x y : CredentialResponse) → may_precede y x ≡ false → may_precede x y ≡ true
unfolding may_precede compare_use compare_ids
may_precede_total x y h = ground arith

may_precede_trans :
    (x y z : CredentialResponse)
    → may_precede x y ≡ true
    → may_precede y z ≡ true
    → may_precede x z ≡ true
unfolding may_precede compare_use compare_ids
may_precede_trans x y z h k = ground arith

IsOrdered-IsListed :
    (ds : List CredentialResponse) → IsOrdered (λ a b. may_precede a b) ds → IsListed ds
IsOrdered-IsListed [] o = tt
IsOrdered-IsListed (x ∷ xs) (o, os) =
    ((λ y m. may_precede-Precedes x y (o y m)), IsOrdered-IsListed xs os)

sort-IsListed : (ds : List CredentialResponse) → IsListed (sort (λ a b. may_precede a b) ds)
sort-IsListed ds = IsOrdered-IsListed _ (
    IsSorted-IsOrdered (λ a b. may_precede a b) may_precede_trans _
      (sort-IsSorted (λ a b. may_precede a b) may_precede_total ds))

-- What an answer shows of a listing: one entry for each credential listed, as it is described, in
-- the order of the list; and how many credentials could not be read.
pub record Shows (set : Setting) (own : Option Credential) (l : Listed) (r : InventoryResponse)
    : Type 0 where
  pub credentials : List Credential
  pub unreadable : ℕ
  pub read : l ≡ listed credentials unreadable
  pub entries : Perm r.credentials (map (described set credentials own) credentials)
  pub in_order : IsListed r.credentials
  pub reported : r.summary.unreadable ≡ unreadable

fail_inventory-ne-answered {ℓ} :
    {A : Type ℓ} (e : Failure) (identity : Option Failure) (a : A)
    → fail_inventory e identity ≢ answered a
unfolding fail_inventory fail
fail_inventory-ne-answered e identity a h = ground arith

-- What an entry says when the key in use is known: whether it is that key, which then is offered
-- no revocation and alone may name rules it does not need; any other is offered a revocation
-- exactly when the key in use may revoke it.
pub record IsOffered (own : Credential) (d : CredentialResponse) : Type 0 where
  pub told_apart : (d.self ≡ true) ↔ (d.id ≡ own.id)
  pub kept : d.self ≡ true → d.revoke ≡ deny self
  pub other :
      d.self ≡ false
      → (d.unneeded ≡ []) × (d.revoke.allowed ≡ permits own (text "DELETE") (credential_path d.id))

module _ (set : Setting) where
  inventory_response-Shows :
      (own : Option Credential) (credentials : List Credential) (n : ℕ)
      → Shows set own (listed credentials n) (inventory_response set own credentials n)
  unfolding inventory_response summarise_response
  inventory_response-Shows own credentials n = record {
    credentials = credentials;
    unreadable = n;
    read = refl;
    entries = sort-perm (λ a b. may_precede a b) _;
    in_order = sort-IsListed (map (described set credentials own) credentials);
    reported = refl;
  }

  inventory_listed-Shows :
      (own : Result Credential) (l : Listed) (r : InventoryResponse)
      → inventory_listed set own l ≡ answered r
      → Shows set (known_current own) l r
  unfolding inventory_listed
  inventory_listed-Shows own (unlisted e) r h =
      absurd (fail_inventory-ne-answered e (identity_error own) r h)
  inventory_listed-Shows own (listed credentials n) r h =
      let e : inventory_response set (known_current own) credentials n ≡ r = cc h in
      subst (Shows set (known_current own) (listed credentials n)) e
        (inventory_response-Shows (known_current own) credentials n)

  -- An inventory that is answered shows what the listing read after the key in use: one entry for
  -- each credential listed and no other, as it is described, the most recently used first, those
  -- never used last, and of one last use the larger identifier first; and it says how many
  -- credentials could not be read.
  pub inventory-Shows :
      (api : Api) (s : Scheduler) (h : History) (r : InventoryResponse)
      → (inventory set api s h).0 ≡ answered r
      → let own = Provider.current api s h in
        Shows set (known_current own.0) (read_listing (Provider.list api s own.1).0) r
  unfolding inventory ◌>>=◌
  inventory-Shows api s h r e =
      let own = Provider.current api s h in
      inventory_listed-Shows own.0 (read_listing (Provider.list api s own.1).0) r e

  described-IsOffered :
      (own : Credential) (credentials : List Credential) (c : Credential)
      → IsOffered own (described set credentials (some own) c)
  unfolding described describe is_self unneeded revocation_offer
  described-IsOffered own credentials c = record {
    told_apart = ground (arith, int_beq_iff own.id c.id);
    kept = λ same. rw same refl;
    other = λ apart. rw apart (refl, ground arith);
  }

  -- In an inventory whose key in use is known, an entry is marked exactly when it is of that key. The
  -- entry marked is offered no revocation; any other names no rule as unneeded, and is offered a
  -- revocation exactly when the key in use may send its deletion.
  pub inventory_response-IsOffered :
      (own : Credential) (credentials : List Credential) (n : ℕ) (d : CredentialResponse)
      → In d (inventory_response set (some own) credentials n).credentials
      → IsOffered own d
  unfolding inventory_response
  inventory_response-IsOffered own credentials n d m =
      let (c, i, e) =
        In-map (described set credentials (some own)) credentials
          (In-sort (λ a b. may_precede a b) _ m) in
      subst (IsOffered own) (sym e) (described-IsOffered own credentials c)
