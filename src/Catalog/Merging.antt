-- ===== src/Catalog/Merging.antt =====
-- internal/catalog/schema.go: what the merged catalogue lists.
use keymaker.Prelude.{
  Bool, true, ◌&&◌, ◌||◌, List, [], ◌∷◌, map, ◌≡◌, refl, ap, subst, ◌∙◌, inl, inr, arith, ◌==◌,
  nat_equality, list_equality, list_beq_iff, Bool-cases, any, any-sort, any-append,
}
use keymaker.Text.{Text, less}
use keymaker.Catalog.{
  Operation, Route, add_operation, record_operation, record_operations, record_routes,
  record_batches, with_sorted_operations, merge,
}

abbrev pub has_method : Text → List Operation → Bool
has_method m operations = any (λ o. o.method == m) operations

-- The list of routes has the method at the path.
abbrev pub offers : Text → Text → List Route → Bool
offers p m routes = any (λ r. r.path == p && has_method m r.operations) routes

pub test_same : (s t u : Text) → (s == t) ≡ true → (s == u) ≡ (t == u)
test_same s t u h = ap (λ x. x == u) ((list_beq_iff s t).0 h)

has_method-add_operation :
    (m : Text) (op : Operation) (existing : List Operation)
    → has_method m (add_operation op existing) ≡ (op.method == m || has_method m existing)
has_method-add_operation m op existing = elim (Bool-cases (has_method op.method existing)) [
  | inl held ↦ rw held (elim (Bool-cases (op.method == m)) [
    | inl hit ↦
        let e = (list_beq_iff op.method m).0 hit in
        let h = subst (λ x. has_method x existing ≡ true) e held in ground arith
    | inr miss ↦ ground arith
  ])
  | inr new ↦ rw new (any-append (λ o. o.method == m) existing (op ∷ []) ∙ ground arith)
]

offers-record_operation :
    (p m path : Text) (op : Operation) (known : List Route)
    → offers p m (record_operation path op known)
      ≡ ((path == p && op.method == m) || offers p m known)
unfolding record_operation
offers-record_operation p m path op [] = ground arith
offers-record_operation p m path op (r ∷ known) = elim (Bool-cases (r.path == path)) [
  | inl hit ↦
      rw hit
        (ground (arith, has_method-add_operation m op r.operations, test_same r.path path p hit))
  | inr miss ↦ rw miss (ground (arith, offers-record_operation p m path op known))
]

offers-record_operations :
    (p m path : Text) (ops : List Operation) (known : List Route)
    → offers p m (record_operations path ops known)
      ≡ ((path == p && has_method m ops) || offers p m known)
unfolding record_operations
offers-record_operations p m path [] known = ground arith
offers-record_operations p m path (op ∷ ops) known =
    offers-record_operations p m path ops (record_operation path op known)
    ∙ ground (arith, offers-record_operation p m path op known)

offers-record_routes :
    (p m : Text) (routes known : List Route)
    → offers p m (record_routes routes known) ≡ (offers p m routes || offers p m known)
unfolding record_routes
offers-record_routes p m [] known = refl
offers-record_routes p m (r ∷ routes) known =
    offers-record_routes p m routes (record_operations r.path r.operations known)
    ∙ ground (arith, offers-record_operations p m r.path r.operations known)

offers-record_batches :
    (p m : Text) (batches : List (List Route)) (known : List Route)
    → offers p m (record_batches batches known) ≡ (any (offers p m) batches || offers p m known)
unfolding record_batches
offers-record_batches p m [] known = refl
offers-record_batches p m (batch ∷ batches) known =
    offers-record_batches p m batches (record_routes batch known)
    ∙ ground (arith, offers-record_routes p m batch known)

offers-map_sorted :
    (p m : Text) (routes : List Route)
    → offers p m (map with_sorted_operations routes) ≡ offers p m routes
offers-map_sorted p m [] = refl
offers-map_sorted p m (r ∷ routes) = ground (
  arith,
  any-sort (λ a b. less a.method b.method) (λ o. o.method == m) r.operations,
  offers-map_sorted p m routes,
)

-- The merged catalogue has a method at a path exactly when one of the branches lists it there.
pub offers-merge :
    (p m : Text) (batches : List (List Route))
    → offers p m (merge batches) ≡ any (offers p m) batches
unfolding merge
offers-merge p m batches =
    any-sort (λ a b. less a.path b.path) (λ r. r.path == p && has_method m r.operations)
      (map with_sorted_operations (record_batches batches []))
    ∙ offers-map_sorted p m (record_batches batches [])
    ∙ offers-record_batches p m batches []
    ∙ ground arith
