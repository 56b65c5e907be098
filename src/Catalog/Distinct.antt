-- ===== src/Catalog/Distinct.antt =====
-- internal/catalog/schema.go: the merged catalogue lists no path twice.
use keymaker.Prelude.{
  Bool, false, ◌||◌, List, [], ◌∷◌, map, ◌≡◌, refl, ap, test_sym, ◌∙◌, inl, inr, arith, ◌==◌,
  nat_equality, list_equality, Bool-cases, any, any-insert, any-sort, insert, sort,
}
use keymaker.Text.{Text, less}
use keymaker.Catalog.{
  Operation, Route, record_operation, record_operations, record_routes, record_batches,
  with_sorted_operations, merge,
}
use keymaker.Catalog.Merging.{test_same}

abbrev pub lists : Text → List Route → Bool
lists p routes = any (λ r. r.path == p) routes

-- No path stands twice.
abbrev pub IsDistinct : List Route → Type 0
IsDistinct [] = Unit
IsDistinct (r ∷ routes) = (lists r.path routes ≡ false) × IsDistinct routes

lists-record_operation :
    (p path : Text) (op : Operation) (known : List Route)
    → lists p (record_operation path op known) ≡ (path == p || lists p known)
unfolding record_operation
lists-record_operation p path op [] = refl
lists-record_operation p path op (r ∷ known) = elim (Bool-cases (r.path == path)) [
  | inl hit ↦ rw hit (ground (arith, test_same r.path path p hit))
  | inr miss ↦ rw miss (ground (arith, lists-record_operation p path op known))
]

IsDistinct-record_operation :
    (path : Text) (op : Operation) (known : List Route)
    → IsDistinct known
    → IsDistinct (record_operation path op known)
unfolding record_operation
IsDistinct-record_operation path op [] d = (refl, tt)
IsDistinct-record_operation path op (r ∷ known) (fresh, d) = elim (Bool-cases (r.path == path)) [
  | inl hit ↦ rw hit (fresh, d)
  | inr miss ↦ rw miss (
    lists-record_operation r.path path op known ∙ ground (arith, test_sym r.path path),
    IsDistinct-record_operation path op known d,
  )
]

IsDistinct-record_operations :
    (path : Text) (ops : List Operation) (known : List Route)
    → IsDistinct known
    → IsDistinct (record_operations path ops known)
unfolding record_operations
IsDistinct-record_operations path [] known d = d
IsDistinct-record_operations path (op ∷ ops) known d =
    IsDistinct-record_operations path ops (record_operation path op known)
      (IsDistinct-record_operation path op known d)

IsDistinct-record_routes :
    (routes known : List Route) → IsDistinct known → IsDistinct (record_routes routes known)
unfolding record_routes
IsDistinct-record_routes [] known d = d
IsDistinct-record_routes (r ∷ routes) known d =
    IsDistinct-record_routes routes (record_operations r.path r.operations known)
      (IsDistinct-record_operations r.path r.operations known d)

IsDistinct-record_batches :
    (batches : List (List Route)) (known : List Route)
    → IsDistinct known
    → IsDistinct (record_batches batches known)
unfolding record_batches
IsDistinct-record_batches [] known d = d
IsDistinct-record_batches (batch ∷ batches) known d =
    IsDistinct-record_batches batches (record_routes batch known)
      (IsDistinct-record_routes batch known d)

lists-map_sorted :
    (p : Text) (routes : List Route) → lists p (map with_sorted_operations routes) ≡ lists p routes
lists-map_sorted p [] = refl
lists-map_sorted p (r ∷ routes) = ap (λ b. r.path == p || b) (lists-map_sorted p routes)

IsDistinct-map_sorted :
    (routes : List Route) → IsDistinct routes → IsDistinct (map with_sorted_operations routes)
IsDistinct-map_sorted [] d = tt
IsDistinct-map_sorted (r ∷ routes) (fresh, d) =
    (lists-map_sorted r.path routes ∙ fresh, IsDistinct-map_sorted routes d)

module _ (before : Route → Route → Bool) where
  IsDistinct-insert :
      (r : Route) (routes : List Route)
      → lists r.path routes ≡ false
      → IsDistinct routes
      → IsDistinct (insert before r routes)
  IsDistinct-insert r [] fresh d = (refl, tt)
  IsDistinct-insert r (s ∷ routes) fresh (fresh', d) = elim (Bool-cases (before s r)) [
    | inl earlier ↦ rw earlier (
      any-insert before (λ x. x.path == s.path) r routes ∙ ground (arith, test_sym r.path s.path),
      IsDistinct-insert r routes (ground arith) d,
    )
    | inr later ↦ rw later (fresh, (fresh', d))
  ]

  IsDistinct-sort : (routes : List Route) → IsDistinct routes → IsDistinct (sort before routes)
  IsDistinct-sort [] d = tt
  IsDistinct-sort (r ∷ routes) (fresh, d) =
      IsDistinct-insert r (sort before routes)
        (any-sort before (λ x. x.path == r.path) routes ∙ fresh) (IsDistinct-sort routes d)

-- The merged catalogue lists no path twice, however the branches overlap.
pub merge-IsDistinct : (batches : List (List Route)) → IsDistinct (merge batches)
unfolding merge
merge-IsDistinct batches =
    IsDistinct-sort (λ a b. less a.path b.path)
      (map with_sorted_operations (record_batches batches []))
      (IsDistinct-map_sorted (record_batches batches []) (IsDistinct-record_batches batches [] tt))
