-- ===== src/Catalog/Fetch.antt =====
-- internal/catalog/remote.go, Fetch: the whole catalogue from one source, or an error. What the
-- source answers to each call of one attempt is given, a document as the decoder makes of it; the
-- workers finish their n jobs in the order of the list `order n`.
pub mod InTurn
use keymaker.Prelude.{
  ◌≡◌, ◌⊎◌, inl, inr, refl, ℕ, zero, suc, Bool, true, false, Option, none, some, List, [], ◌∷◌,
  ◌++◌, map, ◌==◌, nat_equality, at, length, if◌then◌else◌,
}
use keymaker.Text.{Text, text}
use keymaker.Credential.{Instant}
use keymaker.Failure.{Failure, Result, ok, err}
use keymaker.Catalog.{Route, Snapshot, RouteDocument, parse_index, parse_schema, merge}

-- The answers to `Index` and, for each job, to its call of `Schema`.
pub record Source : Type 0 where
  pub index : Result (Option (List Text))
  pub schema : ℕ → Text → Result (Option (List RouteDocument))

pub data FetchError : Type 0 where
  index_failed : Failure → FetchError
  index_unusable : FetchError
  schema_failed : Text → Failure → FetchError
  schema_unusable : Text → FetchError

pub data Outcome {ℓ} (A : Type ℓ) : Type ℓ where
  done : A → Outcome A
  failed : FetchError → Outcome A

pub Outcome-cases {ℓ} :
    {A : Type ℓ} (o : Outcome A) → ((a : A) × (o ≡ done a)) ⊎ ((e : FetchError) × (o ≡ failed e))
Outcome-cases (done a) = inl (a, refl)
Outcome-cases (failed e) = inr (e, refl)

unfoldable pub schema_path : Text → Text
schema_path branch = branch ++ text ".json"

abbrev pub parsed : Text → Option (List Route) → Outcome (List Route)
parsed branch none = failed (schema_unusable branch)
parsed branch (some routes) = done routes

-- The body of a worker's loop: what goes to its slots of `batches` and `failures`.
unfoldable pub read_branch : Source → ℕ → Text → Outcome (List Route)
unfolding schema_path
read_branch source i branch = elim (source.schema i (schema_path branch)) [
  | err e ↦ failed (schema_failed branch e)
  | ok document ↦ parsed branch (parse_schema document)
]

-- The workers write the slots in the order in which they finish.
unfoldable pub work :
    (ℕ → Outcome (List Route)) → List ℕ → (ℕ → Outcome (List Route)) → ℕ → Outcome (List Route)
work job [] slots = slots
work job (i ∷ order) slots = work job order (λ j. if i == j then job i else slots j)

-- The slots of the branches, from the i-th on.
abbrev pub slots_of {ℓ} : {A : Type ℓ} → ℕ → List Text → (ℕ → A) → List A
slots_of i [] slots = []
slots_of i (branch ∷ branches) slots = slots i ∷ slots_of (suc i) branches slots

abbrev pub routes_of : Outcome (List Route) → List Route
routes_of (done routes) = routes
routes_of (failed e) = []

-- The loop over `failures`.
unfoldable pub first_failure : List (Outcome (List Route)) → Option FetchError
first_failure [] = none
first_failure (done routes ∷ slots) = first_failure slots
first_failure (failed e ∷ slots) = some e

abbrev pub unless {ℓ} : {A : Type ℓ} → Option FetchError → A → Outcome A
unless none a = done a
unless (some e) a = failed e

abbrev pub snapshot_of : List Text → Instant → List (List Route) → Snapshot
snapshot_of branches now batches = record {
  routes = merge batches;
  branches = branches;
  taken = now;
  live = true;
}

unfoldable pub collect : List Text → Instant → List (Outcome (List Route)) → Outcome Snapshot
unfolding first_failure
collect branches now slots =
    unless (first_failure slots) (snapshot_of branches now (map routes_of slots))

abbrev pub nothing_yet : ℕ → Outcome (List Route)
nothing_yet i = done []

unfoldable pub fetch_branches : Source → (ℕ → List ℕ) → Instant → List Text → Outcome Snapshot
unfolding collect work
fetch_branches source order now branches =
    let job = λ (i : ℕ). read_branch source i (at [] branches i) in
    collect branches now (slots_of 0 branches (work job (order (length branches)) nothing_yet))

abbrev pub indexed {ℓ} : {A : Type ℓ} → Option (List Text) → (List Text → Outcome A) → Outcome A
indexed none next = failed index_unusable
indexed (some branches) next = next branches

abbrev pub with_index {ℓ} :
    {A : Type ℓ} → Result (Option (List Text)) → (List Text → Outcome A) → Outcome A
with_index (err e) next = failed (index_failed e)
with_index (ok document) next = indexed (parse_index document) next

unfoldable pub fetch : Source → (ℕ → List ℕ) → Instant → Outcome Snapshot
unfolding fetch_branches
fetch source order now = with_index source.index (fetch_branches source order now)
