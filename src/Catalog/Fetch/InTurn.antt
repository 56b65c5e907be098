-- ===== src/Catalog/Fetch/InTurn.antt =====
-- internal/catalog/remote.go, Fetch: the workers make of the branches what reading one after another
-- would.
use keymaker.Prelude.{
  ℕ, suc, ◌+◌, ◌<◌, true, Option, none, some, List, [], ◌∷◌, map, ◌≡◌, refl, sym, ap, subst, ◌∙◌,
  arith, inl, inr, Option-cases, Bool-cases, eq_of, In, here, there, at, length, ◌==◌, nat_equality,
}
use keymaker.Text.{Text}
use keymaker.Credential.{Instant}
use keymaker.Failure.{Result, ok, err}
use keymaker.Catalog.{Route, Snapshot, parse_index}
use keymaker.Catalog.Fetch.{
  Source, FetchError, Outcome, done, failed, Outcome-cases, read_branch, work, slots_of, routes_of,
  first_failure, snapshot_of, collect, unless, nothing_yet, with_index, fetch_branches, fetch,
}

-- The branches one after another, up to the first that fails.
abbrev pub then_batch : List Route → Outcome (List (List Route)) → Outcome (List (List Route))
then_batch routes (done batches) = done (routes ∷ batches)
then_batch routes (failed e) = failed e

abbrev pub onto_batches :
    Outcome (List Route) → Outcome (List (List Route)) → Outcome (List (List Route))
onto_batches (failed e) rest = failed e
onto_batches (done routes) rest = then_batch routes rest

unfoldable pub read_in_turn : Source → ℕ → List Text → Outcome (List (List Route))
read_in_turn source i [] = done []
read_in_turn source i (branch ∷ branches) =
    let rest = read_in_turn source (suc i) branches in
    onto_batches (read_branch source i branch) rest

abbrev pub snapshot_in_turn : List Text → Instant → Outcome (List (List Route)) → Outcome Snapshot
snapshot_in_turn branches now (done batches) = done (snapshot_of branches now batches)
snapshot_in_turn branches now (failed e) = failed e

unfoldable pub fetch_in_turn : Source → Instant → Outcome Snapshot
unfolding read_in_turn
fetch_in_turn source now =
    with_index source.index
      (λ branches. snapshot_in_turn branches now (read_in_turn source 0 branches))

beq_self : (i : ℕ) → (i == i) ≡ true
beq_self i = ground arith

module _ (job : ℕ → Outcome (List Route)) (i : ℕ) where
  work_keep :
      (order : List ℕ) (slots : ℕ → Outcome (List Route))
      → slots i ≡ job i
      → work job order slots i ≡ job i
  unfolding work
  work_keep [] slots e = e
  work_keep (j ∷ order) slots e = work_keep order _ (elim (Bool-cases (j == i)) [
    | inl hit ↦ rw hit (ap job (eq_of j i hit))
    | inr miss ↦ rw miss e
  ])

  work_fill :
      (order : List ℕ) (slots : ℕ → Outcome (List Route))
      → In i order
      → work job order slots i ≡ job i
  unfolding work
  work_fill [] slots m = elim m [ ]
  work_fill (j ∷ order) slots (here e) = work_keep order _ (rw (sym e, beq_self i) refl)
  work_fill (j ∷ order) slots (there m) = work_fill order _ m

unless-cons :
    (routes : List Route) (o : Option FetchError) (batches : List (List Route))
    → unless o (routes ∷ batches) ≡ then_batch routes (unless o batches)
unless-cons routes none batches = refl
unless-cons routes (some e) batches = refl

snapshot_in_turn-unless :
    (bs : List Text) (now : Instant) (o : Option FetchError) (batches : List (List Route))
    → unless o (snapshot_of bs now batches) ≡ snapshot_in_turn bs now (unless o batches)
snapshot_in_turn-unless bs now none batches = refl
snapshot_in_turn-unless bs now (some e) batches = refl

zero_plus : (j : ℕ) → j ≡ 0 + j
zero_plus j = omega arith

with_index-ext {ℓ} :
    {A : Type ℓ} (r : Result (Option (List Text))) (f g : List Text → Outcome A)
    → ((bs : List Text) → f bs ≡ g bs)
    → with_index r f ≡ with_index r g
with_index-ext (err e) f g same = refl
with_index-ext (ok document) f g same = elim (Option-cases (parse_index document)) [
  | inl e ↦ rw e refl
  | inr (bs, e) ↦ rw e (same bs)
]

module _ (source : Source) where
  -- What each branch reads, from the i-th on.
  each : ℕ → List Text → List (Outcome (List Route))
  each i [] = []
  each i (branch ∷ branches) = read_branch source i branch ∷ each (suc i) branches

  slots_of-each :
      (bs : List Text) (i : ℕ) (slots : ℕ → Outcome (List Route)) (f : ℕ → Text)
      → ((j : ℕ) → j < length bs → slots (i + j) ≡ read_branch source (i + j) (f (i + j)))
      → ((j : ℕ) → at [] bs j ≡ f (i + j))
      → slots_of i bs slots ≡ each i bs
  unfolding each
  slots_of-each [] i slots f e n = refl
  slots_of-each (b ∷ bs) i slots f e n =
      let zero' : i + 0 ≡ i = omega arith in
      let next = λ (j : ℕ). let p : i + suc j ≡ suc i + j = omega arith in p in
      let head : slots i ≡ read_branch source i b =
        subst (λ k. slots k ≡ read_branch source k (f k)) zero' (e 0 (omega arith))
        ∙ ap (read_branch source i) (sym (n 0 ∙ ap f zero')) in
      ap (λ o. o ∷ slots_of (suc i) bs slots) head
      ∙ ap (◌∷◌ (read_branch source i b)) (
          slots_of-each bs (suc i) slots f
            (λ j lt.
              subst (λ k. slots k ≡ read_branch source k (f k)) (next j) (e (suc j) (omega arith)))
            (λ j. n (suc j) ∙ ap f (next j)))

  abbrev collected : List (Outcome (List Route)) → Outcome (List (List Route))
  collected slots = unless (first_failure slots) (map routes_of slots)

  collected-each : (i : ℕ) (bs : List Text) → collected (each i bs) ≡ read_in_turn source i bs
  unfolding read_in_turn each first_failure
  collected-each i [] = refl
  collected-each i (b ∷ bs) = elim (Outcome-cases (read_branch source i b)) [
    | inl (routes, e) ↦ rw e (
        unless-cons routes (first_failure (each (suc i) bs)) (map routes_of (each (suc i) bs))
        ∙ ap (then_batch routes) (collected-each (suc i) bs))
    | inr (x, e) ↦ rw e refl
  ]

  module _ (order : ℕ → List ℕ) (covers : (n i : ℕ) → i < n → In i (order n)) (now : Instant) where
    filled :
        (bs : List Text)
        → slots_of 0 bs
            (work (λ i. read_branch source i (at [] bs i)) (order (length bs)) nothing_yet)
          ≡ each 0 bs
    filled bs =
        let job = λ (i : ℕ). read_branch source i (at [] bs i) in
        let slots = work job (order (length bs)) nothing_yet in
        slots_of-each bs 0 slots (at [] bs)
          (λ j lt.
            subst (λ k. slots k ≡ job k) (zero_plus j)
              (work_fill job j (order (length bs)) nothing_yet (covers (length bs) j lt)))
          (λ j. ap (at [] bs) (zero_plus j))

    fetch_branches-in_turn :
        (bs : List Text)
        → fetch_branches source order now bs ≡ snapshot_in_turn bs now (read_in_turn source 0 bs)
    unfolding fetch_branches collect
    fetch_branches-in_turn bs =
        ap (collect bs now) (filled bs)
        ∙ snapshot_in_turn-unless bs now (first_failure (each 0 bs)) (map routes_of (each 0 bs))
        ∙ ap (snapshot_in_turn bs now) (collected-each 0 bs)

    -- Whatever the order in which the workers finish, `Fetch` gives what reading the branches one
    -- after another would give: a catalogue that merges all branches or, where one fails, the error
    -- of the first that does and no catalogue. The workers finish each of their jobs.
    pub fetch-eq-fetch_in_turn : fetch source order now ≡ fetch_in_turn source now
    unfolding fetch fetch_in_turn
    fetch-eq-fetch_in_turn = with_index-ext source.index _ _ fetch_branches-in_turn
