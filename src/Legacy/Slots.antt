-- ===== src/Legacy/Slots.antt =====
-- What the slots of a worker pool hold when the workers are done, whatever the order of the jobs.
use mathlib.Core.List.{map-append}
use keymaker.Prelude.{
  ◌++◌, ◌∙◌, map, if◌then◌else◌, ℕ, zero, suc, ◌<◌, true, List, [], ◌∷◌, ◌≡◌, ◌⊎◌, inl, inr, refl,
  sym, ap, arith, ◌==◌, nat_equality, In, here, there, Bool-cases, eq_of, length, length-append,
  In-append_left, In-append_right,
}
use keymaker.Failure.{Failure, is, is_any, Sentinel}
use keymaker.Ovh.Client.{History, Calls, ◌>>=◌}
use keymaker.Legacy.FanOut.{Scheduler, update, run_jobs, fan_out, slot_list}
use keymaker.Legacy.Reading.{Slot, fetched, revoked, failed, failures}

module _ {ℓ} {A : Type ℓ} (work : ℕ → Calls A) where
  -- The slot holds an answer of its own job.
  abbrev Filled : (ℕ → A) → ℕ → Type ℓ
  Filled slots i = (h : History) × (slots i ≡ (work i h).0)

  update-Filled :
      (slots : ℕ → A) (j i : ℕ) (h : History)
      → (i ≡ j) ⊎ Filled slots i
      → Filled (update slots j (work j h).0) i
  update-Filled slots j i h known = elim (Bool-cases (j == i)) [
    | inl hit ↦ (h, rw (hit, sym (eq_of j i hit)))
    | inr miss ↦ elim known [ inl same ↦ absurd (ground arith) | inr (h', e) ↦ (h', rw (miss, e)) ]
  ]

  run_jobs_keep :
      (order : List ℕ) (slots : ℕ → A) (h : History) (i : ℕ)
      → Filled slots i
      → Filled (run_jobs work order slots h).0 i
  unfolding run_jobs ◌>>=◌
  run_jobs_keep [] slots h i f = f
  run_jobs_keep (j ∷ order) slots h i f =
      run_jobs_keep order (update slots j (work j h).0) (work j h).1 i
        (update-Filled slots j i h (inr f))

  run_jobs_fill :
      {i : ℕ} {order : List ℕ} (slots : ℕ → A) (h : History)
      → In i order
      → Filled (run_jobs work order slots h).0 i
  unfolding run_jobs ◌>>=◌
  run_jobs_fill {i} slots h (here {x} {xs} e) =
      run_jobs_keep xs (update slots x (work x h).0) (work x h).1 i
        (update-Filled slots x i h (inl e))
  run_jobs_fill slots h (there {x} m) = run_jobs_fill (update slots x (work x h).0) (work x h).1 m

  -- Every slot is filled by its own job, in whatever order the scheduler lets the jobs run.
  pub fan_out_fill :
      (s : Scheduler) (n : ℕ) (slots : ℕ → A) (h : History) (i : ℕ)
      → i < n
      → Filled (fan_out s work n slots h).0 i
  unfolding fan_out ◌>>=◌
  fan_out_fill s n slots h i lt = run_jobs_fill slots h (s.covers h n i lt)

module _ {ℓ} {A : Type ℓ} where
  pub In-slot_list : (n : ℕ) (slots : ℕ → A) (i : ℕ) → i < n → In (slots i) (slot_list n slots)
  In-slot_list zero slots i lt = absurd (omega arith)
  In-slot_list (suc n) slots i lt = elim (Bool-cases (i == n)) [
    | inl last ↦ rw (eq_of i n last) (In-append_right (slot_list n slots) (here refl))
    | inr before ↦ In-append_left (slots n ∷ []) (In-slot_list n slots i (ground arith))
  ]

  pub slot_list-ext :
      (n : ℕ) (f g : ℕ → A) → ((i : ℕ) → i < n → f i ≡ g i) → slot_list n f ≡ slot_list n g
  slot_list-ext zero f g e = refl
  slot_list-ext (suc n) f g e =
      rw (slot_list-ext n f g (λ i lt. e i (omega arith)), e n (omega arith)) refl

  pub slot_list-map {κ} :
      {B : Type κ} (n : ℕ) (f : A → B) (g : ℕ → A)
      → slot_list n (λ i. f (g i)) ≡ map f (slot_list n g)
  slot_list-map zero f g = refl
  slot_list-map (suc n) f g =
      ap (λ l. l ++ f (g n) ∷ []) (slot_list-map n f g)
      ∙ sym (map-append f (slot_list n g) (g n ∷ []))

  -- From a value for each number below n, a function that gives them.
  pub pick_each {κ} :
      (n : ℕ) (P : ℕ → A → Type κ)
      → ((i : ℕ) → i < n → (a : A) × P i a)
      → A
      → (f : ℕ → A) × ((i : ℕ) → i < n → P i (f i))
  pick_each zero P some_of a = (λ i. a, λ i lt. absurd (omega arith))
  pick_each (suc n) P some_of a =
      let (f, each) = pick_each n P (λ i lt. some_of i (omega arith)) a in
      let (last, holds) = some_of n (omega arith) in
      (
        λ i. if i == n then last else f i,
        λ i lt. elim (Bool-cases (i == n)) [
          | inl same ↦ rw (same, eq_of i n same) holds
          | inr before ↦ rw before (each i (ground arith))
        ],
      )

  pub length-slot_list : (n : ℕ) (slots : ℕ → A) → length (slot_list n slots) ≡ n
  length-slot_list zero slots = refl
  length-slot_list (suc n) slots =
      omega (arith, length-slot_list n slots, length-append {ℓ} (slot_list n slots) (slots n ∷ []))

module _ {ℓ} {A : Type ℓ} where
  -- One failure that is the sentinel makes the joined error the sentinel.
  pub is_any-failures :
      (s : Sentinel) {e : Failure} (l : List (Slot A))
      → In (failed e) l
      → is s e ≡ true
      → is_any s (failures l) ≡ true
  unfolding is_any
  is_any-failures s [] m t = elim m [ ]
  is_any-failures s (fetched b ∷ l) (here p) t = absurd (ground arith)
  is_any-failures s (revoked ∷ l) (here p) t = absurd (ground arith)
  is_any-failures s (failed f ∷ l) (here p) t = ground arith
  is_any-failures s (fetched b ∷ l) (there m) t = is_any-failures s l m t
  is_any-failures s (revoked ∷ l) (there m) t = is_any-failures s l m t
  is_any-failures s (failed f ∷ l) (there m) t = ground (arith, is_any-failures s l m t)
