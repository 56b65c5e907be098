-- ===== src/Catalog/Remote/Background.antt =====
-- internal/catalog/remote.go, RefreshInBackground: which catalogue is served in the end, and when.
use keymaker.Prelude.{
  ℕ, zero, suc, ◌+◌, ◌<◌, ◌≤◌, Bool, true, false, List, [], ◌∷◌, min, ◌≡◌, ◌≢◌, ◌⊎◌, inl, inr, refl,
  sym, ap, subst, ◌∙◌, arith, Bool-cases,
}
use keymaker.Catalog.{Snapshot}
use keymaker.Catalog.Fetch.{FetchError, Outcome, done, failed, Outcome-cases}
use keymaker.Catalog.Remote.{
  Remote, dated, new_remote, delay_after, loaded, ended, running, Run, stop, after_wait, background,
}

abbrev pub IsFailure : Outcome Snapshot → Type 0
IsFailure (failed e) = Unit
IsFailure (done s) = ⊥

-- The waits from the i-th attempt on, where n attempts fail.
abbrev pub waits_from : ℕ → ℕ → List ℕ
waits_from i zero = []
waits_from i (suc n) = delay_after i ∷ waits_from (i + 1) n

IsFailure-failed : (o : Outcome Snapshot) → IsFailure o → (e : FetchError) × (o ≡ failed e)
IsFailure-failed (failed e) f = (e, refl)
IsFailure-failed (done s) f = absurd f

ended-ne-loaded : ended ≢ loaded
ended-ne-loaded = λ e. cc

running-ne-loaded : running ≢ loaded
running-ne-loaded = λ e. cc

abbrev serving : Remote → Snapshot → Remote
serving r s = record r { ready = true; current = s }

abbrev tried : Remote → Remote
tried r = record r { ready = true }

module _ (attempts : ℕ → Outcome Snapshot) (ends : ℕ → Bool) (fuel i : ℕ) (r : Remote) where
  step_done :
      (s : Snapshot)
      → attempts i ≡ done s
      → background attempts ends (suc fuel) i r ≡ stop (serving r s) [] loaded
  unfolding background
  step_done s d = rw d refl

  step_ended :
      (e : FetchError)
      → attempts i ≡ failed e
      → ends i ≡ true
      → background attempts ends (suc fuel) i r ≡ stop (tried r) (delay_after i ∷ []) ended
  unfolding background
  step_ended e f h = rw (f, h) refl

  step_failed :
      (e : FetchError)
      → attempts i ≡ failed e
      → ends i ≡ false
      → background attempts ends (suc fuel) i r
        ≡ after_wait (delay_after i) (background attempts ends fuel (i + 1) (tried r))
  unfolding background
  step_failed e f h = rw (f, h) refl

background_out :
    (attempts : ℕ → Outcome Snapshot) (ends : ℕ → Bool) (i : ℕ) (r : Remote)
    → background attempts ends zero i r ≡ stop r [] running
unfolding background
background_out attempts ends i r = refl

module _ (attempts : ℕ → Outcome Snapshot) (ends : ℕ → Bool) where
  shift : (i k : ℕ) → i + suc k ≡ i + 1 + k
  shift i k = omega arith

  background-loaded :
      (n fuel i : ℕ) (r : Remote) (s : Snapshot)
      → n < fuel
      → ((k : ℕ) → k < n → IsFailure (attempts (i + k)) × (ends (i + k) ≡ false))
      → attempts (i + n) ≡ done s
      → background attempts ends fuel i r ≡ stop (serving r s) (waits_from i n) loaded
  background-loaded n zero i r s lt f d = absurd (omega arith)
  background-loaded zero (suc fuel) i r s lt f d =
      step_done attempts ends fuel i r s (subst (λ k. attempts k ≡ done s) (omega arith) d)
  background-loaded (suc n) (suc fuel) i r s lt f d =
      let first : IsFailure (attempts i) × (ends i ≡ false) =
        subst (λ k. IsFailure (attempts k) × (ends k ≡ false)) (omega arith) (f 0 (omega arith)) in
      let (e, q) = IsFailure-failed (attempts i) first.0 in
      step_failed attempts ends fuel i r e q first.1
      ∙ ap (after_wait (delay_after i)) (
          background-loaded n fuel (i + 1) (tried r) s (omega arith)
            (λ k lt'.
              subst (λ j. IsFailure (attempts j) × (ends j ≡ false)) (shift i k)
                (f (suc k) (omega arith)))
            (subst (λ k. attempts k ≡ done s) (shift i n) d))

  -- What a run serves: a catalogue that an attempt fetched, and then the loop has returned for it;
  -- or the fallback.
  abbrev pub Serves : Snapshot → Run → Type 0
  Serves fallback run =
      ((run.ending ≡ loaded) × ((i : ℕ) × (attempts i ≡ done run.remote.current)))
      ⊎ ((run.ending ≢ loaded) × (run.remote.current ≡ fallback))

  pub background-Serves :
      (fuel i : ℕ) (r : Remote) → Serves r.current (background attempts ends fuel i r)
  background-Serves zero i r =
      subst (Serves r.current) (sym (background_out attempts ends i r))
        (inr (running-ne-loaded, refl))
  background-Serves (suc fuel) i r = elim (Outcome-cases (attempts i)) [
    | inl (s, d) ↦
        subst (Serves r.current) (sym (step_done attempts ends fuel i r s d)) (inl (refl, (i, d)))
    | inr (e, f) ↦ elim (Bool-cases (ends i)) [
      | inl h ↦
          subst (Serves r.current) (sym (step_ended attempts ends fuel i r e f h))
            (inr (ended-ne-loaded, refl))
      | inr h ↦
          subst (Serves r.current) (sym (step_failed attempts ends fuel i r e f h))
            (background-Serves fuel (i + 1) (tried r))
    ]
  ]

-- Waits of 10, 30 and 60 seconds, and then of 300.
abbrev pub repeated : ℕ → List ℕ
repeated zero = []
repeated (suc n) = 300 ∷ repeated n

abbrev pub schedule : ℕ → List ℕ
schedule zero = []
schedule (suc zero) = 10 ∷ []
schedule (suc (suc zero)) = 10 ∷ 30 ∷ []
schedule (suc (suc (suc n))) = 10 ∷ 30 ∷ 60 ∷ repeated n

delay_after-late : (i : ℕ) → 3 ≤ i → delay_after i ≡ 300
unfolding delay_after
delay_after-late i h = let e : min i 3 ≡ 3 = omega arith in rw e refl

waits_from-late : (n i : ℕ) → 3 ≤ i → waits_from i n ≡ repeated n
waits_from-late zero i h = refl
waits_from-late (suc n) i h =
    rw (delay_after-late i h) (ap (◌∷◌ 300) (waits_from-late n (i + 1) (omega arith)))

waits_from-schedule : (n : ℕ) → waits_from 0 n ≡ schedule n
unfolding delay_after
waits_from-schedule zero = refl
waits_from-schedule (suc zero) = refl
waits_from-schedule (suc (suc zero)) = refl
waits_from-schedule (suc (suc (suc n))) =
    ap (λ l. 10 ∷ 30 ∷ 60 ∷ l) (waits_from-late n 3 (omega arith))

-- The loop ends with the first refresh that succeeds: when n attempts fail, the program does not end
-- in their waits, and the next attempt fetches a catalogue, then within n + 1 attempts the loop has
-- returned, that catalogue is served, and the loop has waited 10, 30 and 60 seconds and then 300
-- between the attempts.
pub background-loads :
    (attempts : ℕ → Outcome Snapshot) (ends : ℕ → Bool) (n fuel : ℕ) (fallback s : Snapshot)
    → n < fuel
    → ((k : ℕ) → k < n → IsFailure (attempts k) × (ends k ≡ false))
    → attempts n ≡ done s
    → background attempts ends fuel 0 (new_remote fallback) ≡ record {
      remote = record { fallback = dated fallback; ready = true; current = s };
      waits = schedule n;
      ending = loaded;
    }
unfolding new_remote
background-loads attempts ends n fuel fallback s lt f d =
    background-loaded attempts ends n fuel 0 (new_remote fallback) s lt
      (λ k lt'. subst (λ j. IsFailure (attempts j) × (ends j ≡ false)) (zero_plus k) (f k lt'))
      (subst (λ k. attempts k ≡ done s) (zero_plus n) d)
    ∙ ap (λ w. stop (serving (new_remote fallback) s) w loaded) (waits_from-schedule n)
  where
    zero_plus : (k : ℕ) → k ≡ 0 + k
    zero_plus k = omega arith
