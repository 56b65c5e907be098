-- ===== src/Legacy/FanOut.antt =====
-- The worker pools of internal/legacy/provider.go: job i is one call, whose answer goes to slot i.
-- The workers share the API, so which job the API takes next is the scheduler's choice.
use keymaker.Prelude.{ℕ, zero, suc, ◌<◌, List, [], ◌∷◌, ◌++◌, ◌==◌, nat_equality, if◌then◌else◌, In}
use keymaker.Ovh.Client.{History, Calls, ◌>>=◌, pure}

-- The order in which the API takes the jobs 0 to n - 1: the channel hands out each of them.
pub record Scheduler : Type 0 where
  pub order : History → ℕ → List ℕ
  pub covers : (h : History) (n i : ℕ) → i < n → In i (order h n)

module _ {ℓ} {A : Type ℓ} where
  abbrev pub update : (ℕ → A) → ℕ → A → ℕ → A
  update slots i a j = if i == j then a else slots j

  unfoldable pub run_jobs : (ℕ → Calls A) → List ℕ → (ℕ → A) → Calls (ℕ → A)
  run_jobs work [] slots = pure slots
  run_jobs work (i ∷ rest) slots = do a ← work i; run_jobs work rest (update slots i a)

  unfoldable pub fan_out : Scheduler → (ℕ → Calls A) → ℕ → (ℕ → A) → Calls (ℕ → A)
  unfolding run_jobs
  fan_out s work n slots h = run_jobs work (s.order h n) slots h

  -- The slots 0 to n - 1 in order.
  abbrev pub slot_list : ℕ → (ℕ → A) → List A
  slot_list zero slots = []
  slot_list (suc n) slots = slot_list n slots ++ slots n ∷ []
