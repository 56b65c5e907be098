-- ===== src/Catalog/Remote.antt =====
-- internal/catalog/remote.go: the catalogue that is served, and the loop that refreshes it. What the
-- attempts fetch, and whether the run of the program ends in a wait, is given for each attempt;
-- delays are seconds. `Current` answers the field `current`, at the latest when its own wait ends.
pub mod Background
pub mod Served
pub mod Waiting
use keymaker.Prelude.{
  ℕ, zero, suc, ◌+◌, ◌-◌, Bool, true, false, Option, none, some, List, [], ◌∷◌, min, length, at,
  if◌then◌else◌,
}
use keymaker.Catalog.{Snapshot}
use keymaker.Catalog.Fetch.{FetchError, Outcome, done, failed}

pub record Remote : Type 0 where
  pub fallback : Snapshot
  pub ready : Bool
  pub current : Snapshot

abbrev pub dated : Snapshot → Snapshot
dated snapshot = record snapshot { live = false }

unfoldable pub new_remote : Snapshot → Remote
new_remote fallback = record { fallback = dated fallback; ready = false; current = dated fallback }

-- `Refresh`, by what `Fetch` answers.
unfoldable pub refresh : Outcome Snapshot → Remote → Remote × Option FetchError
refresh (failed e) r = (record r { ready = true }, some e)
refresh (done fetched) r = (record r { ready = true; current = fetched }, none)

abbrev pub retry_delays : List ℕ
retry_delays = 10 ∷ 30 ∷ 60 ∷ 300 ∷ []

-- `r.delays[min(attempt, len(r.delays)-1)]`
unfoldable pub delay_after : ℕ → ℕ
delay_after attempt = at 0 retry_delays (min attempt (length retry_delays - 1))

-- The loop returned after a refresh, returned because its context ended, or goes on.
pub data Ending : Type 0 where
  loaded ended running : Ending

pub record Run : Type 0 where
  pub remote : Remote
  pub waits : List ℕ
  pub ending : Ending

abbrev pub stop : Remote → List ℕ → Ending → Run
stop r waits ending = record { remote = r; waits = waits; ending = ending }

abbrev pub after_wait : ℕ → Run → Run
after_wait delay rest = record rest { waits = delay ∷ rest.waits }

-- `if err == nil`
abbrev go_on : Option FetchError → Run → Run → Run
go_on none finish next = finish
go_on (some e) finish next = next

module _ (attempts : ℕ → Outcome Snapshot) (ends : ℕ → Bool) where
  -- The loop of `RefreshInBackground`, for as many attempts as the first argument says.
  unfoldable pub background : ℕ → ℕ → Remote → Run
  unfolding refresh delay_after
  background zero attempt r = stop r [] running
  background (suc fuel) attempt r =
      let (r', e) = refresh (attempts attempt) r in
      let rest = background fuel (attempt + 1) r' in
      go_on e (stop r' [] loaded) (
        if ends attempt
        then stop r' (delay_after attempt ∷ []) ended
        else after_wait (delay_after attempt) rest)
