-- ===== src/Catalog/Remote/Waiting.antt =====
-- internal/catalog/remote.go, Current: how long a request waits for the first refresh, and what it is
-- then handed. The refreshes are given in their order, each with the moment at which it finishes and
-- what it fetches; moments are nanoseconds from one start.
use keymaker.Prelude.{
  ℕ, ◌+◌, ◌*◌, ◌≤◌, ◌<◌, true, false, Option, none, some, List, [], ◌∷◌, min, max, leb, ◌≡◌, refl,
  arith, subst, if◌then◌else◌,
}
use keymaker.Catalog.{Snapshot}
use keymaker.Catalog.Fetch.{Outcome}
use keymaker.Catalog.Remote.{Remote, dated, new_remote, refresh}

abbrev pub first_refresh_wait : ℕ
first_refresh_wait = 15 * 1_000_000_000

abbrev pub Refreshes : Type 0
Refreshes = List (ℕ × Outcome Snapshot)

-- What the refreshes that have finished by then have made of the catalogue.
unfoldable pub state_at : ℕ → Refreshes → Remote → Remote
unfolding refresh
state_at t [] r = r
state_at t ((finish, fetched) ∷ later) r =
    let next = state_at t later (refresh fetched r).0 in if leb finish t then next else r

-- `ready` is closed by the first refresh.
abbrev pub ready_at : Refreshes → Option ℕ
ready_at [] = none
ready_at ((finish, fetched) ∷ later) = some finish

-- The sooner of a moment that may never come, no sooner than the start, and a limit.
abbrev pub sooner : ℕ → Option ℕ → ℕ → ℕ
sooner start none limit = limit
sooner start (some t) limit = min (max start t) limit

-- `Current`, called at `start` with a context that ends at `ends`: when it answers, and what.
unfoldable pub current : Refreshes → Snapshot → ℕ → Option ℕ → ℕ × Snapshot
unfolding state_at new_remote
current refreshes fallback start ends =
    let time = sooner start (ready_at refreshes) (sooner start ends (start + first_refresh_wait)) in
    (time, (state_at time refreshes (new_remote fallback)).current)

-- A request waits for the catalogue for fifteen seconds at most, and no longer than its context. When
-- the first refresh finishes in that time it is handed what this refresh, or a later one that has
-- finished too, has left; and until a refresh has finished it is handed the snapshot, marked as dated.
pub current-Waits :
    (first : ℕ) (fetched : Outcome Snapshot) (later : Refreshes) (fallback : Snapshot) (start : ℕ)
    (ends : Option ℕ)
    → let refreshes : Refreshes = (first, fetched) ∷ later in
      let (time, snapshot) = current refreshes fallback start ends in
      (start ≤ time)
      × (time ≤ start + first_refresh_wait)
      × ((t : ℕ) → ends ≡ some t → time ≤ max start t)
      × ((first ≤ start + first_refresh_wait)
          → ((t : ℕ) → ends ≡ some t → first ≤ t)
          → snapshot ≡ (state_at time later (refresh fetched (new_remote fallback)).0).current)
      × (time < first → snapshot ≡ dated fallback)
unfolding current state_at new_remote
current-Waits first fetched later fallback start none = (
  ground arith,
  ground arith,
  λ t e. cc e,
  λ soon alive. rw (by soon) refl,
  λ early. rw (not_by early) refl,
)
  where
    by :
        first ≤ start + first_refresh_wait
        → leb first (min (max start first) (start + first_refresh_wait)) ≡ true
    by soon = ground arith

    not_by :
        min (max start first) (start + first_refresh_wait) < first
        → leb first (min (max start first) (start + first_refresh_wait)) ≡ false
    not_by early = ground arith
current-Waits first fetched later fallback start (some t) = (
  ground arith,
  ground arith,
  λ t' e. same t' e,
  λ soon alive. rw (by soon (alive t refl)) refl,
  λ early. rw (not_by early) refl,
)
  where
    same :
        (t' : ℕ)
        → some t ≡ some t'
        → min (max start first) (min (max start t) (start + first_refresh_wait)) ≤ max start t'
    same t' e =
        let f : t ≡ t' = cc e in
        subst
          (λ u.
            min (max start first) (min (max start t) (start + first_refresh_wait)) ≤ max start u)
          f (ground arith)

    by :
        first ≤ start + first_refresh_wait
        → first ≤ t
        → leb first (min (max start first) (min (max start t) (start + first_refresh_wait))) ≡ true
    by soon alive = ground arith

    not_by :
        min (max start first) (min (max start t) (start + first_refresh_wait)) < first
        → leb first (min (max start first) (min (max start t) (start + first_refresh_wait))) ≡ false
    not_by early = ground arith
