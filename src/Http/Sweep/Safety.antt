-- ===== src/Http/Sweep/Safety.antt =====
-- internal/httpapi/sweep.go: which calls a sweep makes.
use keymaker.Prelude.{
  ℤ, true, not, Option, none, some, List, [], ◌∷◌, ◌≡◌, ◌≢◌, refl, arith, In, here, there,
}
use keymaker.Failure.{Result}
use keymaker.Credential.{Credential}
use keymaker.Ovh.Client.{Call, Api, History, ◌>>=◌}
use keymaker.Ovh.Makes.{
  Adds, Adds-trans, Makes, Makes-pure, Makes-bind, Makes-if, Makes-weaken, IsRead,
}
use keymaker.Legacy.FanOut.{Scheduler}
use keymaker.Legacy.Provider
use keymaker.Legacy.Reads.{list-Makes, current-Makes, revoke-Makes, revoke_against-Makes}
use keymaker.Http.Offers.{revocation_offer, inactive}
use keymaker.Http.Sweep.{
  Listed, listed, unlisted, read_listing, known_current, SweepReport, revoke_one, sweep_one, sweep,
  sweep_listed, revoke_inactive,
}

-- The key is not the one in use, as far as that one is known.
abbrev pub NotInUse : Option Credential → ℤ → Type 0
NotInUse none id = Unit
NotInUse (some c) id = c.id ≢ id

-- The key is an expired or a refused one of the list.
abbrev pub IsSwept : List Credential → ℤ → Type 0
IsSwept credentials id =
    (t : Credential) × In t credentials × (inactive t.status ≡ true) × (t.id ≡ id)

-- A call that a sweep may make: a read, or the deletion of such a key.
abbrev pub SweepCall : List Credential → Option Credential → Call → Type 0
SweepCall credentials current (Call.delete_credential id) =
    IsSwept credentials id × NotInUse current id
SweepCall credentials current (Call.set_allowed_ips id allowed) = ⊥
SweepCall credentials current Call.logout = ⊥
SweepCall credentials current (Call.delete_application id) = ⊥
SweepCall credentials current _ = Unit

SweepCall-read :
    (credentials : List Credential) (current : Option Credential) (c : Call)
    → IsRead c
    → SweepCall credentials current c
SweepCall-read credentials current (Call.delete_credential id) r = absurd r
SweepCall-read credentials current (Call.set_allowed_ips id allowed) r = r
SweepCall-read credentials current Call.logout r = r
SweepCall-read credentials current (Call.delete_application id) r = r
SweepCall-read credentials current _ r = tt

-- The credentials that a sweep goes over.
abbrev pub swept : Listed → List Credential
swept (listed credentials n) = credentials
swept (unlisted e) = []

module _ (api : Api) (credentials : List Credential) where
  revoke_one-Makes :
      (current : Option Credential) (id : ℤ)
      → IsSwept credentials id
      → Makes (SweepCall credentials current) (revoke_one api current id)
  unfolding revoke_one
  revoke_one-Makes none id i = revoke-Makes api id tt (i, tt)
  revoke_one-Makes (some c) id i = revoke_against-Makes api c id (λ ne. (i, ne))

  module _ (current : Option Credential) where
    sweep_one-Makes :
        (target : Credential) (r : SweepReport)
        → In target credentials
        → Makes (SweepCall credentials current) (sweep_one api current target r)
    unfolding sweep_one
    sweep_one-Makes target r i =
        Makes-if (not (inactive target.status)) _ _ (λ live. Makes-pure r)
          (λ dead.
            Makes-if (not (revocation_offer current target).allowed) _ _ (λ d. Makes-pure _)
              (λ a.
                Makes-bind _ _ (revoke_one-Makes current target.id (target, i, ground arith, refl))
                  (λ e. Makes-pure _)))

    sweep-Makes :
        (targets : List Credential) (r : SweepReport)
        → ((t : Credential) → In t targets → In t credentials)
        → Makes (SweepCall credentials current) (sweep api current targets r)
    unfolding sweep
    sweep-Makes [] r sub = Makes-pure r
    sweep-Makes (t ∷ ts) r sub =
        Makes-bind _ _ (sweep_one-Makes t r (sub t (here refl)))
          (λ r'. sweep-Makes ts r' (λ u i. sub u (there i)))

sweep_listed-Makes :
    (api : Api) (s : Scheduler) (own : Result Credential) (l : Listed)
    → Makes (SweepCall (swept l) (known_current own)) (sweep_listed api s own l)
unfolding sweep_listed
sweep_listed-Makes api s own (unlisted e) = Makes-pure _
sweep_listed-Makes api s own (listed cs n) =
    Makes-bind _ _ (sweep-Makes api cs (known_current own) cs _ (λ t i. i)) (λ r. Makes-pure _)

-- Besides reads, a sweep makes no call but deletions of keys that the listing it read shows as
-- expired or refused, and none of the key in use where that one could be identified.
pub revoke_inactive-SweepCall :
    (api : Api) (s : Scheduler) (h : History)
    → let own = Provider.current api s h in
      let listing = Provider.list api s own.1 in
      Adds
        (SweepCall (swept (read_listing listing.0)) (known_current own.0))
        h
        (revoke_inactive api s h).1
unfolding revoke_inactive ◌>>=◌
revoke_inactive-SweepCall api s h =
    let own = Provider.current api s h in
    let listing = Provider.list api s own.1 in
    let l = read_listing listing.0 in
    let P = SweepCall (swept l) (known_current own.0) in
    let reads = SweepCall-read (swept l) (known_current own.0) in
    Adds-trans P ((Makes-weaken _ reads (current-Makes api s)).from h) (
      Adds-trans P ((Makes-weaken _ reads (list-Makes api s)).from own.1)
        ((sweep_listed-Makes api s own.0 l).from listing.1))
