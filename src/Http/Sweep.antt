-- ===== src/Http/Sweep.antt =====
-- internal/httpapi/sweep.go: revoking every expired or refused key.
pub mod Safety
pub mod Report
use keymaker.Prelude.{
  ℕ, ℤ, Bool, true, false, not, Option, none, some, List, [], ◌∷◌, ◌++◌, if◌then◌else◌,
}
use keymaker.Failure.{Failure, Result, ok, err, is, not_found, as_incomplete}
use keymaker.Credential.{Credential}
use keymaker.Ovh.Client.{Call, Api, History, Calls, ◌>>=◌, pure}
use keymaker.Legacy.FanOut.{Scheduler}
use keymaker.Legacy.Reading.{Listing}
use keymaker.Legacy.Provider
use keymaker.Http.Offers.{Reason, self, Offer, revocation_offer, inactive}
use keymaker.Http.Replies.{
  Reply, answered, ErrorCode, code_self_revocation, code_permission_denied, fail_inventory,
  revocation_code,
}

-- `s.list`: the credentials with the number of the unreadable ones, or the error.
pub data Listed : Type 0 where
  listed : List Credential → ℕ → Listed
  unlisted : Failure → Listed

unfoldable pub read_listing : Listing Credential → Listed
read_listing (none, none) = listed [] 0
read_listing (none, some e) = unlisted e
read_listing (some cs, none) = listed cs 0
read_listing (some cs, some e) = elim (as_incomplete e) [ none ↦ unlisted e | some n ↦ listed cs n ]

-- The credential in use, where it could be read, and the error where not.
abbrev pub known_current : Result Credential → Option Credential
known_current (ok c) = some c
known_current (err e) = none

abbrev pub identity_error : Result Credential → Option Failure
identity_error (ok c) = none
identity_error (err e) = some e

pub record SweepReport : Type 0 where
  pub revoked : List ℤ
  pub failed : List (ℤ × ErrorCode)

abbrev pub nothing_swept : SweepReport
nothing_swept = record { revoked = []; failed = [] }

abbrev pub report_revoked : ℤ → SweepReport → SweepReport
report_revoked id r = record r { revoked = r.revoked ++ id ∷ [] }

abbrev pub report_failed : ℤ → ErrorCode → SweepReport → SweepReport
report_failed id code r = record r { failed = r.failed ++ (id, code) ∷ [] }

unfoldable pub sweep_code : Reason → ErrorCode
sweep_code self = code_self_revocation
sweep_code _ = code_permission_denied

-- What is reported of one revocation: a key gone already counts as revoked.
unfoldable pub report_revocation : ℤ → Option Failure → SweepReport → SweepReport
report_revocation id none r = report_revoked id r
report_revocation id (some e) r =
    if is not_found e then report_revoked id r else report_failed id (revocation_code e) r

module _ (api : Api) where
  unfoldable pub revoke_one : Option Credential → ℤ → Calls (Option Failure)
  revoke_one none id = Provider.revoke api id
  revoke_one (some current) id = Provider.revoke_against api current id

  -- The body of the loop.
  unfoldable pub sweep_one : Option Credential → Credential → SweepReport → Calls SweepReport
  unfolding revoke_one
  sweep_one current target r =
      if not (inactive target.status)
      then pure r
      else let offer = revocation_offer current target in
        if not offer.allowed
        then pure (report_failed target.id (sweep_code offer.reason) r)
        else (do e ← revoke_one current target.id; pure (report_revocation target.id e r))

  unfoldable pub sweep : Option Credential → List Credential → SweepReport → Calls SweepReport
  unfolding sweep_one
  sweep current [] r = pure r
  sweep current (target ∷ targets) r = do r' ← sweep_one current target r; sweep current targets r'

  module _ (s : Scheduler) where
    unfoldable pub sweep_listed : Result Credential → Listed → Calls (Reply SweepReport)
    unfolding sweep
    sweep_listed own (unlisted e) = pure (fail_inventory e (identity_error own))
    sweep_listed own (listed credentials n) = do
      r ← sweep (known_current own) credentials nothing_swept
      pure (answered r)

    -- `POST /api/credentials/inactive/revocations`
    unfoldable pub revoke_inactive : Calls (Reply SweepReport)
    unfolding sweep_listed read_listing
    revoke_inactive = do
      own ← Provider.current api s
      listing ← Provider.list api s
      sweep_listed own (read_listing listing)
