-- ===== src/Ovh/Pacing/Waiting.antt =====
-- internal/ovh/pacing.go, RoundTrip, under `get` of internal/ovh/api.go: how long a read pauses in all.
-- What the network answers each time the read is sent is given, and when its context ends, counted
-- from the pause in nanoseconds; what error the SDK makes of a status is a parameter.
pub mod Bounded
use keymaker.Prelude.{
  ℕ, zero, suc, ◌+◌, ◌*◌, ℤ, pos, min, Bool, true, false, not, ◌||◌, Option, none, some, ◌==◌,
  nat_equality, ltb, if◌then◌else◌,
}
use keymaker.Text.{Text}
use keymaker.Failure.{Failure, unread}
use keymaker.Ovh.Pacing.{second, delay, status_of, is_ok, paced, get}

abbrev pub rate_limit_wait : ℕ
rate_limit_wait = second

abbrev pub rate_limit_ceiling : ℕ
rate_limit_ceiling = 10 * second

abbrev pub retry_delay : ℕ
retry_delay = 500_000_000

-- The status and the header Retry-After of the answer, if there is one; and when the context ends.
pub record Transported : Type 0 where
  pub answer : Option (ℕ × Text)
  pub context_end : Option ℕ

-- A pause that the end of the context may cut, and whether it did.
unfoldable pub pause : Option ℕ → ℕ → ℕ × Bool
pause none wait = (wait, false)
pause (some left) wait = if ltb left wait then (left, true) else (wait, false)

abbrev pub handed : ℕ → ℕ × Bool → Option ℕ × ℕ
handed status (paused, true) = (none, paused)
handed status (paused, false) = (some status, paused)

-- What is handed on of an answer, and the pause before.
unfoldable pub after_answer : (Text → Option ℤ) → Option ℕ → Option (ℕ × Text) → Option ℕ × ℕ
unfolding pause
after_answer until left none = (none, 0)
after_answer until left (some (status, header)) =
    if not (status == 429)
    then (some status, 0)
    else handed status (pause left (delay until (pos rate_limit_wait) rate_limit_ceiling header))

-- `pacing.RoundTrip`: the status it hands on, or an error; and how long it paused.
unfoldable pub round_trip : (Text → Option ℤ) → Transported → Option ℕ × ℕ
unfolding after_answer
round_trip until s = after_answer until s.context_end s.answer

module _ (until : Text → Option ℤ) (refusal : ℕ → Option Failure) (sends : ℕ → Transported) where
  abbrev pub failure_of : Option ℕ → Option Failure
  failure_of none = some (unread 0)
  failure_of (some status) = refusal status

  -- The read, as it is sent for the i-th time.
  unfoldable pub sent_read : ℕ → Option Failure
  unfolding round_trip
  sent_read i = failure_of (round_trip until (sends i)).0

  -- The pauses of the first n times together.
  unfoldable pub pauses : ℕ → ℕ
  unfolding round_trip
  pauses zero = 0
  pauses (suc n) = pauses n + (round_trip until (sends n)).1

  -- `get`, with the pause before its second try: its error, how often it was sent, and its pauses.
  unfoldable pub timed_get : Bool → Option ℕ → (Option Failure × ℕ) × ℕ
  unfolding sent_read pauses pause paced get
  timed_get ended left =
      let first = paced sent_read 0 in
      let (waited, cut) = pause left retry_delay in
      let outcome = get sent_read ended cut in
      let between = if is_ok first.0 || not (status_of first.0 == 0) || ended then 0 else waited in
      (outcome, pauses outcome.1 + between)
