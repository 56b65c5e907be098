-- ===== src/Ovh/Pacing/Waiting/Bounded.antt =====
-- internal/ovh/pacing.go and api.go: a read comes to an end.
use keymaker.Prelude.{
  ℕ, zero, suc, ◌*◌, ◌≤◌, ℤ, pos, Bool, true, false, not, ◌||◌, Option, none, some, ◌==◌,
  nat_equality, if◌then◌else◌, Bool-cases, inl, inr, arith,
}
use keymaker.Text.{Text}
use keymaker.Failure.{Failure}
use keymaker.Ovh.Pacing.{delay, status_of, is_ok, paced, get}
use keymaker.Ovh.Pacing.Sending.{IsRead, get-IsRead}
use keymaker.Ovh.Pacing.Waiting.{
  rate_limit_wait, rate_limit_ceiling, retry_delay, pause, handed, after_answer, round_trip,
  sent_read, pauses, timed_get,
}
use keymaker.Ovh.Pacing.Waiting

pause-le : (left : Option ℕ) (wait : ℕ) → (pause left wait).0 ≤ wait
unfolding pause
pause-le none wait = omega arith
pause-le (some left) wait = ground arith

handed-le : (status : ℕ) (p : ℕ × Bool) → (handed status p).1 ≤ p.0
handed-le status (paused, true) = omega arith
handed-le status (paused, false) = omega arith

delay-le :
    (until : Text → Option ℤ) (header : Text)
    → delay until (pos rate_limit_wait) rate_limit_ceiling header ≤ rate_limit_ceiling
unfolding delay
delay-le until header = ground arith

after_answer-le :
    (until : Text → Option ℤ) (left : Option ℕ) (answer : Option (ℕ × Text))
    → (after_answer until left answer).1 ≤ rate_limit_ceiling
unfolding after_answer
after_answer-le until left none = omega arith
after_answer-le until left (some (status, header)) = elim (Bool-cases (status == 429)) [
  | inr other ↦ rw other (omega arith)
  | inl limited ↦
      let wait = delay until (pos rate_limit_wait) rate_limit_ceiling header in
      rw limited (
        omega
          (arith, handed-le status (pause left wait), pause-le left wait, delay-le until header))
]

between-le :
    (final : Bool) (left : Option ℕ)
    → (if final then 0 else (pause left retry_delay).0) ≤ retry_delay
between-le true left = omega arith
between-le false left = pause-le left retry_delay

module _ (until : Text → Option ℤ) (refusal : ℕ → Option Failure)
    (sends : ℕ → Waiting.Transported) where
  pauses-le : (n : ℕ) → pauses until refusal sends n ≤ n * rate_limit_ceiling
  unfolding pauses round_trip
  pauses-le zero = omega arith
  pauses-le (suc n) =
      omega (arith, pauses-le n, after_answer-le until (sends n).context_end (sends n).answer)

  -- A read comes to an end: it is sent at most eight times, and its pauses, those before a refusal for
  -- its rate is handed on and the one before its second try, are eighty seconds and a half at most in
  -- all, whatever the answers ask for. Its outcome is that of the last time it is sent, and each time
  -- before that was a refusal for its rate or a failure that was no answer of the API.
  pub timed_get-IsBounded :
      (ended : Bool) (left : Option ℕ)
      → let (outcome, paused) = timed_get until refusal sends ended left in
        IsRead (sent_read until refusal sends) outcome × (paused ≤ 80_500_000_000)
  unfolding timed_get
  timed_get-IsBounded ended left =
      let call = sent_read until refusal sends in
      let r = get-IsRead call ended (pause left retry_delay).1 in
      let n = (get call ended (pause left retry_delay).1).1 in
      (
        r,
        omega (
          arith,
          pauses-le n,
          r.counts,
          r.bounded,
          between-le (is_ok (paced call 0).0 || not (status_of (paced call 0).0 == 0) || ended)
              left,
        ),
      )
