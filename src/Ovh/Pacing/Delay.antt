-- ===== src/Ovh/Pacing/Delay.antt =====
-- internal/ovh/pacing.go: the wait before a refused call is sent again.
use keymaker.Prelude.{
  ℕ, ◌*◌, ◌/◌, ◌^◌, ◌≤◌, ◌<◌, min, ℤ, pos, Option, none, some, ◌≡◌, inl, inr, refl, arith, ltb,
  Bool-cases,
}
use keymaker.Text.{Text, trim_space}
use keymaker.Strconv.{parse_int}
use keymaker.Ovh.Pacing.{second, int64, nonnegative, wanted, delay}

int64-small : (n : ℕ) → n < 2 ^ 63 → int64 n ≡ pos n
unfolding int64
int64-small n small = ground arith

-- The product stays within 63 bits, so nothing wraps around.
wanted-seconds :
    (fallback : ℤ) (top n : ℕ) (until : Option ℤ)
    → top * second < 2 ^ 63
    → min (nonnegative (wanted fallback (top * second) (some (pos n)) until)) (top * second)
      ≡ min (n * second) (top * second)
unfolding wanted
wanted-seconds fallback top n until small = elim (Bool-cases (ltb n (top * second / second))) [
  | inl short ↦
      let lt : n < top = ground arith in
      let e = int64-small (n * second) (omega arith) in rw (short, e) refl
  | inr long ↦ let le : top ≤ n = ground arith in rw long (omega arith)
]

-- A wait never exceeds the ceiling, a whole number of seconds. A header that strconv reads as a
-- number of seconds that is not negative, so one below 2 ^ 63, asks for that long, cut at the
-- ceiling, with no wrap-around on the way. A header that it does not read, larger numbers included, and that is no
-- date either asks for the fallback, cut at both ends.
pub delay-seconds :
    (until : Text → Option ℤ) (fallback : ℤ) (top : ℕ) (header : Text)
    → top * second < 2 ^ 63
    → (delay until fallback (top * second) header ≤ top * second)
      × ((n : ℕ)
          → parse_int (trim_space header) ≡ some (pos n)
          → delay until fallback (top * second) header ≡ min (n * second) (top * second))
      × (parse_int (trim_space header) ≡ none
          → until (trim_space header) ≡ none
          → delay until fallback (top * second) header ≡ min (nonnegative fallback) (top * second))
unfolding delay wanted
delay-seconds until fallback top header small = (
  omega arith,
  λ n h. rw h (wanted-seconds fallback top n (until (trim_space header)) small),
  λ h d. rw (h, d) refl,
)
