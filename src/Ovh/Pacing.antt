-- ===== src/Ovh/Pacing.antt =====
-- internal/ovh/pacing.go, and `get` and `paced` of internal/ovh/api.go: how long a refused call
-- waits, and how often it is sent. A call is the error of each time it is sent, by its number.
pub mod Delay
pub mod Sending
pub mod Waiting
use keymaker.Prelude.{
  ℕ, zero, suc, ◌-◌, ◌*◌, ◌/◌, ◌%◌, ◌^◌, min, ℤ, pos, negsuc, Bool, true, false, not, ◌||◌, Option,
  none, some, ltb, ◌==◌, nat_equality, if◌then◌else◌,
}
use keymaker.Text.{Text, trim_space}
use keymaker.Strconv.{parse_int}
use keymaker.Failure.{Failure, status_code}

abbrev pub second : ℕ
second = 1000000000

abbrev pub rate_limit_attempts : ℕ
rate_limit_attempts = 4

-- The signed reading of 64 bits.
unfoldable pub int64 : ℕ → ℤ
int64 n = let w = n % 2 ^ 64 in if ltb w (2 ^ 63) then pos w else negsuc (2 ^ 64 - 1 - w)

abbrev pub nonnegative : ℤ → ℕ
nonnegative (pos n) = n
nonnegative (negsuc n) = 0

-- The wait before the ends are cut: from the number of seconds, the date, or neither. The last
-- argument is the time from now to the date that http.ParseTime reads in the header.
unfoldable pub wanted : ℤ → ℕ → Option ℤ → Option ℤ → ℤ
unfolding int64
wanted fallback ceiling (some (pos seconds)) until =
    if ltb seconds (ceiling / second) then int64 (seconds * second) else pos ceiling
wanted fallback ceiling _ (some wait) = wait
wanted fallback ceiling _ none = fallback

module _ (until : Text → Option ℤ) (fallback : ℤ) (ceiling : ℕ) where
  -- `pacing.delay`
  unfoldable pub delay : Text → ℕ
  unfolding wanted
  delay header =
      let value = trim_space header in
      min (nonnegative (wanted fallback ceiling (parse_int value) (until value))) ceiling

-- `StatusCode` of an error or of none.
unfoldable pub status_of : Option Failure → ℕ
status_of none = 0
status_of (some e) = status_code e

abbrev pub is_ok : Option Failure → Bool
is_ok none = true
is_ok (some e) = false

module _ (call : ℕ → Option Failure) where
  -- The last error, and how often the call was sent in all.
  unfoldable pub again : ℕ → ℕ → Option Failure → Option Failure × ℕ
  unfolding status_of
  again zero sent e = (e, sent)
  again (suc left) sent e =
      let rest = again left (suc sent) (call sent) in if status_of e == 429 then rest else (e, sent)

  unfoldable pub paced : ℕ → Option Failure × ℕ
  unfolding again
  paced sent = again (rate_limit_attempts - 1) (suc sent) (call sent)

  -- Whether the context ended before the retry, or while it was waited for.
  unfoldable pub get : Bool → Bool → Option Failure × ℕ
  unfolding paced
  get ended ends =
      let first = paced 0 in
      let second_try = paced first.1 in
      if is_ok first.0 || not (status_of first.0 == 0) || ended
      then first
      else if ends
      then first
      else second_try
