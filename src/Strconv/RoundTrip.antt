-- ===== src/Strconv/RoundTrip.antt =====
-- An identifier that is printed reads back as itself, so two identifiers never share a text.
use keymaker.Prelude.{
  ℕ, zero, suc, ◌+◌, ◌-◌, ◌*◌, ◌/◌, ◌%◌, ◌^◌, ◌<◌, ◌≤◌, ℤ, pos, negsuc, some, [], ◌∷◌, ◌≡◌, inl,
  inr, refl, ◌∙◌, arith, nat_equality, ltb, Bool-cases,
}
use keymaker.Text.{Text}
use keymaker.Strconv.{digits, format_int, parse_digits, parse_magnitude, parse_int}

parse_digits-last :
    (n : ℕ) (rest : Text) → n < 10 → parse_digits 0 ((b'0' + n) ∷ rest) ≡ parse_digits n rest
unfolding parse_digits
parse_digits-last n rest lt =
    let e : 0 * 10 + (b'0' + n - b'0') ≡ n = omega arith in rw e (ground arith)

parse_digits-next :
    (n : ℕ) (rest : Text) → parse_digits (n / 10) ((b'0' + n % 10) ∷ rest) ≡ parse_digits n rest
unfolding parse_digits
parse_digits-next n rest =
    let e : n / 10 * 10 + (b'0' + n % 10 - b'0') ≡ n = omega arith in rw e (ground arith)

-- Reading the digits of `n` from the value `m` on continues with the rest from a value that has
-- them appended; from zero that value is `n`.
parse_digits-digits :
    (fuel n : ℕ) (rest : Text)
    → n < fuel
    → parse_digits 0 (digits fuel n rest) ≡ parse_digits n rest
unfolding digits
parse_digits-digits zero n rest lt = absurd (omega arith)
parse_digits-digits (suc fuel) n rest lt = elim (Bool-cases (ltb n 10)) [
  | inl small ↦ rw small (parse_digits-last n rest (ground arith))
  | inr large ↦ rw large (
      parse_digits-digits fuel (n / 10) ((b'0' + n % 10) ∷ rest) (ground arith)
      ∙ parse_digits-next n rest)
]

-- `digits` is a text of digits, and not empty.
Starts : Text → Type 0
Starts [] = ⊥
Starts (c ∷ s) = (b'0' ≤ c) × (c ≤ b'9')

digits-Starts : (fuel n : ℕ) (rest : Text) → n < fuel → Starts (digits fuel n rest)
unfolding digits Starts
digits-Starts zero n rest lt = absurd (omega arith)
digits-Starts (suc fuel) n rest lt = elim (Bool-cases (ltb n 10)) [
  | inl small ↦ rw small (ground arith, ground arith)
  | inr large ↦ rw large (digits-Starts fuel (n / 10) ((b'0' + n % 10) ∷ rest) (ground arith))
]

parse_magnitude-digits :
    (s : Text) (n : ℕ) → Starts s → parse_digits 0 s ≡ some n → parse_magnitude s ≡ some n
unfolding parse_magnitude Starts
parse_magnitude-digits [] n st e = absurd st
parse_magnitude-digits (c ∷ s) n st e = e

parse_int-unsigned :
    (s : Text) (n : ℕ)
    → Starts s
    → parse_magnitude s ≡ some n
    → n < 2 ^ 63
    → parse_int s ≡ some (pos n)
unfolding parse_int Starts
parse_int-unsigned [] n st e lt = absurd st
parse_int-unsigned (c ∷ s) n st e lt = ground arith

digits_read : (n : ℕ) → parse_magnitude (digits (suc n) n []) ≡ some n
digits_read n =
    parse_magnitude-digits (digits (suc n) n []) n (digits-Starts (suc n) n [] (omega arith))
      (parse_digits-digits (suc n) n [] (omega arith) ∙ unfold parse_digits in refl)

-- The identifiers that an int64 can hold.
abbrev pub IsInt64 : ℤ → Type 0
IsInt64 (pos n) = n < 2 ^ 63
IsInt64 (negsuc n) = n < 2 ^ 63

-- Reading back what was printed gives the identifier.
pub parse_int-format_int : (id : ℤ) → IsInt64 id → parse_int (format_int id) ≡ some id
unfolding format_int
parse_int-format_int (pos n) lt =
    parse_int-unsigned (digits (suc n) n []) n (digits-Starts (suc n) n [] (omega arith))
      (digits_read n) lt
parse_int-format_int (negsuc n) lt = unfold parse_int in rw (digits_read (suc n)) (ground arith)
