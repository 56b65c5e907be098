-- ===== src/Audit/Twins/Lines.antt =====
-- internal/audit/audit.go: the lines of a fingerprint, and what they say of the credential.
use keymaker.Prelude.{
  ℕ, zero, suc, ◌+◌, ◌/◌, ◌%◌, ℤ, pos, negsuc, Bool, true, not, ◌&&◌, [], ◌∷◌, ◌≡◌, inl, inr, refl,
  ap, ◌∙◌, arith, ◌==◌, nat_equality, list_equality, Bool-cases, all, ltb,
}
use keymaker.Text.{Text, to_upper}
use keymaker.Text.Splitting.{lacks, lacks-append}
use keymaker.Strconv.{digits, format_int}
use keymaker.Credential.{AccessRule}
use keymaker.Audit.Twins.{rule_line}

-- A line with a space, as those of rules are.
abbrev pub spaced : Text → Bool
spaced t = not (lacks b' ' t)

-- A line of neither rules nor nothing.
abbrev pub bare : Text → Bool
bare t = lacks b' ' t && not (t == [])

abbrev pub are_ascii : Text → Bool
are_ascii s = all (λ c. ltb c 128) s

-- The rule spells no line break, and its method is of ASCII characters but the space.
abbrev pub is_one_line : AccessRule → Bool
is_one_line rule =
    are_ascii rule.method && lacks 10 rule.method && lacks b' ' rule.method && lacks 10 rule.path

abbrev pub apart : ℕ → Bool
apart c = not (c == b' ') && not (c == 10)

all-digits :
    (fuel n : ℕ) (rest : Text) → all apart rest ≡ true → all apart (digits fuel n rest) ≡ true
unfolding digits
all-digits zero n rest h = h
all-digits (suc fuel) n rest h = elim (Bool-cases (ltb n 10)) [
  | inl last ↦ rw last (ground arith)
  | inr more ↦ rw more (all-digits fuel (n / 10) ((b'0' + n % 10) ∷ rest) (ground arith))
]

pub all-format_int : (id : ℤ) → all apart (format_int id) ≡ true
unfolding format_int
all-format_int (pos n) = all-digits (suc n) n [] refl
all-format_int (negsuc n) = all-digits (suc (suc n)) (suc n) [] refl

pub lacks_of_apart : (s : Text) → all apart s ≡ true → (lacks b' ' s ≡ true) × (lacks 10 s ≡ true)
lacks_of_apart [] h = (refl, refl)
lacks_of_apart (c ∷ s) h = ground (arith, lacks_of_apart s)

pub lacks-to_upper :
    (beyond : ℕ → ℕ) (c : ℕ) (s : Text)
    → ltb c b'A' ≡ true
    → are_ascii s ≡ true
    → lacks c s ≡ true
    → lacks c (to_upper beyond s) ≡ true
unfolding to_upper
lacks-to_upper beyond c [] lt ascii h = refl
lacks-to_upper beyond c (d ∷ s) lt ascii h = ground (arith, lacks-to_upper beyond c s)

pub lacks-rule_line :
    (beyond : ℕ → ℕ) (rule : AccessRule)
    → is_one_line rule ≡ true
    → lacks 10 (rule_line beyond rule) ≡ true
unfolding rule_line
lacks-rule_line beyond rule h =
    lacks-append 10 (to_upper beyond rule.method) (b' ' ∷ rule.path)
    ∙ ground (arith, lacks-to_upper beyond 10 rule.method)

pub spaced-rule_line : (beyond : ℕ → ℕ) (rule : AccessRule) → spaced (rule_line beyond rule) ≡ true
unfolding rule_line
spaced-rule_line beyond rule =
    ap not (lacks-append b' ' (to_upper beyond rule.method) (b' ' ∷ rule.path)) ∙ ground arith
