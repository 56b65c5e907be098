-- ===== src/Ovh/TokenUrl/Decoding.antt =====
-- internal/ovh/api.go: what a reader of a query takes from the bytes that are escaped in it.
use keymaker.Prelude.{
  ℕ, ◌+◌, ◌-◌, ◌*◌, ◌/◌, ◌%◌, ◌<◌, Bool, true, false, ◌&&◌, ◌||◌, List, [], ◌∷◌, ◌++◌, ◌≡◌, refl,
  sym, ap, ◌∙◌, arith, eq_of, all, ◌==◌, nat_equality, leb, ltb, if◌then◌else◌,
}
use keymaker.Text.{Text}
use keymaker.Text.Splitting.{lacks, lacks-append}
use keymaker.Ovh.TokenUrl.{
  hex_digit, percent, is_plain, is_readable, is_unreserved, each_byte, escape_path_byte, query_byte,
}

-- How a reader of the query takes a name or a value: a plus sign is a space, and a percent sign
-- announces two digits.
pub data QueryState : Type 0 where
  plain percent_sign : QueryState
  first_digit : ℕ → QueryState

unfoldable pub digit_value : ℕ → ℕ
digit_value c = if leb c b'9' then c - b'0' else c - b'A' + 10

unfoldable pub decode : QueryState → Text → List ℕ
unfolding digit_value
decode state [] = []
decode plain (c ∷ s) =
    let announced = decode percent_sign s in
    let rest = decode plain s in
    if c == b'%' then announced else (if c == b'+' then b' ' else c) ∷ rest
decode percent_sign (c ∷ s) = decode (first_digit c) s
decode (first_digit d) (c ∷ s) = (digit_value d * 16 + digit_value c) ∷ decode plain s

decode-nil : decode plain [] ≡ []
unfolding decode
decode-nil = refl

hex_digit_value : (n : ℕ) → n < 16 → digit_value (hex_digit n) ≡ n
unfolding digit_value hex_digit
hex_digit_value n h = ground arith

decode-percent : (b : ℕ) (t : Text) → b < 256 → decode plain (percent b ++ t) ≡ b ∷ decode plain t
unfolding decode percent
decode-percent b t h =
    let high = hex_digit_value (b / 16) (omega arith) in
    let low = hex_digit_value (b % 16) (omega arith) in
    let e : digit_value (hex_digit (b / 16)) * 16 + digit_value (hex_digit (b % 16)) ≡ b =
      omega arith in
    ap (λ n. n ∷ decode plain t) e

-- The characters that stand for something in a query.
abbrev pub is_special : ℕ → Bool
is_special c = c == b'%' || c == b'+' || c == b'&' || c == b'='

-- How a byte is written: as itself, by its digits, or as the sign for a space.
pub data Written (b : ℕ) : Text → Type 0 where
  itself : is_special b ≡ false → Written b (b ∷ [])
  by_digits : Written b (percent b)
  as_space : b ≡ b' ' → Written b (b'+' ∷ [])

Written-if :
    {b : ℕ} (t : Bool) {v w : Text}
    → (t ≡ true → Written b v)
    → (t ≡ false → Written b w)
    → Written b (if t then v else w)
Written-if true f g = f refl
Written-if false f g = g refl

plain_is_free : (b : ℕ) → is_plain b ≡ true → is_special b ≡ false
plain_is_free b h = ground arith

readable_is_free : (b : ℕ) → is_readable b ≡ true → is_special b ≡ false
readable_is_free b h = ground arith

unreserved_is_free : (b : ℕ) → is_unreserved b ≡ true → is_special b ≡ false
unreserved_is_free b h = ground arith

pub path_byte-Written : (b : ℕ) → Written b (escape_path_byte b)
unfolding escape_path_byte
path_byte-Written b =
    Written-if (is_plain b) (λ p. itself (plain_is_free b p))
      (λ n. Written-if (is_readable b) (λ p. itself (readable_is_free b p)) (λ m. by_digits))

pub query_byte-Written : (b : ℕ) → Written b (query_byte b)
unfolding query_byte
query_byte-Written b =
    Written-if (is_unreserved b) (λ p. itself (unreserved_is_free b p))
      (λ n. Written-if (b == b' ') (λ p. as_space (eq_of b b' ' p)) (λ m. by_digits))

decode-Written :
    {b : ℕ} {w : Text} (t : Text)
    → b < 256
    → Written b w
    → decode plain (w ++ t) ≡ b ∷ decode plain t
unfolding decode
decode-Written t h (itself p) = ground arith
decode-Written {b} t h by_digits = decode-percent b t h
decode-Written t h (as_space e) = ap (λ n. n ∷ decode plain t) (sym e)

-- What is written neither parts two rules nor a rule's name from its value.
abbrev pub parts_nothing : Text → Bool
parts_nothing s = lacks b'&' s && lacks b'=' s

percent-parts_nothing : (b : ℕ) → b < 256 → parts_nothing (percent b) ≡ true
unfolding percent hex_digit
percent-parts_nothing b h = ground arith

Written-parts_nothing : {b : ℕ} {w : Text} → b < 256 → Written b w → parts_nothing w ≡ true
Written-parts_nothing h (itself p) = ground arith
Written-parts_nothing {b} h by_digits = percent-parts_nothing b h
Written-parts_nothing h (as_space e) = refl

abbrev pub are_bytes : List ℕ → Bool
are_bytes bs = all (λ b. ltb b 256) bs

module _ (write : ℕ → Text) (written : (b : ℕ) → Written b (write b)) where
  pub decode-each_byte :
      (bs : List ℕ) → are_bytes bs ≡ true → decode plain (each_byte write bs) ≡ bs
  unfolding each_byte
  decode-each_byte [] h = decode-nil
  decode-each_byte (b ∷ bs) h =
      decode-Written (each_byte write bs) (ground arith) (written b)
      ∙ ap (◌∷◌ b) (decode-each_byte bs (ground arith))

  pub each_byte-parts_nothing :
      (bs : List ℕ) → are_bytes bs ≡ true → parts_nothing (each_byte write bs) ≡ true
  unfolding each_byte
  each_byte-parts_nothing [] h = refl
  each_byte-parts_nothing (b ∷ bs) h = ground (
    arith,
    lacks-append b'&' (write b) (each_byte write bs),
    lacks-append b'=' (write b) (each_byte write bs),
    Written-parts_nothing {b = b} {w = write b} (ground arith) (written b),
    each_byte-parts_nothing bs (ground arith),
  )
