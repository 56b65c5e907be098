-- ===== src/Http/Token/RoundTrip.antt =====
-- internal/httpapi/auth.go: a token holds all the bytes it is made of, in letters that an address
-- carries as they are.
use keymaker.Prelude.{
  ℕ, ◌+◌, ◌-◌, ◌*◌, ◌/◌, ◌%◌, ◌<◌, Bool, true, ◌&&◌, ◌||◌, List, [], ◌∷◌, ◌≡◌, refl, ap, sym, ◌∙◌,
  arith, ◌==◌, nat_equality, leb, if◌then◌else◌, all, length, Option, none, some,
}
use keymaker.Text.{Text}
use keymaker.Ovh.TokenUrl.{is_plain}
use keymaker.Failure.{ok}
use keymaker.Url.Queries.{are_bytes}
use keymaker.Http.Token.{letter, encode_to_string, new_token}

-- A reader of the alphabet.
abbrev pub letter_value : ℕ → ℕ
letter_value c =
    if leb b'A' c && leb c b'Z'
    then c - b'A'
    else if leb b'a' c && leb c b'z'
    then c - b'a' + 26
    else if leb b'0' c && leb c b'9'
    then c - b'0' + 52
    else if c == b'-'
    then 62
    else 63

unfoldable pub read_token : Text → List ℕ
read_token [] = []
read_token (w ∷ []) = []
read_token (w ∷ x ∷ []) = (letter_value w * 4 + letter_value x / 16) ∷ []
read_token (w ∷ x ∷ y ∷ []) =
    (letter_value w * 4 + letter_value x / 16)
    ∷ (letter_value x % 16 * 16 + letter_value y / 4)
    ∷ []
read_token (w ∷ x ∷ y ∷ z ∷ s) =
    (letter_value w * 4 + letter_value x / 16)
    ∷ (letter_value x % 16 * 16 + letter_value y / 4)
    ∷ (letter_value y % 4 * 64 + letter_value z)
    ∷ read_token s

letter_value-letter : (n : ℕ) → n < 64 → letter_value (letter n) ≡ n
letter_value-letter n h = ground arith

-- Letters, digits, the dash and the underscore.
abbrev pub is_letter : ℕ → Bool
is_letter c = is_plain c || c == b'-' || c == b'_'

letter-is_letter : (n : ℕ) → is_letter (letter n) ≡ true
letter-is_letter n = ground arith

two_letters : (v w m n : ℕ) → v ≡ m → w ≡ n → v * 4 + w / 16 ≡ m * 4 + n / 16
two_letters v w m n e f = λ i. e i * 4 + f i / 16

first_byte :
    (a k : ℕ)
    → a < 256
    → k < 16
    → letter_value (letter (a / 4)) * 4 + letter_value (letter (a % 4 * 16 + k)) / 16 ≡ a
first_byte a k h l =
    two_letters (letter_value (letter (a / 4))) (letter_value (letter (a % 4 * 16 + k))) (a / 4)
      (a % 4 * 16 + k) (letter_value-letter (a / 4) (omega arith))
      (letter_value-letter (a % 4 * 16 + k) (omega arith))
    ∙ omega arith

second_byte :
    (a b k : ℕ)
    → b < 256
    → k < 4
    → letter_value (letter (a % 4 * 16 + b / 16)) % 16 * 16
        + letter_value (letter (b % 16 * 4 + k)) / 4
      ≡ b
second_byte a b k h l =
    (λ i.
      letter_value-letter (a % 4 * 16 + b / 16) (omega arith) i % 16 * 16
      + letter_value-letter (b % 16 * 4 + k) (omega arith) i / 4)
    ∙ omega arith

third_byte :
    (b c : ℕ)
    → c < 256
    → letter_value (letter (b % 16 * 4 + c / 64)) % 4 * 64 + letter_value (letter (c % 64)) ≡ c
third_byte b c h =
    (λ i.
      letter_value-letter (b % 16 * 4 + c / 64) (omega arith) i % 4 * 64
      + letter_value-letter (c % 64) (omega arith) i)
    ∙ omega arith

add_none : (n : ℕ) → n ≡ n + 0
add_none n = omega arith

read_token-encode : (bs : List ℕ) → are_bytes bs ≡ true → read_token (encode_to_string bs) ≡ bs
unfolding read_token encode_to_string
read_token-encode [] h = refl
read_token-encode (a ∷ []) h =
    ap (λ x. x ∷ [])
      (ap (λ n. letter_value (letter (a / 4)) * 4 + letter_value (letter n) / 16)
          (add_none (a % 4 * 16))
        ∙ first_byte a 0 (ground arith) (omega arith))
read_token-encode (a ∷ b ∷ []) h = λ i.
    first_byte a (b / 16) (ground arith) (ground arith) i
    ∷ (ap (λ n. letter_value (letter (a % 4 * 16 + b / 16)) % 16 * 16 + letter_value (letter n) / 4)
            (add_none (b % 16 * 4))
          ∙ second_byte a b 0 (ground arith) (omega arith))
        i
    ∷ []
read_token-encode (a ∷ b ∷ c ∷ bs) h = λ i.
    first_byte a (b / 16) (ground arith) (ground arith) i
    ∷ second_byte a b (c / 64) (ground arith) (ground arith) i
    ∷ third_byte b c (ground arith) i
    ∷ read_token-encode bs (ground arith) i

encode-letters : (bs : List ℕ) → all is_letter (encode_to_string bs) ≡ true
unfolding encode_to_string
encode-letters [] = refl
encode-letters (a ∷ []) = rw (letter-is_letter (a / 4), letter-is_letter (a % 4 * 16)) refl
encode-letters (a ∷ b ∷ []) =
    rw
      (
        letter-is_letter (a / 4),
        letter-is_letter (a % 4 * 16 + b / 16),
        letter-is_letter (b % 16 * 4),
      )
      refl
encode-letters (a ∷ b ∷ c ∷ bs) =
    rw
      (
        letter-is_letter (a / 4),
        letter-is_letter (a % 4 * 16 + b / 16),
        letter-is_letter (b % 16 * 4 + c / 64),
        letter-is_letter (c % 64),
      )
      (encode-letters bs)

length-encode : (bs : List ℕ) → length (encode_to_string bs) ≡ (length bs * 4 + 2) / 3
unfolding encode_to_string
length-encode [] = refl
length-encode (a ∷ []) = refl
length-encode (a ∷ b ∷ []) = refl
length-encode (a ∷ b ∷ c ∷ bs) = omega (arith, length-encode bs)

token_made : (raw : List ℕ) (t : Text) → new_token (some raw) ≡ ok t → encode_to_string raw ≡ t
unfolding new_token
token_made raw t h = by h
  where
    by : {x y : Text} → ok x ≡ ok y → x ≡ y
    by e = cc e

-- A token made of bytes reads back as these bytes, so that two runs with other random bytes have
-- other tokens; of thirty-two bytes it has forty-three characters; and each of them is a letter, a
-- digit, a dash or an underscore.
pub read_token-new_token :
    (raw : List ℕ) (t : Text)
    → are_bytes raw ≡ true
    → new_token (some raw) ≡ ok t
    → (read_token t ≡ raw) × (length raw ≡ 32 → length t ≡ 43) × (all is_letter t ≡ true)
read_token-new_token raw t h made =
    let e = token_made raw t made in
    (
      ap read_token (sym e) ∙ read_token-encode raw h,
      λ l. ap length (sym e) ∙ length-encode raw ∙ ap (λ n. (n * 4 + 2) / 3) l,
      ap (all is_letter) (sym e) ∙ encode-letters raw,
    )

pub new_token-letters :
    (raw : Option (List ℕ)) (t : Text) → new_token raw ≡ ok t → all is_letter t ≡ true
unfolding new_token
new_token-letters none t h = cc h
new_token-letters (some raw) t h =
    ap (all is_letter) (sym (token_made raw t h)) ∙ encode-letters raw
