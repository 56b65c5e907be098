-- ===== src/Http/Token.antt =====
-- internal/httpapi/auth.go: the tokens of one run. Their bytes are those that crypto/rand gives, which
-- are given here, and the text is base64 for addresses, without padding.
pub mod RoundTrip
use keymaker.Prelude.{
  ℕ, ◌+◌, ◌-◌, ◌*◌, ◌/◌, ◌%◌, Option, none, some, List, [], ◌∷◌, ◌==◌, nat_equality, ltb,
  if◌then◌else◌,
}
use keymaker.Text.{Text}
use keymaker.Failure.{Result, ok, err, unread}

abbrev pub token_bytes : ℕ
token_bytes = 32

-- A letter of the alphabet.
abbrev pub letter : ℕ → ℕ
letter n =
    if ltb n 26
    then b'A' + n
    else if ltb n 52
    then b'a' + (n - 26)
    else if ltb n 62
    then b'0' + (n - 52)
    else if n == 62
    then b'-'
    else b'_'

-- `base64.RawURLEncoding.EncodeToString`
unfoldable pub encode_to_string : List ℕ → Text
encode_to_string [] = []
encode_to_string (a ∷ []) = letter (a / 4) ∷ letter (a % 4 * 16) ∷ []
encode_to_string (a ∷ b ∷ []) =
    letter (a / 4) ∷ letter (a % 4 * 16 + b / 16) ∷ letter (b % 16 * 4) ∷ []
encode_to_string (a ∷ b ∷ c ∷ bs) =
    letter (a / 4)
    ∷ letter (a % 4 * 16 + b / 16)
    ∷ letter (b % 16 * 4 + c / 64)
    ∷ letter (c % 64)
    ∷ encode_to_string bs

-- `NewToken`, from what `rand.Read` gives.
unfoldable pub new_token : Option (List ℕ) → Result Text
unfolding encode_to_string
new_token none = err (unread 0)
new_token (some raw) = ok (encode_to_string raw)
