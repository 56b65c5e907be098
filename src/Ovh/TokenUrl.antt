-- ===== src/Ovh/TokenUrl.antt =====
-- internal/ovh/api.go: the page that issues a key, with its rules in the query. The table of
-- endpoints is the SDK's and the parsing of its addresses net/url's: both are given, as `Hosts`.
-- Escaping works on the bytes of a text in UTF-8.
pub mod Decoding
pub mod RoundTrip
use keymaker.Prelude.{
  ℕ, ◌+◌, ◌-◌, ◌/◌, ◌%◌, Bool, ◌&&◌, ◌||◌, Option, none, some, List, [], ◌∷◌, ◌++◌, ◌==◌,
  nat_equality, list_equality, leb, ltb, if◌then◌else◌, any,
}
use keymaker.Text.{Text, text}
use keymaker.Credential.{AccessRule}
use keymaker.Failure.{Failure, unread, Result, ok, err}

-- The bytes of one code point, and of a text.
unfoldable pub encode : ℕ → List ℕ
encode c =
    if ltb c 0x80
    then c ∷ []
    else if ltb c 0x800
    then (0xc0 + c / 64) ∷ (0x80 + c % 64) ∷ []
    else if ltb c 0x10000
    then (0xe0 + c / 4096) ∷ (0x80 + c / 64 % 64) ∷ (0x80 + c % 64) ∷ []
    else (0xf0 + c / 262144) ∷ (0x80 + c / 4096 % 64) ∷ (0x80 + c / 64 % 64) ∷ (0x80 + c % 64) ∷ []

unfoldable pub bytes : Text → List ℕ
unfolding encode
bytes [] = []
bytes (c ∷ s) = encode c ++ bytes s

unfoldable pub hex_digit : ℕ → ℕ
hex_digit n = if ltb n 10 then b'0' + n else b'A' + n - 10

-- `%%%02X`
unfoldable pub percent : ℕ → Text
unfolding hex_digit
percent b = b'%' ∷ hex_digit (b / 16) ∷ hex_digit (b % 16) ∷ []

abbrev pub is_plain : ℕ → Bool
is_plain b = (leb b'a' b && leb b b'z') || (leb b'A' b && leb b b'Z') || (leb b'0' b && leb b b'9')

abbrev pub is_readable : ℕ → Bool
is_readable b = b == b'/' || b == b'*' || b == b'-' || b == b'_' || b == b'.' || b == b'~'

unfoldable pub escape_path_byte : ℕ → Text
unfolding percent
escape_path_byte b = if is_plain b then b ∷ [] else if is_readable b then b ∷ [] else percent b

-- Each byte written by `write`, one after another.
unfoldable pub each_byte : (ℕ → Text) → List ℕ → Text
each_byte write [] = []
each_byte write (b ∷ bs) = write b ++ each_byte write bs

unfoldable pub escape_rule_path : Text → Text
unfolding each_byte escape_path_byte bytes
escape_rule_path path = each_byte escape_path_byte (bytes path)

abbrev pub is_unreserved : ℕ → Bool
is_unreserved b = is_plain b || b == b'-' || b == b'_' || b == b'.' || b == b'~'

-- `url.QueryEscape`, byte by byte.
unfoldable pub query_byte : ℕ → Text
unfolding percent
query_byte b = if is_unreserved b then b ∷ [] else if b == b' ' then b'+' ∷ [] else percent b

unfoldable pub query_escape : Text → Text
unfolding each_byte query_byte bytes
query_escape s = each_byte query_byte (bytes s)

unfoldable pub rule_query : AccessRule → Text
unfolding query_escape escape_rule_path
rule_query rule = query_escape rule.method ++ (b'=' ∷ escape_rule_path rule.path)

-- The loop over the rules.
unfoldable pub query : List AccessRule → Text
unfolding rule_query
query [] = []
query (rule ∷ []) = rule_query rule
query (rule ∷ next ∷ rules) = rule_query rule ++ (b'&' ∷ query (next ∷ rules))

-- The SDK's table, and the scheme and the host of an address.
pub record Hosts : Type 0 where
  pub endpoints : Text → Option Text
  pub parse_url : Text → Option (Text × Text)

abbrev pub supported_endpoints : List Text
supported_endpoints = text "ovh-eu" ∷ text "ovh-ca" ∷ text "ovh-us" ∷ []

-- The errors of the page carry no answer of the API.
abbrev pub or_unread {ℓ} : {A : Type ℓ} → Option A → Result A
or_unread none = err (unread 0)
or_unread (some a) = ok a

abbrev pub page_at : Text → Result (Text × Text) → Result Text
page_at query (err e) = err e
page_at [] (ok (scheme, host)) = ok (scheme ++ (text "://" ++ (host ++ text "/createToken/")))
page_at (c ∷ query) (ok (scheme, host)) =
    ok (scheme ++ (text "://" ++ (host ++ (text "/createToken/" ++ (b'?' ∷ c ∷ query)))))

module _ (hosts : Hosts) where
  unfoldable pub endpoint_url : Text → Result Text
  endpoint_url name =
      if any (λ supported. supported == name) supported_endpoints
      then or_unread (hosts.endpoints name)
      else err (unread 0)

  unfoldable pub create_token_url : Text → List AccessRule → Result Text
  unfolding endpoint_url query
  create_token_url endpoint rules = elim (endpoint_url endpoint) [
    | err e ↦ err e
    | ok base ↦ page_at (query rules) (or_unread (hosts.parse_url base))
  ]
