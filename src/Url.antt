-- ===== src/Url.antt =====
-- The parts of Go's net/url that internal/httpapi and cmd/keymaker use. A text stands here for its
-- bytes. `Values` keeps the pairs in the order of the query: the source reads the first value of a
-- name, takes all values of one name away, and writes the pairs by name.
pub mod Paths
pub mod Queries
pub mod Bytes
use keymaker.Prelude.{
  ℕ, ◌+◌, ◌-◌, ◌*◌, Bool, true, false, not, ◌&&◌, ◌||◌, Option, none, some, List, [], ◌∷◌, ◌++◌,
  ◌==◌, nat_equality, list_equality, leb, if◌then◌else◌, filter, sort, any,
}
use keymaker.Text.{Text, text, split, cut, less}
use keymaker.Text.Splitting.{lacks}
use keymaker.Ovh.TokenUrl.{each_byte, query_byte}

abbrev pub is_hex : ℕ → Bool
is_hex c = (leb b'0' c && leb c b'9') || (leb b'a' c && leb c b'f') || (leb b'A' c && leb c b'F')

abbrev pub hex_value : ℕ → ℕ
hex_value c = if leb c b'9' then c - b'0' else if leb c b'F' then c - b'A' + 10 else c - b'a' + 10

-- A path with its escapes read; a percent sign that announces no two digits stays.
unfoldable pub path_unescape : Text → Text
path_unescape [] = []
path_unescape (c ∷ []) = c ∷ []
path_unescape (c ∷ d ∷ []) = c ∷ d ∷ []
path_unescape (c ∷ d ∷ e ∷ s) =
    let escaped = (hex_value d * 16 + hex_value e) ∷ path_unescape s in
    let plain = c ∷ path_unescape (d ∷ e ∷ s) in
    if c == b'%' && (is_hex d && is_hex e) then escaped else plain

abbrev pub after_byte : ℕ → Option Text → Option Text
after_byte b none = none
after_byte b (some s) = some (b ∷ s)

abbrev pub query_char : ℕ → ℕ
query_char c = if c == b'+' then b' ' else c

-- `QueryUnescape`; a bad escape is an error.
unfoldable pub query_unescape : Text → Option Text
query_unescape [] = some []
query_unescape (c ∷ []) = if c == b'%' then none else some (query_char c ∷ [])
query_unescape (c ∷ d ∷ []) =
    if c == b'%' || d == b'%' then none else some (query_char c ∷ query_char d ∷ [])
query_unescape (c ∷ d ∷ e ∷ s) =
    let escaped = after_byte (hex_value d * 16 + hex_value e) (query_unescape s) in
    let plain = after_byte (query_char c) (query_unescape (d ∷ e ∷ s)) in
    if c == b'%' then (if is_hex d && is_hex e then escaped else none) else plain

abbrev pub Values : Type 0
Values = List (Text × Text)

abbrev pub pair : Option Text → Option Text → Values
pair none value = []
pair (some name) none = []
pair (some name) (some value) = (name, value) ∷ []

abbrev pub named : Option (Text × Text) → Text → Text × Text
named none part = (part, [])
named (some (name, value)) part = (name, value)

-- One part of a query: nothing if it is empty, has a semicolon, or an escape that is not one.
unfoldable pub parse_part : Text → Values
unfolding query_unescape
parse_part part =
    let (name, value) = named (cut b'=' part) part in
    if part == [] || not (lacks b';' part)
    then []
    else pair (query_unescape name) (query_unescape value)

unfoldable pub parse_parts : List Text → Values
unfolding parse_part
parse_parts [] = []
parse_parts (part ∷ parts) = parse_part part ++ parse_parts parts

-- `URL.Query`
unfoldable pub parse_query : Text → Values
unfolding parse_parts
parse_query s = parse_parts (split b'&' s)

-- `Values.Get`
unfoldable pub first_value : Text → Values → Text
first_value name [] = []
first_value name ((key, value) ∷ values) =
    let rest = first_value name values in if key == name then value else rest

-- `Values.Del`
unfoldable pub del : Text → Values → Values
del name values = filter (λ (p : Text × Text). not (p.0 == name)) values

abbrev pub encode_pair : Text × Text → Text
encode_pair (name, value) = each_byte query_byte name ++ (b'=' ∷ each_byte query_byte value)

unfoldable pub encode_pairs : Values → Text
unfolding each_byte query_byte
encode_pairs [] = []
encode_pairs (p ∷ []) = encode_pair p
encode_pairs (p ∷ q ∷ pairs) = encode_pair p ++ (b'&' ∷ encode_pairs (q ∷ pairs))

abbrev pub by_name : Values → Values
by_name values = sort (λ (p q : Text × Text). less p.0 q.0) values

-- `Values.Encode`
unfoldable pub encode : Values → Text
unfolding encode_pairs less
encode values = encode_pairs (by_name values)
