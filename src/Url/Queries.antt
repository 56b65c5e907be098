-- ===== src/Url/Queries.antt =====
-- net/url: a query that is encoded reads back as its pairs, sorted by name.
use mathlib.Core.List.{append_assoc}
use keymaker.Prelude.{
  ℕ, ◌+◌, ◌*◌, ◌<◌, ◌/◌, ◌%◌, Bool, true, false, ◌&&◌, ◌||◌, some, List, [], ◌∷◌, ◌++◌, ◌≡◌, refl,
  ap, sym, ◌∙◌, arith, ◌==◌, nat_equality, list_equality, ltb, Bool-cases, inl, inr, all, eq_of,
  all-sort,
}
use keymaker.Text.{Text, split, cut, less}
use keymaker.Text.Splitting.{lacks, lacks-append, split-append, split-lacks, cut-append}
use keymaker.Ovh.TokenUrl.{hex_digit, percent, is_unreserved, each_byte, query_byte}
use keymaker.Url.{
  is_hex, hex_value, after_byte, query_char, query_unescape, Values, parse_part, parse_parts,
  parse_query, encode_pair, encode_pairs, encode, by_name,
}

abbrev pub are_bytes : Text → Bool
are_bytes s = all (λ b. ltb b 256) s

-- The characters that mean something in a query.
abbrev is_special : ℕ → Bool
is_special c = c == b'%' || c == b'+' || c == b'&' || c == b'=' || c == b';'

abbrev Clear : Text → Type 0
Clear s = (lacks b'&' s ≡ true) × (lacks b'=' s ≡ true) × (lacks b';' s ≡ true)

query_unescape-plain :
    (c : ℕ) (s : Text)
    → (c == b'%') ≡ false
    → query_unescape (c ∷ s) ≡ after_byte (query_char c) (query_unescape s)
unfolding query_unescape
query_unescape-plain c [] h = rw h refl
query_unescape-plain c (d ∷ []) h = elim (Bool-cases (d == b'%')) [
  | inl p ↦ rw (h, p) refl
  | inr p ↦ rw (h, p) refl
]
query_unescape-plain c (d ∷ e ∷ s) h = rw h refl

hex_digit-is_hex : (n : ℕ) → n < 16 → (is_hex (hex_digit n) ≡ true) × (hex_value (hex_digit n) ≡ n)
unfolding hex_digit
hex_digit-is_hex n h = ground arith

query_unescape-percent :
    (b : ℕ) (s : Text) → b < 256 → query_unescape (percent b ++ s) ≡ after_byte b (query_unescape s)
unfolding query_unescape percent
query_unescape-percent b s h =
    let (p, v) = hex_digit-is_hex (b / 16) (omega arith) in
    let (q, w) = hex_digit-is_hex (b % 16) (omega arith) in
    let e : hex_value (hex_digit (b / 16)) * 16 + hex_value (hex_digit (b % 16)) ≡ b =
      omega arith in
    rw (p, q) (ap (λ n. after_byte n (query_unescape s)) e)

-- How one byte is written and read.
query_unescape-byte :
    (b : ℕ) (s : Text)
    → b < 256
    → query_unescape (query_byte b ++ s) ≡ after_byte b (query_unescape s)
unfolding query_byte
query_unescape-byte b s h = elim (Bool-cases (is_unreserved b)) [
  | inl free ↦ rw free (
      query_unescape-plain b s (ground arith)
      ∙ ap (λ c. after_byte c (query_unescape s)) (ground arith))
  | inr other ↦ elim (Bool-cases (b == b' ')) [
    | inl space ↦
        rw (other, space)
          (query_unescape-plain b'+' s refl
            ∙ ap (λ c. after_byte c (query_unescape s)) (sym (eq_of b b' ' space)))
    | inr odd ↦ rw (other, odd) (query_unescape-percent b s h)
  ]
]

query_unescape-each_byte :
    (s : Text) → are_bytes s ≡ true → query_unescape (each_byte query_byte s) ≡ some s
unfolding each_byte
query_unescape-each_byte [] h = unfold query_unescape in refl
query_unescape-each_byte (b ∷ s) h =
    query_unescape-byte b (each_byte query_byte s) (ground arith)
    ∙ ap (after_byte b) (query_unescape-each_byte s (ground arith))

query_byte-Clear : (b : ℕ) → b < 256 → Clear (query_byte b)
unfolding query_byte percent hex_digit
query_byte-Clear b h = ground arith

Clear-append : (s t : Text) → Clear s → Clear t → Clear (s ++ t)
Clear-append s t (a, b, c) (a', b', c') = (
  lacks-append b'&' s t ∙ ground arith,
  lacks-append b'=' s t ∙ ground arith,
  lacks-append b';' s t ∙ ground arith,
)

each_byte-Clear : (s : Text) → are_bytes s ≡ true → Clear (each_byte query_byte s)
unfolding each_byte
each_byte-Clear [] h = (refl, refl, refl)
each_byte-Clear (b ∷ s) h =
    Clear-append (query_byte b) (each_byte query_byte s) (query_byte-Clear b (ground arith))
      (each_byte-Clear s (ground arith))

abbrev pub are_byte_pairs : Values → Bool
are_byte_pairs values = all (λ (p : Text × Text). are_bytes p.0 && are_bytes p.1) values

append-ne-nil : (s t : Text) (c : ℕ) → ((s ++ (c ∷ t)) == []) ≡ false
append-ne-nil [] t c = refl
append-ne-nil (x ∷ s) t c = refl

encode_pair-lacks :
    (p : Text × Text)
    → (are_bytes p.0 && are_bytes p.1) ≡ true
    → (lacks b'&' (encode_pair p) ≡ true) × (lacks b';' (encode_pair p) ≡ true)
encode_pair-lacks (name, value) h =
    let (a, b, c) = each_byte-Clear name (ground arith) in
    let (a', b', c') = each_byte-Clear value (ground arith) in
    (
      lacks-append b'&' (each_byte query_byte name) (b'=' ∷ each_byte query_byte value)
          ∙ ground arith,
      lacks-append b';' (each_byte query_byte name) (b'=' ∷ each_byte query_byte value)
          ∙ ground arith,
    )

parse_part-encode_pair :
    (p : Text × Text)
    → (are_bytes p.0 && are_bytes p.1) ≡ true
    → parse_part (encode_pair p) ≡ p ∷ []
unfolding parse_part
parse_part-encode_pair (name, value) h =
    let part = encode_pair (name, value) in
    let (no_amp, no_semi) = encode_pair-lacks (name, value) h in
    let (a, b, c) = each_byte-Clear name (ground arith) in
    let cutting : cut b'=' part ≡ some (each_byte query_byte name, each_byte query_byte value) =
      cut-append b'=' (each_byte query_byte name) (each_byte query_byte value) b in
    rw
      (
        append-ne-nil (each_byte query_byte name) (each_byte query_byte value) b'=',
        no_semi,
        cutting,
        query_unescape-each_byte name (ground arith),
        query_unescape-each_byte value (ground arith),
      )
      refl

parse_parts-append : (xs ys : List Text) → parse_parts (xs ++ ys) ≡ parse_parts xs ++ parse_parts ys
unfolding parse_parts
parse_parts-append [] ys = refl
parse_parts-append (x ∷ xs) ys =
    ap (λ l. parse_part x ++ l) (parse_parts-append xs ys)
    ∙ sym (append_assoc (parse_part x) (parse_parts xs) (parse_parts ys))

parse_parts-single :
    (p : Text × Text)
    → (are_bytes p.0 && are_bytes p.1) ≡ true
    → parse_parts (split b'&' (encode_pair p)) ≡ p ∷ []
unfolding parse_parts
parse_parts-single p h =
    ap parse_parts (split-lacks b'&' (encode_pair p) (encode_pair-lacks p h).0)
    ∙ ap (λ l. l ++ []) (parse_part-encode_pair p h)

parse_query-encode_pairs :
    (pairs : Values) → are_byte_pairs pairs ≡ true → parse_query (encode_pairs pairs) ≡ pairs
unfolding parse_query encode_pairs
parse_query-encode_pairs [] h = unfold parse_parts parse_part split in refl
parse_query-encode_pairs (p ∷ []) h = parse_parts-single p (ground arith)
parse_query-encode_pairs (p ∷ q ∷ pairs) h =
    ap parse_parts (split-append b'&' (encode_pair p) (encode_pairs (q ∷ pairs)))
    ∙ parse_parts-append (split b'&' (encode_pair p)) (split b'&' (encode_pairs (q ∷ pairs)))
    ∙ ap (λ l. l ++ parse_query (encode_pairs (q ∷ pairs))) (parse_parts-single p (ground arith))
    ∙ ap (◌∷◌ p) (parse_query-encode_pairs (q ∷ pairs) (ground arith))

-- A query that is written from pairs of bytes reads back as those pairs, put in the order of their
-- names.
pub parse_query-encode :
    (values : Values) → are_byte_pairs values ≡ true → parse_query (encode values) ≡ by_name values
unfolding encode
parse_query-encode values h =
    parse_query-encode_pairs (by_name values)
      (all-sort (λ p q. less p.0 q.0) (λ p. are_bytes p.0 && are_bytes p.1) values ∙ h)
