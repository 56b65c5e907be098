-- ===== src/Url/Bytes.antt =====
-- net/url: what is read from a query of bytes is bytes.
use keymaker.Prelude.{
  ℕ, ◌+◌, ◌*◌, ◌<◌, Bool, true, false, ◌&&◌, ◌||◌, not, Option, some, List, [], ◌∷◌, ◌++◌, ◌≡◌,
  refl, ap, sym, ◌∙◌, arith, ◌==◌, nat_equality, list_equality, ltb, if◌then◌else◌, Bool-cases, inl,
  inr, all, none,
}
use keymaker.Text.{Text, split, onto_first, cut}
use keymaker.Text.Splitting.{lacks}
use keymaker.Url.{
  is_hex, hex_value, after_byte, query_char, query_unescape, pair, named, parse_part, parse_parts,
  parse_query,
}
use keymaker.Url.Queries.{are_bytes, are_byte_pairs}

some_lem : (x y : Text) → some x ≡ some y → x ≡ y
some_lem x y p = cc p

after_byte-are_bytes :
    (b : ℕ) (o : Option Text) (t : Text)
    → b < 256
    → ((s : Text) → o ≡ some s → are_bytes s ≡ true)
    → after_byte b o ≡ some t
    → are_bytes t ≡ true
after_byte-are_bytes b none t h k e = cc e
after_byte-are_bytes b (some s) t h k e =
    ap are_bytes (sym (some_lem (b ∷ s) t e)) ∙ ground (arith, k s refl)

hex_value-lt : (c : ℕ) → is_hex c ≡ true → hex_value c < 16
hex_value-lt c h = ground arith

query_char-lt : (c : ℕ) → ltb c 256 ≡ true → query_char c < 256
query_char-lt c h = ground arith

two_digits : (d e : ℕ) → (is_hex d && is_hex e) ≡ true → hex_value d * 16 + hex_value e < 256
two_digits d e h = omega (arith, hex_value-lt d (ground arith), hex_value-lt e (ground arith))

-- Reading keeps to bytes.
query_unescape-are_bytes :
    (s t : Text) → are_bytes s ≡ true → query_unescape s ≡ some t → are_bytes t ≡ true
unfolding query_unescape
query_unescape-are_bytes [] t h e = ap are_bytes (sym (some_lem [] t e))
query_unescape-are_bytes (c ∷ []) t h e = elim (Bool-cases (c == b'%')) [
  | inl p ↦ cc (rw p at e)
  | inr p ↦
      after_byte-are_bytes (query_char c) (some []) t (query_char-lt c (ground arith))
        (λ s q. ap are_bytes (sym (some_lem [] s q))) (rw p at e)
]
query_unescape-are_bytes (c ∷ d ∷ []) t h e = elim (Bool-cases (c == b'%' || d == b'%')) [
  | inl p ↦ cc (rw p at e)
  | inr p ↦
      ap are_bytes (sym (some_lem (query_char c ∷ query_char d ∷ []) t (rw p at e)))
      ∙ ground (arith, query_char-lt c, query_char-lt d)
]
query_unescape-are_bytes (c ∷ d ∷ x ∷ s) t h e = elim (Bool-cases (c == b'%')) [
  | inl p ↦ elim (Bool-cases (is_hex d && is_hex x)) [
    | inl q ↦
        after_byte-are_bytes (hex_value d * 16 + hex_value x) (query_unescape s) t
          (two_digits d x q) (λ u f. query_unescape-are_bytes s u (ground arith) f) (rw (p, q) at e)
    | inr q ↦ cc (rw (p, q) at e)
  ]
  | inr p ↦
      after_byte-are_bytes (query_char c) (query_unescape (d ∷ x ∷ s)) t
        (query_char-lt c (ground arith))
        (λ u f. query_unescape-are_bytes (d ∷ x ∷ s) u (ground arith) f) (rw p at e)
]

abbrev are_all_bytes : List Text → Bool
are_all_bytes parts = all are_bytes parts

onto_first-are_bytes :
    (c : ℕ) (ts : List Text)
    → ltb c 256 ≡ true
    → are_all_bytes ts ≡ true
    → are_all_bytes (onto_first c ts) ≡ true
onto_first-are_bytes c [] h k = ground arith
onto_first-are_bytes c (t ∷ ts) h k = ground arith

split-are_bytes : (sep : ℕ) (s : Text) → are_bytes s ≡ true → are_all_bytes (split sep s) ≡ true
unfolding split
split-are_bytes sep [] h = refl
split-are_bytes sep (c ∷ s) h = elim (Bool-cases (c == sep)) [
  | inl hit ↦ rw hit (split-are_bytes sep s (ground arith))
  | inr miss ↦
      rw miss
        (onto_first-are_bytes c (split sep s) (ground arith) (split-are_bytes sep s (ground arith)))
]

abbrev both_bytes : Option (Text × Text) → Bool
both_bytes none = true
both_bytes (some (a, b)) = are_bytes a && are_bytes b

cut-are_bytes : (sep : ℕ) (s : Text) → are_bytes s ≡ true → both_bytes (cut sep s) ≡ true
unfolding cut
cut-are_bytes sep [] h = refl
cut-are_bytes sep (c ∷ s) h = by (cut sep s) (cut-are_bytes sep s (ground arith))
  where
    by :
        (o : Option (Text × Text))
        → both_bytes o ≡ true
        → both_bytes (elim o [
          | none ↦ if c == sep then some ([], s) else none
          | some (before, after) ↦ if c == sep then some ([], s) else some (c ∷ before, after)
        ])
          ≡ true
    by none k = ground arith
    by (some (a, b)) k = ground arith

pair-are_bytes :
    (n v : Option Text)
    → ((t : Text) → n ≡ some t → are_bytes t ≡ true)
    → ((t : Text) → v ≡ some t → are_bytes t ≡ true)
    → are_byte_pairs (pair n v) ≡ true
pair-are_bytes none v h k = refl
pair-are_bytes (some n) none h k = refl
pair-are_bytes (some n) (some v) h k = ground (arith, h n refl, k v refl)

parse_part-are_bytes :
    (part : Text) → are_bytes part ≡ true → are_byte_pairs (parse_part part) ≡ true
unfolding parse_part
parse_part-are_bytes part h =
    by (part == [] || not (lacks b';' part)) (cut b'=' part) (cut-are_bytes b'=' part h)
  where
    by :
        (skipped : Bool) (o : Option (Text × Text))
        → both_bytes o ≡ true
        → are_byte_pairs (
            if skipped
            then []
            else pair (query_unescape (named o part).0) (query_unescape (named o part).1))
          ≡ true
    by true o k = refl
    by false none k =
        pair-are_bytes (query_unescape part) (query_unescape [])
          (λ t e. query_unescape-are_bytes part t h e) (λ t e. query_unescape-are_bytes [] t refl e)
    by false (some (n, v)) k =
        pair-are_bytes (query_unescape n) (query_unescape v)
          (λ t e. query_unescape-are_bytes n t (ground arith) e)
          (λ t e. query_unescape-are_bytes v t (ground arith) e)

all-append {ℓ} :
    {A : Type ℓ} (p : A → Bool) (xs ys : List A) → all p (xs ++ ys) ≡ (all p xs && all p ys)
all-append p [] ys = refl
all-append p (x ∷ xs) ys = ground (arith, all-append p xs ys)

parse_parts-are_bytes :
    (parts : List Text) → are_all_bytes parts ≡ true → are_byte_pairs (parse_parts parts) ≡ true
unfolding parse_parts
parse_parts-are_bytes [] h = refl
parse_parts-are_bytes (part ∷ parts) h =
    all-append (λ (p : Text × Text). are_bytes p.0 && are_bytes p.1) (parse_part part)
      (parse_parts parts)
    ∙ ground (arith, parse_part-are_bytes part, parse_parts-are_bytes parts)

pub parse_query-are_bytes : (s : Text) → are_bytes s ≡ true → are_byte_pairs (parse_query s) ≡ true
unfolding parse_query
parse_query-are_bytes s h = parse_parts-are_bytes (split b'&' s) (split-are_bytes b'&' s h)
