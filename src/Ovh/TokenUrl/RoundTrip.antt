-- ===== src/Ovh/TokenUrl/RoundTrip.antt =====
-- internal/ovh/api.go: the page reads back from the query the rules that it was built with.
use keymaker.Prelude.{
  ℕ, Bool, true, ◌&&◌, Option, none, some, List, [], ◌∷◌, ◌++◌, map, ◌≡◌, refl, ap, ◌∙◌, arith, all,
  nat_equality, ltb,
}
use keymaker.Text.{Text, split, cut}
use keymaker.Text.Splitting.{lacks, split-append, split-lacks, cut-append, lacks-append}
use keymaker.Credential.{AccessRule}
use keymaker.Ovh.TokenUrl.{
  encode, bytes, escape_path_byte, escape_rule_path, query_byte, query_escape, rule_query, query,
}
use keymaker.Ovh.TokenUrl.Decoding.{
  plain, decode, parts_nothing, are_bytes, path_byte-Written, query_byte-Written, decode-each_byte,
  each_byte-parts_nothing,
}

-- The text is one of Unicode code points.
abbrev pub is_unicode : Text → Bool
is_unicode s = all (λ c. ltb c 0x110000) s

abbrev pub is_spelled : AccessRule → Bool
is_spelled rule = is_unicode rule.method && is_unicode rule.path

encode-are_bytes : (c : ℕ) → ltb c 0x110000 ≡ true → are_bytes (encode c) ≡ true
unfolding encode
encode-are_bytes c h = ground arith

are_bytes-append :
    (bs cs : List ℕ) → are_bytes bs ≡ true → are_bytes cs ≡ true → are_bytes (bs ++ cs) ≡ true
are_bytes-append [] cs h k = k
are_bytes-append (b ∷ bs) cs h k = ground (arith, are_bytes-append bs cs)

bytes-are_bytes : (s : Text) → is_unicode s ≡ true → are_bytes (bytes s) ≡ true
unfolding bytes
bytes-are_bytes [] h = refl
bytes-are_bytes (c ∷ s) h =
    are_bytes-append (encode c) (bytes s) (encode-are_bytes c (ground arith))
      (bytes-are_bytes s (ground arith))

-- What a reader takes from one part of a query: a name and a value.
abbrev pub decoded : Option (Text × Text) → Option (List ℕ × List ℕ)
decoded none = none
decoded (some (name, value)) = some (decode plain name, decode plain value)

abbrev pub read_query : Text → List (Option (List ℕ × List ℕ))
read_query s = map (λ part. decoded (cut b'=' part)) (split b'&' s)

module _ (rule : AccessRule) (spelled : is_spelled rule ≡ true) where
  method-parts_nothing : parts_nothing (query_escape rule.method) ≡ true
  unfolding query_escape
  method-parts_nothing =
      each_byte-parts_nothing query_byte query_byte-Written (bytes rule.method)
        (bytes-are_bytes rule.method (ground arith))

  path-parts_nothing : parts_nothing (escape_rule_path rule.path) ≡ true
  unfolding escape_rule_path
  path-parts_nothing =
      each_byte-parts_nothing escape_path_byte path_byte-Written (bytes rule.path)
        (bytes-are_bytes rule.path (ground arith))

  lacks-rule_query : lacks b'&' (rule_query rule) ≡ true
  unfolding rule_query
  lacks-rule_query =
      lacks-append b'&' (query_escape rule.method) (b'=' ∷ escape_rule_path rule.path)
      ∙ ground (arith, method-parts_nothing, path-parts_nothing)

  decode-method : decode plain (query_escape rule.method) ≡ bytes rule.method
  unfolding query_escape
  decode-method =
      decode-each_byte query_byte query_byte-Written (bytes rule.method)
        (bytes-are_bytes rule.method (ground arith))

  decode-path : decode plain (escape_rule_path rule.path) ≡ bytes rule.path
  unfolding escape_rule_path
  decode-path =
      decode-each_byte escape_path_byte path_byte-Written (bytes rule.path)
        (bytes-are_bytes rule.path (ground arith))

  decoded-rule_query :
      decoded (cut b'=' (rule_query rule)) ≡ some (bytes rule.method, bytes rule.path)
  unfolding rule_query
  decoded-rule_query =
      ap decoded (
        cut-append b'=' (query_escape rule.method) (escape_rule_path rule.path)
          (ground (arith, method-parts_nothing)))
      ∙ ap (λ m. some (m, decode plain (escape_rule_path rule.path))) decode-method
      ∙ ap (λ p. some (bytes rule.method, p)) decode-path

-- A reader of the query of the page (parts at the ampersands, a name and a value in each, both
-- percent-decoded) finds the rules it was built with, in their order: for each the bytes of its
-- method and of its path, whatever characters they have. There is at least one rule.
pub read_query-query :
    (rule : AccessRule) (rules : List AccessRule)
    → all is_spelled (rule ∷ rules) ≡ true
    → read_query (query (rule ∷ rules))
      ≡ map (λ r. some (bytes r.method, bytes r.path)) (rule ∷ rules)
unfolding query
read_query-query rule [] h =
    ap (map (λ part. decoded (cut b'=' part)))
      (split-lacks b'&' (rule_query rule) (lacks-rule_query rule (ground arith)))
    ∙ ap (λ d. d ∷ []) (decoded-rule_query rule (ground arith))
read_query-query rule (next ∷ rules) h =
    let read = λ (part : Text). decoded (cut b'=' part) in
    ap (map read) (
      split-append b'&' (rule_query rule) (query (next ∷ rules))
      ∙ ap (λ l. l ++ split b'&' (query (next ∷ rules)))
          (split-lacks b'&' (rule_query rule) (lacks-rule_query rule (ground arith))))
    ∙ ap (λ d. d ∷ read_query (query (next ∷ rules))) (decoded-rule_query rule (ground arith))
    ∙ ap (◌∷◌ (some (bytes rule.method, bytes rule.path)))
        (read_query-query next rules (ground arith))
