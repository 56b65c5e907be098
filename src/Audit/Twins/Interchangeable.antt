-- ===== src/Audit/Twins/Interchangeable.antt =====
-- internal/audit/audit.go: credentials of one fingerprint can do the same.
use keymaker.Prelude.{
  ltb, ℕ, ℤ, Bool, true, false, not, ◌&&◌, Option, none, some, List, [], ◌∷◌, ◌++◌, map, ◌≡◌, ◌≢◌,
  refl, sym, ap, ◌∙◌, arith, ◌==◌, nat_equality, list_equality, beq_of_ne, all, any, filter,
  filter-append, filter-all, filter-none, all-map, all-sort, all_of_In, any-sort, any-map, any-ext,
  all_of_In,
}
use mathlib.Core.List.{append-nil}
use keymaker.Text.{Text, split, join, to_upper, fold, upper, equal_fold, less, cut}
use keymaker.Text.Splitting.{lacks, split-append, split-lacks, filter-split-join, cut-append}
use keymaker.Strconv.{format_int, parse_int}
use keymaker.Strconv.RoundTrip.{IsInt64, parse_int-format_int}
use keymaker.Netip.{IpPrefix}
use keymaker.Credential.{AccessRule, Credential, match_path, permits, permits_rules}
use keymaker.Audit.Twins.{newline, rule_line, sort_texts, fingerprint}
use keymaker.Audit.Twins.Lines.{
  spaced, bare, are_ascii, is_one_line, all-format_int, lacks_of_apart, lacks-rule_line,
  spaced-rule_line, lacks-to_upper,
}

-- What the printing of a block is known to do: it prints something, with no space or line break.
abbrev pub is_word : Text → Bool
is_word t = bare t && lacks 10 t

abbrev pub PrintsWords : (IpPrefix → Text) → Type 0
PrintsWords print = (p : IpPrefix) → is_word (print p) ≡ true

abbrev rule_lines : (ℕ → ℕ) → Credential → List Text
rule_lines beyond c = sort_texts (map (rule_line beyond) c.rules)

abbrev id_line : Credential → Text
id_line c = format_int c.application.id

parse_int-nil : parse_int [] ≡ none
unfolding parse_int
parse_int-nil = refl

format_int-ne-nil : (id : ℤ) → IsInt64 id → format_int id ≢ []
format_int-ne-nil id r e = cc (parse_int-format_int id r, ap parse_int e, parse_int-nil)

all-true {ℓ} : {A : Type ℓ} (xs : List A) → all (λ x. true) xs ≡ true
all-true [] = refl
all-true (x ∷ xs) = all-true xs

permits_parts : Text → Text → Option (Text × Text) → Bool
permits_parts method path none = false
permits_parts method path (some (m, p)) = equal_fold m method && match_path p path

some-eq {ℓ} : {A : Type ℓ} {a b : A} → some a ≡ some b → a ≡ b
some-eq e = cc

all-weaken {ℓ} :
    {A : Type ℓ} (p q : A → Bool) (xs : List A)
    → ((x : A) → p x ≡ true → q x ≡ true)
    → all p xs ≡ true
    → all q xs ≡ true
all-weaken p q [] e h = refl
all-weaken p q (x ∷ xs) e h = ground (arith, e x, all-weaken p q xs e)

-- What a line of a rule permits.
permits_line : Text → Text → Text → Bool
permits_line method path line = permits_parts method path (cut b' ' line)

fold-upper : (beyond : ℕ → ℕ) (c : ℕ) → ltb c 128 ≡ true → fold (upper beyond c) ≡ fold c
unfolding fold upper
fold-upper beyond c ascii = ground arith

equal_fold-to_upper :
    (beyond : ℕ → ℕ) (s t : Text)
    → are_ascii s ≡ true
    → equal_fold (to_upper beyond s) t ≡ equal_fold s t
unfolding to_upper equal_fold
equal_fold-to_upper beyond [] t ascii = refl
equal_fold-to_upper beyond (c ∷ s) [] ascii = refl
equal_fold-to_upper beyond (c ∷ s) (d ∷ t) ascii =
    rw (fold-upper beyond c (ground arith))
      (ap (λ b. fold c == fold d && b) (equal_fold-to_upper beyond s t (ground arith)))

permits_line-rule_line :
    (beyond : ℕ → ℕ) (method path : Text) (rule : AccessRule)
    → is_one_line rule ≡ true
    → permits_line method path (rule_line beyond rule)
      ≡ (equal_fold rule.method method && match_path rule.path path)
unfolding permits_line permits_parts rule_line
permits_line-rule_line beyond method path rule h =
    let one = lacks-to_upper beyond b' ' rule.method refl (ground arith) (ground arith) in
    ap (permits_parts method path) (cut-append b' ' (to_upper beyond rule.method) rule.path one)
    ∙ ap (λ b. b && match_path rule.path path)
        (equal_fold-to_upper beyond rule.method method (ground arith))

permits-rule_lines :
    (beyond : ℕ → ℕ) (c : Credential) (method path : Text)
    → all is_one_line c.rules ≡ true
    → permits c method path ≡ any (permits_line method path) (rule_lines beyond c)
unfolding permits permits_rules
permits-rule_lines beyond c method path plain =
    any-ext (λ rule. equal_fold rule.method method && match_path rule.path path)
      (λ rule. permits_line method path (rule_line beyond rule)) c.rules
      (λ rule m.
        sym (permits_line-rule_line beyond method path rule (all_of_In is_one_line m plain)))
    ∙ sym (any-map (permits_line method path) (rule_line beyond) c.rules)
    ∙ sym (any-sort (λ s t. less s t) (permits_line method path) (map (rule_line beyond) c.rules))

module _ (beyond : ℕ → ℕ) (print : IpPrefix → Text) (words : PrintsWords print) where
  abbrev address_lines : Credential → List Text
  address_lines c = sort_texts (map print c.allowed_ips)

  -- The lines of a fingerprint that a test keeps.
  abbrev kept : (Text → Bool) → Credential → List Text
  kept q c = filter q (split 10 (fingerprint beyond print c))

  module _ (c : Credential) (plain : all is_one_line c.rules ≡ true) where
    whole_rules : all (lacks 10) (rule_lines beyond c) ≡ true
    whole_rules =
        all-sort (λ s t. less s t) (lacks 10) (map (rule_line beyond) c.rules)
        ∙ all-map is_one_line (lacks 10) (rule_line beyond) c.rules (lacks-rule_line beyond) plain

    whole_addresses : all (lacks 10) (address_lines c) ≡ true
    whole_addresses =
        all-sort (λ s t. less s t) (lacks 10) (map print c.allowed_ips)
        ∙ all-map (λ p. true) (lacks 10) print c.allowed_ips (λ p t. ground (arith, words p))
            (all-true c.allowed_ips)

    kept_lines :
        (q : Text → Bool)
        → q [] ≡ false
        → kept q c
          ≡ filter q (id_line c ∷ [])
            ++ (filter q (rule_lines beyond c) ++ filter q (address_lines c))
    unfolding fingerprint
    kept_lines q e =
        let r = join (rule_lines beyond c) newline in
        let a = join (address_lines c) newline in
        let whole = (lacks_of_apart (id_line c) (all-format_int c.application.id)).1 in
        ap (filter q) (split-append 10 (id_line c) (r ++ (10 ∷ a)))
        ∙ filter-append q (split 10 (id_line c)) (split 10 (r ++ (10 ∷ a)))
        ∙ ap (λ l. filter q l ++ filter q (split 10 (r ++ (10 ∷ a))))
            (split-lacks 10 (id_line c) whole)
        ∙ ap (λ l. filter q (id_line c ∷ []) ++ filter q l) (split-append 10 r a)
        ∙ ap (◌++◌ (filter q (id_line c ∷ []))) (
            filter-append q (split 10 r) (split 10 a)
            ∙ ap (λ l. l ++ filter q (split 10 a))
                (filter-split-join q 10 (rule_lines beyond c) e whole_rules)
            ∙ ap (◌++◌ (filter q (rule_lines beyond c)))
                (filter-split-join q 10 (address_lines c) e whole_addresses))

    bare_id : IsInt64 c.application.id → bare (id_line c) ≡ true
    bare_id r =
        let h = (lacks_of_apart (id_line c) (all-format_int c.application.id)).0 in
        let n = beq_of_ne (id_line c) [] (format_int-ne-nil c.application.id r) in ground arith

    spaced_rules : all spaced (rule_lines beyond c) ≡ true
    spaced_rules =
        all-sort (λ s t. less s t) spaced (map (rule_line beyond) c.rules)
        ∙ all-map (λ rule. true) spaced (rule_line beyond) c.rules
            (λ rule t. spaced-rule_line beyond rule) (all-true c.rules)

    bare_addresses : all bare (address_lines c) ≡ true
    bare_addresses =
        all-sort (λ s t. less s t) bare (map print c.allowed_ips)
        ∙ all-map (λ p. true) bare print c.allowed_ips (λ p t. ground (arith, words p))
            (all-true c.allowed_ips)

    kept_rules : kept spaced c ≡ rule_lines beyond c
    kept_rules =
        let h = (lacks_of_apart (id_line c) (all-format_int c.application.id)).0 in
        kept_lines spaced refl
        ∙ ap (λ l. l ++ (filter spaced (rule_lines beyond c) ++ filter spaced (address_lines c)))
            (filter-none spaced (id_line c ∷ []) (ground arith))
        ∙ ap (λ l. filter spaced (rule_lines beyond c) ++ l)
            (filter-none spaced (address_lines c) (
              all-weaken bare (λ t. not (spaced t)) (address_lines c) (λ t e. ground arith)
                bare_addresses))
        ∙ append-nil (filter spaced (rule_lines beyond c))
        ∙ filter-all spaced (rule_lines beyond c) spaced_rules

    kept_addresses : IsInt64 c.application.id → kept bare c ≡ id_line c ∷ address_lines c
    kept_addresses r =
        kept_lines bare refl
        ∙ ap (λ l. l ++ (filter bare (rule_lines beyond c) ++ filter bare (address_lines c)))
            (filter-all bare (id_line c ∷ []) (ground (arith, bare_id r)))
        ∙ ap (λ l. id_line c ∷ (l ++ filter bare (address_lines c)))
            (filter-none bare (rule_lines beyond c) (
              all-weaken spaced (λ t. not (bare t)) (rule_lines beyond c) (λ t e. ground arith)
                spaced_rules))
        ∙ ap (◌∷◌ (id_line c)) (filter-all bare (address_lines c) bare_addresses)

  -- Two credentials of one fingerprint have one application, list blocks that print as the same
  -- texts, and permit the same calls: whatever one of them can do, the other can do. Their rules
  -- spell no line break, their methods are of ASCII characters but the space, the identifiers of the applications are int64, and
  -- a block prints as a word.
  pub fingerprint-Interchangeable :
      (c d : Credential)
      → all is_one_line c.rules ≡ true
      → all is_one_line d.rules ≡ true
      → IsInt64 c.application.id
      → IsInt64 d.application.id
      → fingerprint beyond print c ≡ fingerprint beyond print d
      → (c.application.id ≡ d.application.id)
        × ((from : Text → Bool)
            → any from (map print c.allowed_ips) ≡ any from (map print d.allowed_ips))
        × ((method path : Text) → permits c method path ≡ permits d method path)
  fingerprint-Interchangeable c d p q r s e =
      let same = ap (λ f. filter spaced (split 10 f)) e in
      let rules = sym (kept_rules c p) ∙ same ∙ kept_rules d q in
      let rest =
        sym (kept_addresses c p r) ∙ ap (λ f. filter bare (split 10 f)) e ∙ kept_addresses d q s in
      let ids : id_line c ≡ id_line d = cc rest in
      let addresses : address_lines c ≡ address_lines d = cc rest in
      let sorted = λ (l : List Text) (from : Text → Bool). any-sort (λ s t. less s t) from l in
      (
        some-eq (
            sym (parse_int-format_int c.application.id r)
            ∙ ap parse_int ids
            ∙ parse_int-format_int d.application.id s),
        (λ from.
            sym (sorted (map print c.allowed_ips) from)
            ∙ ap (any from) addresses
            ∙ sorted (map print d.allowed_ips) from),
        (λ method path.
            permits-rule_lines beyond c method path p
            ∙ ap (any (permits_line method path)) rules
            ∙ sym (permits-rule_lines beyond d method path q)),
      )
