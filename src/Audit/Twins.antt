-- ===== src/Audit/Twins.antt =====
-- internal/audit/audit.go: Twins and fingerprint. The map from fingerprints to identifiers is a
-- function with the list of its keys; how a block is printed is net/netip's, and the upper case of a
-- letter beyond ASCII is unicode's, both arguments.
pub mod Classes
pub mod Lines
pub mod Interchangeable
use keymaker.Prelude.{
  ℕ, ℤ, pos, Bool, true, false, not, ◌&&◌, ◌||◌, List, [], ◌∷◌, ◌++◌, map, ◌==◌, nat_equality,
  int_equality, list_equality, leb, if◌then◌else◌, any, length, sort,
}
use keymaker.Text.{Text, text, to_upper, join, less}
use keymaker.Strconv.{format_int}
use keymaker.Netip.{IpPrefix}
use keymaker.Credential.{AccessRule, Credential}
use keymaker.Audit.{examines}

abbrev pub newline : Text
newline = 10 ∷ []

unfoldable pub rule_line : (ℕ → ℕ) → AccessRule → Text
rule_line beyond rule = to_upper beyond rule.method ++ (b' ' ∷ rule.path)

abbrev pub sort_texts : List Text → List Text
sort_texts = sort (λ s t. less s t)

unfoldable pub fingerprint : (ℕ → ℕ) → (IpPrefix → Text) → Credential → Text
unfolding format_int rule_line join less
fingerprint beyond print c =
    let rules = sort_texts (map (rule_line beyond) c.rules) in
    let addresses = sort_texts (map print c.allowed_ips) in
    format_int c.application.id ++ (10 ∷ (join rules newline ++ (10 ∷ join addresses newline)))

pub record Seen : Type 0 where
  pub ids : Text → List ℤ
  pub keys : List Text

abbrev pub nothing_seen : Seen
nothing_seen = record { ids = λ k. []; keys = [] }

-- `seen[key] = append(seen[key], id)`
unfoldable pub see : Text → ℤ → Seen → Seen
see key id seen = record {
  ids = λ k. if k == key then seen.ids k ++ (id ∷ []) else seen.ids k;
  keys = if any (λ k. k == key) seen.keys then seen.keys else seen.keys ++ (key ∷ []);
}

-- The test of the first loop, turned round.
unfoldable pub comparable : Credential → Bool
comparable c = examines c && not (c.application.id == pos 0)

unfoldable pub see_all : (ℕ → ℕ) → (IpPrefix → Text) → List Credential → Seen → Seen
unfolding see fingerprint comparable
see_all beyond print [] seen = seen
see_all beyond print (c ∷ cs) seen =
    see_all beyond print cs
      (if comparable c then see (fingerprint beyond print c) c.id seen else seen)

-- The second loop: whether it marks the identifier.
unfoldable pub marked : Seen → ℤ → Bool
marked seen id =
    any (λ key. leb 2 (length (seen.ids key)) && any (λ i. i == id) (seen.ids key)) seen.keys

unfoldable pub twins : (ℕ → ℕ) → (IpPrefix → Text) → List Credential → ℤ → Bool
unfolding see_all marked
twins beyond print credentials id = marked (see_all beyond print credentials nothing_seen) id
