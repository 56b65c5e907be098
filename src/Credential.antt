-- ===== src/Credential.antt =====
-- internal/credential/credential.go: the provider-neutral credential, the rules it carries, and
-- the test of a call against a rule. An instant is the number of nanoseconds since Go's zero time,
-- so `zero` is `IsZero`; an identifier is an int64, read as an integer.
pub mod Glob
pub mod Matching
use keymaker.Prelude.{
  ℕ, ℤ, ◌+◌, Bool, true, false, ◌&&◌, Option, none, some, List, [], ◌∷◌, ◌==◌, nat_equality,
  list_equality, if◌then◌else◌, length, any,
}
use keymaker.Text.{Text, text, drop, has_prefix, has_suffix, index, split, equal_fold}
use keymaker.Netip.{IpPrefix}

-- `Status` is a string in the source: the published values, and any other the API may send.
pub data Status : Type 0 where
  expired pending_validation refused validated : Status
  other : Text → Status

abbrev pub is_validated : Status → Bool
is_validated validated = true
is_validated _ = false

abbrev pub is_pending : Status → Bool
is_pending pending_validation = true
is_pending _ = false

pub record AccessRule : Type 0 where
  pub method : Text
  pub path : Text

pub record Application : Type 0 where
  pub id : ℤ
  pub key : Text
  pub name : Text
  pub description : Text
  pub external : Bool
  pub deleted : Bool

abbrev pub Instant : Type 0
Instant = ℕ

abbrev pub is_zero : Instant → Bool
is_zero t = t == 0

pub record Credential : Type 0 where
  pub id : ℤ
  pub application : Application
  pub status : Status
  pub rules : List AccessRule
  pub allowed_ips : List IpPrefix
  pub created_at : Instant
  pub expires_at : Instant
  pub last_used_at : Instant
  pub issued_by_support : Bool

abbrev pub star : ℕ
star = b'*'

-- The loop of `matchPath` over the segments behind the first, and the test of the last one.
unfoldable pub match_rest : List Text → Text → Bool
match_rest [] path = true
match_rest (last ∷ []) path = has_suffix path last
match_rest (segment ∷ next ∷ more) path = elim (index path segment) [
  | none ↦ false
  | some found ↦ match_rest (next ∷ more) (drop (found + length segment) path)
]

unfoldable pub match_segments : List Text → Text → Text → Bool
unfolding match_rest
match_segments [] pattern path = true
match_segments (only ∷ []) pattern path = pattern == path
match_segments (first ∷ next ∷ more) pattern path =
    if has_prefix path first then match_rest (next ∷ more) (drop (length first) path) else false

unfoldable pub match_path : Text → Text → Bool
match_path pattern path = match_segments (split star pattern) pattern path

unfoldable pub permits_rules : List AccessRule → Text → Text → Bool
permits_rules rules method path =
    any (λ rule. equal_fold rule.method method && match_path rule.path path) rules

-- `Credential.Permits`
unfoldable pub permits : Credential → Text → Text → Bool
unfolding permits_rules
permits c method path = permits_rules c.rules method path
