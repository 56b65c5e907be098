-- ===== src/Ovh/Wire.antt =====
-- internal/ovh/wire.go, and parsePrefix of api.go: what the API answers, as the JSON decoder makes it,
-- read into the types of the program. The two parsers of net/netip are given.
pub mod Blocks
use keymaker.Prelude.{
  ℤ, Bool, false, Option, none, some, List, [], ◌∷◌, map, ◌==◌, nat_equality, list_equality,
  if◌then◌else◌,
}
use keymaker.Text.{Text, text}
use keymaker.Netip.{IpPrefix, Parsing, prefix_from, bit_len}
use keymaker.Failure.{unread, context, Result, ok, err}
use keymaker.Credential.{
  Status, expired, pending_validation, refused, validated, other, AccessRule, Application, Instant,
  Credential,
}

pub record ApiRule : Type 0 where
  pub method : Text
  pub path : Text

pub record ApiCredential : Type 0 where
  pub credential_id : ℤ
  pub application_id : ℤ
  pub status : Text
  pub rules : List ApiRule
  pub allowed_ips : List Text
  pub creation : Instant
  pub expiration : Option Instant
  pub last_use : Option Instant
  pub ovh_support : Bool

pub record ApiApplication : Type 0 where
  pub application_id : ℤ
  pub application_key : Text
  pub name : Text
  pub description : Text
  pub status : Text

-- `credential.Status(s)`: the type is a string there, with these constants.
unfoldable pub read_status : Text → Status
read_status s =
    if s == text "expired"
    then expired
    else if s == text "pendingValidation"
    then pending_validation
    else if s == text "refused"
    then refused
    else if s == text "validated"
    then validated
    else other s

unfoldable pub optional_time : Option Instant → Instant
optional_time none = 0
optional_time (some t) = t

unfoldable pub application_to_domain : ApiApplication → Application
application_to_domain a = record {
  id = a.application_id;
  key = a.application_key;
  name = a.name;
  description = a.description;
  external = false;
  deleted = false;
}

abbrev read_rule : ApiRule → AccessRule
read_rule r = record { method = r.method; path = r.path }

-- `credential.Application{ID: id}`
abbrev pub unresolved : ℤ → Application
unresolved id = record {
  id = id;
  key = [];
  name = [];
  description = [];
  external = false;
  deleted = false;
}

abbrev pub onto_blocks : Option IpPrefix → Option (List IpPrefix) → Option (List IpPrefix)
onto_blocks none rest = none
onto_blocks (some p) none = none
onto_blocks (some p) (some ps) = some (p ∷ ps)

unfoldable pub credential_with : ApiCredential → List IpPrefix → Credential
unfolding read_status optional_time
credential_with c allowed = record {
  id = c.credential_id;
  application = unresolved c.application_id;
  status = read_status c.status;
  rules = map read_rule c.rules;
  allowed_ips = allowed;
  created_at = c.creation;
  expires_at = optional_time c.expiration;
  last_used_at = optional_time c.last_use;
  issued_by_support = c.ovh_support;
}

-- The credential with the blocks read, or the error of one that could not be.
unfoldable pub with_blocks : ApiCredential → Option (List IpPrefix) → Result Credential
unfolding credential_with
with_blocks c none = err (context (unread 0))
with_blocks c (some allowed) = ok (credential_with c allowed)

module _ (parsing : Parsing) where
  unfoldable pub parse_prefix : Text → Option IpPrefix
  parse_prefix value = elim (parsing.parse_prefix value) [
    | some prefix ↦ some prefix
    | none ↦ elim (parsing.parse_addr value) [
      | none ↦ none
      | some addr ↦ some (prefix_from addr (bit_len addr))
    ]
  ]

  -- The loop over the blocks; an unreadable one ends it.
  unfoldable pub parse_prefixes : List Text → Option (List IpPrefix)
  unfolding parse_prefix
  parse_prefixes [] = some []
  parse_prefixes (value ∷ values) = onto_blocks (parse_prefix value) (parse_prefixes values)

  unfoldable pub credential_to_domain : ApiCredential → Result Credential
  unfolding parse_prefixes with_blocks
  credential_to_domain c = with_blocks c (parse_prefixes c.allowed_ips)
