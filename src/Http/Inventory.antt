-- ===== src/Http/Inventory.antt =====
-- internal/httpapi/inventory.go: the list of credentials with what the audit says of each, its
-- summary and its order. What the handler reads besides the API is its `Setting`: the endpoint shown,
-- whether an address may be looked up, the time, and how net/netip prints a block. Two credentials
-- of one identifier and one last use compare equal; which goes first is the sorting's own.
pub mod Listing
pub mod Counts
pub mod Refusals
use Prim.Native.Nat.{compare, Ordering}
use keymaker.Prelude.{
  ℕ, ℤ, pos, negsuc, Bool, true, false, not, ◌&&◌, Option, none, some, List, [], ◌∷◌, ◌++◌, map,
  ◌==◌, int_equality, if◌then◌else◌, length, filter, sort,
}
use keymaker.Text.{Text}
use keymaker.Netip.{IpPrefix}
use keymaker.Failure.{Result}
use keymaker.Credential.{Status, AccessRule, Application, Instant, is_zero, Credential}
use keymaker.Audit.Branches.{Code, wider_than_needed, same_as_another}
use keymaker.Audit.{Finding, caution, when, examines, inspect, surplus, summarise}
use keymaker.Audit.Twins.{twins}
use keymaker.Ovh.Client.{Api, Calls, ◌>>=◌, pure}
use keymaker.Ovh.Paths.{usable_rules}
use keymaker.Legacy.FanOut.{Scheduler}
use keymaker.Legacy.Provider
use keymaker.Http.Offers.{no_reason, Offer, revocation_offer, address_offer}
use keymaker.Http.Replies.{Reply, answered, fail_inventory}
use keymaker.Http.Sweep.{Listed, listed, unlisted, read_listing, known_current, identity_error}

pub record SummaryResponse : Type 0 where
  pub total : ℕ
  pub examined : ℕ
  pub unreadable : ℕ
  pub flagged : ℕ
  pub at_risk : ℕ
  pub counts : Code → ℕ

pub record RuleResponse : Type 0 where
  pub method : Text
  pub path : Text

-- `credentialResponse`; of `applicationResponse` it has the application, whose fields those are.
pub record CredentialResponse : Type 0 where
  pub id : ℤ
  pub self : Bool
  pub status : Status
  pub application : Application
  pub rules : List RuleResponse
  pub allowed_ips : List Text
  pub findings : List Finding
  pub unneeded : List RuleResponse
  pub revoke : Offer
  pub edit_addresses : Offer
  pub created_at : Option Instant
  pub expires_at : Option Instant
  pub last_used_at : Option Instant

pub record InventoryResponse : Type 0 where
  pub endpoint : Text
  pub current : Option ℤ
  pub summary : SummaryResponse
  pub credentials : List CredentialResponse

pub record Setting : Type 0 where
  pub endpoint : Text
  pub may_look_up : Bool
  pub now : Instant
  pub print : IpPrefix → Text
  -- The upper case of a letter beyond ASCII.
  pub upper_beyond : ℕ → ℕ

abbrev pub rule_response : AccessRule → RuleResponse
rule_response rule = record { method = rule.method; path = rule.path }

unfoldable pub rules_of : List AccessRule → List RuleResponse
rules_of = map rule_response

unfoldable pub optional : Instant → Option Instant
optional t = if is_zero t then none else some t

-- `current != nil && current.ID == c.ID`
unfoldable pub is_self : Option Credential → ℤ → Bool
is_self none id = false
is_self (some current) id = current.id == id

unfoldable pub describe :
    (IpPrefix → Text) → Credential → Option Credential → List Finding → Offer → CredentialResponse
unfolding rules_of optional is_self
describe print c current found offer = record {
  id = c.id;
  self = is_self current c.id;
  status = c.status;
  application = c.application;
  rules = rules_of c.rules;
  allowed_ips = map print c.allowed_ips;
  findings = found;
  unneeded = [];
  revoke = offer;
  edit_addresses = record { allowed = false; reason = no_reason };
  created_at = optional c.created_at;
  expires_at = optional c.expires_at;
  last_used_at = optional c.last_used_at;
}

unfoldable pub compare_use : Option Instant → Option Instant → Ordering
compare_use none none = Ordering.eq
compare_use none (some b) = Ordering.gt
compare_use (some a) none = Ordering.lt
compare_use (some a) (some b) = compare b a

-- `cmp.Compare` on int64
unfoldable pub compare_ids : ℤ → ℤ → Ordering
compare_ids (pos a) (pos b) = compare a b
compare_ids (pos a) (negsuc b) = Ordering.gt
compare_ids (negsuc a) (pos b) = Ordering.lt
compare_ids (negsuc a) (negsuc b) = compare b a

-- The comparison that the list is sorted by.
unfoldable pub compare_credentials : CredentialResponse → CredentialResponse → Ordering
unfolding compare_use compare_ids
compare_credentials a b = elim (compare_use a.last_used_at b.last_used_at) [
  | Ordering.lt ↦ Ordering.lt
  | Ordering.eq ↦ compare_ids b.id a.id
  | Ordering.gt ↦ Ordering.gt
]

-- `a` may stand before `b`.
unfoldable pub may_precede : CredentialResponse → CredentialResponse → Bool
unfolding compare_credentials
may_precede a b = elim (compare_credentials a b) [ Ordering.gt ↦ false | _ ↦ true ]

unfoldable pub summarise_response : List Credential → List (List Finding) → ℕ → SummaryResponse
summarise_response credentials findings unreadable =
    let counted = summarise findings in
    record {
      total = length credentials;
      examined = length (filter examines credentials);
      unreadable = unreadable;
      flagged = counted.flagged;
      at_risk = counted.at_risk;
      counts = counted.counts;
    }

abbrev pub is_empty {ℓ} : {A : Type ℓ} → List A → Bool
is_empty [] = true
is_empty (x ∷ xs) = false

-- The rules of the credential in use that the program never asks for; of any other, none.
unfoldable pub unneeded : Option Credential → Credential → List AccessRule
unneeded current c = if is_self current c.id then surplus c usable_rules else []

module _ (set : Setting) (credentials : List Credential) (current : Option Credential) where
  unfoldable pub found : Credential → List Finding
  found c =
      inspect c set.now
      ++ (when (twins set.upper_beyond set.print credentials c.id) same_as_another caution
          ++ when (not (is_empty (unneeded current c))) wider_than_needed caution)

  -- The body of the loop.
  unfoldable pub described : Credential → CredentialResponse
  unfolding describe rules_of
  described c = record (describe set.print c current (found c) (revocation_offer current c)) {
    unneeded = rules_of (unneeded current c);
    edit_addresses = address_offer current c set.may_look_up;
  }

abbrev pub current_id : Option Credential → Option ℤ
current_id none = none
current_id (some c) = some c.id

unfoldable pub inventory_response :
    Setting → Option Credential → List Credential → ℕ → InventoryResponse
unfolding described found summarise_response may_precede
inventory_response set current credentials n = record {
  endpoint = set.endpoint;
  current = current_id current;
  summary = summarise_response credentials (map (found set credentials current) credentials) n;
  credentials = sort (λ a b. may_precede a b) (map (described set credentials current) credentials);
}

unfoldable pub inventory_listed : Setting → Result Credential → Listed → Reply InventoryResponse
unfolding inventory_response
inventory_listed set own (unlisted e) = fail_inventory e (identity_error own)
inventory_listed set own (listed credentials n) =
    answered (inventory_response set (known_current own) credentials n)

-- `GET /api/inventory`
unfoldable pub inventory : Setting → Api → Scheduler → Calls (Reply InventoryResponse)
unfolding inventory_listed
inventory set api s = do
  own ← Provider.current api s
  listing ← Provider.list api s
  pure (inventory_listed set own (read_listing listing))
