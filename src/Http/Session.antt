-- ===== src/Http/Session.antt =====
-- internal/httpapi/session.go, and of server.go the links that New resolves: what the page is told
-- before it can do anything.
use keymaker.Prelude.{Bool, List, [], map}
use keymaker.Text.{Text}
use keymaker.Failure.{Result, ok, err}
use keymaker.Audit.Branches.{Code, Branch, sensitive_branches}
use keymaker.Ovh.Paths.{management_rules, usable_rules}
use keymaker.Ovh.TokenUrl.{Hosts, create_token_url}
use keymaker.Http.Replies.{Reply, answered}

pub record SensitiveBranch : Type 0 where
  pub finding : Code
  pub path : Text
  pub methods : List Text

pub record SessionResponse : Type 0 where
  pub endpoint : Text
  pub version : Text
  pub csrf : Text
  pub address_lookup : Bool
  pub management_key_url : Text
  pub address_key_url : Text
  pub sensitive : List SensitiveBranch

pub record SessionOptions : Type 0 where
  pub endpoint : Text
  pub version : Text
  pub csrf : Text
  pub may_look_up : Bool

abbrev pub sensitive_branch : Branch → SensitiveBranch
sensitive_branch b = record { finding = b.finding; path = b.path; methods = b.methods }

unfoldable pub sensitive_response : List SensitiveBranch
unfolding sensitive_branches
sensitive_response = map sensitive_branch sensitive_branches

abbrev pub link_or_none : Result Text → Text
link_or_none (ok link) = link
link_or_none (err e) = []

module _ (hosts : Hosts) (endpoint : Text) where
  -- The links of `New`: an unknown endpoint leaves them empty.
  unfoldable pub management_key_url : Text
  management_key_url = link_or_none (create_token_url hosts endpoint management_rules)

  unfoldable pub address_key_url : Text
  address_key_url = link_or_none (create_token_url hosts endpoint usable_rules)

-- `GET /api/session`
unfoldable pub session : Hosts → SessionOptions → Reply SessionResponse
unfolding sensitive_response management_key_url address_key_url
session hosts options = answered (record {
  endpoint = options.endpoint;
  version = options.version;
  csrf = options.csrf;
  address_lookup = options.may_look_up;
  management_key_url = management_key_url hosts options.endpoint;
  address_key_url = address_key_url hosts options.endpoint;
  sensitive = sensitive_response;
})
