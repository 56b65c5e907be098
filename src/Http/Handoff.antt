-- ===== src/Http/Handoff.antt =====
-- internal/httpapi/handoff.go: the check of the rules sent from the page, and the page that issues a
-- key with them. A body that the decoder refuses is `none`; `beyond` is the upper case of the letters
-- beyond ASCII.
pub mod Rules
pub mod Page
use keymaker.Prelude.{
  ℕ, Bool, true, false, not, ◌&&◌, ◌||◌, Option, none, some, List, [], ◌∷◌, ◌==◌, nat_equality,
  list_equality, if◌then◌else◌, any,
}
use keymaker.Text.{Text, text, trim_space, to_upper, has_prefix}
use keymaker.Credential.{AccessRule}
use keymaker.Http.Replies.{
  Reply, answered, no_content, refused, fail, code_malformed_rule, code_no_rules,
}
use keymaker.Failure.{Result, ok, err}
use keymaker.Ovh.TokenUrl.{Hosts, create_token_url}

abbrev pub methods_allowed : List Text
methods_allowed = text "DELETE" ∷ text "GET" ∷ text "PATCH" ∷ text "POST" ∷ text "PUT" ∷ []

unfoldable pub cleaned : (ℕ → ℕ) → AccessRule → AccessRule
cleaned beyond rule = record {
  method = to_upper beyond (trim_space rule.method);
  path = trim_space rule.path;
}

abbrev pub acceptable : AccessRule → Bool
acceptable rule = any (λ m. m == rule.method) methods_allowed && has_prefix rule.path (text "/")

abbrev with_rule : AccessRule → Reply (List AccessRule) → Reply (List AccessRule)
with_rule rule (answered rules) = answered (rule ∷ rules)
with_rule rule no_content = no_content
with_rule rule (refused status code) = refused status code

unfoldable pub read_each : (ℕ → ℕ) → List AccessRule → Reply (List AccessRule)
unfolding cleaned
read_each beyond [] = answered []
read_each beyond (rule ∷ sent) =
    let rest = with_rule (cleaned beyond rule) (read_each beyond sent) in
    if not (acceptable (cleaned beyond rule)) then refused 400 code_malformed_rule else rest

unfoldable pub read_rules : (ℕ → ℕ) → List AccessRule → Reply (List AccessRule)
unfolding read_each
read_rules beyond [] = refused 400 code_no_rules
read_rules beyond (rule ∷ sent) = read_each beyond (rule ∷ sent)

abbrev pub page_or_failure : Result Text → Reply Text
page_or_failure (ok page) = answered page
page_or_failure (err e) = fail e

module _ (beyond : ℕ → ℕ) (hosts : Hosts) (endpoint : Text) where
  abbrev pub page_of : Reply (List AccessRule) → Reply Text
  page_of (answered rules) = page_or_failure (create_token_url hosts endpoint rules)
  page_of no_content = no_content
  page_of (refused status code) = refused status code

  -- `POST /api/handoff`
  unfoldable pub handoff : Option (List AccessRule) → Reply Text
  unfolding read_rules
  handoff none = refused 400 code_malformed_rule
  handoff (some sent) = page_of (read_rules beyond sent)
