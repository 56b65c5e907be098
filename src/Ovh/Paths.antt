-- ===== src/Ovh/Paths.antt =====
-- internal/ovh/api.go: the routes of the calls about one credential or one application, and the
-- rules a management key is issued with.
use keymaker.Prelude.{ℤ, List, [], ◌∷◌, ◌++◌}
use keymaker.Text.{Text, text}
use keymaker.Strconv.{format_int}
use keymaker.Credential.{AccessRule}
use keymaker.Ovh.Client.{Call}

unfoldable pub credential_path : ℤ → Text
unfolding format_int
credential_path id = text "/me/api/credential/" ++ format_int id

unfoldable pub application_path : ℤ → Text
unfolding format_int
application_path id = text "/me/api/application/" ++ format_int id

abbrev rule : Text → Text → AccessRule
rule method path = record { method = method; path = path }

unfoldable pub management_rules : List AccessRule
management_rules =
    rule (text "GET") (text "/me/api/credential")
    ∷ rule (text "GET") (text "/me/api/credential/*")
    ∷ rule (text "GET") (text "/me/api/application")
    ∷ rule (text "GET") (text "/me/api/application/*")
    ∷ rule (text "DELETE") (text "/me/api/credential/*")
    ∷ rule (text "DELETE") (text "/me/api/application/*")
    ∷ []

unfoldable pub address_rule : AccessRule
address_rule = rule (text "PUT") (text "/me/api/credential/*")

unfoldable pub usable_rules : List AccessRule
unfolding management_rules address_rule
usable_rules = management_rules ++ address_rule ∷ []

-- The method and the path that the client sends each call with.
pub record Route : Type 0 where
  pub method : Text
  pub path : Text

abbrev route : Text → Text → Route
route method path = record { method = method; path = path }

unfoldable pub call_route : Call → Route
unfolding credential_path application_path
call_route Call.current_credential = route (text "GET") (text "/auth/currentCredential")
call_route Call.list_credential_ids = route (text "GET") (text "/me/api/credential")
call_route (Call.credential id) = route (text "GET") (credential_path id)
call_route (Call.credential_application id) =
    route (text "GET") (credential_path id ++ text "/application")
call_route (Call.delete_credential id) = route (text "DELETE") (credential_path id)
call_route (Call.set_allowed_ips id allowed) = route (text "PUT") (credential_path id)
call_route Call.logout = route (text "POST") (text "/auth/logout")
call_route Call.list_application_ids = route (text "GET") (text "/me/api/application")
call_route (Call.application id) = route (text "GET") (application_path id)
call_route (Call.delete_application id) = route (text "DELETE") (application_path id)
