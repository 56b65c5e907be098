-- ===== src/Tests/Access.antt =====
-- Requests to the server, and a token.
use keymaker.Prelude.{
  ℕ, true, false, Option, none, some, List, [], ◌∷◌, ◌≡◌, refl, all, length, nat_equality,
  list_equality,
}
use keymaker.Text.{Text, text, split, cut, has_prefix, has_suffix, join, less}
use keymaker.Failure.{ok}
use keymaker.Ovh.TokenUrl.{each_byte, query_byte, percent}
use keymaker.Url.{
  parse_query, parse_parts, parse_part, query_unescape, path_unescape, first_value, del, encode,
  encode_pairs, by_name,
}
use keymaker.Http.Routing.{
  Endpoint, mux, find, parse_pattern, match_parts, clean_path, clean, clean_parts, path_segments,
}
use keymaker.Http.Access.{
  Server, Request, Cookie, Target, served, granted, missing_token, method_refused, path_cleaned,
  token_parameter, cookie_of, target_of, authenticate, guard_mutations, route, grant, path_of,
  token_of, redirect_path,
}
use keymaker.Http.Access.Safety.{IsGrant, IsEntitled, authenticate-safe}
use keymaker.Http.Access.Redirect.{has_name, authenticate-Forgets}
use keymaker.Http.Token.{encode_to_string, new_token}
use keymaker.Http.Token.RoundTrip.{is_letter, read_token, read_token-new_token}
use keymaker.Tests.World.{down}

abbrev server : Server
server = record { token = text "t"; csrf = text "c"; secure_cookie = false }

abbrev request : Text → Text → Text → Option Text → Text → Request
request method escaped query session csrf = record {
  method = method;
  escaped = escaped;
  raw_query = query;
  session = session;
  csrf = csrf;
}

-- A page of another site that names this one, and a token beside two other parameters.
abbrev arriving : Request
arriving = request (text "GET") (text "//elsewhere") (text "z=1&token=t&a=%C3%A9") none []

abbrev landing : Target
landing = record { path = text "/"; raw_query = text "a=%C3%A9&z=1" }

arriving_granted : authenticate server arriving ≡ granted (cookie_of server) landing
unfolding authenticate path_of path_unescape token_of first_value parse_query parse_parts parse_part
    query_unescape split cut grant target_of redirect_path has_prefix del encode encode_pairs
    each_byte query_byte percent less
arriving_granted = refl

authenticate-Forgets_example :
    (parse_query landing.raw_query ≡ by_name (del token_parameter (parse_query arriving.raw_query)))
    × (has_name token_parameter (parse_query landing.raw_query) ≡ false)
authenticate-Forgets_example =
    authenticate-Forgets server arriving (cookie_of server) landing refl arriving_granted

authenticate-safe_example :
    ((endpoint : Endpoint) (value : Text)
      → authenticate server arriving ≡ served endpoint value
      → IsEntitled server arriving endpoint)
    × ((cookie : Cookie) (target : Target)
        → authenticate server arriving ≡ granted cookie target
        → (token_of arriving ≡ server.token) × IsGrant server cookie target)
authenticate-safe_example = authenticate-safe server arriving

abbrev deletion : Text → Text → Request
deletion escaped csrf = request (text "DELETE") escaped [] (some (text "t")) csrf

revoking :
    authenticate server (deletion (text "/api/credentials/42") (text "c"))
    ≡ served Endpoint.revoke (text "42")
unfolding authenticate path_of path_unescape guard_mutations route mux find parse_pattern
    match_parts clean_path clean clean_parts path_segments split cut has_prefix has_suffix join
revoking = refl

unguarded : authenticate server (deletion (text "/api/credentials/42") (text "x")) ≡ missing_token
unfolding authenticate path_of path_unescape guard_mutations route mux find parse_pattern
    match_parts clean_path clean clean_parts path_segments split cut has_prefix has_suffix join
unguarded = refl

unclean :
    authenticate server (deletion (text "/api//credentials/./x/../42") (text "c"))
    ≡ path_cleaned (text "/api/credentials/42")
unfolding authenticate path_of path_unescape guard_mutations route mux find parse_pattern
    match_parts clean_path clean clean_parts path_segments split cut has_prefix has_suffix join
unclean = refl

wrong_method : authenticate server (deletion (text "/healthz") []) ≡ method_refused
unfolding authenticate path_of path_unescape guard_mutations route mux find parse_pattern
    match_parts clean_path clean clean_parts path_segments split cut has_prefix has_suffix join
wrong_method = refl

abbrev raw : List ℕ
raw = down 32

token_read : new_token (some raw) ≡ ok (encode_to_string raw)
unfolding new_token
token_read = refl

hello_token : encode_to_string (104 ∷ 105 ∷ 63 ∷ 255 ∷ []) ≡ text "aGk__w"
unfolding encode_to_string
hello_token = refl

read_token-new_token_example :
    (read_token (encode_to_string raw) ≡ raw)
    × (length raw ≡ 32 → length (encode_to_string raw) ≡ 43)
    × (all is_letter (encode_to_string raw) ≡ true)
read_token-new_token_example = read_token-new_token raw (encode_to_string raw) refl token_read
