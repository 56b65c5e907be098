-- ===== src/Http/Access.antt =====
-- internal/httpapi/auth.go and csrf.go: which requests reach a handler. A request has its path as it
-- is escaped and its query as it is sent, each a text of bytes; a header that is missing is an empty
-- text, and the session cookie may be missing.
pub mod Safety
pub mod Redirect
pub mod Mutations
use keymaker.Prelude.{
  Bool, true, false, not, ◌&&◌, Option, none, some, List, [], ◌∷◌, ◌==◌, nat_equality,
  list_equality, if◌then◌else◌, any,
}
use keymaker.Text.{Text, text, has_prefix}
use keymaker.Url.{path_unescape, parse_query, first_value, del, encode}
use keymaker.Http.Routing.{Endpoint, Routed, reached, moved, not_allowed, mux, has_pattern}

pub record Server : Type 0 where
  pub token : Text
  pub csrf : Text
  pub secure_cookie : Bool

pub record Request : Type 0 where
  pub method : Text
  pub escaped : Text
  pub raw_query : Text
  pub session : Option Text
  pub csrf : Text

pub record Cookie : Type 0 where
  pub name : Text
  pub value : Text
  pub path : Text
  pub http_only : Bool
  pub secure : Bool
  pub same_site_strict : Bool

-- The address of the redirect, which `RequestURI` escapes again.
pub record Target : Type 0 where
  pub path : Text
  pub raw_query : Text

-- A handler runs with the value of its wildcard, the router redirects to the clean path or refuses
-- the method, the session is granted with a redirect, or the request is refused with 401 or 403.
pub data Outcome : Type 0 where
  served : Endpoint → Text → Outcome
  path_cleaned : Text → Outcome
  method_refused unauthorized missing_token : Outcome
  granted : Cookie → Target → Outcome

abbrev pub health_path : Text
health_path = text "/healthz"

abbrev pub session_cookie : Text
session_cookie = text "keymaker_session"

abbrev pub token_parameter : Text
token_parameter = text "token"

abbrev pub safe_methods : List Text
safe_methods = text "GET" ∷ text "HEAD" ∷ text "OPTIONS" ∷ []

-- `r.URL.Path`
unfoldable pub path_of : Request → Text
path_of r = path_unescape r.escaped

abbrev pub answer : Routed → Outcome
answer (reached endpoint value) = served endpoint value
answer (moved path matching) = path_cleaned path
answer not_allowed = method_refused

-- `mux.ServeHTTP`
unfoldable pub route : Request → Outcome
unfolding mux
route r = answer (mux r.method r.escaped)

unfoldable pub guard_mutations : Server → Request → Outcome
unfolding route
guard_mutations s r =
    if any (λ m. m == r.method) safe_methods
    then route r
    else if not (has_pattern (mux r.method r.escaped))
    then route r
    else if not (r.csrf == s.csrf)
    then missing_token
    else route r

unfoldable pub redirect_path : Text → Text
redirect_path path =
    if has_prefix path (text "/")
      && not (has_prefix path (text "//"))
      && not (has_prefix path (text "/\\"))
    then path
    else text "/"

-- What the session is granted by, and where the redirect leads.
unfoldable pub cookie_of : Server → Cookie
cookie_of s = record {
  name = session_cookie;
  value = s.token;
  path = text "/";
  http_only = true;
  secure = s.secure_cookie;
  same_site_strict = true;
}

unfoldable pub target_of : Request → Target
unfolding redirect_path path_of
target_of r = record {
  path = redirect_path (path_of r);
  raw_query = encode (del token_parameter (parse_query r.raw_query));
}

unfoldable pub grant : Server → Request → Outcome
unfolding cookie_of target_of
grant s r = granted (cookie_of s) (target_of r)

abbrev pub holds_session : Server → Option Text → Bool
holds_session s none = false
holds_session s (some value) = value == s.token

-- `r.URL.Query().Get(tokenParameter)`
unfoldable pub token_of : Request → Text
token_of r = first_value token_parameter (parse_query r.raw_query)

-- `authenticate`, around `guardMutations`.
unfoldable pub authenticate : Server → Request → Outcome
unfolding guard_mutations grant path_of token_of
authenticate s r =
    if path_of r == health_path
    then guard_mutations s r
    else if holds_session s r.session
    then guard_mutations s r
    else if token_of r == s.token
    then grant s r
    else unauthorized
