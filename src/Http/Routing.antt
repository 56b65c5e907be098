-- ===== src/Http/Routing.antt =====
-- internal/httpapi/server.go: the route_table that `New` registers, and the part of net/http's ServeMux
-- that chooses among them. A path stands as `EscapedPath` gives it, a text for its bytes. Only the
-- files stand under a pattern that ends in a slash, and it is the least specific one; no two of the
-- others match one request, so their order is of no matter.
pub mod Matching
pub mod Reaching
use mathlib.Core.List.{reverse}
use keymaker.Prelude.{
  Bool, true, false, not, ◌&&◌, ◌||◌, Option, none, some, List, [], ◌∷◌, ◌++◌, map, ◌==◌,
  nat_equality, list_equality, if◌then◌else◌, filter,
}
use keymaker.Text.{Text, text, drop, has_prefix, has_suffix, split, cut, join}
use keymaker.Url.{path_unescape}

pub data Endpoint : Type 0 where
  health session inventory catalogue applications delete_application : Endpoint
  delete_keyless_applications revoke revoke_inactive retire preview_addresses : Endpoint
  set_addresses public_address handoff assets : Endpoint

-- A pattern as it is registered, and its handler.
pub record Entry : Type 0 where
  pub pattern : Text
  pub endpoint : Endpoint

abbrev entry : Text → Endpoint → Entry
entry pattern endpoint = record { pattern = pattern; endpoint = endpoint }

abbrev pub route_table : List Entry
route_table =
    entry (text "GET /healthz") Endpoint.health
    ∷ entry (text "GET /api/session") Endpoint.session
    ∷ entry (text "GET /api/inventory") Endpoint.inventory
    ∷ entry (text "GET /api/catalogue") Endpoint.catalogue
    ∷ entry (text "GET /api/applications") Endpoint.applications
    ∷ entry (text "DELETE /api/applications/{id}") Endpoint.delete_application
    ∷ entry (text "POST /api/applications/keyless/deletions") Endpoint.delete_keyless_applications
    ∷ entry (text "DELETE /api/credentials/{id}") Endpoint.revoke
    ∷ entry (text "POST /api/credentials/inactive/revocations") Endpoint.revoke_inactive
    ∷ entry (text "POST /api/credentials/current/retirement") Endpoint.retire
    ∷ entry (text "POST /api/credentials/{id}/addresses/preview") Endpoint.preview_addresses
    ∷ entry (text "PUT /api/credentials/{id}/addresses") Endpoint.set_addresses
    ∷ entry (text "GET /api/address") Endpoint.public_address
    ∷ entry (text "POST /api/handoff") Endpoint.handoff
    ∷ entry (text "GET /") Endpoint.assets
    ∷ []

pub data Segment : Type 0 where
  literal : Text → Segment
  wildcard : Segment

pub record Pattern : Type 0 where
  pub method : Text
  pub segments : List Segment
  pub below : Bool

abbrev as_segment : Text → Segment
as_segment part = if has_prefix part (text "{") then wildcard else literal part

abbrev pattern_of : Text → List Text → Pattern
pattern_of method ([] ∷ []) = record { method = method; segments = []; below = true }
pattern_of method parts = record { method = method; segments = map as_segment parts; below = false }

-- `parsePattern`: a method, a space and a path.
unfoldable pub parse_pattern : Text → Pattern
unfolding split cut has_prefix
parse_pattern s = elim (cut b' ' s) [
  | none ↦ record { method = []; segments = []; below = false }
  | some (method, path) ↦ pattern_of method (split b'/' (drop 1 path))
]

-- The segments of a path: the slash at its end is one.
abbrev pub path_segment : Text → Text
path_segment [] = text "/"
path_segment (c ∷ s) = path_unescape (c ∷ s)

unfoldable pub path_segments : Text → List Text
path_segments path = map path_segment (split b'/' (drop 1 path))

abbrev pub or_value : Text → Option Text → Option Text
or_value value none = none
or_value value (some rest) = some value

-- What the wildcard of the pattern stands for, where the pattern matches; nothing where it has none.
unfoldable pub match_parts : List Segment → Bool → List Text → Option Text
match_parts [] true parts = some []
match_parts [] false [] = some []
match_parts [] false (part ∷ parts) = none
match_parts (segment ∷ segments) below [] = none
match_parts (literal l ∷ segments) below (part ∷ parts) =
    let rest = match_parts segments below parts in if l == part then rest else none
match_parts (wildcard ∷ segments) below (part ∷ parts) =
    let rest = match_parts segments below parts in
    if part == text "/" then none else or_value part rest

-- A pattern for GET answers HEAD too.
abbrev pub allows : Text → Text → Bool
allows pattern method = pattern == method || (pattern == text "GET" && method == text "HEAD")

pub data Match : Type 0 where
  matched : Endpoint → Text → Match
  unmatched : Match

abbrev pub prefer : Option Text → Bool → Endpoint → Match → Match
prefer (some value) true endpoint rest = matched endpoint value
prefer (some value) false endpoint rest = rest
prefer none allowed endpoint rest = rest

unfoldable pub find : List Entry → Text → List Text → Match
unfolding parse_pattern match_parts
find [] method parts = unmatched
find (e ∷ entries) method parts =
    let p = parse_pattern e.pattern in
    prefer (match_parts p.segments p.below parts) (allows p.method method) e.endpoint
      (find entries method parts)

abbrev pop : List Text → List Text
pop [] = []
pop (part ∷ stack) = stack

-- The parts of `path.Clean` on a path from the root, the last one first.
unfoldable pub clean_parts : List Text → List Text → List Text
clean_parts stack [] = stack
clean_parts stack (part ∷ parts) =
    clean_parts
      (if part == [] || part == text "."
        then stack
        else if part == text ".."
        then pop stack
        else part ∷ stack)
      parts

abbrev pub rooted : Text → Text
rooted path = if has_prefix path (text "/") then path else b'/' ∷ path

-- `path.Clean` from the root.
unfoldable pub clean : Text → Text
unfolding clean_parts
clean path = b'/' ∷ join (reverse (clean_parts [] (split b'/' (drop 1 path)))) (text "/")

-- `cleanPath`: the slash at the end stays.
unfoldable pub clean_path : Text → Text
unfolding clean
clean_path path =
    let whole = rooted path in
    let cleaned = clean whole in
    if path == []
    then text "/"
    else if has_suffix whole (text "/") && not (cleaned == text "/")
    then cleaned ++ text "/"
    else cleaned

-- What the router makes of a request: a handler with the value of its wildcard, the same path
-- without its needless parts (and whether a pattern matches there), or a refusal of the method.
pub data Routed : Type 0 where
  reached : Endpoint → Text → Routed
  moved : Text → Bool → Routed
  not_allowed : Routed

abbrev pub matches_any : Match → Bool
matches_any (matched endpoint value) = true
matches_any unmatched = false

abbrev pub routed : Match → Routed
routed (matched endpoint value) = reached endpoint value
routed unmatched = not_allowed

unfoldable pub mux : Text → Text → Routed
unfolding find clean_path path_segments
mux method escaped =
    let path = clean_path escaped in
    let m = find route_table method (path_segments path) in
    if method == text "CONNECT"
    then not_allowed
    else if path == escaped
    then routed m
    else moved path (matches_any m)

-- `_, pattern := mux.Handler(r); pattern != ""`
abbrev pub has_pattern : Routed → Bool
has_pattern (reached endpoint value) = true
has_pattern (moved path matching) = matching
has_pattern not_allowed = false
