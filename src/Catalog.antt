-- ===== src/Catalog.antt =====
-- internal/catalog: the routes of the API, from the documents it publishes. A document stands as
-- what the JSON decoder makes of it, and an unreadable one as `none`; errors are `none`.
pub mod Instances
pub mod Merging
pub mod Distinct
pub mod Fetch
pub mod Captured
pub mod Remote
use keymaker.Prelude.{
  ℕ, zero, suc, Bool, true, false, not, ◌&&◌, ◌||◌, Option, none, some, List, [], ◌∷◌, ◌++◌, map,
  ◌==◌, nat_equality, list_equality, if◌then◌else◌, any, filter, leb, sort,
}
use keymaker.Text.{Text, text, trim_space, map_suc, less}
use keymaker.Credential.{star, Instant}

pub record Operation : Type 0 where
  pub method : Text
  pub description : Text
  pub deprecated : Bool

pub record Route : Type 0 where
  pub path : Text
  pub operations : List Operation

pub record Snapshot : Type 0 where
  pub routes : List Route
  pub branches : List Text
  pub taken : Instant
  pub live : Bool

-- One operation of a schema, as decoded.
pub record OperationDocument : Type 0 where
  pub http_method : Text
  pub description : Text
  pub api_status : Text

pub record RouteDocument : Type 0 where
  pub path : Text
  pub operations : List OperationDocument

abbrev is_alphanumeric : ℕ → Bool
is_alphanumeric c =
    (leb b'A' c && leb c b'Z') || (leb b'a' c && leb c b'z') || (leb b'0' c && leb c b'9')

-- The rest of a branch, behind a slash or within a segment.
unfoldable pub branch_chars : Bool → Text → Bool
branch_chars fresh [] = not fresh
branch_chars true (c ∷ s) = let rest = branch_chars false s in is_alphanumeric c && rest
branch_chars false (c ∷ s) =
    let next = branch_chars true s in
    let rest = branch_chars false s in
    if c == b'/' then next else (is_alphanumeric c || c == b'.' || c == b'_' || c == b'-') && rest

-- The expression `branchPath`.
unfoldable pub branch_path : Text → Bool
unfolding branch_chars
branch_path [] = false
branch_path (c ∷ s) = c == b'/' && branch_chars true s

abbrev nonempty : List Text → Option (List Text)
nonempty [] = none
nonempty (b ∷ branches) = some (b ∷ branches)

unfoldable pub parse_index : Option (List Text) → Option (List Text)
unfolding branch_path
parse_index none = none
parse_index (some paths) = nonempty (filter branch_path paths)

unfoldable pub parse_operations : List OperationDocument → List Operation
parse_operations [] = []
parse_operations (op ∷ ops) =
    let rest = parse_operations ops in
    if op.http_method == []
    then rest
    else record {
      method = op.http_method;
      description = trim_space op.description;
      deprecated = op.api_status == text "DEPRECATED";
    }
      ∷ rest

abbrev parse_route : Text → List Operation → List Route
parse_route path [] = []
parse_route path (op ∷ ops) = record { path = path; operations = op ∷ ops } ∷ []

unfoldable pub parse_routes : List RouteDocument → List Route
unfolding parse_operations
parse_routes [] = []
parse_routes (api ∷ apis) =
    let rest = parse_routes apis in
    if api.path == [] then rest else parse_route api.path (parse_operations api.operations) ++ rest

unfoldable pub parse_schema : Option (List RouteDocument) → Option (List Route)
unfolding parse_routes
parse_schema none = none
parse_schema (some apis) = some (parse_routes apis)

abbrev pub contains_method : List Operation → Text → Bool
contains_method operations method = any (λ op. op.method == method) operations

abbrev pub add_operation : Operation → List Operation → List Operation
add_operation op existing =
    if contains_method existing op.method then existing else existing ++ (op ∷ [])

-- One operation of a route goes into the map from paths to operations.
unfoldable pub record_operation : Text → Operation → List Route → List Route
record_operation path op [] = record { path = path; operations = op ∷ [] } ∷ []
record_operation path op (r ∷ routes) =
    let rest = record_operation path op routes in
    if r.path == path
    then record { path = r.path; operations = add_operation op r.operations } ∷ routes
    else r ∷ rest

unfoldable pub record_operations : Text → List Operation → List Route → List Route
unfolding record_operation
record_operations path [] known = known
record_operations path (op ∷ ops) known =
    record_operations path ops (record_operation path op known)

unfoldable pub record_routes : List Route → List Route → List Route
unfolding record_operations
record_routes [] known = known
record_routes (r ∷ routes) known =
    record_routes routes (record_operations r.path r.operations known)

unfoldable pub record_batches : List (List Route) → List Route → List Route
unfolding record_routes
record_batches [] known = known
record_batches (batch ∷ batches) known = record_batches batches (record_routes batch known)

abbrev pub with_sorted_operations : Route → Route
with_sorted_operations r = record {
  path = r.path;
  operations = sort (λ a b. less a.method b.method) r.operations;
}

unfoldable pub merge : List (List Route) → List Route
unfolding record_batches less
merge batches =
    sort (λ a b. less a.path b.path) (map with_sorted_operations (record_batches batches []))

-- How many characters close a placeholder behind its brace, where they do.
unfoldable pub placeholder_end : Text → Option ℕ
placeholder_end [] = none
placeholder_end (c ∷ s) =
    let rest = placeholder_end s in
    if c == b'}' then some 1 else if c == b'/' || c == b'{' then none else map_suc rest

-- A placeholder starts here.
unfoldable pub opens : ℕ → Text → Option ℕ
unfolding placeholder_end
opens c s = if c == b'{' then placeholder_end s else none

-- Every placeholder becomes a star; the first argument counts the characters of one to leave out.
unfoldable pub replace : ℕ → Text → Text
unfolding opens
replace n [] = []
replace (suc n) (c ∷ s) = replace n s
replace zero (c ∷ s) = elim (opens c s) [ none ↦ c ∷ replace zero s | some n ↦ star ∷ replace n s ]

unfoldable pub rule_path : Text → Text
unfolding replace
rule_path documented = replace zero documented

unfoldable pub parameterised : Text → Bool
unfolding opens
parameterised [] = false
parameterised (c ∷ s) = elim (opens c s) [ none ↦ parameterised s | some n ↦ true ]
