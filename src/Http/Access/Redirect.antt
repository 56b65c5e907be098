-- ===== src/Http/Access/Redirect.antt =====
-- internal/httpapi/auth.go: the redirect that grants a session drops the token from the query.
use keymaker.Prelude.{
  Bool, true, false, [], ◌∷◌, ◌≡◌, refl, ap, ◌∙◌, arith, ◌==◌, nat_equality, list_equality,
  if◌then◌else◌, any, any-sort, subst,
}
use keymaker.Text.{Text, less}
use keymaker.Url.{Values, parse_query, del, by_name}
use keymaker.Url.Queries.{are_bytes, are_byte_pairs, parse_query-encode}
use keymaker.Url.Bytes.{parse_query-are_bytes}
use keymaker.Http.Access.{
  Server, Request, Cookie, Target, Outcome, granted, token_parameter, guard_mutations, target_of,
  grant, authenticate, path_of, health_path, holds_session, token_of,
}
use keymaker.Http.Access.Safety.{guard_mutations-not-granted}

-- Some pair has the name.
abbrev pub has_name : Text → Values → Bool
has_name name values = any (λ (p : Text × Text). p.0 == name) values

has_name-del : (name : Text) (values : Values) → has_name name (del name values) ≡ false
unfolding del
has_name-del name [] = refl
has_name-del name (p ∷ values) = ground (arith, has_name-del name values)

del-are_bytes :
    (name : Text) (values : Values)
    → are_byte_pairs values ≡ true
    → are_byte_pairs (del name values) ≡ true
unfolding del
del-are_bytes name [] h = refl
del-are_bytes name (p ∷ values) h = ground (arith, del-are_bytes name values)

target_of-query :
    (r : Request)
    → are_bytes r.raw_query ≡ true
    → (parse_query (target_of r).raw_query
        ≡ by_name (del token_parameter (parse_query r.raw_query)))
      × (has_name token_parameter (parse_query (target_of r).raw_query) ≡ false)
unfolding target_of
target_of-query r h =
    let kept = del token_parameter (parse_query r.raw_query) in
    let e = parse_query-encode kept (
      del-are_bytes token_parameter (parse_query r.raw_query)
        (parse_query-are_bytes r.raw_query h)) in
    (
      e,
      ap (has_name token_parameter) e
          ∙ any-sort (λ (p q : Text × Text). less p.0 q.0)
              (λ (p : Text × Text). p.0 == token_parameter) kept
          ∙ has_name-del token_parameter (parse_query r.raw_query),
    )

granted_target : {c d : Cookie} {t u : Target} → granted c t ≡ granted d u → t ≡ u
granted_target h = cc h

grant-target :
    (s : Server) (r : Request) (cookie : Cookie) (target : Target)
    → grant s r ≡ granted cookie target
    → target_of r ≡ target
unfolding grant
grant-target s r cookie target h = granted_target h

authenticate-target :
    (s : Server) (r : Request) (cookie : Cookie) (target : Target)
    → authenticate s r ≡ granted cookie target
    → target_of r ≡ target
unfolding authenticate
authenticate-target s r cookie target h =
    by (path_of r == health_path) (holds_session s r.session) (token_of r == s.token) h
  where
    by :
        (a b c : Bool)
        → (if a
            then guard_mutations s r
            else if b
            then guard_mutations s r
            else if c
            then grant s r
            else Outcome.unauthorized)
          ≡ granted cookie target
        → target_of r ≡ target
    by true b c k = absurd (guard_mutations-not-granted s r cookie target k)
    by false true c k = absurd (guard_mutations-not-granted s r cookie target k)
    by false false true k = grant-target s r cookie target k
    by false false false k = cc k

-- When a session is granted, the redirect carries the query of the request, a query of bytes, without
-- the token: read back, it has the other pairs of the request, with their values, in the order of
-- their names, and none that is named as the token is.
pub authenticate-Forgets :
    (s : Server) (r : Request) (cookie : Cookie) (target : Target)
    → are_bytes r.raw_query ≡ true
    → authenticate s r ≡ granted cookie target
    → (parse_query target.raw_query ≡ by_name (del token_parameter (parse_query r.raw_query)))
      × (has_name token_parameter (parse_query target.raw_query) ≡ false)
authenticate-Forgets s r cookie target h k =
    subst
      (λ t.
        (parse_query t.raw_query ≡ by_name (del token_parameter (parse_query r.raw_query)))
        × (has_name token_parameter (parse_query t.raw_query) ≡ false))
      (authenticate-target s r cookie target k) (target_of-query r h)
