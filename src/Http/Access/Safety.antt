-- ===== src/Http/Access/Safety.antt =====
-- internal/httpapi/auth.go and csrf.go: what a request needs, and where a redirect leads.
use keymaker.Prelude.{
  ◌∙◌, Bool, true, false, not, if◌then◌else◌, ◌&&◌, Option, none, some, [], ◌∷◌, ◌≡◌, ◌≢◌, ◌⊎◌, inl,
  inr, refl, arith, ◌==◌, nat_equality, list_equality, list_beq_iff, Bool-cases, any, ap, sym,
  subst, eq_of,
}
use keymaker.Text.{Text, text, has_prefix}
use keymaker.Http.Routing.{
  Endpoint, Routed, reached, moved, not_allowed, mux, has_pattern, path_segments, route_table, find,
}
use keymaker.Http.Routing.Reaching.{path_segments-one, find-health}
use keymaker.Http.Access.Mutations.{is_mutation, find-mutation, mux-reached}
use keymaker.Http.Access.{
  Server, Request, Cookie, Target, Outcome, missing_token, served, granted, health_path,
  safe_methods, answer, route, guard_mutations, redirect_path, cookie_of, target_of, grant,
  holds_session, authenticate, path_of, token_of,
}

-- A path of this site: a slash, and behind it neither a slash nor a backslash.
abbrev pub StaysHere : Text → Type 0
StaysHere [] = ⊥
StaysHere (c ∷ []) = c ≡ b'/'
StaysHere (c ∷ d ∷ rest) = (c ≡ b'/') × (d ≢ b'/') × (d ≢ 92)

redirect_path-StaysHere : (path : Text) → StaysHere (redirect_path path)
unfolding redirect_path has_prefix
redirect_path-StaysHere [] = refl
redirect_path-StaysHere (c ∷ []) = elim (Bool-cases (c == b'/')) [
  | inl slash ↦ rw slash (eq_of c b'/' slash)
  | inr other ↦ rw other refl
]
redirect_path-StaysHere (c ∷ d ∷ rest) =
    let path = c ∷ d ∷ rest in
    elim (Bool-cases (
      has_prefix path (text "/")
      && not (has_prefix path (text "//"))
      && not (has_prefix path (text "/\\")))) [
        | inl here ↦ rw here (ground arith, λ e. ground arith, λ e. ground arith)
        | inr away ↦ rw away refl
      ]

route-served :
    (r : Request) (endpoint : Endpoint) (value : Text)
    → route r ≡ served endpoint value
    → mux r.method r.escaped ≡ reached endpoint value
unfolding route
route-served r endpoint value h = by (mux r.method r.escaped) h
  where
    by : (m : Routed) → answer m ≡ served endpoint value → m ≡ reached endpoint value
    by (reached e v) k = cc k
    by (moved path matching) k = cc k
    by not_allowed k = cc k

has_pattern-reached :
    (m : Routed) (endpoint : Endpoint) (value : Text)
    → m ≡ reached endpoint value
    → has_pattern m ≡ true
has_pattern-reached m endpoint value h = ap has_pattern h

-- A handler that runs is the one the router chooses; one that changes something runs only behind the
-- token handed to the page.
guard_mutations-served :
    (s : Server) (r : Request) (endpoint : Endpoint) (value : Text)
    → guard_mutations s r ≡ served endpoint value
    → (mux r.method r.escaped ≡ reached endpoint value)
      × (is_mutation endpoint ≡ true → r.csrf ≡ s.csrf)
unfolding guard_mutations
guard_mutations-served s r endpoint value h =
    elim (Bool-cases (any (λ m. m == r.method) safe_methods)) [
      | inl safe ↦
          let m = route-served r endpoint value (rw safe at h) in
          (m, λ mutates. absurd (cc (safe, unsafe m mutates)))
      | inr other ↦ elim (Bool-cases (has_pattern (mux r.method r.escaped))) [
        | inr missing ↦
            let m = route-served r endpoint value (rw (other, missing) at h) in
            absurd (cc (missing, has_pattern-reached (mux r.method r.escaped) endpoint value m))
        | inl there' ↦ elim (Bool-cases (r.csrf == s.csrf)) [
          | inl same ↦ (
            route-served r endpoint value (rw (other, there', same) at h),
            λ mutates. (list_beq_iff r.csrf s.csrf).0 same,
          )
          | inr differs ↦ cc (rw (other, there', differs) at h)
        ]
      ]
    ]
  where
    unsafe :
        mux r.method r.escaped ≡ reached endpoint value
        → is_mutation endpoint ≡ true
        → any (λ m. m == r.method) safe_methods ≡ false
    unsafe m mutates =
        find-mutation r.method (path_segments r.escaped) endpoint value
          (mux-reached r.method r.escaped endpoint value m).1 mutates

-- Behind the health path there is the health handler.
health_only :
    (r : Request) (endpoint : Endpoint) (value : Text)
    → path_of r ≡ health_path
    → mux r.method r.escaped ≡ reached endpoint value
    → endpoint ≡ Endpoint.health
unfolding path_of
health_only r endpoint value h m =
    let (clean', chosen) = mux-reached r.method r.escaped endpoint value m in
    let parts = path_segments-one r.escaped b'h' (text "ealthz") clean' refl h in
    find-health r.method endpoint value (ap (find route_table r.method) (sym parts) ∙ chosen)

holds_session-some :
    (s : Server) (session : Option Text) → holds_session s session ≡ true → session ≡ some s.token
holds_session-some s none h = cc
holds_session-some s (some value) h = ap some ((list_beq_iff value s.token).0 h)

-- A session that is granted: the cookie holds the token and is out of reach of scripts and of
-- other sites, and the redirect stays on this one.
abbrev pub IsGrant : Server → Cookie → Target → Type 0
IsGrant s cookie target =
    (cookie.value ≡ s.token)
    × (cookie.http_only ≡ true)
    × (cookie.same_site_strict ≡ true)
    × StaysHere target.path

granted_parts : {c d : Cookie} {t u : Target} → granted c t ≡ granted d u → (c ≡ d) × (t ≡ u)
granted_parts h = (cc, cc)

grant-IsGrant :
    (s : Server) (r : Request) (cookie : Cookie) (target : Target)
    → grant s r ≡ granted cookie target
    → IsGrant s cookie target
unfolding grant cookie_of target_of
grant-IsGrant s r cookie target h =
    let (e, f) = granted_parts h in
    (
      sym (ap (λ c. c.value) e),
      sym (ap (λ c. c.http_only) e),
      sym (ap (λ c. c.same_site_strict) e),
      subst (λ t. StaysHere t.path) f (redirect_path-StaysHere (path_of r)),
    )

grant-not-served :
    (s : Server) (r : Request) (endpoint : Endpoint) (value : Text)
    → grant s r ≢ served endpoint value
unfolding grant
grant-not-served s r endpoint value h = cc

answer-not-granted :
    (m : Routed) (cookie : Cookie) (target : Target) → answer m ≢ granted cookie target
answer-not-granted (reached e v) cookie target h = cc
answer-not-granted (moved path matching) cookie target h = cc
answer-not-granted not_allowed cookie target h = cc

pub guard_mutations-not-granted :
    (s : Server) (r : Request) (cookie : Cookie) (target : Target)
    → guard_mutations s r ≢ granted cookie target
unfolding guard_mutations route
guard_mutations-not-granted s r cookie target =
    by (any (λ m. m == r.method) safe_methods) (not (has_pattern (mux r.method r.escaped)))
      (not (r.csrf == s.csrf)) (answer (mux r.method r.escaped))
      (answer-not-granted (mux r.method r.escaped) cookie target)
  where
    by :
        (a b c : Bool) (o : Outcome)
        → o ≢ granted cookie target
        → (if a then o else if b then o else if c then missing_token else o) ≢ granted cookie target
    by true b c o n = n
    by false true c o n = n
    by false false true o n = λ e. cc e
    by false false false o n = n

-- What an outcome says of the request, where a handler runs.
abbrev pub IsEntitled : Server → Request → Endpoint → Type 0
IsEntitled s r endpoint =
    ((endpoint ≡ Endpoint.health) ⊎ (r.session ≡ some s.token))
    × (is_mutation endpoint ≡ true → (r.session ≡ some s.token) × (r.csrf ≡ s.csrf))

health-IsEntitled :
    (s : Server) (r : Request) (endpoint : Endpoint)
    → endpoint ≡ Endpoint.health
    → IsEntitled s r endpoint
health-IsEntitled s r endpoint e = (inl e, λ mutates. absurd (cc (ap is_mutation e)))

-- A handler runs only for the health check, or for a request whose session cookie is the token of
-- this run; one that changes something, by whatever method the request names, only where the request
-- carries besides the token handed to the page. A session is granted only for the token itself; the
-- cookie then holds it, is out of reach of scripts, and stays on this site; and the redirect leads to
-- a path of this site.
pub authenticate-safe :
    (s : Server) (r : Request)
    → ((endpoint : Endpoint) (value : Text)
        → authenticate s r ≡ served endpoint value
        → IsEntitled s r endpoint)
      × ((cookie : Cookie) (target : Target)
          → authenticate s r ≡ granted cookie target
          → (token_of r ≡ s.token) × IsGrant s cookie target)
unfolding authenticate
authenticate-safe s r = elim (Bool-cases (path_of r == health_path)) [
  | inl health ↦ rw health (
    λ endpoint value h. health-IsEntitled s r endpoint (
        health_only r endpoint value ((list_beq_iff (path_of r) health_path).0 health)
          (guard_mutations-served s r endpoint value h).0),
    λ cookie target h. absurd (guard_mutations-not-granted s r cookie target h),
  )
  | inr other ↦ elim (Bool-cases (holds_session s r.session)) [
    | inl session ↦
        rw (other, session)
          (
            λ endpoint value h.
                let held = holds_session-some s r.session session in
                (
                  inr held,
                  λ mutates. (held, (guard_mutations-served s r endpoint value h).1 mutates),
                ),
            λ cookie target h. absurd (guard_mutations-not-granted s r cookie target h),
          )
    | inr stranger ↦ elim (Bool-cases (token_of r == s.token)) [
      | inl token ↦
          rw (other, stranger, token)
            (
              λ endpoint value h. absurd (grant-not-served s r endpoint value h),
              λ cookie target h.
                  ((list_beq_iff (token_of r) s.token).0 token, grant-IsGrant s r cookie target h),
            )
      | inr none' ↦
          rw (other, stranger, none')
            (λ endpoint value h. absurd (cc), λ cookie target h. absurd (cc))
    ]
  ]
]
