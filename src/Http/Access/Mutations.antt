-- ===== src/Http/Access/Mutations.antt =====
-- internal/httpapi/server.go and csrf.go: which handlers change something, and by which methods they
-- are reached.
use keymaker.Prelude.{
  Bool, true, false, not, ◌||◌, List, ◌≡◌, refl, ap, sym, ◌∙◌, arith, ◌==◌, nat_equality,
  list_equality, In, any, all, all_of_In, inl, inr, Bool-cases, eq_of, any_witness, subst,
}
use keymaker.Text.{Text, text}
use keymaker.Http.Routing.{
  Endpoint, Entry, route_table, parse_pattern, allows, matched, find, mux, reached, Match, routed,
  clean_path, path_segments, unmatched,
}
use keymaker.Http.Routing.Matching.{find-Entry}
use keymaker.Http.Access.{safe_methods}

-- The handlers that change something, or hand something out.
abbrev pub is_mutation : Endpoint → Bool
is_mutation Endpoint.health = false
is_mutation Endpoint.session = false
is_mutation Endpoint.inventory = false
is_mutation Endpoint.catalogue = false
is_mutation Endpoint.applications = false
is_mutation Endpoint.delete_application = true
is_mutation Endpoint.delete_keyless_applications = true
is_mutation Endpoint.revoke = true
is_mutation Endpoint.revoke_inactive = true
is_mutation Endpoint.retire = true
is_mutation Endpoint.preview_addresses = true
is_mutation Endpoint.set_addresses = true
is_mutation Endpoint.public_address = false
is_mutation Endpoint.handoff = true
is_mutation Endpoint.assets = false

abbrev refuses_safe : Entry → Bool
refuses_safe e =
    not (is_mutation e.endpoint)
    || all (λ m. not (allows (parse_pattern e.pattern).method m)) safe_methods

route_table-Refuses : all refuses_safe route_table ≡ true
unfolding parse_pattern
route_table-Refuses = refl

In-any : (p : Text) (ts : List Text) → any (λ m. m == p) ts ≡ true → In p ts
In-any p ts h =
    let (a, m, e) = any_witness (λ m. m == p) ts h in subst (λ t. In t ts) (eq_of a p e) m

or_right : (a b : Bool) → a ≡ true → (not a || b) ≡ true → b ≡ true
or_right a b h k = ground arith

-- A safe method never chooses a handler that changes something.
pub find-mutation :
    (method : Text) (parts : List Text) (endpoint : Endpoint) (value : Text)
    → find route_table method parts ≡ matched endpoint value
    → is_mutation endpoint ≡ true
    → any (λ m. m == method) safe_methods ≡ false
find-mutation method parts endpoint value h mutates =
    let (e, m, same, allowed) = find-Entry route_table method parts endpoint value h in
    elim (Bool-cases (any (λ m. m == method) safe_methods)) [
      | inl safe ↦
          let refused = all_of_In refuses_safe m route_table-Refuses in
          let k = ap is_mutation same ∙ mutates in
          let each : all (λ m. not (allows (parse_pattern e.pattern).method m)) safe_methods
              ≡ true =
            or_right (is_mutation e.endpoint) _ k refused in
          absurd (
            ground (
              arith,
              all_of_In (λ m. not (allows (parse_pattern e.pattern).method m))
                  (In-any method safe_methods safe) each,
            ))
      | inr unsafe ↦ unsafe
    ]

routed-reached :
    (m : Match) (endpoint : Endpoint) (value : Text)
    → routed m ≡ reached endpoint value
    → m ≡ matched endpoint value
routed-reached (matched e v) endpoint value h = cc h
routed-reached unmatched endpoint value h = cc h

-- What a request that finds a handler says: the path is clean, and the handler is the one chosen.
pub mux-reached :
    (method escaped : Text) (endpoint : Endpoint) (value : Text)
    → mux method escaped ≡ reached endpoint value
    → (clean_path escaped ≡ escaped)
      × (find route_table method (path_segments escaped) ≡ matched endpoint value)
unfolding mux
mux-reached method escaped endpoint value h = elim (Bool-cases (method == text "CONNECT")) [
  | inl connect ↦ cc (rw connect at h)
  | inr other ↦ elim (Bool-cases (clean_path escaped == escaped)) [
    | inr unclean ↦ cc (rw (other, unclean) at h)
    | inl clean' ↦
        let e = eq_of (clean_path escaped) escaped clean' in
        (
          e,
          ap (λ p. find route_table method (path_segments p)) (sym e)
              ∙ routed-reached (find route_table method (path_segments (clean_path escaped)))
                  endpoint value (rw (other, clean') at h),
        )
  ]
]
