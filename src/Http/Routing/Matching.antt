-- ===== src/Http/Routing/Matching.antt =====
-- internal/httpapi/server.go: what the choice of a handler says of a request.
use keymaker.Prelude.{
  true, false, Option, none, some, List, [], ◌∷◌, ◌≡◌, refl, nat_equality, list_equality, In, here,
  there, inl, inr, Bool-cases, ◌⊎◌,
}
use keymaker.Text.{Text}
use keymaker.Http.Routing.{
  Endpoint, Entry, Pattern, parse_pattern, match_parts, allows, matched, prefer, find,
}

matched_endpoint : {a b : Endpoint} (v w : Text) → matched a v ≡ matched b w → a ≡ b
matched_endpoint v w h = cc h

-- The entry that is chosen allows the method and matches the path.
pub find-Entry :
    (es : List Entry) (method : Text) (parts : List Text) (endpoint : Endpoint) (value : Text)
    → find es method parts ≡ matched endpoint value
    → (e : Entry) × In e es
      × (e.endpoint ≡ endpoint)
      × (allows (parse_pattern e.pattern).method method ≡ true)
unfolding find
find-Entry [] method parts endpoint value h = cc
find-Entry (e ∷ es) method parts endpoint value h =
    by (match_parts p.segments p.below parts) (Bool-cases (allows p.method method))
      (λ k. find-Entry es method parts endpoint value k) h
  where
    p : Pattern
    p = parse_pattern e.pattern

    by :
        (m : Option Text)
        → (allows p.method method ≡ true) ⊎ (allows p.method method ≡ false)
        → (find es method parts ≡ matched endpoint value
            → (f : Entry) × In f es
              × (f.endpoint ≡ endpoint)
              × (allows (parse_pattern f.pattern).method method ≡ true))
        → prefer m (allows p.method method) e.endpoint (find es method parts)
          ≡ matched endpoint value
        → (f : Entry) × In f (e ∷ es)
          × (f.endpoint ≡ endpoint)
          × (allows (parse_pattern f.pattern).method method ≡ true)
    by none a ih k = let (f, m, same, ok) = ih k in (f, there m, same, ok)
    by (some v) (inr a) ih k = let (f, m, same, ok) = ih (rw a at k) in (f, there m, same, ok)
    by (some v) (inl a) ih k = (e, here refl, matched_endpoint v value (rw a at k), a)
