-- ===== src/Http/Routing/Reaching.antt =====
-- internal/httpapi/server.go: the one path that needs no session leads to the health handler.
use keymaker.Prelude.{
  ℕ, Bool, true, false, not, ◌&&◌, [], ◌∷◌, ◌++◌, map, ◌≡◌, refl, ap, sym, ◌∙◌, ◌==◌, nat_equality,
  list_equality, if◌then◌else◌, inl, inr, Bool-cases,
}
use keymaker.Text.{Text, text, has_suffix}
use keymaker.Text.Splitting.{lacks, split-lacks}
use keymaker.Url.{path_unescape}
use keymaker.Url.Paths.{lacks-path_unescape, path_unescape-plain_head}
use keymaker.Http.Routing.{
  Endpoint, route_table, parse_pattern, path_segment, path_segments, match_parts, allows, matched,
  find, clean, clean_path, rooted,
}

clean_path-rooted : (path : Text) → (s : Text) × (clean_path path ≡ b'/' ∷ s)
unfolding clean_path clean
clean_path-rooted path =
    by (path == []) (has_suffix (rooted path) (text "/") && not (clean (rooted path) == text "/")) _
  where
    by :
        (a b : Bool) (body : Text)
        → (s : Text) × ((if a
              then text "/"
              else if b
              then (b'/' ∷ body) ++ text "/"
              else b'/' ∷ body)
            ≡ b'/' ∷ s)
    by true b body = ([], refl)
    by false true body = (body ++ text "/", refl)
    by false false body = (body, refl)

path_segment-one : (s : Text) (c : ℕ) (t : Text) → path_unescape s ≡ c ∷ t → path_segment s ≡ c ∷ t
unfolding path_unescape
path_segment-one [] c t h = cc h
path_segment-one (d ∷ s) c t h = h

tail_of : {c d : ℕ} {s t : Text} → c ∷ s ≡ d ∷ t → s ≡ t
tail_of h = cc h

-- A clean path that reads as one segment behind the first slash has that segment only.
pub path_segments-one :
    (escaped : Text) (c : ℕ) (t : Text)
    → clean_path escaped ≡ escaped
    → lacks b'/' (c ∷ t) ≡ true
    → path_unescape escaped ≡ b'/' ∷ c ∷ t
    → path_segments escaped ≡ (c ∷ t) ∷ []
path_segments-one escaped c t clean' free h =
    let (s, e) = clean_path-rooted escaped in
    let e' = sym clean' ∙ e in
    let read : path_unescape s ≡ c ∷ t =
      tail_of (sym (path_unescape-plain_head b'/' s refl) ∙ sym (ap path_unescape e') ∙ h) in
    let none' = lacks-path_unescape s (ap (lacks b'/') read ∙ free) in
    ap path_segments e' ∙ by s read none'
  where
    by :
        (s : Text)
        → path_unescape s ≡ c ∷ t
        → lacks b'/' s ≡ true
        → path_segments (b'/' ∷ s) ≡ (c ∷ t) ∷ []
    by s read none' =
        unfold path_segments in
        ap (map path_segment) (split-lacks b'/' s none')
        ∙ ap (λ p. p ∷ []) (path_segment-one s c t read)

-- The segment of the health path is matched by its handler, by the files, and by nothing else.
pub find-health :
    (method : Text) (endpoint : Endpoint) (value : Text)
    → find route_table method (text "healthz" ∷ []) ≡ matched endpoint value
    → endpoint ≡ Endpoint.health
unfolding find parse_pattern match_parts
find-health method endpoint value h = elim (Bool-cases (allows (text "GET") method)) [
  | inl get ↦ sym (matched_endpoint (rw get at h))
  | inr other ↦ cc (rw other at h)
]
  where
    matched_endpoint : {a b : Endpoint} {v w : Text} → matched a v ≡ matched b w → a ≡ b
    matched_endpoint e = cc e
