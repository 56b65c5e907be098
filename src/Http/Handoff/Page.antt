-- ===== src/Http/Handoff/Page.antt =====
-- internal/httpapi/handoff.go: the page answered carries the rules sent.
use keymaker.Prelude.{
  ℕ, true, some, List, [], ◌∷◌, ◌++◌, map, all, all-map, ◌≡◌, ◌≢◌, inl, inr, refl, ap, subst, arith,
  Bool-cases, if◌then◌else◌,
}
use keymaker.Text.{Text, text}
use keymaker.Credential.{AccessRule}
use keymaker.Failure.{Result, ok, err}
use keymaker.Http.Replies.{answered, refused, fail, code_malformed_rule}
use keymaker.Http.Handoff.{cleaned, acceptable, page_or_failure, page_of, handoff}
use keymaker.Http.Handoff.Rules.{read_rules-all}
use keymaker.Ovh.TokenUrl.{
  bytes, query, rule_query, Hosts, or_unread, page_at, endpoint_url, create_token_url,
}
use keymaker.Ovh.TokenUrl.RoundTrip.{is_spelled, read_query, read_query-query}

append-ne-nil : (s : Text) (c : ℕ) (t : Text) → s ++ (c ∷ t) ≢ []
append-ne-nil [] c t = λ e. cc
append-ne-nil (d ∷ s) c t = λ e. cc

query-ne-nil : (rule : AccessRule) (rules : List AccessRule) → query (rule ∷ rules) ≢ []
unfolding query rule_query
query-ne-nil rule [] = append-ne-nil _ _ _
query-ne-nil rule (next ∷ rules) = append-ne-nil _ _ _

-- The page of a host with rules in its query.
abbrev pub IsPage : Text → Text → Type 0
IsPage q page =
    (scheme : Text) × ((host : Text) × (page
        ≡ scheme ++ (text "://" ++ (host ++ (text "/createToken/" ++ (b'?' ∷ q))))))

page_at-IsPage :
    (q : Text) (site : Result (Text × Text)) (page : Text)
    → q ≢ []
    → page_at q site ≡ ok page
    → IsPage q page
page_at-IsPage q (err e) page ne h = cc h
page_at-IsPage [] (ok site) page ne h = absurd (ne refl)
page_at-IsPage (c ∷ q) (ok (scheme, host)) page ne h = (scheme, (host, cc h))

create_token_url-IsPage :
    (hosts : Hosts) (endpoint : Text) (rules : List AccessRule) (page : Text)
    → query rules ≢ []
    → create_token_url hosts endpoint rules ≡ ok page
    → IsPage (query rules) page
unfolding create_token_url
create_token_url-IsPage hosts endpoint rules page ne h = by (endpoint_url hosts endpoint) h
  where
    by :
        (u : Result Text)
        → elim u [
          | err e ↦ err e
          | ok base ↦ page_at (query rules) (or_unread (hosts.parse_url base))
        ]
          ≡ ok page
        → IsPage (query rules) page
    by (err e) h' = cc h'
    by (ok base) h' = page_at-IsPage (query rules) (or_unread (hosts.parse_url base)) page ne h'

page_or_failure-ok :
    (r : Result Text) (page : Text) → page_or_failure r ≡ answered page → r ≡ ok page
unfolding fail
page_or_failure-ok (ok p) page h = ap ok (let e : p ≡ page = cc h in e)
page_or_failure-ok (err e) page h = absurd (ground arith)

-- When the handoff answers a page, the rules sent were all acceptable once cleaned, and the page is
-- that of some host with a query in which a reader finds exactly those rules, cleaned, in their
-- order. The rules are texts of Unicode code points.
pub handoff-IsPage :
    (beyond : ℕ → ℕ) (hosts : Hosts) (endpoint : Text) (sent : List AccessRule) (page : Text)
    → all (λ r. is_spelled (cleaned beyond r)) sent ≡ true
    → handoff beyond hosts endpoint (some sent) ≡ answered page
    → (all (λ r. acceptable (cleaned beyond r)) sent ≡ true)
      × IsPage (query (map (cleaned beyond) sent)) page
      × (read_query (query (map (cleaned beyond) sent))
          ≡ map (λ r. some (bytes r.method, bytes r.path)) (map (cleaned beyond) sent))
unfolding handoff
handoff-IsPage beyond hosts endpoint [] page spelled h =
    let e =
      subst (λ r. page_of beyond hosts endpoint r ≡ answered page) (read_rules-all beyond []).0 h in
    cc e
handoff-IsPage beyond hosts endpoint (rule ∷ sent) page spelled h =
    let r = (read_rules-all beyond (rule ∷ sent)).1 (λ z. cc z) in
    let h' = subst (λ r. page_of beyond hosts endpoint r ≡ answered page) r h in
    elim (Bool-cases (all (λ r. acceptable (cleaned beyond r)) (rule ∷ sent))) [
      | inl good ↦
          let a =
            subst
              (λ b.
                page_of beyond hosts endpoint (
                  if b
                  then answered (map (cleaned beyond) (rule ∷ sent))
                  else refused 400 code_malformed_rule)
                ≡ answered page)
              good h' in
          (
            good,
            create_token_url-IsPage hosts endpoint (map (cleaned beyond) (rule ∷ sent)) page
                (query-ne-nil (cleaned beyond rule) (map (cleaned beyond) sent))
                (page_or_failure-ok _ page a),
            read_query-query (cleaned beyond rule) (map (cleaned beyond) sent) (
                all-map (λ r. is_spelled (cleaned beyond r)) is_spelled (cleaned beyond)
                  (rule ∷ sent) (λ r t. t) spelled),
          )
      | inr bad ↦
          let a =
            subst
              (λ b.
                page_of beyond hosts endpoint (
                  if b
                  then answered (map (cleaned beyond) (rule ∷ sent))
                  else refused 400 code_malformed_rule)
                ≡ answered page)
              bad h' in
          cc a
    ]
