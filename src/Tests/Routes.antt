-- ===== src/Tests/Routes.antt =====
-- The catalogue as it is fetched and refreshed, and the page that issues a key.
use keymaker.Prelude.{
  List, all, ◌==◌, nat_equality, list_equality, if◌then◌else◌, ℕ, zero, suc, ◌<◌, true, false, some,
  [], ◌∷◌, map, ◌≡◌, refl, arith, nat_equality, list_equality, ◌==◌, if◌then◌else◌,
}
use keymaker.Text.{Text, text, trim_space, to_upper, has_prefix}
use keymaker.Failure.{unread, ok, err}
use keymaker.Credential.{AccessRule}
use keymaker.Catalog.{Snapshot}
use keymaker.Catalog.Fetch.{Source, index_failed, Outcome, done, failed, fetch}
use keymaker.Catalog.Fetch.InTurn.{fetch_in_turn, fetch-eq-fetch_in_turn}
use keymaker.Catalog.Remote.{loaded, dated, new_remote, background}
use keymaker.Catalog.Remote.Background.{IsFailure, schedule, background-loads}
use keymaker.Ovh.TokenUrl.{bytes, query, rule_query, Hosts, create_token_url, endpoint_url}
use keymaker.Ovh.TokenUrl.RoundTrip.{read_query}
use keymaker.Http.Replies.{answered}
use keymaker.Http.Handoff.{read_rules, cleaned, acceptable, handoff}
use keymaker.Http.Handoff.Page.{IsPage, handoff-IsPage}
use keymaker.Tests.World.{down, In-down}

-- A source with two branches, the second of which it refuses.
abbrev two_branches : Source
two_branches = record {
  index = ok (some (text "/me" ∷ text "/ip" ∷ []));
  schema = λ i path.
      if i == 0
      then ok (
          some (
            record {
              path = text "/me";
              operations =
                  record { http_method = text "GET"; description = []; api_status = [] } ∷ [];
            }
            ∷ []))
      else err (unread 7);
}

fetch-eq-fetch_in_turn_example : fetch two_branches down 5 ≡ fetch_in_turn two_branches 5
fetch-eq-fetch_in_turn_example =
    fetch-eq-fetch_in_turn two_branches down (λ n i lt. In-down n i lt) 5

abbrev empty_snapshot : Snapshot
empty_snapshot = record { routes = []; branches = text "/me" ∷ []; taken = 3; live = true }

-- Four attempts fail, and the fifth fetches a catalogue.
abbrev attempts : ℕ → Outcome Snapshot
attempts (suc (suc (suc (suc n)))) = done empty_snapshot
attempts n = failed (index_failed (unread 1))

background-loads_example :
    background attempts (λ i. false) 9 0 (new_remote empty_snapshot) ≡ record {
      remote = record { fallback = dated empty_snapshot; ready = true; current = empty_snapshot };
      waits = schedule 4;
      ending = loaded;
    }
background-loads_example =
    background-loads attempts (λ i. false) 4 9 empty_snapshot empty_snapshot (omega arith) fails
      refl
  where
    fails : (k : ℕ) → k < 4 → IsFailure (attempts k) × (false ≡ false)
    fails zero lt = (tt, refl)
    fails (suc zero) lt = (tt, refl)
    fails (suc (suc zero)) lt = (tt, refl)
    fails (suc (suc (suc zero))) lt = (tt, refl)
    fails (suc (suc (suc (suc k)))) lt = absurd (omega arith)

abbrev odd_rule : AccessRule
odd_rule = record { method = text "GET"; path = text "/a b&c=é%*" }

odd_query : query (odd_rule ∷ []) ≡ text "GET=/a%20b%26c%3D%C3%A9%25*"
unfolding query rule_query
odd_query = refl

abbrev hosts : Hosts
hosts = record {
  endpoints = λ name. some (text "https://eu.api.ovh.com/1.0");
  parse_url = λ url. some (text "https", text "eu.api.ovh.com");
}

abbrev sent : List AccessRule
sent = record { method = text " get "; path = text "/me" } ∷ []

abbrev same_letter : ℕ → ℕ
same_letter c = c

abbrev page : Text
page = text "https://eu.api.ovh.com/createToken/?GET=/me"

page_answered : handoff same_letter hosts (text "ovh-eu") (some sent) ≡ answered page
unfolding handoff cleaned trim_space to_upper has_prefix create_token_url endpoint_url query
    rule_query
page_answered = refl

handoff-IsPage_example :
    (all (λ r. acceptable (cleaned same_letter r)) sent ≡ true)
    × IsPage (query (map (cleaned same_letter) sent)) page
    × (read_query (query (map (cleaned same_letter) sent))
        ≡ map (λ r. some (bytes r.method, bytes r.path)) (map (cleaned same_letter) sent))
unfolding cleaned trim_space to_upper
handoff-IsPage_example =
    handoff-IsPage same_letter hosts (text "ovh-eu") sent page refl page_answered

-- A method spelled with the long s is that of the s.
long_s :
    read_rules same_letter (record { method = text "poſt"; path = text "/me" } ∷ [])
    ≡ answered (record { method = text "POST"; path = text "/me" } ∷ [])
unfolding read_rules cleaned trim_space to_upper has_prefix
long_s = refl
