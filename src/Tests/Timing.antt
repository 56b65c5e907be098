-- ===== src/Tests/Timing.antt =====
-- Waits of a read and of a request, and an answer with its log.
use keymaker.Prelude.{
  ℕ, zero, suc, ◌≤◌, ◌<◌, ◌+◌, max, true, false, Option, none, some, List, [], ◌∷◌, ◌≡◌, refl, ◌==◌,
  nat_equality, list_equality, if◌then◌else◌,
}
use keymaker.Text.{text}
use keymaker.Failure.{Failure, api_error}
use keymaker.Catalog.{Snapshot}
use keymaker.Catalog.Fetch.{done}
use keymaker.Catalog.Remote.{dated, new_remote, refresh}
use keymaker.Catalog.Remote.Waiting.{
  Refreshes, current, state_at, first_refresh_wait, current-Waits,
}
use keymaker.Http.Access.{Server, Request, authenticate, path_of, Outcome, served}
use keymaker.Http.Pipeline.{Act, write_header, health_acts, serve_http, RequestLine}
use keymaker.Http.Pipeline.Recording.{status_first}
use keymaker.Http.Pipeline.Headers.{leaves_fixed, AreSent, fixed_headers, serve_http-Answers}
use keymaker.Ovh.Pacing.Sending.{IsRead}
use keymaker.Ovh.Pacing.Waiting
use keymaker.Ovh.Pacing.Waiting.{timed_get, sent_read}
use keymaker.Ovh.Pacing.Waiting.Bounded.{timed_get-IsBounded}
use keymaker.Startup.{debug_level}

-- The API refuses twice for the rate, the second time without a header.
abbrev sends : ℕ → Waiting.Transported
sends zero = record { answer = some (429, text "3"); context_end = none }
sends (suc zero) = record { answer = some (429, []); context_end = none }
sends (suc (suc n)) = record { answer = some (200, []); context_end = none }

abbrev refusal : ℕ → Option Failure
refusal status = if status == 200 then none else some (api_error status)

timed_get-IsBounded_example :
    let (outcome, paused) = timed_get (λ s. none) refusal sends false none in
    IsRead (sent_read (λ s. none) refusal sends) outcome × (paused ≤ 80_500_000_000)
timed_get-IsBounded_example = timed_get-IsBounded (λ s. none) refusal sends false none

abbrev fallback : Snapshot
fallback = record { routes = []; branches = []; taken = 3; live = true }

abbrev fetched : Snapshot
fetched = record { routes = []; branches = text "/me" ∷ []; taken = 9; live = true }

current-Waits_example :
    let refreshes : Refreshes = (4, done fetched) ∷ [] in
    let (time, snapshot) = current refreshes fallback 2 (some 30) in
    (2 ≤ time)
    × (time ≤ 2 + first_refresh_wait)
    × ((t : ℕ) → some 30 ≡ some t → time ≤ max 2 t)
    × ((4 ≤ 2 + first_refresh_wait)
        → ((t : ℕ) → some 30 ≡ some t → 4 ≤ t)
        → snapshot ≡ (state_at time [] (refresh (done fetched) (new_remote fallback)).0).current)
    × (time < 4 → snapshot ≡ dated fallback)
current-Waits_example = current-Waits 4 (done fetched) [] fallback 2 (some 30)

waited_for : current ((4, done fetched) ∷ []) fallback 2 none ≡ (4, fetched)
unfolding current state_at refresh
waited_for = refl

given_up :
    current ((first_refresh_wait + 7, done fetched) ∷ []) fallback 2 none
    ≡ (first_refresh_wait + 2, dated fallback)
unfolding current state_at refresh new_remote
given_up = refl

abbrev server : Server
server = record { token = text "t"; csrf = text "c"; secure_cookie = false }

abbrev probe : Request
probe = record {
  method = text "GET";
  escaped = text "/healthz";
  raw_query = text "token=t";
  session = none;
  csrf = [];
}

abbrev respond : Outcome → List Act
respond (served endpoint value) = health_acts
respond other = write_header 401 ∷ []

serve_http-Answers_example :
    let (w, line) = serve_http respond debug_level server probe in
    let acts = respond (authenticate server probe) in
    (leaves_fixed acts ≡ true → AreSent fixed_headers w.sent_headers)
    × (status_first acts ≡ true
        → (l : RequestLine) → line ≡ some l
        → (w.sent ≡ some l.status) × (l.path ≡ path_of probe))
serve_http-Answers_example = serve_http-Answers respond debug_level server probe
