-- ===== src/Tests/Sending.antt =====
-- A deletion that the API refuses once for its rate.
use keymaker.Prelude.{
  ℕ, zero, suc, pos, Bool, true, false, Option, none, some, [], ◌≡◌, refl, ap, ◌==◌, nat_equality,
  list_equality, arith,
}
use keymaker.Text.{Text, text}
use keymaker.Failure.{Failure, api_error, status_code}
use keymaker.Netip.{IpPrefix}
use keymaker.Ovh.Client.{Call}
use keymaker.Ovh.Pacing.{status_of}
use keymaker.Ovh.Requests.{SdkRequest, ClientMethod, calling, perform, list_path}
use keymaker.Ovh.Requests.Once.{
  RefusesWhole, ReadsOnly, IsOnce, sendings, request_of, perform-IsOnce,
}

-- The account is the number of writes carried out; the test is whether the request is a read.
abbrev answer : Bool → ℕ → ℕ → Option Failure × ℕ
answer true n done = (none, done)
answer false zero done = (some (api_error 429), done)
answer false (suc n) done = (none, suc done)

abbrev api : ℕ → ℕ → SdkRequest → Option Failure × ℕ
api n done r = answer (r.method == text "GET") n done

answer-whole :
    (read : Bool) (n done : ℕ)
    → status_of (answer read n done).0 ≡ 429
    → (answer read n done).1 ≡ done
unfolding status_of
answer-whole true n done refused = refl
answer-whole false zero done refused = refl
answer-whole false (suc n) done refused = absurd (omega (arith, refused))

api-RefusesWhole : RefusesWhole api
api-RefusesWhole n done r refused = answer-whole (r.method == text "GET") n done refused

api-ReadsOnly : ReadsOnly api
api-ReadsOnly n done r get = ap (λ m. (answer (m == text "GET") n done).1) get

abbrev nothing : IpPrefix → Text
nothing p = []

abbrev deletion : ClientMethod
deletion = calling (Call.delete_credential (pos 7))

perform-IsOnce_example :
    IsOnce api
      (sendings deletion)
      (perform api false false nothing deletion 5)
      5
      (request_of nothing deletion)
perform-IsOnce_example =
    perform-IsOnce api api-RefusesWhole false false api-ReadsOnly nothing deletion 5

deleted_once : perform api false false nothing deletion 5 ≡ (none, 6)
unfolding perform status_code
deleted_once = refl

narrowed : list_path (text "pendingValidation") ≡ text "/me/api/credential?status=pendingValidation"
unfolding list_path
narrowed = refl
