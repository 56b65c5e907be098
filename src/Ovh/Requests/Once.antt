-- ===== src/Ovh/Requests/Once.antt =====
-- internal/ovh/api.go: what the times a request is sent come to.
use keymaker.Prelude.{ℕ, zero, suc, ◌<◌, Bool, Option, ◌≡◌, refl, ap, ◌∙◌, arith}
use keymaker.Text.{Text, text}
use keymaker.Failure.{Failure}
use keymaker.Netip.{IpPrefix}
use keymaker.Ovh.Client.{Call}
use keymaker.Ovh.Paths.{call_route}
use keymaker.Ovh.Pacing.{status_of, get, paced}
use keymaker.Ovh.Pacing.Sending.{paced-IsPaced, get-IsRead}
use keymaker.Ovh.Requests.{
  Body, no_body, SdkRequest, ClientMethod, calling, list_with_status, index, schema, list_path,
  signed_request, unsigned_request, address_body, account_after, error_of, send_read, send_write,
  perform,
}

-- The request of an operation, and how often it may be sent.
abbrev pub call_body : (IpPrefix → Text) → Call → Body
call_body print (Call.set_allowed_ips id allowed) = address_body print allowed
call_body print _ = no_body

abbrev pub request_of : (IpPrefix → Text) → ClientMethod → SdkRequest
request_of print (calling call) =
    signed_request (call_route call).method (call_route call).path (call_body print call)
request_of print (list_with_status status) = signed_request (text "GET") (list_path status) no_body
request_of print index = unsigned_request (text "/")
request_of print (schema path) = unsigned_request path

-- How often it may be sent: a write more than once only when it is refused for its rate.
abbrev pub sendings : ClientMethod → ℕ
sendings (calling (Call.delete_credential id)) = 4
sendings (calling (Call.set_allowed_ips id allowed)) = 4
sendings (calling Call.logout) = 4
sendings (calling (Call.delete_application id)) = 4
sendings (calling _) = 8
sendings (list_with_status status) = 8
sendings index = 1
sendings (schema path) = 1

module _ {A : Type 0} (api : ℕ → A → SdkRequest → Option Failure × A) where
  -- A request refused for its rate was not carried out, and a read changes nothing.
  abbrev pub RefusesWhole : Type 0
  RefusesWhole =
      (n : ℕ) (a : A) (r : SdkRequest) → status_of (api n a r).0 ≡ 429 → (api n a r).1 ≡ a

  abbrev pub ReadsOnly : Type 0
  ReadsOnly = (n : ℕ) (a : A) (r : SdkRequest) → r.method ≡ text "GET" → (api n a r).1 ≡ a

  -- The outcome is that of the request sent once, at one of the first `most` moments.
  pub record IsOnce (most : ℕ) (outcome : Option Failure × A) (a : A) (r : SdkRequest)
      : Type 0 where
    pub moment : ℕ
    pub bounded : moment < most
    pub comes : outcome ≡ api moment a r

  account_after-kept :
      (a : A) (r : SdkRequest) (n : ℕ)
      → ((i : ℕ) → i < n → (api i (account_after api a r i) r).1 ≡ account_after api a r i)
      → account_after api a r n ≡ a
  unfolding account_after
  account_after-kept a r zero kept = refl
  account_after-kept a r (suc n) kept =
      kept n (omega arith) ∙ account_after-kept a r n (λ i lt. kept i (omega arith))

  IsOnce-last :
      (most : ℕ) (a : A) (r : SdkRequest) (outcome : Option Failure × ℕ) (last : ℕ)
      → last < most
      → outcome.1 ≡ suc last
      → outcome.0 ≡ error_of api a r last
      → account_after api a r last ≡ a
      → IsOnce most (outcome.0, account_after api a r outcome.1) a r
  unfolding account_after error_of
  IsOnce-last most a r outcome last lt counts answer kept = record {
    moment = last;
    bounded = lt;
    comes = rw (counts, answer) (ap (λ s. api last s r) kept);
  }

  module _ (whole : RefusesWhole) (ended ends : Bool) where
    send_write-IsOnce :
        (method path : Text) (body : Body) (a : A)
        → IsOnce 4
            (send_write api ended ends method path body a)
            a
            (signed_request method path body)
    unfolding send_write error_of
    send_write-IsOnce method path body a =
        let r = signed_request method path body in
        let k = paced-IsPaced (error_of api a r) 0 in
        IsOnce-last 4 a r (paced (error_of api a r) 0) k.last (omega (arith, k.bounded)) k.counts
          k.answer
          (account_after-kept a r k.last
            (λ i lt. whole i (account_after api a r i) r (k.refusals i (omega arith) lt)))

    module _ (reads : ReadsOnly) where
      send_read-IsOnce :
          (path : Text) (a : A)
          → IsOnce 8 (send_read api ended ends path a) a (signed_request (text "GET") path no_body)
      unfolding send_read error_of
      send_read-IsOnce path a =
          let r = signed_request (text "GET") path no_body in
          let k = get-IsRead (error_of api a r) ended ends in
          IsOnce-last 8 a r (get (error_of api a r) ended ends) k.last k.bounded k.counts k.answer
            (account_after-kept a r k.last (λ i lt. reads i (account_after api a r i) r refl))

      -- When the API carries out no request that it refuses for its rate, and no read changes
      -- anything, then each method of the client comes to one request carried out once: the error
      -- it answers and the account it leaves are those of the request that its call stands for,
      -- sent at one moment, however often it was refused or, for a read, lost on the way. A write
      -- is sent four times at most, a signed read eight times, a read of the catalogue once.
      pub perform-IsOnce :
          (print : IpPrefix → Text) (op : ClientMethod) (a : A)
          → IsOnce (sendings op) (perform api ended ends print op a) a (request_of print op)
      unfolding perform call_route
      perform-IsOnce print (calling Call.current_credential) a = send_read-IsOnce _ a
      perform-IsOnce print (calling Call.list_credential_ids) a = send_read-IsOnce _ a
      perform-IsOnce print (calling (Call.credential id)) a = send_read-IsOnce _ a
      perform-IsOnce print (calling (Call.credential_application id)) a = send_read-IsOnce _ a
      perform-IsOnce print (calling (Call.delete_credential id)) a = send_write-IsOnce _ _ _ a
      perform-IsOnce print (calling (Call.set_allowed_ips id allowed)) a =
          send_write-IsOnce _ _ (address_body print allowed) a
      perform-IsOnce print (calling Call.logout) a = send_write-IsOnce _ _ _ a
      perform-IsOnce print (calling Call.list_application_ids) a = send_read-IsOnce _ a
      perform-IsOnce print (calling (Call.application id)) a = send_read-IsOnce _ a
      perform-IsOnce print (calling (Call.delete_application id)) a = send_write-IsOnce _ _ _ a
      perform-IsOnce print (list_with_status status) a = send_read-IsOnce _ a
      perform-IsOnce print index a = record { moment = 0; bounded = omega arith; comes = refl }
      perform-IsOnce print (schema path) a = record {
        moment = 0;
        bounded = omega arith;
        comes = refl;
      }
