-- ===== src/Ovh/Requests.antt =====
-- internal/ovh/api.go: the requests of the client's methods, and how each method sends its own. The
-- SDK and the API behind it are a parameter: what answers a request at a moment, and what it leaves
-- of the account.
pub mod Once
use keymaker.Prelude.{
  ℕ, zero, suc, ℤ, Bool, true, false, Option, none, some, List, [], ◌∷◌, ◌++◌, map, ◌==◌,
  nat_equality, list_equality, if◌then◌else◌,
}
use keymaker.Text.{Text, text}
use keymaker.Failure.{Failure}
use keymaker.Netip.{IpPrefix}
use keymaker.Url.{encode}
use keymaker.Ovh.Client.{Call}
use keymaker.Ovh.Paths.{credential_path, application_path}
use keymaker.Ovh.Pacing.{get, paced}

-- A list of addresses that holds none is sent as null.
pub data Body : Type 0 where
  no_body null_addresses : Body
  addresses : List Text → Body

pub record SdkRequest : Type 0 where
  pub method : Text
  pub path : Text
  pub body : Body
  pub signed : Bool

-- The methods of the client: the calls, the listing narrowed by a status, and the two reads of the
-- catalogue.
pub data ClientMethod : Type 0 where
  calling : Call → ClientMethod
  list_with_status : Text → ClientMethod
  index : ClientMethod
  schema : Text → ClientMethod

unfoldable pub list_path : Text → Text
unfolding encode
list_path status =
    if status == []
    then text "/me/api/credential"
    else text "/me/api/credential" ++ (b'?' ∷ encode ((text "status", status) ∷ []))

abbrev pub signed_request : Text → Text → Body → SdkRequest
signed_request method path body = record {
  method = method;
  path = path;
  body = body;
  signed = true;
}

abbrev pub unsigned_request : Text → SdkRequest
unsigned_request path = record { method = text "GET"; path = path; body = no_body; signed = false }

-- The body of `SetAllowedIPs`.
unfoldable pub address_body : (IpPrefix → Text) → List IpPrefix → Body
address_body print [] = null_addresses
address_body print (p ∷ ps) = addresses (map print (p ∷ ps))

module _ {A : Type 0} (api : ℕ → A → SdkRequest → Option Failure × A) where
  -- The account once a request was sent so often, and the error of one time.
  unfoldable pub account_after : A → SdkRequest → ℕ → A
  account_after a r zero = a
  account_after a r (suc n) = (api n (account_after a r n) r).1

  unfoldable pub error_of : A → SdkRequest → ℕ → Option Failure
  unfolding account_after
  error_of a r n = (api n (account_after a r n) r).0

  module _ (ended ends : Bool) where
    unfoldable pub send_read : Text → A → Option Failure × A
    unfolding error_of get
    send_read path a =
        let r = signed_request (text "GET") path no_body in
        let outcome = get (error_of a r) ended ends in (outcome.0, account_after a r outcome.1)

    unfoldable pub send_write : Text → Text → Body → A → Option Failure × A
    unfolding error_of paced
    send_write method path body a =
        let r = signed_request method path body in
        let outcome = paced (error_of a r) 0 in (outcome.0, account_after a r outcome.1)

    -- One clause for each method of the client.
    unfoldable pub perform : (IpPrefix → Text) → ClientMethod → A → Option Failure × A
    unfolding send_read send_write list_path address_body credential_path application_path
    perform print (calling Call.current_credential) = send_read (text "/auth/currentCredential")
    perform print (calling Call.list_credential_ids) = send_read (list_path [])
    perform print (calling (Call.credential id)) = send_read (credential_path id)
    perform print (calling (Call.credential_application id)) =
        send_read (credential_path id ++ text "/application")
    perform print (calling (Call.delete_credential id)) =
        send_write (text "DELETE") (credential_path id) no_body
    perform print (calling (Call.set_allowed_ips id allowed)) =
        send_write (text "PUT") (credential_path id) (address_body print allowed)
    perform print (calling Call.logout) = send_write (text "POST") (text "/auth/logout") no_body
    perform print (calling Call.list_application_ids) = send_read (text "/me/api/application")
    perform print (calling (Call.application id)) = send_read (application_path id)
    perform print (calling (Call.delete_application id)) =
        send_write (text "DELETE") (application_path id) no_body
    perform print (list_with_status status) = send_read (list_path status)
    perform print index = λ a. api 0 a (unsigned_request (text "/"))
    perform print (schema path) = λ a. api 0 a (unsigned_request path)
