-- ===== src/Http/Addresses.antt =====
-- internal/httpapi/addresses.go: the addresses a key is accepted from. A block stands in an answer
-- as itself and not as its text; the entry that a refusal names beside its code is left out.

pub mod Safety
pub mod Preview
use keymaker.Prelude.{
  ℤ, Bool, true, false, not, ◌&&◌, ◌||◌, Option, none, some, List, [], ◌∷◌, ◌==◌, int_equality,
  if◌then◌else◌, any,
}
use keymaker.Text.{Text}
use keymaker.Strconv.{parse_int}
use keymaker.Netip.{Addr, IpPrefix, Parsing, contains}
use keymaker.PublicIp.{Resolver, address}
use keymaker.Credential.{Credential, is_validated}
use keymaker.Failure.{
  Failure, Result, ok, err, wrap, sentinel, is, identity_unavailable, lookup_disabled,
}
use keymaker.Ovh.Client.{Api, Calls, ◌>>=◌, pure}
use keymaker.Legacy.FanOut.{Scheduler}
use keymaker.Legacy.Provider
use keymaker.Http.Replies.{
  Reply, answered, refused, fail_addresses, code_bad_identifier, code_bad_address, code_inactive,
  code_self_lookup_off, code_lookup_disabled, code_lookup_failed, code_self_lockout,
}
use keymaker.Http.Entries.{Reading, accepted, rejected, read_addresses}

pub record AddressesResponse : Type 0 where
  pub addresses : List IpPrefix
  pub seen_from : Option Addr

-- The check of a list that restricts the key in use.
unfoldable pub check_own : Result Addr → List IpPrefix → Reply AddressesResponse
check_own (err e) allowed =
    if is lookup_disabled e
    then refused 409 code_self_lookup_off
    else refused 502 code_lookup_failed
check_own (ok seen) allowed =
    if not (any (λ p. contains p seen) allowed)
    then refused 409 code_self_lockout
    else answered (record { addresses = allowed; seen_from = some seen })

abbrev pub is_nil : List IpPrefix → Bool
is_nil [] = true
is_nil _ = false

unfoldable pub check :
    Result Addr → Credential → Credential → List IpPrefix → Reply AddressesResponse
unfolding check_own
check seen current target allowed =
    if not (is_validated target.status) || target.application.deleted
    then refused 409 code_inactive
    else if target.id == current.id && not (is_nil allowed)
    then check_own seen allowed
    else answered (record { addresses = allowed; seen_from = none })

abbrev pub written {ℓ} : {A : Type ℓ} → A → Option Failure → Reply A
written response none = answered response
written response (some e) = fail_addresses e

module _ (api : Api) (apply : Bool) (allowed : List IpPrefix) where
  unfoldable pub write : Credential → Reply AddressesResponse → Calls (Reply AddressesResponse)
  write target (answered response) =
      if not apply
      then pure (answered response)
      else do e ← Provider.set_addresses api target.id allowed; pure (written response e)
  write target refusal = pure refusal

  module _ (seen : Result Addr) where
    unfoldable pub addresses_against :
        Credential → Result Credential → Calls (Reply AddressesResponse)
    unfolding write check
    addresses_against current (err e) = pure (fail_addresses e)
    addresses_against current (ok target) = write target (check seen current target allowed)

    module _ (s : Scheduler) (id : ℤ) where
      unfoldable pub addresses_known : Result Credential → Calls (Reply AddressesResponse)
      unfolding addresses_against
      addresses_known (err e) = pure (fail_addresses (wrap (sentinel identity_unavailable) e))
      addresses_known (ok current) =
          if id == current.id
          then addresses_against current (ok current)
          else do target ← Provider.get api s id; addresses_against current target

      unfoldable pub addresses_read : Calls (Reply AddressesResponse)
      unfolding addresses_known
      addresses_read = do current ← Provider.current api s; addresses_known current

module _ (api : Api) (parsing : Parsing) (resolver : Resolver) (s : Scheduler) (apply : Bool) where
  unfoldable pub addresses_sent : ℤ → Reading → Calls (Reply AddressesResponse)
  unfolding addresses_read
  addresses_sent id (rejected code entry) = pure (refused 400 code)
  addresses_sent id (accepted allowed) =
      addresses_read api apply allowed (address parsing resolver) s id

  unfoldable pub addresses_identified :
      Option ℤ → Option (List Text) → Calls (Reply AddressesResponse)
  unfolding addresses_sent
  addresses_identified none body = pure (refused 400 code_bad_identifier)
  addresses_identified (some id) none = pure (refused 400 code_bad_address)
  addresses_identified (some id) (some sent) = addresses_sent id (read_addresses parsing sent)

  -- The handler: a preview, or the write where `apply` is set. A body that cannot be decoded is
  -- `none`.
  unfoldable pub addresses : Text → Option (List Text) → Calls (Reply AddressesResponse)
  unfolding addresses_identified
  addresses path_id body = addresses_identified (parse_int path_id) body

-- `GET /api/address`, from what the resolver answers.
unfoldable pub public_address : Result Addr → Reply Addr
public_address (ok seen) = answered seen
public_address (err e) =
    if is lookup_disabled e
    then refused 403 code_lookup_disabled
    else refused 502 code_lookup_failed
