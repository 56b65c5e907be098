-- ===== src/Demo/Simulation.antt =====
-- tools/demo/main.go beside internal/legacy/provider.go: the store keeps the guards of the real
-- provider. The provider is run on an API that answers as an account does whose keys and
-- applications it changes by the calls made.
pub mod Writes
pub mod Invented
use keymaker.Prelude.{
  Bool, true, false, not, Option, none, some, List, [], ◌∷◌, map, ◌≡◌, refl, sym, ap, arith, ◌==◌,
  int_equality, ℤ, if◌then◌else◌, any, filter, length, Bool-cases, ◌∙◌, inl, inr, subst, test_sym,
  nat_equality,
}
use keymaker.Netip.{IpPrefix}
use keymaker.Failure.{
  Failure, Sentinel, self_revocation, permission_denied, application_in_use, not_found,
  identity_unavailable, sentinel, wrap, is, api_error, translate, status_code, as_api_error, Result,
  ok, err,
}
use keymaker.Credential.{Application, Credential}
use keymaker.Ovh.Client.{Call, History, Api, Calls, ◌>>=◌, pure}
use keymaker.Legacy.Provider
use keymaker.Legacy.Provider.{write_error}
use keymaker.Demo.{
  Store, has_id, without_key, missing_if, find, revoke_against, revoke, with_addresses,
  write_blocks, set_addresses, without_application, delete_application_against, holds,
}
use keymaker.Demo.Keys.{
  AreDistinct, rewritten, without_key-AreDistinct, rewritten-AreDistinct, write_blocks-eq-map,
  length-filter-eq, find-without_key, find-rewritten, map_ok, rewritten-none,
}

-- The account behind an API.
pub record HeldAccount : Type 0 where
  pub own : ℤ
  pub credentials : List Credential
  pub applications : List Application

-- What a call that the API takes leaves; the others change nothing. An application goes with its
-- keys.
abbrev pub effect : Call → HeldAccount → HeldAccount
effect (Call.delete_credential id) a = record a {
  credentials = filter (λ c. not (c.id == id)) a.credentials;
}
effect (Call.set_allowed_ips id allowed) a = record a {
  credentials = map (rewritten id allowed) a.credentials;
}
effect (Call.delete_application id) a = record a {
  credentials = filter (λ c. not (c.application.id == id)) a.credentials;
  applications = filter (λ p. not (p.id == id)) a.applications;
}
effect Call.current_credential a = a
effect Call.list_credential_ids a = a
effect (Call.credential id) a = a
effect (Call.credential_application id) a = a
effect Call.logout a = a
effect Call.list_application_ids a = a
effect (Call.application id) a = a

abbrev pub after : HeldAccount → History → HeldAccount
after a [] = a
after a (call ∷ h) = effect call (after a h)

abbrev pub or_404 : Bool → Result (Unit {0})
or_404 true = ok tt
or_404 false = err (api_error 404)

-- Answers of the account; the calls that no write of the store needs are refused.
abbrev pub api_of : HeldAccount → Api
api_of a = record {
  current_credential = λ h. find (after a h).own (after a h).credentials;
  list_credential_ids = λ h. err (api_error 403);
  credential = λ h id. find id (after a h).credentials;
  credential_application = λ h id. err (api_error 403);
  delete_credential = λ h id. or_404 (any (λ c. c.id == id) (after a h).credentials);
  set_allowed_ips = λ h id allowed. or_404 (any (λ c. c.id == id) (after a h).credentials);
  logout = λ h. err (api_error 403);
  list_application_ids = λ h. err (api_error 403);
  application = λ h id. err (api_error 403);
  delete_application = λ h id. or_404 (any (λ p. p.id == id) (after a h).applications);
}

-- What a handler reads in an error: which of the sentinels it is.
abbrev pub verdict : Option Failure → Option (Bool × Bool × Bool × Bool × Bool)
verdict none = none
verdict (some e) = some (
  is self_revocation e,
  is permission_denied e,
  is application_in_use e,
  is not_found e,
  is identity_unavailable e,
)

-- The store holds what the account holds, and its copy of the key in use is that key.
pub record IsCopy (a : HeldAccount) (s : Store) : Type 0 where
  pub keys : a.credentials ≡ s.credentials
  pub apps : a.applications ≡ s.applications
  pub own : a.own ≡ s.current.id
  pub distinct : AreDistinct s.credentials
  pub own_found : find s.current.id s.credentials ≡ ok s.current

-- A call of the provider and one of the store: they are answered alike, and leave copies.
abbrev pub Alike : HeldAccount → Option Failure × History → Option Failure × Store → Type 0
Alike a (e, h) (f, s) = (verdict e ≡ verdict f) × IsCopy (after a h) s

-- A write of the interface to the account.
pub data Write : Type 0 where
  revoking : ℤ → Write
  setting : ℤ → List IpPrefix → Write
  deleting : List Credential → ℤ → Write

abbrev pub by_provider : Api → Write → Calls (Option Failure)
by_provider api (revoking id) = Provider.revoke api id
by_provider api (setting id allowed) = Provider.set_addresses api id allowed
by_provider api (deleting listed id) = Provider.delete_application_against api listed id

abbrev pub by_store : Write → Store → Option Failure × Store
by_store (revoking id) = revoke id
by_store (setting id allowed) = set_addresses id allowed
by_store (deleting listed id) = delete_application_against listed id

-- Each deletion of an application is decided on a listing that shows a key of it, if it holds one at
-- that moment. No write issues a key, so any earlier listing of the store does.
abbrev pub SeesKeys : Write → Store → Type 0
SeesKeys (deleting listed id) s = holds id listed ≡ false → holds id s.credentials ≡ false
SeesKeys _ s = Unit

abbrev pub AllSeeKeys : List Write → Store → Type 0
AllSeeKeys [] s = Unit
AllSeeKeys (w ∷ ws) s = SeesKeys w s × AllSeeKeys ws (by_store w s).1

-- The verdicts of a sequence of writes, in their order, and what it leaves.
abbrev pub run_provider :
    Api → List Write → History → List (Option (Bool × Bool × Bool × Bool × Bool)) × History
run_provider api [] h = ([], h)
run_provider api (w ∷ ws) h =
    let (e, h') = by_provider api w h in
    let (verdicts, last) = run_provider api ws h' in (verdict e ∷ verdicts, last)

abbrev pub run_store : List Write → Store → List (Option (Bool × Bool × Bool × Bool × Bool)) × Store
run_store [] s = ([], s)
run_store (w ∷ ws) s =
    let (e, s') = by_store w s in
    let (verdicts, last) = run_store ws s' in (verdict e ∷ verdicts, last)
