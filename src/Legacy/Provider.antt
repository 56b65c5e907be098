-- ===== src/Legacy/Provider.antt =====
-- internal/legacy/provider.go: the methods of `Provider`, each a sequence of calls.
use keymaker.Prelude.{
  at, ℤ, pos, Bool, true, false, Option, none, some, List, [], ◌∷◌, map, ◌==◌, int_equality,
  if◌then◌else◌, any, length,
}
use keymaker.Text.{text}
use keymaker.Netip.{IpPrefix}
use keymaker.Failure.{
  Failure, sentinel, wrap, context, Result, ok, err, translate, self_revocation, application_in_use,
  identity_unavailable,
}
use keymaker.Credential.{Application, Credential, permits}
use keymaker.Ovh.Client.{Call, Api, Calls, ◌>>=◌, pure, ask}
use keymaker.Ovh.Paths.{credential_path, application_path}
use keymaker.Legacy.FanOut.{Scheduler, fan_out, slot_list}
use keymaker.Legacy.Reading.{
  fetched, credential_slot, application_slot, values, failures, unreadable, Listing,
  read_applications, read_credentials, no_credential, no_application, representatives, settle,
  known, with_application,
}

-- The error of a write, worded for the caller.
abbrev pub write_error : Result (Unit {0}) → Option Failure
write_error (ok done) = none
write_error (err e) = some (context (translate e))

pub record Retirement : Type 0 where
  pub id : ℤ
  pub deleted : Bool

abbrev pub revocable : Credential → Credential → Bool
revocable current target = permits current (text "DELETE") (credential_path target.id)

abbrev pub addresses_editable : Credential → Credential → Bool
addresses_editable current target = permits current (text "PUT") (credential_path target.id)

abbrev pub deletable_application : Credential → ℤ → Bool
deletable_application current id = permits current (text "DELETE") (application_path id)

module _ (api : Api) where
  unfoldable pub revoke_against : Credential → ℤ → Calls (Option Failure)
  revoke_against current id =
      if current.id == id then pure (some (sentinel self_revocation)) else do
        answer ← ask (λ h. api.delete_credential h id) (Call.delete_credential id)
        pure (write_error answer)

  unfoldable pub revoke : ℤ → Calls (Option Failure)
  unfolding revoke_against
  revoke id = do
    answer ← ask api.current_credential Call.current_credential
    elim answer [
      | err e ↦ pure (some (wrap (sentinel identity_unavailable) (translate e)))
      | ok current ↦ revoke_against current id
    ]

  -- `POST /auth/logout`
  unfoldable pub expire_current : Credential → Calls (Result Retirement)
  expire_current current = do
    answer ← ask api.logout Call.logout
    elim answer [
      | err e ↦ pure (err (context (translate e)))
      | ok done ↦ pure (ok (record { id = current.id; deleted = false }))
    ]

  unfoldable pub retire_known : Credential → Calls (Result Retirement)
  unfolding expire_current
  retire_known current =
      if permits current (text "DELETE") (credential_path current.id)
      then (do
        answer ← ask (λ h. api.delete_credential h current.id) (Call.delete_credential current.id)
        elim answer [
          | ok done ↦ pure (ok (record { id = current.id; deleted = true }))
          | err e ↦ expire_current current
        ])
      else expire_current current

  unfoldable pub retire : Calls (Result Retirement)
  unfolding retire_known
  retire = do
    answer ← ask api.current_credential Call.current_credential
    elim answer [
      | err e ↦ pure (err (wrap (sentinel identity_unavailable) (translate e)))
      | ok current ↦ retire_known current
    ]

  unfoldable pub set_addresses : ℤ → List IpPrefix → Calls (Option Failure)
  set_addresses id allowed = do
    answer ← ask (λ h. api.set_allowed_ips h id allowed) (Call.set_allowed_ips id allowed)
    pure (write_error answer)

  unfoldable pub delete_application_against : List Credential → ℤ → Calls (Option Failure)
  delete_application_against credentials id =
      if any (λ c. c.application.id == id) credentials
      then pure (some (sentinel application_in_use))
      else do
        answer ← ask (λ h. api.delete_application h id) (Call.delete_application id)
        pure (write_error answer)

  -- `p.application`
  unfoldable pub read_application : Credential → Calls Application
  read_application c = do
    answer ← ask (λ h. api.application h c.application.id) (Call.application c.application.id)
    elim answer [
      | ok found ↦ pure found
      | err e ↦ (do
        via_credential ←
            ask (λ h. api.credential_application h c.id) (Call.credential_application c.id)
        pure (settle c e via_credential))
    ]

  module _ (s : Scheduler) where
    unfoldable pub resolve_applications : List Credential → Calls (List Credential)
    unfolding read_application
    resolve_applications credentials = do
      let first = representatives [] credentials
      resolved ←
          fan_out s (λ i. read_application (at no_credential first i)) (length first)
            (λ i. no_application)
      pure (map (λ c. with_application c (known 0 first resolved c.application.id)) credentials)

    unfoldable pub fetch_all : List ℤ → Calls (Listing Credential)
    fetch_all ids = do
      slots ←
          fan_out s
            (λ i.
              ask (λ h. api.credential h (at (pos 0) ids i)) (Call.credential (at (pos 0) ids i))
              >>= λ answer. pure (credential_slot answer))
            (length ids) (λ i. fetched no_credential)
      let read = slot_list (length ids) slots
      pure (read_credentials (values read) (unreadable read) (failures read))

    unfoldable pub list_read : Listing Credential → Calls (Listing Credential)
    unfolding resolve_applications
    list_read (none, e) = pure (none, e)
    list_read (some credentials, e) = do
      resolved ← resolve_applications credentials
      pure (some resolved, e)

    -- `List` with the empty status, which is how every caller calls it.
    unfoldable pub list : Calls (Listing Credential)
    unfolding fetch_all list_read
    list = do
      answer ← ask api.list_credential_ids Call.list_credential_ids
      elim answer [
        | err e ↦ pure (none, some (context (translate e)))
        | ok ids ↦ (do read ← fetch_all ids; list_read read)
      ]

    unfoldable pub resolve_one : Credential → Calls Credential
    unfolding resolve_applications
    resolve_one found = do one ← resolve_applications (found ∷ []); pure (at no_credential one 0)

    unfoldable pub get : ℤ → Calls (Result Credential)
    unfolding resolve_one
    get id = do
      answer ← ask (λ h. api.credential h id) (Call.credential id)
      elim answer [
        | err e ↦ pure (err (context (translate e)))
        | ok found ↦ (do c ← resolve_one found; pure (ok c))
      ]

    unfoldable pub current : Calls (Result Credential)
    unfolding resolve_one
    current = do
      answer ← ask api.current_credential Call.current_credential
      elim answer [
        | err e ↦ pure (err (context (translate e)))
        | ok found ↦ (do c ← resolve_one found; pure (ok c))
      ]

    unfoldable pub applications : Calls (Listing Application)
    applications = do
      answer ← ask api.list_application_ids Call.list_application_ids
      elim answer [
        | err e ↦ pure (none, some (context (translate e)))
        | ok ids ↦ (do
          slots ←
              fan_out s
                (λ i.
                  ask (λ h. api.application h (at (pos 0) ids i))
                    (Call.application (at (pos 0) ids i))
                  >>= λ answer. pure (application_slot answer))
                (length ids) (λ i. fetched no_application)
          let read = slot_list (length ids) slots
          pure (read_applications (values read) (unreadable read) (failures read)))
      ]

    unfoldable pub delete_application : ℤ → Calls (Option Failure)
    unfolding list delete_application_against
    delete_application id = do
      listing ← list
      elim listing.0 [
        | none ↦
            pure (some (elim listing.1 [ none ↦ context (Failure.unread 0) | some e ↦ context e ]))
        | some credentials ↦ delete_application_against credentials id
      ]
