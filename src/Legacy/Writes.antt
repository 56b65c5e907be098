-- ===== src/Legacy/Writes.antt =====
-- internal/legacy/provider.go: what the writing methods do on every answer of the API. Each family
-- below has a constructor for each way a method can end: its result, and the calls it has made.
use keymaker.Prelude.{
  ℤ, Bool, true, false, Option, none, some, In, any_witness, any_of_In, int_beq_iff, List, ◌∷◌, ◌≡◌,
  ◌≢◌, inl, inr, refl, ◌==◌, int_equality, Bool-cases, any, eq_of, ne_of,
}
use keymaker.Text.{text}
use keymaker.Failure.{
  Failure, sentinel, wrap, context, Result, ok, err, translate, self_revocation, application_in_use,
  identity_unavailable,
}
use keymaker.Credential.{Credential, permits}
use keymaker.Ovh.Client.{Call, Api, History, Calls, pure, ◌>>=◌}
use keymaker.Ovh.Paths.{credential_path}
use keymaker.Legacy.FanOut.{Scheduler}
use keymaker.Legacy.Provider.{
  write_error, Retirement, revoke_against, revoke, expire_current, retire_known, retire,
  delete_application_against, list, delete_application,
}

module _ (api : Api) (id : ℤ) (h : History) where
  -- The ways `Revoke` can end.
  pub data RevokeEnds : Option Failure → History → Type 0 where
    unidentified :
        (e : Failure)
        → api.current_credential h ≡ err e
        → RevokeEnds
            (some (wrap (sentinel identity_unavailable) (translate e)))
            (Call.current_credential ∷ h)
    itself :
        (c : Credential)
        → api.current_credential h ≡ ok c
        → c.id ≡ id
        → RevokeEnds (some (sentinel self_revocation)) (Call.current_credential ∷ h)
    sent :
        (c : Credential)
        → api.current_credential h ≡ ok c
        → c.id ≢ id
        → RevokeEnds
            (write_error (api.delete_credential (Call.current_credential ∷ h) id))
            (Call.delete_credential id ∷ Call.current_credential ∷ h)

  RevokeEnds-known :
      (c : Credential)
      → api.current_credential h ≡ ok c
      → RevokeEnds
          (revoke_against api c id (Call.current_credential ∷ h)).0
          (revoke_against api c id (Call.current_credential ∷ h)).1
  unfolding revoke_against ◌>>=◌
  RevokeEnds-known c e = elim (Bool-cases (c.id == id)) [
    | inl same ↦ rw same (itself c e (eq_of c.id id same))
    | inr apart ↦ rw apart (sent c e (ne_of c.id id apart))
  ]

  RevokeEnds-answer :
      (answer : Result Credential)
      → api.current_credential h ≡ answer
      → RevokeEnds (revoke api id h).0 (revoke api id h).1
  unfolding revoke ◌>>=◌
  RevokeEnds-answer (err e) p = rw (p, revoke) (unidentified e p)
  RevokeEnds-answer (ok c) p = rw (p, revoke) (RevokeEnds-known c p)

  -- `Revoke` reads the identity first; it fails when it cannot, refuses the credential in use, and
  -- otherwise sends one deletion, of the credential asked for.
  pub revoke-RevokeEnds : RevokeEnds (revoke api id h).0 (revoke api id h).1
  revoke-RevokeEnds = RevokeEnds-answer (api.current_credential h) refl

-- The credential in use may delete itself, by its own rules.
abbrev may_delete_itself : Credential → Bool
may_delete_itself c = permits c (text "DELETE") (credential_path c.id)

module _ (api : Api) (h : History) where
  abbrev identified : History
  identified = Call.current_credential ∷ h

  -- The ways an attempt to log out can end, from the calls already made.
  pub data ExpireEnds (c : Credential) (before : History)
      : Result Retirement → History → Type 0 where
    refused :
        (e : Failure)
        → api.logout before ≡ err e
        → ExpireEnds c before (err (context (translate e))) (Call.logout ∷ before)
    expired :
        api.logout before ≡ ok tt
        → ExpireEnds c before (ok (record { id = c.id; deleted = false })) (Call.logout ∷ before)

  -- The ways `Retire` can end.
  pub data RetireEnds : Result Retirement → History → Type 0 where
    unidentified :
        (e : Failure)
        → api.current_credential h ≡ err e
        → RetireEnds (err (wrap (sentinel identity_unavailable) (translate e))) identified
    gone :
        (c : Credential)
        → api.current_credential h ≡ ok c
        → may_delete_itself c ≡ true
        → api.delete_credential identified c.id ≡ ok tt
        → RetireEnds
            (ok (record { id = c.id; deleted = true }))
            (Call.delete_credential c.id ∷ identified)
    fell_back :
        (c : Credential) (e : Failure) {r : Result Retirement} {after : History}
        → api.current_credential h ≡ ok c
        → may_delete_itself c ≡ true
        → api.delete_credential identified c.id ≡ err e
        → ExpireEnds c (Call.delete_credential c.id ∷ identified) r after
        → RetireEnds r after
    no_rule :
        (c : Credential) {r : Result Retirement} {after : History}
        → api.current_credential h ≡ ok c
        → may_delete_itself c ≡ false
        → ExpireEnds c identified r after
        → RetireEnds r after

  ExpireEnds-answer :
      (c : Credential) (before : History) (answer : Result Unit)
      → api.logout before ≡ answer
      → ExpireEnds c before (expire_current api c before).0 (expire_current api c before).1
  unfolding expire_current ◌>>=◌
  ExpireEnds-answer c before (ok tt) p = rw (p, expire_current) (expired p)
  ExpireEnds-answer c before (err e) p = rw (p, expire_current) (refused e p)

  RetireEnds-delete :
      (c : Credential) (answer : Result Unit)
      → api.current_credential h ≡ ok c
      → may_delete_itself c ≡ true
      → api.delete_credential identified c.id ≡ answer
      → RetireEnds (retire_known api c identified).0 (retire_known api c identified).1
  unfolding retire_known ◌>>=◌
  RetireEnds-delete c (ok tt) i own p = rw (own, p, retire_known) (gone c i own p)
  RetireEnds-delete c (err e) i own p =
      rw (own, p, retire_known)
        (fell_back c e i own p
          (ExpireEnds-answer c (Call.delete_credential c.id ∷ identified) _ refl))

  RetireEnds-known :
      (c : Credential)
      → api.current_credential h ≡ ok c
      → RetireEnds (retire_known api c identified).0 (retire_known api c identified).1
  RetireEnds-known c i = elim (Bool-cases (may_delete_itself c)) [
    | inl own ↦ RetireEnds-delete c _ i own refl
    | inr none' ↦
        unfold retire_known ◌>>=◌ in
        rw (none', retire_known) (no_rule c i none' (ExpireEnds-answer c identified _ refl))
  ]

  RetireEnds-answer :
      (answer : Result Credential)
      → api.current_credential h ≡ answer
      → RetireEnds (retire api h).0 (retire api h).1
  unfolding retire ◌>>=◌
  RetireEnds-answer (err e) p = rw (p, retire) (unidentified e p)
  RetireEnds-answer (ok c) p = rw (p, retire) (RetireEnds-known c p)

  -- `Retire` touches no credential but the one in use: it deletes that one when its rules allow it,
  -- logs out when they do not or when the deletion is refused, and answers `deleted` exactly when
  -- the deletion was taken.
  pub retire-RetireEnds : RetireEnds (retire api h).0 (retire api h).1
  retire-RetireEnds = RetireEnds-answer (api.current_credential h) refl

-- An application that one of the credentials points at is refused, and no call is made; any other
-- gets one deletion.
pub delete_application_against_lem :
    (api : Api) (credentials : List Credential) (id : ℤ) (h : History)
    → (any (λ c. c.application.id == id) credentials ≡ true
        → delete_application_against api credentials id h ≡ (some (sentinel application_in_use), h))
      × (any (λ c. c.application.id == id) credentials ≡ false
          → delete_application_against api credentials id h
            ≡ (write_error (api.delete_application h id), Call.delete_application id ∷ h))
unfolding delete_application_against ◌>>=◌
delete_application_against_lem api credentials id h = (λ used. rw used, λ free. rw free)

module _ (api : Api) (s : Scheduler) (id : ℤ) (h : History) where
  -- The ways `DeleteApplication` can end, from what the listing read.
  pub data DeleteEnds : Option Failure → History → Type 0 where
    unlisted :
        (e : Failure) (after : History)
        → list api s h ≡ ((none, some e), after)
        → DeleteEnds (some (context e)) after
    unexplained :
        (after : History)
        → list api s h ≡ ((none, none), after)
        → DeleteEnds (some (context (Failure.unread 0))) after
    in_use :
        (read : List Credential) (e : Option Failure) (after : History) (c : Credential)
        → list api s h ≡ ((some read, e), after)
        → In c read
        → c.application.id ≡ id
        → DeleteEnds (some (sentinel application_in_use)) after
    deleted :
        (read : List Credential) (e : Option Failure) (after : History)
        → list api s h ≡ ((some read, e), after)
        → ((c : Credential) → In c read → c.application.id ≢ id)
        → DeleteEnds
            (write_error (api.delete_application after id))
            (Call.delete_application id ∷ after)

  DeleteEnds-listed :
      (read : List Credential) (e : Option Failure) (after : History)
      → list api s h ≡ ((some read, e), after)
      → let r = delete_application_against api read id after in DeleteEnds r.0 r.1
  unfolding delete_application_against ◌>>=◌
  DeleteEnds-listed read e after listed =
      elim (Bool-cases (any (λ c. c.application.id == id) read)) [
        | inl held ↦
            let (c, m, same) = any_witness (λ c. c.application.id == id) read held in
            rw held (in_use read e after c listed m (eq_of c.application.id id same))
        | inr free ↦ rw free (
            deleted read e after listed (λ c m same.
              let hit =
                any_of_In (λ c. c.application.id == id) m
                  ((int_beq_iff c.application.id id).1 same) in
              cc (hit, free)))
      ]

  -- `DeleteApplication` lists the credentials first, and makes no call beyond that listing but one
  -- deletion, of the application asked for. It fails without it when no listing was answered; it
  -- refuses an application that a listed credential points at; and otherwise, where none of those
  -- listed does, it sends the deletion and answers as the API does, also when the listing came with
  -- an error because some credentials could not be read.
  pub delete_application-DeleteEnds : let r = delete_application api s id h in DeleteEnds r.0 r.1
  unfolding delete_application ◌>>=◌
  delete_application-DeleteEnds = by (list api s h) refl
    where
      settled : Option (List Credential) × Option Failure → Calls (Option Failure)
      settled l = elim l.0 [
        | none ↦ pure (some (elim l.1 [ none ↦ context (Failure.unread 0) | some e ↦ context e ]))
        | some credentials ↦ delete_application_against api credentials id
      ]

      by :
          (l : (Option (List Credential) × Option Failure) × History)
          → list api s h ≡ l
          → DeleteEnds (settled l.0 l.1).0 (settled l.0 l.1).1
      by ((none, none), after) e = unexplained after e
      by ((none, some f), after) e = unlisted f after e
      by ((some read, f), after) e = DeleteEnds-listed read f after e
