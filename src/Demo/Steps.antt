-- ===== src/Demo/Steps.antt =====
-- tools/demo/main.go: what any interleaving of calls leaves of an account.
use keymaker.Prelude.{
  true, false, none, some, List, [], ◌∷◌, ◌≡◌, inl, inr, refl, sym, ap, arith, nat_equality,
  list_equality, int_equality, ℤ, filter, Bool-cases, ◌∙◌,
}
use keymaker.Netip.{IpPrefix}
use keymaker.Failure.{sentinel, application_in_use}
use keymaker.Credential.{Credential}
use keymaker.Demo.{
  Store, without_key, list, revoke_against, retire, write_blocks, set_addresses, holds,
  delete_application_against, delete_application,
}

-- One critical section of a call, with any arguments: those a handler passes, or others.
pub data Step (s : Store) : Store → Type 0 where
  by_revoke : (current : Credential) (id : ℤ) → Step s (revoke_against current id s).1
  by_retire : Step s (retire s).1
  by_set : (id : ℤ) (allowed : List IpPrefix) → Step s (set_addresses id allowed s).1
  by_delete :
      (credentials : List Credential) (id : ℤ)
      → Step s (delete_application_against credentials id s).1

pub data Steps (s : Store) : Store → Type 0 where
  here : Steps s s
  next : {t u : Store} → Steps s t → Step t u → Steps s u

holds-without_key :
    (a id : ℤ) (cs : List Credential) → holds a cs ≡ false → holds a (without_key id cs) ≡ false
holds-without_key a id [] h = refl
holds-without_key a id (c ∷ cs) h = ground (arith, holds-without_key a id cs)

holds-write_blocks :
    (a id : ℤ) (allowed : List IpPrefix) (cs : List Credential)
    → holds a (write_blocks id allowed cs) ≡ holds a cs
unfolding write_blocks
holds-write_blocks a id allowed [] = refl
holds-write_blocks a id allowed (c ∷ cs) = ground (arith, holds-write_blocks a id allowed cs)

-- No call issues a key, so an application that no key holds stays so.
Step-holds :
    (a : ℤ) {s t : Store} → Step s t → holds a s.credentials ≡ false → holds a t.credentials ≡ false
unfolding revoke_against retire set_addresses delete_application_against
Step-holds a {s} (by_revoke current id) h = ground (arith, holds-without_key a id s.credentials)
Step-holds a {s} by_retire h = holds-without_key a s.current.id s.credentials h
Step-holds a {s} (by_set id allowed) h =
    ground (arith, holds-write_blocks a id allowed s.credentials)
Step-holds a {s} (by_delete credentials id) h = ground arith

Steps-holds :
    (a : ℤ) {s t : Store}
    → Steps s t
    → holds a s.credentials ≡ false
    → holds a t.credentials ≡ false
Steps-holds a here h = h
Steps-holds a (next steps st) h = Step-holds a st (Steps-holds a steps h)

filter-true : (cs : List Credential) → filter (λ c. true) cs ≡ cs
filter-true [] = refl
filter-true (c ∷ cs) = ap (◌∷◌ c) (filter-true cs)

list-all : (s : Store) → list s [] ≡ s.credentials
unfolding list
list-all s = filter-true s.credentials

holds-delete :
    (credentials : List Credential) (id : ℤ) (s : Store)
    → (holds id credentials ≡ true
        → delete_application_against credentials id s ≡ (some (sentinel application_in_use), s))
      × ((delete_application_against credentials id s).0 ≡ none → holds id credentials ≡ false)
unfolding delete_application_against
holds-delete credentials id s = elim (Bool-cases (holds id credentials)) [
  | inl held ↦ rw held (λ h. refl, λ h. absurd (cc))
  | inr free ↦ rw free (λ h. absurd (cc), λ h. refl)
]

-- Whatever other calls do between the listing that a deletion of an application reads and its write:
-- when a key of the account is then issued under the application, the deletion is refused as of one
-- in use and changes nothing; and when it reports no error, no key of the account it leaves is issued
-- under it, and none comes to be by later calls.
pub delete_application-Steps :
    (id : ℤ) {before s later : Store}
    → Steps before s
    → Steps (delete_application id before s).1 later
    → (holds id s.credentials ≡ true
        → delete_application id before s ≡ (some (sentinel application_in_use), s))
      × ((delete_application id before s).0 ≡ none → holds id later.credentials ≡ false)
unfolding delete_application
delete_application-Steps id {before} {s} between after =
    let (refuses, passes) = holds-delete (list before []) id s in
    (
      λ held. elim (Bool-cases (holds id (list before []))) [
        | inl listed ↦ refuses listed
        | inr free ↦
            absurd (
              ground (arith, Steps-holds id between (ap (holds id) (sym (list-all before)) ∙ free)))
      ],
      λ done. Steps-holds id after (
          Step-holds id (by_delete (list before []) id)
            (Steps-holds id between (ap (holds id) (sym (list-all before)) ∙ passes done))),
    )
