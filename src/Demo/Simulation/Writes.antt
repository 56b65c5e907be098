-- ===== src/Demo/Simulation/Writes.antt =====
-- tools/demo/main.go beside internal/legacy/provider.go: each write, and any sequence of them.
use keymaker.Prelude.{
  Bool, true, false, not, Option, some, List, [], ◌∷◌, map, ◌≡◌, refl, sym, ap, arith, ◌==◌,
  int_equality, ℤ, if◌then◌else◌, any, filter, Bool-cases, ◌∙◌, inl, inr, subst, test_sym,
  nat_equality,
}
use keymaker.Netip.{IpPrefix}
use keymaker.Failure.{
  Failure, identity_unavailable, sentinel, wrap, is, translate, status_code, as_api_error, Result,
  ok, err,
}
use keymaker.Credential.{Application, Credential}
use keymaker.Ovh.Client.{Call, History, Calls, ◌>>=◌, pure}
use keymaker.Legacy.Provider
use keymaker.Legacy.Provider.{write_error}
use keymaker.Demo.{
  Store, has_id, without_key, missing_if, find, revoke_against, revoke, with_addresses,
  write_blocks, set_addresses, without_application, delete_application_against, holds,
}
use keymaker.Demo.Keys.{
  AreDistinct, rewritten, without_key-AreDistinct, rewritten-AreDistinct, write_blocks-eq-map,
  length-filter-eq, find-without_key, find-rewritten, map_ok, rewritten-none,
}
use keymaker.Demo.Simulation.{
  HeldAccount, effect, after, or_404, api_of, verdict, IsCopy, Alike, Write, revoking, setting,
  deleting, by_provider, by_store, run_provider, run_store, SeesKeys, AllSeeKeys,
}

missing-verdict : (b : Bool) → verdict (write_error (or_404 b)) ≡ verdict (missing_if (not b))
unfolding is translate status_code as_api_error
missing-verdict true = refl
missing-verdict false = refl

delete_key-IsCopy :
    (a : HeldAccount) (s : Store) (id : ℤ)
    → (s.current.id == id) ≡ false
    → IsCopy a s
    → IsCopy
        (effect (Call.delete_credential id) a)
        (record s { credentials = without_key id s.credentials })
delete_key-IsCopy a s id other c = record {
  keys = ap (without_key id) c.keys;
  apps = c.apps;
  own = c.own;
  distinct = without_key-AreDistinct id s.credentials c.distinct;
  own_found =
      find-without_key s.current.id id s.credentials (test_sym id s.current.id ∙ other)
      ∙ c.own_found;
}

revoke_against-Alike :
    (a : HeldAccount) (h : History) (s : Store) (current : Credential) (id : ℤ)
    → current.id ≡ s.current.id
    → IsCopy (after a h) s
    → Alike a (Provider.revoke_against (api_of a) current id h) (revoke_against current id s)
unfolding Provider.revoke_against revoke_against ◌>>=◌
revoke_against-Alike a h s current id same c = elim (Bool-cases (current.id == id)) [
  | inl self ↦ rw self (refl, c)
  | inr other ↦ rw other (
    missing-verdict (any (has_id id) (after a h).credentials)
        ∙ ap (λ cs. verdict (missing_if (not (any (has_id id) cs)))) c.keys
        ∙ ap (λ b. verdict (missing_if b)) (sym (length-filter-eq (has_id id) s.credentials)),
    delete_key-IsCopy (after a h) s id (ap (λ k. k == id) (sym same) ∙ other) c,
  )
]

set_key-IsCopy :
    (a : HeldAccount) (s : Store) (id : ℤ) (allowed : List IpPrefix)
    → IsCopy a s
    → IsCopy (effect (Call.set_allowed_ips id allowed) a) (record s {
      current = rewritten id allowed s.current;
      credentials = write_blocks id allowed s.credentials;
    })
set_key-IsCopy a s id allowed c =
    let e = write_blocks-eq-map id allowed s.credentials c.distinct in
    let k = same_id s.current in
    record {
      keys = ap (map (rewritten id allowed)) c.keys ∙ sym e;
      apps = c.apps;
      own = c.own ∙ sym k;
      distinct =
          subst AreDistinct (sym e) (rewritten-AreDistinct id allowed s.credentials c.distinct);
      own_found =
          ap (λ i. find i (write_blocks id allowed s.credentials)) k
          ∙ ap (find s.current.id) e
          ∙ find-rewritten s.current.id id allowed s.credentials
          ∙ ap (map_ok (rewritten id allowed)) c.own_found;
    }
  where
    same_id : (c : Credential) → (rewritten id allowed c).id ≡ c.id
    same_id c = ground arith

IsCopy-current :
    (a : HeldAccount) (s : Store) (x y : Credential) (cs : List Credential)
    → x ≡ y
    → IsCopy a (record s { current = x; credentials = cs })
    → IsCopy a (record s { current = y; credentials = cs })
IsCopy-current a s x y cs e c =
    subst (λ z. IsCopy a (record s { current = z; credentials = cs })) e c

rewritten-if :
    (id : ℤ) (allowed : List IpPrefix) (c : Credential)
    → rewritten id allowed c ≡ (if id == c.id then with_addresses allowed c else c)
rewritten-if id allowed c = ap (λ b. if b then with_addresses allowed c else c) (test_sym c.id id)

set_missing-IsCopy :
    (a : HeldAccount) (s : Store) (id : ℤ) (allowed : List IpPrefix)
    → any (has_id id) s.credentials ≡ false
    → IsCopy a s
    → IsCopy (effect (Call.set_allowed_ips id allowed) a) s
set_missing-IsCopy a s id allowed none' c = record {
  keys = ap (map (rewritten id allowed)) c.keys ∙ rewritten-none id allowed s.credentials none';
  apps = c.apps;
  own = c.own;
  distinct = c.distinct;
  own_found = c.own_found;
}

set_addresses-Alike :
    (a : HeldAccount) (h : History) (s : Store) (id : ℤ) (allowed : List IpPrefix)
    → IsCopy (after a h) s
    → Alike a (Provider.set_addresses (api_of a) id allowed h) (set_addresses id allowed s)
unfolding Provider.set_addresses set_addresses ◌>>=◌
set_addresses-Alike a h s id allowed c = elim (Bool-cases (any (has_id id) s.credentials)) [
  | inl here ↦ rw here (
    ap (λ b. verdict (write_error (or_404 b))) (ap (any (has_id id)) c.keys ∙ here)
        ∙ missing-verdict true,
    IsCopy-current (effect (Call.set_allowed_ips id allowed) (after a h)) s
        (rewritten id allowed s.current)
        (if id == s.current.id then with_addresses allowed s.current else s.current)
        (write_blocks id allowed s.credentials) (rewritten-if id allowed s.current)
        (set_key-IsCopy (after a h) s id allowed c),
  )
  | inr gone ↦ rw gone (
    ap (λ b. verdict (write_error (or_404 b))) (ap (any (has_id id)) c.keys ∙ gone)
        ∙ missing-verdict false,
    set_missing-IsCopy (after a h) s id allowed gone c,
  )
]

not_of : ℤ → Credential → Bool
not_of id c = not (c.application.id == id)

filter-free : (id : ℤ) (cs : List Credential) → holds id cs ≡ false → filter (not_of id) cs ≡ cs
unfolding not_of
filter-free id [] free = refl
filter-free id (c ∷ cs) free =
    let here : (c.application.id == id) ≡ false = ground arith in
    rw here (ap (◌∷◌ c) (filter-free id cs (ground arith)))

delete_application_against-Alike :
    (a : HeldAccount) (h : History) (s : Store) (credentials : List Credential) (id : ℤ)
    → (holds id credentials ≡ false → holds id s.credentials ≡ false)
    → IsCopy (after a h) s
    → Alike a
        (Provider.delete_application_against (api_of a) credentials id h)
        (delete_application_against credentials id s)
unfolding Provider.delete_application_against delete_application_against not_of ◌>>=◌
delete_application_against-Alike a h s credentials id sees c =
    elim (Bool-cases (holds id credentials)) [
      | inl held ↦ rw held (refl, c)
      | inr free ↦ rw free (
        missing-verdict (any is_it (after a h).applications)
            ∙ ap (λ ps. verdict (missing_if (not (any is_it ps)))) c.apps
            ∙ ap (λ b. verdict (missing_if b)) (sym (length-filter-eq is_it s.applications)),
        record {
          keys = ap (filter (not_of id)) c.keys ∙ filter-free id s.credentials (sees free);
          apps = ap (without_application id) c.apps;
          own = c.own;
          distinct = c.distinct;
          own_found = c.own_found;
        },
      )
    ]
  where
    is_it : Application → Bool
    is_it p = p.id == id

revoke-Alike :
    (a : HeldAccount) (h : History) (s : Store) (id : ℤ)
    → IsCopy (after a h) s
    → Alike a (Provider.revoke (api_of a) id h) (revoke id s)
unfolding Provider.revoke revoke ◌>>=◌
revoke-Alike a h s id c =
    let read : find (after a h).own (after a h).credentials ≡ ok s.current =
      ap (λ i. find i (after a h).credentials) c.own
      ∙ ap (find s.current.id) c.keys
      ∙ c.own_found in
    subst (λ r. Alike a (answered r (Call.current_credential ∷ h)) (revoke id s)) (sym read)
      (revoke_against-Alike a (Call.current_credential ∷ h) s s.current id refl c)
  where
    answered : Result Credential → Calls (Option Failure)
    answered r = elim r [
      | err e ↦ pure (some (wrap (sentinel identity_unavailable) (translate e)))
      | ok current ↦ Provider.revoke_against (api_of a) current id
    ]

write-Alike :
    (a : HeldAccount) (w : Write) (h : History) (s : Store)
    → SeesKeys w s
    → IsCopy (after a h) s
    → Alike a (by_provider (api_of a) w h) (by_store w s)
write-Alike a (revoking id) h s sees c = revoke-Alike a h s id c
write-Alike a (setting id allowed) h s sees c = set_addresses-Alike a h s id allowed c
write-Alike a (deleting listed id) h s sees c =
    delete_application_against-Alike a h s listed id sees c

run-Alike :
    (a : HeldAccount) (ws : List Write) (h : History) (s : Store)
    → AllSeeKeys ws s
    → IsCopy (after a h) s
    → let (real, calls) = run_provider (api_of a) ws h in
      let (shown, left) = run_store ws s in (real ≡ shown) × IsCopy (after a calls) left
run-Alike a [] h s sees c = (refl, c)
run-Alike a (w ∷ ws) h s (sees, later) c =
    let (same, c') = write-Alike a w h s sees c in
    let (rest, last) = run-Alike a ws (by_provider (api_of a) w h).1 (by_store w s).1 later c' in
    (λ i. same i ∷ rest i, last)

-- On an account that the store is a copy of, any sequence of revocations, changes of addresses and
-- deletions of applications is answered by the real provider as by the store: each one succeeds in
-- both or fails in both, with an error that is the same sentinels; and the store stays a copy of the
-- account that the calls of the provider leave, its own key included. It takes that the listing each
-- deletion is decided on shows a key of the application, if it holds one then.
pub run_store-Simulates :
    (a : HeldAccount) (s : Store) (ws : List Write)
    → AllSeeKeys ws s
    → IsCopy a s
    → let (real, calls) = run_provider (api_of a) ws [] in
      let (shown, left) = run_store ws s in (real ≡ shown) × IsCopy (after a calls) left
run_store-Simulates a s ws sees c = run-Alike a ws [] s sees c
