-- ===== src/Tests/Demo.antt =====
-- The account of the demonstration.
use keymaker.Prelude.{
  ◌*◌, ℕ, pos, true, false, none, some, List, [], ◌∷◌, ◌≡◌, refl, length, int_equality,
  nat_equality, list_equality,
}
use keymaker.Failure.{sentinel, application_in_use}
use keymaker.Credential.{Credential}
use keymaker.Demo.{
  Store, revoke, revoke_against, write_blocks, delete_application_against, set_addresses,
  delete_application, holds,
}
use keymaker.Demo.Steps.{by_revoke, by_set, Steps, here, next, delete_application-Steps}
use keymaker.Demo.Accounts.{new_store, other_keys, day}
use keymaker.Demo.Padding.{pad, add_keys, add_key, service_of, padded, zeros}
use keymaker.Demo.Simulation.{
  after, api_of, IsCopy, Write, AllSeeKeys, revoking, setting, deleting, run_provider, run_store,
}
use keymaker.Demo.Simulation.Invented.{account_held, run_store-Follows}
use keymaker.Text.{text}
use keymaker.Strconv.{digits, format_int}

abbrev now : ℕ
now = 1000 * day

abbrev store : Store
store = new_store now

padded_keys : length (pad 30 now store).credentials ≡ 40
unfolding pad add_keys add_key new_store other_keys
padded_keys = refl

padded_name : (service_of 7).name ≡ text "service-007"
unfolding service_of format_int padded zeros digits
padded_name = refl

-- A key is revoked, and the addresses of another are changed.
abbrev other_calls :
    Steps store
      (set_addresses (pos 118821001) [] (revoke_against store.current (pos 118821099) store).1).1
other_calls = next (next here (by_revoke store.current (pos 118821099))) (by_set (pos 118821001) [])

delete_application-Steps_example :
    let s =
      (set_addresses (pos 118821001) [] (revoke_against store.current (pos 118821099) store).1).1 in
    (holds (pos 7116) s.credentials ≡ true
      → delete_application (pos 7116) store s ≡ (some (sentinel application_in_use), s))
    × ((delete_application (pos 7116) store s).0 ≡ none
        → holds (pos 7116) (delete_application (pos 7116) store s).1.credentials ≡ false)
delete_application-Steps_example = delete_application-Steps (pos 7116) other_calls here

-- A listing before the first write.
abbrev listed : List Credential
listed = (pad 2 now (new_store now)).credentials

abbrev sequence : List Write
sequence =
    revoking (pos 118820001)
    ∷ revoking (pos 118821099)
    ∷ revoking (pos 118821099)
    ∷ setting (pos 118820001) []
    ∷ deleting listed (pos 7101)
    ∷ deleting listed (pos 7116)
    ∷ []

sequence-AllSeeKeys : AllSeeKeys sequence (pad 2 now (new_store now))
unfolding pad add_keys add_key new_store other_keys revoke revoke_against set_addresses write_blocks
    delete_application_against
sequence-AllSeeKeys = (tt, (tt, (tt, (tt, ((λ held. cc held), ((λ free. refl), tt))))))

run_store-Follows_example :
    let s = pad 2 now (new_store now) in
    let (real, calls) = run_provider (api_of (account_held s)) sequence [] in
    let (shown, left) = run_store sequence s in
    (real ≡ shown) × IsCopy (after (account_held s) calls) left
run_store-Follows_example = run_store-Follows 2 now sequence sequence-AllSeeKeys
