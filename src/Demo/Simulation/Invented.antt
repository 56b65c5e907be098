-- ===== src/Demo/Simulation/Invented.antt =====
-- tools/demo/main.go: the account that the demonstration shows, beside a real one that holds the same.
use keymaker.Prelude.{ℕ, ◌≡◌, refl, [], List}
use keymaker.Credential.{Instant}
use keymaker.Demo.{Store}
use keymaker.Demo.Accounts.{new_store}
use keymaker.Demo.Padding.{pad}
use keymaker.Demo.Padding.Whole.{pad-IsWhole}
use keymaker.Demo.Simulation.{
  HeldAccount, after, api_of, IsCopy, Write, AllSeeKeys, run_provider, run_store,
}
use keymaker.Demo.Simulation.Writes.{run_store-Simulates}

abbrev pub account_held : Store → HeldAccount
account_held s = record {
  own = s.current.id;
  credentials = s.credentials;
  applications = s.applications;
}

-- The demonstration answers any sequence of revocations, changes of addresses and deletions of
-- applications as the real provider does on an account that holds what the demonstration started
-- with, however many keys were added to it: each write succeeds in both or fails in both, with an
-- error that is the same sentinels; and it is left with the keys and the applications that the calls
-- of the provider leave on that account, its copy of the key in use included. The API revokes the
-- keys of an application it deletes, and the demonstration keeps them: the theorem takes that the
-- listing each deletion is decided on shows a key of the application, if it holds one then.
pub run_store-Follows :
    (n : ℕ) (now : Instant) (ws : List Write)
    → AllSeeKeys ws (pad n now (new_store now))
    → let s = pad n now (new_store now) in
      let (real, calls) = run_provider (api_of (account_held s)) ws [] in
      let (shown, left) = run_store ws s in
      (real ≡ shown) × IsCopy (after (account_held s) calls) left
run_store-Follows n now ws sees =
    let s = pad n now (new_store now) in
    let (distinct, found, added) = pad-IsWhole n now in
    run_store-Simulates (account_held s) s ws sees
      (record { keys = refl; apps = refl; own = refl; distinct = distinct; own_found = found })
