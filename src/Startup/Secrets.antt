-- ===== src/Startup/Secrets.antt =====
-- cmd/keymaker/main.go: once the process has its client, its logs carry no secret of the account.
use keymaker.Prelude.{
  Bool, true, false, not, List, [], ◌≡◌, ◌≢◌, refl, sym, subst, arith, In, here, there, ◌==◌,
  nat_equality, list_equality, ne_of, if◌then◌else◌,
}
use keymaker.Text.{Text}
use keymaker.Config.{Config, Account, Parsed, parsed, failed, parse, account, complete}
use keymaker.Failure.{unread, Result, ok, err}
use keymaker.Logging.{Redactor, add, Activity, Handed, operate, new_handler}
use keymaker.Logging.Scrubbing.{IsPlain}
use keymaker.Logging.Safety.{CleanHanded, ShowAll}
use keymaker.Logging.Registering.{operate-Clean}
use keymaker.Ovh.TokenUrl.{Hosts, endpoint_url}
use keymaker.Startup.{secrets_of, with_redactor, load_account, load, new_api_client}

load_account-registers :
    (found : Parsed Account) (a : Account) (r : Redactor)
    → with_redactor found ≡ parsed (a, r)
    → r ≡ add (secrets_of a) (record { secrets = [] })
load_account-registers (failed e) a r h = cc h
load_account-registers (parsed b) a r h = cc h

load-registers :
    (lines : List Text) (broken : Bool) (a : Account) (r : Redactor)
    → load lines broken ≡ parsed (a, r)
    → r ≡ add (secrets_of a) (record { secrets = [] })
unfolding load
load-registers lines broken a r h = by (parse lines broken) h
  where
    by :
        (c : Parsed Config)
        → load_account c ≡ parsed (a, r)
        → r ≡ add (secrets_of a) (record { secrets = [] })
    by (failed e) h' = cc h'
    by (parsed c) h' = load_account-registers (account c) a r h'

client-complete :
    (hosts : Hosts) (a : Account) (endpoint : Text)
    → new_api_client hosts a ≡ ok endpoint
    → complete a.management ≡ true
unfolding new_api_client
client-complete hosts a endpoint h = by (endpoint_url hosts a.endpoint) (complete a.management) h
  where
    by :
        (u : Result Text) (b : Bool)
        → elim u [ err e ↦ err e | ok base ↦ if not b then err (unread 1) else ok base ]
          ≡ ok endpoint
        → b ≡ true
    by (err e) b h' = cc h'
    by (ok base) true h' = refl
    by (ok base) false h' = cc h'

-- Once the configuration is loaded and the client of the API is built, the secret of the application
-- and the consumer key are registered, and whatever the process then logs, nothing that reaches the
-- handler behind holds either of them. It takes that each of the two can be redacted: it holds no
-- bracket, and is no part of the word that replaces it; and that of an attribute that is no string,
-- and whose rendering holds neither, the handler behind prints neither.
pub started-Clean :
    (hosts : Hosts) (lines : List Text) (broken : Bool) (a : Account) (r : Redactor)
    (endpoint : Text) (ops : List Activity)
    → load lines broken ≡ parsed (a, r)
    → new_api_client hosts a ≡ ok endpoint
    → ((s : Text) → In s (secrets_of a) → s ≢ [] → IsPlain s)
    → ShowAll r ops
    → In a.management.application_secret r.secrets
      × In a.management.consumer_key r.secrets
      × ((x : Handed) → In x (operate ops (new_handler r)).next → CleanHanded r x)
unfolding complete
started-Clean hosts lines broken a r endpoint ops loaded built plain shows =
    let e = load-registers lines broken a r loaded in
    let full = client-complete hosts a endpoint built in
    let (registered, clean) =
      operate-Clean (secrets_of a) ops plain (subst (λ r'. ShowAll r' ops) e shows) in
    let filled = λ (s : Text) (n : (s == []) ≡ false). ne_of s [] n in
    subst
      (λ r'.
        In a.management.application_secret r'.secrets
        × In a.management.consumer_key r'.secrets
        × ((x : Handed) → In x (operate ops (new_handler r')).next → CleanHanded r' x))
      (sym e)
      (
        registered a.management.application_secret (here refl)
            (filled a.management.application_secret (ground arith)),
        registered a.management.consumer_key (there (here refl))
            (filled a.management.consumer_key (ground arith)),
        clean,
      )
