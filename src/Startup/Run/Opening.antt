-- ===== src/Startup/Run/Opening.antt =====
-- cmd/keymaker/main.go with internal/httpapi/auth.go: a process that serves has printed an address that
-- opens the interface.
use keymaker.Prelude.{
  Bool, Option, none, some, List, [], ◌∷◌, ◌≡◌, nat_equality, list_equality, In, ◌≢◌,
}
use keymaker.Text.{Text, text}
use keymaker.Config.{parsed}
use keymaker.Logging.{Activity, Handed, operate, new_handler}
use keymaker.Logging.Scrubbing.{IsPlain}
use keymaker.Logging.Safety.{CleanHanded, ShowAll}
use keymaker.Url.{encode}
use keymaker.Http.Access.{Request, served, token_parameter}
use keymaker.Startup.{secrets_of}
use keymaker.Startup.Secrets.{started-Clean}
use keymaker.Startup.Run.Steps.{run-IsStarted}
use keymaker.Startup.Run.{Given, Process, Ending, run, read_account}

-- A visit of the root page.
abbrev pub visit : Text → Option Text → Request
visit query session = record {
  method = text "GET";
  escaped = text "/";
  raw_query = query;
  session = session;
  csrf = [];
}

abbrev token_query : Text → Text
token_query token = encode ((token_parameter, token) ∷ [])

-- When the process serves, the secret and the consumer key of its account are registered, and
-- whatever it then logs, nothing that reaches the handler behind holds either of them. It takes that
-- each of the two can be redacted: it holds no bracket, and is no part of the word that replaces it;
-- and that of an attribute that is no string, and whose rendering by `Value.String` holds neither,
-- the handler behind prints neither.
pub run-Clean :
    (g : Given) (p : Process) (ops : List Activity)
    → run g ≡ Ending.served p
    → ((s : Text) → In s (secrets_of p.account) → s ≢ [] → IsPlain s)
    → ShowAll p.redactor ops
    → In p.account.management.application_secret p.redactor.secrets
      × In p.account.management.consumer_key p.redactor.secrets
      × ((x : Handed) → In x (operate ops (new_handler p.redactor)).next → CleanHanded p.redactor x)
run-Clean g p ops h plain shows = let s = run-IsStarted g p h in by (g.file _) s.config
  where
    by :
        (file : Option (List Text × Bool))
        → read_account file ≡ parsed (p.account, p.redactor)
        → In p.account.management.application_secret p.redactor.secrets
          × In p.account.management.consumer_key p.redactor.secrets
          × ((x : Handed)
              → In x (operate ops (new_handler p.redactor)).next
              → CleanHanded p.redactor x)
    by none k = cc k
    by (some (lines, broken)) k =
        started-Clean g.hosts lines broken p.account p.redactor p.api_url ops k
          (run-IsStarted g p h).client plain shows
