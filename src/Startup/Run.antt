-- ===== src/Startup/Run.antt =====
-- cmd/keymaker/main.go and healthcheck.go: the order of a start, and how the process ends. What the
-- process is given stands in `Given`: its arguments as the flag package reads them, its environment,
-- the file, the random bytes, and what the network answers. Of an address that is given there is the
-- scheme and the host; a user or a fragment in it is left out.
pub mod Steps
pub mod Opening
use keymaker.Prelude.{
  ℕ, Bool, true, false, not, Option, none, some, List, [], ◌∷◌, ◌++◌, ◌==◌, nat_equality,
  list_equality, if◌then◌else◌,
}
use keymaker.Text.{Text, text}
use keymaker.Netip.{Parsing}
use keymaker.Failure.{Failure, unread, Result, ok, err}
use keymaker.PublicIp.{Answer, Resolver}
use keymaker.Config.{Account, ConfigError, Parsed, parsed, failed}
use keymaker.Logging.{Redactor}
use keymaker.Url.{encode}
use keymaker.Ovh.TokenUrl.{Hosts}
use keymaker.Catalog.{Snapshot}
use keymaker.Catalog.Captured.{Files, embedded, no_snapshot}
use keymaker.Catalog.Remote.{Remote, new_remote}
use keymaker.Http.Access.{Server, token_parameter}
use keymaker.Http.Token.{new_token}
use keymaker.Startup.{
  Level, log_level, environment, address_resolver, HostPorts, BaseUrl, base_url, binds_loopback,
  probe_url, load, new_api_client,
}

-- The variables that a release build sets.
pub record Build : Type 0 where
  pub version : Text
  pub commit : Text
  pub date : Text

unfoldable pub version_line : Build → Text
version_line b =
    text "keymaker "
    ++ (b.version ++ (text " (commit " ++ (b.commit ++ (text ", built " ++ (b.date ++ text ")")))))

-- What the arguments ask for.
pub data Arguments : Type 0 where
  probing : Arguments
  unreadable_flags : Arguments
  show_version : Arguments
  serving : Arguments

pub record Given : Type 0 where
  pub release : Build
  pub arguments : Arguments
  pub variable : Text → Text
  -- The lines of the file of that path, and whether reading it broke off; nothing if it cannot be
  -- opened.
  pub file : Text → Option (List Text × Bool)
  pub random : ℕ → Option (List ℕ)
  -- The status that an address answers.
  pub status : Text → Option ℕ
  pub hosts : Hosts
  pub net : HostPorts
  pub parsing : Parsing
  pub parse_url : Text → Option BaseUrl
  pub snapshots : Files
  pub lookup_answer : Answer

abbrev pub default_addr : Text
default_addr = text "127.0.0.1:8080"

abbrev pub default_config_path : Text
default_config_path = text "/config/ovh.conf"

-- `entryPoint`
unfoldable pub entry_point : BaseUrl → Text → Text
entry_point public token =
    public.scheme
    ++ (text "://"
        ++ (public.host ++ (text "/" ++ (b'?' ∷ encode ((token_parameter, token) ∷ [])))))

-- `healthcheck`: no error, or one.
unfoldable pub healthcheck : HostPorts → (Text → Option ℕ) → Text → Result (Unit {0})
unfolding probe_url
healthcheck net status addr = elim (probe_url net addr) [
  | none ↦ err (unread 0)
  | some target ↦ elim (status target) [
    | none ↦ err (unread 1)
    | some code ↦ if code == 200 then ok tt else err (unread 2)
  ]
]

-- `routeCatalogue`: a snapshot that cannot be read is reported, and stands as an empty one.
unfoldable pub route_catalogue : Files → Text → Remote
unfolding embedded new_remote
route_catalogue snapshots endpoint = elim (embedded snapshots endpoint) [
  | none ↦ new_remote no_snapshot
  | some snapshot ↦ new_remote snapshot
]

-- What is served, and what was told at the start.
pub record Process : Type 0 where
  pub addr : Text
  pub account : Account
  pub redactor : Redactor
  pub level : Level
  pub api_url : Text
  pub server : Server
  pub remote : Remote
  pub resolver : Resolver
  pub beyond_loopback : Bool
  pub opened_at : Text

pub data Ending : Type 0 where
  probed : Result (Unit {0}) → Ending
  stopped : Ending
  printed : Text → Ending
  served : Process → Ending

abbrev pub read_account : Option (List Text × Bool) → Parsed (Account × Redactor)
read_account none = failed ConfigError.unreadable
read_account (some (lines, broken)) = load lines broken

-- The steps of `run`, each of which may stop it.
abbrev pub loaded {ℓ} : {A : Type ℓ} → Parsed A → (A → Ending) → Ending
loaded (failed e) next = stopped
loaded (parsed a) next = next a

abbrev pub given {ℓ} : {A : Type ℓ} → Option A → (A → Ending) → Ending
given none next = stopped
given (some a) next = next a

abbrev pub made {ℓ} : {A : Type ℓ} → Result A → (A → Ending) → Ending
made (err e) next = stopped
made (ok a) next = next a

-- `run` behind its flags, up to the server.
unfoldable pub start : Given → Ending
unfolding environment entry_point
start g =
    let addr = environment (g.variable (text "KEYMAKER_ADDR")) default_addr in
    let path = environment (g.variable (text "KEYMAKER_CONFIG")) default_config_path in
    loaded (read_account (g.file path)) λ (account, redactor).
      given (log_level (g.variable (text "KEYMAKER_LOG_LEVEL"))) λ level.
        made (new_api_client g.hosts account) λ api_url. made (new_token (g.random 0)) λ token.
          made (new_token (g.random 1)) λ csrf.
            given
              (base_url g.net g.parsing g.parse_url addr (g.variable (text "KEYMAKER_PUBLIC_URL")))
              λ public. served (record {
                addr = addr;
                account = account;
                redactor = redactor;
                level = level;
                api_url = api_url;
                server = record {
                  token = token;
                  csrf = csrf;
                  secure_cookie = public.scheme == text "https";
                };
                remote = route_catalogue g.snapshots account.endpoint;
                resolver =
                    address_resolver (g.variable (text "KEYMAKER_IP_LOOKUP")) g.lookup_answer;
                beyond_loopback = not (binds_loopback g.net g.parsing addr);
                opened_at = entry_point public token;
              })

unfoldable pub run : Given → Ending
unfolding start healthcheck version_line
run g = elim g.arguments [
  | probing ↦
      probed
        (healthcheck g.net g.status (environment (g.variable (text "KEYMAKER_ADDR")) default_addr))
  | unreadable_flags ↦ stopped
  | show_version ↦ printed (version_line g.release)
  | serving ↦ start g
]

-- `serve`: what comes first, the end of listening or a signal, and then the shutdown.
pub data Event : Type 0 where
  server_closed : Event
  listening_failed : Failure → Event
  signalled : Option Failure → Event

unfoldable pub serve : Event → Option Failure
serve server_closed = none
serve (listening_failed e) = some e
serve (signalled shutdown) = shutdown
