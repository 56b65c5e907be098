-- ===== src/Startup/Run/Steps.antt =====
-- cmd/keymaker/main.go: a process that serves has passed every step of `run`.
use keymaker.Prelude.{not, Option, none, some, ◌≡◌, refl, subst, ◌==◌, nat_equality, list_equality}
use keymaker.Text.{text}
use keymaker.Failure.{Result, ok, err}
use keymaker.Config.{Parsed, parsed, failed}
use keymaker.Http.Token.{new_token}
use keymaker.Startup.{BaseUrl, log_level, new_api_client, environment, base_url, binds_loopback}
use keymaker.Startup.Run.{
  Given, Arguments, Process, Ending, served, start, run, loaded, given, made, entry_point,
  read_account, default_addr, default_config_path, route_catalogue,
}

-- What a process that serves was made from.
pub record IsStarted (g : Given) (p : Process) : Type 0 where
  pub public : BaseUrl
  pub config :
      read_account (g.file (environment (g.variable (text "KEYMAKER_CONFIG")) default_config_path))
      ≡ parsed (p.account, p.redactor)
  pub address : p.addr ≡ environment (g.variable (text "KEYMAKER_ADDR")) default_addr
  pub levelled : log_level (g.variable (text "KEYMAKER_LOG_LEVEL")) ≡ some p.level
  pub client : new_api_client g.hosts p.account ≡ ok p.api_url
  pub token : new_token (g.random 0) ≡ ok p.server.token
  pub csrf : new_token (g.random 1) ≡ ok p.server.csrf
  pub based :
      base_url g.net g.parsing g.parse_url p.addr (g.variable (text "KEYMAKER_PUBLIC_URL"))
      ≡ some public
  pub secure : p.server.secure_cookie ≡ (public.scheme == text "https")
  pub fallback : p.remote ≡ route_catalogue g.snapshots p.account.endpoint
  pub opened : p.opened_at ≡ entry_point public p.server.token
  pub warned : p.beyond_loopback ≡ not (binds_loopback g.net g.parsing p.addr)

module _ {ℓ} {A : Type ℓ} (next : A → Ending) (p : Process) where
  loaded-served :
      (m : Parsed A) → loaded m next ≡ served p → (a : A) × (m ≡ parsed a) × (next a ≡ served p)
  loaded-served (parsed a) h = (a, refl, h)
  loaded-served (failed e) h = cc h

  given-served :
      (m : Option A) → given m next ≡ served p → (a : A) × (m ≡ some a) × (next a ≡ served p)
  given-served (some a) h = (a, refl, h)
  given-served none h = cc h

  made-served : (m : Result A) → made m next ≡ served p → (a : A) × (m ≡ ok a) × (next a ≡ served p)
  made-served (ok a) h = (a, refl, h)
  made-served (err e) h = cc h

served_process : (p q : Process) → served p ≡ served q → p ≡ q
served_process p q h = cc h

start-IsStarted : (g : Given) (p : Process) → start g ≡ served p → IsStarted g p
unfolding start
start-IsStarted g p h =
    let ((account, redactor), config, h1) = loaded-served _ p _ h in
    let (level, levelled, h2) = given-served _ p _ h1 in
    let (endpoint_url, client, h3) = made-served _ p _ h2 in
    let (token, first, h4) = made-served _ p _ h3 in
    let (csrf, second, h5) = made-served _ p _ h4 in
    let (public, based, h6) = given-served _ p _ h5 in
    subst (IsStarted g) (served_process _ p h6) (record {
      public = public;
      config = config;
      address = refl;
      levelled = levelled;
      client = client;
      token = first;
      csrf = second;
      based = based;
      secure = refl;
      fallback = refl;
      opened = refl;
      warned = refl;
    })

pub run-IsStarted : (g : Given) (p : Process) → run g ≡ served p → IsStarted g p
unfolding run
run-IsStarted g p h = by g.arguments h
  where
    by :
        (a : Arguments)
        → elim a [
          | Arguments.probing ↦ run (record g { arguments = Arguments.probing })
          | Arguments.unreadable_flags ↦ Ending.stopped
          | Arguments.show_version ↦ run (record g { arguments = Arguments.show_version })
          | Arguments.serving ↦ start g
        ]
          ≡ served p
        → IsStarted g p
    by Arguments.probing k = cc k
    by Arguments.unreadable_flags k = cc k
    by Arguments.show_version k = cc k
    by Arguments.serving k = start-IsStarted g p k
