-- ===== src/Startup.antt =====
-- cmd/keymaker: what the process decides before it serves. The environment's values, the lines of the
-- configuration file, and how net splits and joins a host and a port are given.
pub mod Secrets
pub mod Run
use keymaker.Prelude.{
  ℕ, ◌-◌, ◌+◌, ◌/◌, ◌^◌, Bool, true, false, not, ◌&&◌, ◌||◌, Option, none, some, List, [], ◌∷◌,
  ◌++◌, map, ◌==◌, nat_equality, list_equality, leb, if◌then◌else◌,
}
use keymaker.Text.{Text, text, trim_space, equal_fold}
use keymaker.Netip.{Addr, Parsing, is_4in6, unmap}
use keymaker.PublicIp.{Answer, Resolver, disabled, service}
use keymaker.Config.{
  LegacyCredentials, Account, Config, Parsed, parsed, failed, parse, account, complete,
}
use keymaker.Logging.{Redactor, add}
use keymaker.Failure.{Result, ok, err, unread}
use keymaker.Ovh.TokenUrl.{Hosts, endpoint_url}

pub data Level : Type 0 where
  debug_level info_level warn_level error_level : Level

-- `unicode.ToLower`, of ASCII letters and of the two other characters whose lower case is one.
abbrev pub lower : ℕ → ℕ
lower c =
    if leb b'A' c && leb c b'Z'
    then c + 32
    else if c == 0x130
    then b'i'
    else if c == 0x212a
    then b'k'
    else c

unfoldable pub level_named : Text → Option Level
level_named name =
    if name == [] || name == text "info"
    then some info_level
    else if name == text "debug"
    then some debug_level
    else if name == text "warn" || name == text "warning"
    then some warn_level
    else if name == text "error"
    then some error_level
    else none

unfoldable pub log_level : Text → Option Level
unfolding level_named
log_level value = level_named (map lower (trim_space value))

unfoldable pub environment : Text → Text → Text
environment value fallback = if not (value == []) then value else fallback

unfoldable pub address_resolver : Text → Answer → Resolver
address_resolver value answer = if equal_fold value (text "off") then disabled else service answer

-- `net.SplitHostPort` and `net.JoinHostPort`.
pub record HostPorts : Type 0 where
  pub split_host_port : Text → Option (Text × Text)
  pub join_host_port : Text → Text → Text

-- `Addr.IsUnspecified` and `Addr.IsLoopback`
abbrev pub is_unspecified : Addr → Bool
is_unspecified a = a.value == 0 && a.zone == []

abbrev pub is_loopback : Addr → Bool
is_loopback a = let b = unmap a in if b.is_6 then b.value == 1 else b.value / 2 ^ 24 == 127

pub record BaseUrl : Type 0 where
  pub scheme : Text
  pub host : Text

module _ (net : HostPorts) (parsing : Parsing) where
  abbrev pub open_host : Text → Option Addr → Text
  open_host host none = if host == [] then text "127.0.0.1" else host
  open_host host (some ip) = if host == [] || is_unspecified ip then text "127.0.0.1" else host

  unfoldable pub listen_url : Text → BaseUrl
  listen_url addr = elim (net.split_host_port addr) [
    | none ↦ record { scheme = text "http"; host = addr }
    | some (host, port) ↦ record {
      scheme = text "http";
      host = net.join_host_port (open_host host (parsing.parse_addr host)) port;
    }
  ]

  unfoldable pub binds_loopback : Text → Bool
  binds_loopback addr = elim (net.split_host_port addr) [
    | none ↦ false
    | some (host, port) ↦ elim (parsing.parse_addr host) [ none ↦ false | some ip ↦ is_loopback ip ]
  ]

-- `parse_url` gives the scheme and the host of an absolute address, each empty where it has none.
unfoldable pub base_url :
    HostPorts → Parsing → (Text → Option BaseUrl) → Text → Text → Option BaseUrl
unfolding listen_url
base_url net parsing parse_url addr public =
    if public == [] then some (listen_url net parsing addr) else elim (parse_url public) [
      | none ↦ none
      | some url ↦ if url.scheme == [] || url.host == [] then none else some url
    ]

unfoldable pub probe_host : Text → Text
probe_host host =
    if host == [] || host == text "0.0.0.0"
    then text "127.0.0.1"
    else if host == text "::"
    then text "::1"
    else host

unfoldable pub probe_url : HostPorts → Text → Option Text
unfolding probe_host
probe_url net addr = elim (net.split_host_port addr) [
  | none ↦ none
  | some (host, port) ↦
      some (text "http://" ++ (net.join_host_port (probe_host host) port ++ text "/healthz"))
]

-- `load`, from the lines of the file.
abbrev pub secrets_of : Account → List Text
secrets_of a = a.management.application_secret ∷ a.management.consumer_key ∷ []

abbrev pub with_redactor : Parsed Account → Parsed (Account × Redactor)
with_redactor (failed e) = failed e
with_redactor (parsed a) = parsed (a, add (secrets_of a) (record { secrets = [] }))

abbrev pub load_account : Parsed Config → Parsed (Account × Redactor)
load_account (failed e) = failed e
load_account (parsed c) = with_redactor (account c)

unfoldable pub load : List Text → Bool → Parsed (Account × Redactor)
load lines broken = load_account (parse lines broken)

-- The checks of `NewAPIClient`; what it assembles is the SDK's.
unfoldable pub new_api_client : Hosts → Account → Result Text
new_api_client hosts a = elim (endpoint_url hosts a.endpoint) [
  | err e ↦ err e
  | ok endpoint ↦ if not (complete a.management) then err (unread 1) else ok endpoint
]
