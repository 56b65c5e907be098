-- ===== src/Tests/Startup.antt =====
-- A start of the process, and an answer of the API.
use keymaker.Prelude.{
  pos, false, none, some, List, [], ◌∷◌, map, ◌≡◌, ◌≢◌, ◌⊎◌, refl, sym, subst, In, here, there,
  ◌==◌, nat_equality, list_equality, if◌then◌else◌,
}
use keymaker.Text.{Text, text, index, has_prefix, has_suffix, trim_space}
use keymaker.Netip.{IpPrefix, Parsing}
use keymaker.Failure.{unread, context, ok, err}
use keymaker.Credential.{Credential}
use keymaker.Config.{
  Account, parsed, parse, read_lines, read_line, read_header, read_pair, finish, build, choose,
  account, value_of, known, select, assign, lookup, find_account, complete,
}
use keymaker.Logging.{Redactor, add}
use keymaker.Logging.Absence.{Absent_iff}
use keymaker.Logging.Scrubbing.{IsPlain}
use keymaker.Ovh.TokenUrl.{Hosts, endpoint_url}
use keymaker.Ovh.Wire.{ApiCredential, parse_prefix, credential_to_domain}
use keymaker.Ovh.Wire.Blocks.{credential_to_domain-blocks}
use keymaker.Startup.{secrets_of, load, new_api_client, log_level, debug_level, probe_host}

abbrev pub file : List Text
file =
    text "[ovh-eu]"
    ∷ text "application_key=ak"
    ∷ text "application_secret=s3c"
    ∷ text "consumer_key=ck9"
    ∷ []

abbrev pub account_read : Account
account_read = record {
  name = text "ovh-eu";
  endpoint = text "ovh-eu";
  management = record {
    application_key = text "ak";
    application_secret = text "s3c";
    consumer_key = text "ck9";
  };
}

abbrev pub redactor : Redactor
redactor = record { secrets = text "s3c" ∷ text "ck9" ∷ [] }

abbrev pub hosts : Hosts
hosts = record {
  endpoints = λ name. some (text "https://eu.api.ovh.com/1.0");
  parse_url = λ url. some (text "https", text "eu.api.ovh.com");
}

file-loaded : load file false ≡ parsed (account_read, redactor)
unfolding load parse read_lines read_line read_header read_pair finish build choose select value_of
    known assign lookup has_prefix has_suffix trim_space account find_account add
file-loaded = refl

client-built : new_api_client hosts account_read ≡ ok (text "https://eu.api.ovh.com/1.0")
unfolding new_api_client endpoint_url complete
client-built = refl

secret-IsPlain : IsPlain (text "s3c")
unfolding index has_prefix
secret-IsPlain = record {
  filled = λ e. cc;
  opens = refl;
  closes = refl;
  apart = (Absent_iff (text "s3c") (text "redacted")).0 refl;
}

consumer-IsPlain : IsPlain (text "ck9")
unfolding index has_prefix
consumer-IsPlain = record {
  filled = λ e. cc;
  opens = refl;
  closes = refl;
  apart = (Absent_iff (text "ck9") (text "redacted")).0 refl;
}

pub plain : (s : Text) → In s (secrets_of account_read) → s ≢ [] → IsPlain s
plain s (here e) ne = subst IsPlain (sym e) secret-IsPlain
plain s (there (here e)) ne = subst IsPlain (sym e) consumer-IsPlain
plain s (there (there m)) ne = elim m [ ]

debug_read : log_level (text " DEBUG ") ≡ some debug_level
unfolding log_level trim_space
debug_read = refl

wildcard_probed : probe_host (text "::") ≡ text "::1"
unfolding probe_host
wildcard_probed = refl

-- A parser that knows one block.
abbrev one_block : IpPrefix
one_block = record { addr = record { is_6 = false; value = 3221225984; zone = [] }; bits = 24 }

abbrev parsing : Parsing
parsing = record {
  parse_prefix = λ s. if s == text "192.0.2.0/24" then some one_block else none;
  parse_addr = λ s. none;
}

abbrev answer : ApiCredential
answer = record {
  credential_id = pos 7;
  application_id = pos 3;
  status = text "validated";
  rules = [];
  allowed_ips = text "192.0.2.0/24" ∷ text "elsewhere" ∷ [];
  creation = 1;
  expiration = none;
  last_use = none;
  ovh_support = false;
}

answer_refused : credential_to_domain parsing answer ≡ err (context (unread 0))
unfolding credential_to_domain
answer_refused = refl

credential_to_domain-blocks_example :
    ((d : Credential) × (credential_to_domain parsing answer ≡ ok d)
      × (map (parse_prefix parsing) answer.allowed_ips ≡ map some d.allowed_ips)
      × (d.id ≡ answer.credential_id)
      × (d.application.id ≡ answer.application_id))
    ⊎ ((credential_to_domain parsing answer ≡ err (context (unread 0)))
        × ((v : Text) × In v answer.allowed_ips × (parse_prefix parsing v ≡ none)))
credential_to_domain-blocks_example = credential_to_domain-blocks parsing answer
