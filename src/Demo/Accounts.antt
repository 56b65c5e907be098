-- ===== src/Demo/Accounts.antt =====
-- tools/demo/main.go: the invented account, and the keys added to it. Every address of the source is
-- one of IPv4, with its 32 bits. The clock stands more than 400 days behind Go's zero time, so that
-- no date is cut there.
use keymaker.Prelude.{ℕ, ◌+◌, ◌-◌, ◌*◌, pos, true, false, List, [], ◌∷◌, ◌++◌, nat_equality}
use keymaker.Text.{Text, text}
use keymaker.Netip.{IpPrefix}
use keymaker.Credential.{
  Status, expired, pending_validation, validated, AccessRule, Application, Credential, Instant,
}
use keymaker.Ovh.Paths.{usable_rules}
use keymaker.Demo.{Store}

abbrev pub hour : ℕ
hour = 3_600_000_000_000

abbrev pub day : ℕ
day = 24 * hour

-- One address a.b.c.d as a block.
abbrev pub host_block : ℕ → ℕ → ℕ → ℕ → IpPrefix
host_block a b c d = record {
  addr = record { is_6 = false; value = ((a * 256 + b) * 256 + c) * 256 + d; zone = [] };
  bits = 32;
}

abbrev only_from : ℕ → ℕ → ℕ → ℕ → List IpPrefix
only_from a b c d = host_block a b c d ∷ []

abbrev rule : Text → Text → AccessRule
rule method path = record { method = method; path = path }

abbrev application : ℕ → Text → Text → Text → Application
application id key name description = record {
  id = pos id;
  key = key;
  name = name;
  description = description;
  external = false;
  deleted = false;
}

abbrev demo : Application
demo =
    application 7101 (text "demo0000000000a1") (text "keymaker")
      (text "the key this demo runs with")

abbrev dns : Application
dns =
    application 7110 (text "demo0000000000b2") (text "dns-renewal")
      (text "certbot on the web servers")

abbrev iam : Application
iam = application 7111 (text "demo0000000000c3") (text "iam-bot") (text "onboarding script")

abbrev ticket : Application
ticket = application 7112 (text "demo0000000000d4") (text "support-ticket") (text "ticket 4242")

abbrev draft : Application
draft = application 7113 (text "demo0000000000e5") (text "draft") (text "first try")

abbrev backup : Application
backup = application 7114 (text "demo0000000000f6") (text "backup-agent") []

abbrev cron : Application
cron = application 7115 (text "demo0000000000a7") (text "legacy-cron") (text "nightly export")

abbrev console : Application
console = record (application 7190 [] (text "API console") (text "the web console of the API")) {
  external = true;
}

abbrev leftover : Application
leftover =
    application 7116 (text "demo0000000000b8") (text "old-backup")
      (text "left behind by a revoked key")

abbrev gone : Application
gone = record (application 7117 [] [] []) { deleted = true }

-- The fields that a literal of the source leaves out are zero.
abbrev key : ℕ → Status → Application → List AccessRule → List IpPrefix → Credential
key id status app rules allowed = record {
  id = pos id;
  application = app;
  status = status;
  rules = rules;
  allowed_ips = allowed;
  created_at = 0;
  expires_at = 0;
  last_used_at = 0;
  issued_by_support = false;
}

abbrev with_dates : Instant → Instant → Instant → Credential → Credential
with_dates created expires used c = record c {
  created_at = created;
  expires_at = expires;
  last_used_at = used;
}

abbrev zone : List AccessRule
zone =
    rule (text "GET") (text "/domain/zone/*")
    ∷ rule (text "POST") (text "/domain/zone/*/record")
    ∷ []

abbrev gets : Text → List AccessRule
gets path = rule (text "GET") path ∷ []

unfoldable pub own_key : Instant → Credential
own_key now = with_dates (now - 25 * day) (now + 5 * day) now (
    key 118820001 validated demo
      (usable_rules ++ (rule (text "GET") (text "/cloud/project/*") ∷ [])) (only_from 198 51 100 7))

unfoldable pub other_keys : Instant → List Credential
other_keys now =
    with_dates (now - 300 * day) (now + 90 * day) (now - 2 * hour)
      (key 118820304 validated dns zone (only_from 203 0 113 4))
    ∷ with_dates (now - 310 * day) (now + 90 * day) (now - 200 * day)
        (key 118820517 validated dns zone (only_from 203 0 113 4))
    ∷ with_dates (now - 40 * day) (now + 200 * day) (now - day) (
        key 118821001 validated iam
          (rule (text "POST") (text "/me/identity/user") ∷ rule (text "GET") (text "/me/bill") ∷ [])
          [])
    ∷ record (with_dates (now - 60 * day) (now + 120 * day) (now - 50 * day)
        (key 118821050 validated ticket (gets (text "/me")) (only_from 192 0 2 10))) {
          issued_by_support = true;
        }
    ∷ with_dates (now - 3 * day) 0 0 (key 118821099 pending_validation draft (gets (text "/*")) [])
    ∷ with_dates (now - 90 * day) (now + 300 * day) 0
        (key 118821200 validated backup (gets (text "/dedicated/server/*")) (only_from 192 0 2 20))
    ∷ with_dates (now - 400 * day) (now - 40 * day) (now - 41 * day)
        (key 118821300 expired cron (gets (text "/me/order")) (only_from 192 0 2 30))
    ∷ with_dates (now - 30 * day) (now + 60 * day) (now - 3 * day)
        (key 118821500 validated gone (gets (text "/me/order")) [])
    ∷ with_dates (now - 20 * day) (now + 60 * day) (now - 5 * day)
        (key 118821400 validated console (gets (text "/me")) (only_from 192 0 2 40))
    ∷ []

unfoldable pub new_store : Instant → Store
unfolding own_key other_keys
new_store now = record {
  current = own_key now;
  credentials = own_key now ∷ other_keys now;
  applications = demo ∷ dns ∷ iam ∷ ticket ∷ draft ∷ backup ∷ cron ∷ leftover ∷ [];
}
