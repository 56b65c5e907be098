-- ===== src/Tests/Run.antt =====
-- A run of the process, and the catalogue it carries.
use keymaker.Prelude.{
  subst, sym, here, there, ℕ, true, false, none, some, [], ◌∷◌, ◌++◌, ◌≡◌, ◌⊎◌, refl, In, ◌==◌,
  nat_equality, list_equality, if◌then◌else◌,
}
use keymaker.Text.{Text, text, trim_space, has_prefix, has_suffix, equal_fold}
use keymaker.Netip.{unmap, Parsing}
use keymaker.Failure.{ok}
use keymaker.Config.{
  parsed, parse, read_lines, read_line, read_header, read_pair, finish, choose, account, value_of,
  known, select, assign, lookup, find_account, complete,
}
use keymaker.Config
use keymaker.PublicIp.{service}
use keymaker.Logging.{add, log, nil, Handed, operate, new_handler}
use keymaker.Logging.Safety.{CleanHanded, ShowsValue, ShowsActivity, ShowAll}
use keymaker.Ovh.TokenUrl.{endpoint_url}
use keymaker.Catalog.{Snapshot}
use keymaker.Catalog.Captured.{
  embedded, no_snapshot, source, Site, Attempt, attempt, capture, capture_all, get,
}
use keymaker.Catalog.Captured.Whole.{IsCapture, captured-served}
use keymaker.Catalog.Fetch.{
  fetch, fetch_branches, work, read_branch, collect, first_failure, schema_path,
}
use keymaker.Catalog.{
  parse_index, parse_schema, parse_routes, merge, record_batches, branch_path, branch_chars,
}
use keymaker.Catalog.Remote.{new_remote, background}
use keymaker.Catalog.Remote.Served.{IsComplete}
use keymaker.Http.Access.{served}
use keymaker.Http.Token.{encode_to_string, new_token}
use keymaker.Startup.{
  HostPorts, BaseUrl, environment, info_level, log_level, level_named, address_resolver, base_url,
  listen_url, binds_loopback, load, new_api_client,
}
use keymaker.Startup.Run.{
  Build, Given, Arguments, Process, Ending, start, run, default_addr, entry_point, route_catalogue,
  version_line, healthcheck,
}
use keymaker.Startup.Run.Opening.{run-Clean}
use keymaker.Tests.World.{down, In-down}
use keymaker.Tests.Startup.{file, account_read, redactor, hosts, plain}

abbrev release : Build
release = record { version = text "0.1.0"; commit = text "abc"; date = text "today" }

version_told : version_line release ≡ text "keymaker 0.1.0 (commit abc, built today)"
unfolding version_line
version_told = refl

abbrev net : HostPorts
net = record {
  split_host_port = λ a. if a == default_addr then some (text "127.0.0.1", text "8080") else none;
  join_host_port = λ host port. host ++ (b':' ∷ port);
}

abbrev parsing : Parsing
parsing = record {
  parse_prefix = λ s. none;
  parse_addr = λ s. some (record { is_6 = false; value = 2130706433; zone = [] });
}

abbrev given : Given
given = record {
  release = release;
  arguments = Arguments.serving;
  variable = λ name. [];
  file = λ path. some (file, false);
  random = λ i. some (down 32);
  status = λ target. some 200;
  hosts = hosts;
  net = net;
  parsing = parsing;
  parse_url = λ url. none;
  snapshots = λ endpoint. none;
  lookup_answer = none;
}

abbrev here_url : BaseUrl
here_url = record { scheme = text "http"; host = text "127.0.0.1:8080" }

abbrev process : Process
process = record {
  addr = default_addr;
  account = account_read;
  redactor = redactor;
  level = info_level;
  api_url = text "https://eu.api.ovh.com/1.0";
  server = record {
    token = encode_to_string (down 32);
    csrf = encode_to_string (down 32);
    secure_cookie = false;
  };
  remote = new_remote no_snapshot;
  resolver = service none;
  beyond_loopback = false;
  opened_at = entry_point here_url (encode_to_string (down 32));
}

probe_passed : healthcheck net given.status default_addr ≡ ok tt
unfolding healthcheck
probe_passed = refl

given-served : run given ≡ Ending.served process
unfolding run start load parse read_lines read_line read_header read_pair finish Config.build choose
    select value_of known assign lookup has_prefix has_suffix trim_space account find_account add
    new_api_client endpoint_url complete new_token log_level level_named environment base_url
    listen_url binds_loopback address_resolver equal_fold route_catalogue embedded unmap
given-served = refl

one_message : ShowAll redactor (log (text "s3c ck9") nil ∷ [])
unfolding ShowsValue
one_message a (here e) = subst (ShowsActivity redactor) (sym e) tt
one_message a (there m) = elim m [ ]

run-Clean_example :
    In (text "s3c") redactor.secrets
    × In (text "ck9") redactor.secrets
    × ((x : Handed)
        → In x (operate (log (text "s3c ck9") nil ∷ []) (new_handler redactor)).next
        → CleanHanded redactor x)
run-Clean_example =
    run-Clean given process (log (text "s3c ck9") nil ∷ []) given-served plain one_message

-- A site with one branch that answers twice, and then no more.
abbrev site : Site
site = record { index = ok (200, some (text "/me" ∷ [])); schema = λ i path. ok (200, some []) }

abbrev down_site : Site
down_site = record site { index = ok (503, none) }

abbrev tries : Site → ℕ → Attempt
tries s now = record { site = s; order = down; now = now }

abbrev captured_me : Snapshot
captured_me = record {
  routes = [];
  branches = text "/me" ∷ [];
  taken = 86_400_000_000_000;
  live = false;
}

captured_in_second :
    capture true (tries down_site 5) (tries site 86_400_000_000_007) ≡ some captured_me
unfolding capture attempt source get fetch fetch_branches work read_branch collect first_failure
    parse_index branch_path branch_chars parse_schema parse_routes merge record_batches schema_path
captured_in_second = refl

embedded_me :
    embedded
      (capture_all
        (λ name. capture true (tries down_site 5) (tries site 86_400_000_000_007))
        (text "ovh-eu" ∷ [])
        (λ name. none))
      (text "ovh-eu")
    ≡ some captured_me
unfolding embedded capture_all
embedded_me = rw captured_in_second refl

captured-served_example :
    let run =
      background (λ i. attempt (tries down_site i)) (λ i. false) 3 0 (new_remote captured_me) in
    ((run.remote.current.live ≡ true)
      × ((i : ℕ) × IsComplete (source down_site) i run.remote.current))
    ⊎ (IsCapture (tries down_site 5) run.remote.current
        ⊎ IsCapture (tries site 86_400_000_000_007) run.remote.current)
captured-served_example =
    captured-served (λ name. true) (λ name. tries down_site 5)
      (λ name. tries site 86_400_000_000_007) (text "ovh-eu" ∷ []) (text "ovh-eu") captured_me
      (λ i. tries down_site i) (λ i. false) 3
      (λ name. ((λ n i lt. In-down n i lt), (λ n i lt. In-down n i lt)))
      (λ i n j lt. In-down n j lt) embedded_me
