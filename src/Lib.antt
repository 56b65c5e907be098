-- ===== src/Lib.antt =====
-- Keymaker: a local web interface that lists, audits and revokes OVHcloud API keys.
--
-- The program reads its configuration, builds a client of the OVHcloud API (internal/ovh), a
-- credential provider over it (internal/legacy), and serves handlers (internal/httpapi) that call
-- the provider and the audit (internal/audit). Which file models which part:
--
-- - Prelude: the shared names, Boolean tests, equality as an interface, lists, integers, sorting.
-- - Text, Strconv, Netip: what the program uses of Go's strings, strconv and net/netip. A text is
--   the list of its code points, so every function on it runs by evaluation.
-- - Credential (internal/credential/credential.go): credentials, rules, `permits` for
--   Credential.Permits and `match_path` for matchPath. Credential/Glob says what a rule path means,
--   and Credential/Matching proves that the search for the segments decides it.
-- - Failure: the errors of all packages as trees of wrapped errors, with `is` for errors.Is,
--   `status_code` for ovh.StatusCode and `translate` of internal/legacy/provider.go.
-- - Ovh (internal/ovh): Ovh/Client has the calls on the API, Ovh/Paths their routes and the rules a
--   management key is issued with (api.go), Ovh/Makes the rules to say which calls a computation
--   makes, Ovh/Rules relates calls and rules, and Ovh/Pacing has the retries of a call and the wait
--   before them (pacing.go, and `get` and `paced` of api.go). Ovh/Requests has every method of
--   APIClient with its request and how it is sent, Ovh/TokenUrl builds the page that issues a key
--   (CreateTokenURL), and Ovh/Wire reads the answers of the API (wire.go).
-- - Legacy (internal/legacy/provider.go): Legacy/FanOut has the worker pools, Legacy/Reading what is
--   made of their answers, Legacy/Provider every method of the provider. Legacy/Writes, Slots, Reads
--   and Listing hold the proofs.
-- - Audit (internal/audit/audit.go): `inspect` for Inspect with its checks, `surplus`, `summarise`;
--   Audit/Branches has the sensitive branches and the tests of a rule against them, Audit/Twins the
--   search for interchangeable keys (Twins, fingerprint); Audit/Reach, Audit/Inspect, Audit/Dates
--   and Audit/Counting hold the proofs.
-- - Http (internal/httpapi): Http/Replies has the answers to errors, Http/Offers what the interface
--   offers, Http/Inventory (inventory.go), Http/Revocation (revoke.go), Http/Sweep (sweep.go),
--   Http/Applications (applications.go), Http/Addresses with Http/Entries (addresses.go,
--   address.go), Http/Handoff (handoff.go), Http/Session (session.go) and Http/Catalogue
--   (catalogue.go) the handlers, Http/Routing (server.go) the routes and
--   the router, Http/Access (auth.go, csrf.go) the checks in front of them, Http/Token the tokens of
--   a run, and Http/Pipeline (server.go, health.go) the fixed headers and the log of requests, each
--   with the proofs about it below it.
-- - Url: what the program uses of net/url, on bytes: escapes of a path, and queries read and written.
-- - PublicIp (internal/publicip): the address that the process is seen from.
-- - Config (internal/config): the parser of the configuration file, and the account it selects.
-- - Catalog (internal/catalog): the documents of the API as routes, their merge, and a route as a
--   rule; Catalog/Fetch reads a whole catalogue by a pool of workers, and Catalog/Remote is the
--   catalogue served with the loop that refreshes it (remote.go); Catalog/Remote/Waiting has the wait
--   of a request, and Catalog/Captured the catalogues that the binary carries (snapshot.go) with the
--   tool that captures them (tools/snapshotgen).
-- - Startup (cmd/keymaker): what the process decides from its environment and its configuration;
--   Startup/Run has the steps of a start in their order, the health check, and how serving ends.
-- - Demo (tools/demo): the account held in memory. Demo/Steps has the interleavings of its calls,
--   Demo/Accounts and Demo/Padding the invented account, and Demo/Simulation runs the real provider
--   beside it, on an API that answers as an account does.
-- - Logging (internal/logging/redact.go): the redaction of registered values in a log.
-- - Tests: runs on a sample account, and the theorems at concrete inputs.
--
-- State and the API. The OVHcloud API is not part of the repository. It is a record `Api` of
-- answers, each a function of the list of all calls made before (`History`), so it may change
-- between two calls and answer anything; a computation of type `Calls A` takes the history and
-- returns a value with the longer history. The order in which the workers of a pool reach the API
-- is a `Scheduler`, known only to take every job; a theorem holds for every scheduler. What
-- the handlers log is left out; so are the retries of a call, which Ovh/Pacing has by
-- themselves: Ovh/Requests shows that they come to one request, on an API that is a function of the
-- moment and the account. The account is what requests change, without the date of a key's last use.
-- Contexts and their cancellation are left out of the calls: a cancelled call is an error answer.
--
-- Other parameters: the parsers of net/netip (`Parsing`) and of dates, how net/netip prints a block,
-- the upper case of the letters beyond ASCII, the table of endpoints and the parsing of an address (`Hosts`), how net splits a host and a port
-- (`HostPorts`), the answer of the address service, what the source of the catalogue answers,
-- what the log handler prints of a
-- value that is no string, the random bytes, what the flag package makes of the arguments, what error the SDK makes of a
-- status, the lines the scanner gives of the configuration file, and what
-- the JSON decoder makes of a document or a request body.
--
-- Bounds. An identifier is an integer, and a theorem that needs the range of an int64 says so. An
-- instant is the number of nanoseconds since Go's zero time, and a duration saturates as an int64
-- does; the delay of pacing is computed on 64 bits with their wrap-around. A call is sent again on
-- fuel that is the number of attempts left. Other recursion is on lists, but for the printing of a
-- number, whose fuel is one more than the number and so more than its digits.
--
-- The background refresh runs for any number of attempts: the loop in the code has no bound, and the
-- attempts up to the first that succeeds are enough for it to return.
--
-- Time. Ovh/Pacing/Waiting counts the pauses of a read, and Catalog/Remote/Waiting the moments of
-- refreshes, in nanoseconds that are given; what a call takes on the network is left out.
--
-- The store of the demonstration runs each call under its lock, so a call is one step, but for the
-- deletion of an application, which is two; the theorems on it hold for every sequence of steps.
--
-- Not modelled: the client of the SDK that is assembled, the signals and the timeouts of the server
-- of the process, the compression and the JSON of the catalogues, the embedded assets, and the page
-- in the browser. They are transport, or code of a library, or no Go.
pub mod Prelude
pub mod Text
pub mod Strconv
pub mod Netip
pub mod PublicIp
pub mod Config
pub mod Logging
pub mod Startup
pub mod Catalog
pub mod Credential
pub mod Failure
pub mod Ovh
pub mod Legacy
pub mod Audit
pub mod Http
pub mod Demo
pub mod Url
mod Tests
