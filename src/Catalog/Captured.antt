-- ===== src/Catalog/Captured.antt =====
-- internal/catalog/snapshot.go and tools/snapshotgen/main.go: the catalogues that the binary carries. A
-- file stands as the snapshot that its JSON decodes to, and one that is not one as `none`; the answers
-- of the sites are given for each attempt.
pub mod Whole
use keymaker.Prelude.{
  ℕ, ◌*◌, ◌-◌, ◌%◌, Bool, true, false, Option, none, some, List, [], ◌∷◌, ◌==◌, nat_equality,
  list_equality, if◌then◌else◌,
}
use keymaker.Text.{Text}
use keymaker.Failure.{Result, ok, err, unread}
use keymaker.Catalog.{Snapshot, RouteDocument}
use keymaker.Catalog.Fetch.{Source, Outcome, done, failed, fetch}

-- The file of an endpoint: missing, or what it decodes to.
abbrev pub Files : Type 0
Files = Text → Option (Option Snapshot)

-- The zero value of `Snapshot`.
abbrev pub no_snapshot : Snapshot
no_snapshot = record { routes = []; branches = []; taken = 0; live = false }

abbrev pub not_live : Snapshot → Snapshot
not_live snapshot = record snapshot { live = false }

-- `Embedded`; an error is `none`.
unfoldable pub embedded : Files → Text → Option Snapshot
embedded files endpoint = elim (files endpoint) [
  | none ↦ none
  | some document ↦ elim document [ none ↦ none | some snapshot ↦ some (not_live snapshot) ]
]

-- An answer to a GET: its status and its body as the decoder makes of it.
abbrev pub Answered {ℓ} : Type ℓ → Type ℓ
Answered A = Result (ℕ × Option A)

-- `source.get`: only a 200 is read.
unfoldable pub get {ℓ} : {A : Type ℓ} → Answered A → Result (Option A)
get (err e) = err e
get (ok (status, body)) = if status == 200 then ok body else err (unread 0)

-- What the site of an endpoint answers in one attempt.
pub record Site : Type 0 where
  pub index : Answered (List Text)
  pub schema : ℕ → Text → Answered (List RouteDocument)

unfoldable pub source : Site → Source
unfolding get
source site = record { index = get site.index; schema = λ i path. get (site.schema i path) }

abbrev pub day : ℕ
day = 86_400_000_000_000

-- `Truncate(24 * time.Hour)`, which counts from Go's zero time.
abbrev pub as_captured : Snapshot → Snapshot
as_captured snapshot = record snapshot {
  live = false;
  taken = snapshot.taken - snapshot.taken % day;
}

-- The two attempts on a site, each with its answers, the order of its workers and its time.
pub record Attempt : Type 0 where
  pub site : Site
  pub order : ℕ → List ℕ
  pub now : ℕ

unfoldable pub attempt : Attempt → Outcome Snapshot
unfolding source
attempt a = fetch (source a.site) a.order a.now

abbrev pub or_again : Outcome Snapshot → Outcome Snapshot → Outcome Snapshot
or_again (done snapshot) second = done snapshot
or_again (failed e) second = second

-- `capture`: what is written for an endpoint, or nothing where the tool stops.
unfoldable pub capture : Bool → Attempt → Attempt → Option Snapshot
unfolding attempt
capture known first second =
    if known
    then elim (or_again (attempt first) (attempt second)) [
      | failed e ↦ none
      | done snapshot ↦ some (as_captured snapshot)
    ]
    else none

abbrev pub or_stop : Option Snapshot → Files → (Snapshot → Files) → Files
or_stop none files next = files
or_stop (some snapshot) files next = next snapshot

abbrev pub with_file : Text → Snapshot → Files → Files
with_file endpoint snapshot files =
    λ name. if name == endpoint then some (some snapshot) else files name

-- The loop of the tool: it stops at the first endpoint it cannot capture, and what it wrote before
-- stays.
unfoldable pub capture_all : (Text → Option Snapshot) → List Text → Files → Files
capture_all captured [] files = files
capture_all captured (endpoint ∷ endpoints) files =
    or_stop (captured endpoint) files
      (λ snapshot. capture_all captured endpoints (with_file endpoint snapshot files))
