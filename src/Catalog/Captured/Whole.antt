-- ===== src/Catalog/Captured/Whole.antt =====
-- tools/snapshotgen/main.go and internal/catalog: the explorer shows all of the API as of one moment.
use keymaker.Prelude.{
  ℕ, ◌+◌, ◌%◌, ◌<◌, ◌≤◌, Bool, true, false, Option, none, some, List, [], ◌∷◌, ◌≡◌, ◌≢◌, ◌⊎◌, inl,
  inr, refl, ap, sym, ◌∙◌, arith, ◌==◌, nat_equality, list_equality, In, Bool-cases, eq_of, subst,
}
use keymaker.Text.{Text}
use keymaker.Catalog.{Snapshot}
use keymaker.Catalog.Fetch.{done, Outcome-cases}
use keymaker.Catalog.Fetch.InTurn.{fetch-eq-fetch_in_turn}
use keymaker.Catalog.Remote.{dated, new_remote, background}
use keymaker.Catalog.Remote.Served.{IsComplete, fetch_in_turn-IsComplete, background-served}
use keymaker.Catalog.Captured.{
  Files, not_live, embedded, source, day, as_captured, Attempt, attempt, capture, capture_all,
  or_stop, with_file,
}

-- The workers of the attempt finish each of their jobs.
abbrev pub Covers : (ℕ → List ℕ) → Type 0
Covers order = (n i : ℕ) → i < n → In i (order n)

-- The snapshot holds all that the site of the attempt answered, and bears the day of the attempt.
pub record IsCapture (a : Attempt) (snapshot : Snapshot) : Type 0 where
  pub fetched : Snapshot
  pub read_whole : IsComplete (source a.site) a.now fetched
  pub same_routes : snapshot.routes ≡ fetched.routes
  pub same_branches : snapshot.branches ≡ fetched.branches
  pub unmarked : snapshot.live ≡ false
  pub midnight : snapshot.taken % day ≡ 0
  pub before : snapshot.taken ≤ a.now
  pub within : a.now < snapshot.taken + day

attempt-IsComplete :
    (a : Attempt) (s : Snapshot)
    → Covers a.order
    → attempt a ≡ done s
    → IsComplete (source a.site) a.now s
unfolding attempt
attempt-IsComplete a s covers h =
    fetch_in_turn-IsComplete (source a.site) a.now s
      (sym (fetch-eq-fetch_in_turn (source a.site) a.order covers a.now) ∙ h)

as_captured-IsCapture :
    (a : Attempt) (s : Snapshot) → Covers a.order → attempt a ≡ done s → IsCapture a (as_captured s)
as_captured-IsCapture a s covers h =
    let whole = attempt-IsComplete a s covers h in
    record {
      fetched = s;
      read_whole = whole;
      same_routes = refl;
      same_branches = refl;
      unmarked = refl;
      midnight = omega arith;
      before = omega (arith, whole.dated_to);
      within = omega (arith, whole.dated_to);
    }

some_snapshot : (s t : Snapshot) → some s ≡ some t → s ≡ t
some_snapshot s t h = cc h

-- What the tool writes for an endpoint is what one of its two attempts fetched whole, each branch of
-- the index of the site, marked as not live and dated to the midnight before; the workers of both
-- attempts finish each of their jobs. When the first attempt fetches a catalogue, it is that one.
pub capture-IsCapture :
    (known : Bool) (first second : Attempt) (snapshot : Snapshot)
    → Covers first.order
    → Covers second.order
    → capture known first second ≡ some snapshot
    → IsCapture first snapshot
      ⊎ (IsCapture second snapshot × ((s : Snapshot) → attempt first ≢ done s))
unfolding capture
capture-IsCapture true first second snapshot c d h = elim (Outcome-cases (attempt first)) [
  | inl (s, e) ↦ inl (
      subst (IsCapture first) (some_snapshot (as_captured s) snapshot (rw e at h))
        (as_captured-IsCapture first s c e))
  | inr (x, e) ↦ elim (Outcome-cases (attempt second)) [
    | inl (s, f) ↦ inr (
      subst (IsCapture second) (some_snapshot (as_captured s) snapshot (rw (e, f) at h))
          (as_captured-IsCapture second s d f),
      λ t g. cc (e, g),
    )
    | inr (y, f) ↦ cc (rw (e, f) at h)
  ]
]
capture-IsCapture false first second snapshot c d h = cc h

-- What stands in a file after a run of the tool was captured in it, or stood there before.
capture_all-from :
    (captured : Text → Option Snapshot) (endpoints : List Text) (files : Files) (name : Text)
    (s : Snapshot)
    → capture_all captured endpoints files name ≡ some (some s)
    → (captured name ≡ some s) ⊎ (files name ≡ some (some s))
unfolding capture_all
capture_all-from captured [] files name s h = inr h
capture_all-from captured (endpoint ∷ endpoints) files name s h =
    by (captured endpoint) refl (λ f. capture_all-from captured endpoints f name s) h
  where
    by :
        (o : Option Snapshot)
        → captured endpoint ≡ o
        → ((f : Files)
            → capture_all captured endpoints f name ≡ some (some s)
            → (captured name ≡ some s) ⊎ (f name ≡ some (some s)))
        → or_stop o files
            (λ snapshot. capture_all captured endpoints (with_file endpoint snapshot files))
            name
          ≡ some (some s)
        → (captured name ≡ some s) ⊎ (files name ≡ some (some s))
    by none e ih k = inr k
    by (some snapshot) e ih k = elim (ih (with_file endpoint snapshot files) k) [
      | inl now ↦ inl now
      | inr then' ↦ elim (Bool-cases (name == endpoint)) [
        | inl same ↦
            inl (ap captured (eq_of name endpoint same) ∙ e ∙ same_file snapshot (rw same at then'))
        | inr other ↦ inr (rw other at then')
      ]
    ]
      where
        same_file : (t : Snapshot) → some (some t) ≡ some (some s) → some t ≡ some s
        same_file t p = cc p

still : {a : Attempt} (t : Snapshot) → IsCapture a t → IsCapture a (not_live t)
still t c = record {
  fetched = c.fetched;
  read_whole = c.read_whole;
  same_routes = c.same_routes;
  same_branches = c.same_branches;
  unmarked = refl;
  midnight = c.midnight;
  before = c.before;
  within = c.within;
}

embedded-file :
    (files : Files) (endpoint : Text) (snapshot : Snapshot)
    → embedded files endpoint ≡ some snapshot
    → (t : Snapshot) × (files endpoint ≡ some (some t)) × (not_live t ≡ snapshot)
unfolding embedded
embedded-file files endpoint snapshot h = by (files endpoint) refl h
  where
    by :
        (o : Option (Option Snapshot))
        → files endpoint ≡ o
        → elim o [
          | none ↦ none
          | some document ↦ elim document [ none ↦ none | some t ↦ some (not_live t) ]
        ]
          ≡ some snapshot
        → (t : Snapshot) × (files endpoint ≡ some (some t)) × (not_live t ≡ snapshot)
    by none e k = cc k
    by (some none) e k = cc k
    by (some (some t)) e k = (t, e, some_snapshot (not_live t) snapshot k)

-- The catalogue that is browsed is all of the API as one attempt fetched it: when the file of the
-- region was written by the tool, from none that stood there, the program serves, after any number
-- of attempts to refresh it, a catalogue marked as live that one of these attempts fetched whole and
-- dated to its own moment, or else, marked as not live, what one of the two attempts of the tool
-- fetched whole, dated to the midnight before the moment of that attempt, less than a day away. All
-- workers finish each of their jobs.
pub captured-served :
    (known : Text → Bool) (first second : Text → Attempt) (endpoints : List Text) (endpoint : Text)
    (snapshot : Snapshot) (attempts : ℕ → Attempt) (ends : ℕ → Bool) (fuel : ℕ)
    → ((name : Text) → Covers (first name).order × Covers (second name).order)
    → ((i : ℕ) → Covers (attempts i).order)
    → embedded
        (capture_all
          (λ name. capture (known name) (first name) (second name))
          endpoints
          (λ name. none))
        endpoint
      ≡ some snapshot
    → let run = background (λ i. attempt (attempts i)) ends fuel 0 (new_remote snapshot) in
      ((run.remote.current.live ≡ true)
        × ((i : ℕ) × IsComplete (source (attempts i).site) (attempts i).now run.remote.current))
      ⊎ (IsCapture (first endpoint) run.remote.current
          ⊎ IsCapture (second endpoint) run.remote.current)
unfolding attempt
captured-served known first second endpoints endpoint snapshot attempts ends fuel tool program h =
    elim (background-served (λ i. source (attempts i).site) (λ i. (attempts i).order)
      (λ i. (attempts i).now) ends program fuel snapshot) [
        | inl (e, live, whole) ↦ inl (live, whole)
        | inr (e, same) ↦ inr (
            let (t, file, is_it) = embedded-file files endpoint snapshot h in
            elim (capture_all-from captured endpoints (λ name. none) endpoint t file) [
              | inr before ↦ cc before
              | inl now ↦
                  elim (capture-IsCapture (known endpoint) (first endpoint) (second endpoint) t
                    (tool endpoint).0 (tool endpoint).1 now) [
                      | inl one ↦ inl (moved t is_it same one)
                      | inr two ↦ inr (moved t is_it same two.0)
                    ]
            ])
      ]
  where
    captured : Text → Option Snapshot
    captured name = capture (known name) (first name) (second name)

    files : Files
    files = capture_all captured endpoints (λ name. none)

    moved :
        {a : Attempt} {current : Snapshot} (t : Snapshot)
        → not_live t ≡ snapshot
        → current ≡ dated snapshot
        → IsCapture a t
        → IsCapture a current
    moved {a} t e same c =
        subst (IsCapture a) (sym same) (still snapshot (subst (IsCapture a) e (still t c)))
