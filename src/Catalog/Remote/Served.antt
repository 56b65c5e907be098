-- ===== src/Catalog/Remote/Served.antt =====
-- internal/catalog/remote.go: what is served is all of the API, or the dated snapshot.
use keymaker.Prelude.{
  ℕ, ◌<◌, Bool, true, List, ◌≡◌, ◌≢◌, ◌⊎◌, Option, none, some, inl, inr, refl, sym, ap, ◌∙◌, In,
}
use keymaker.Text.{Text}
use keymaker.Credential.{Instant}
use keymaker.Failure.{Result, ok, err}
use keymaker.Catalog.{Route, Snapshot, parse_index}
use keymaker.Catalog.Fetch.{Source, Outcome, done, failed, indexed, with_index, snapshot_of, fetch}
use keymaker.Catalog.Fetch.InTurn.{
  read_in_turn, snapshot_in_turn, fetch_in_turn, fetch-eq-fetch_in_turn,
}
use keymaker.Catalog.Remote.{dated, new_remote, loaded, background}
use keymaker.Catalog.Remote.Background.{background-Serves}

-- The branches that the index names, all of them read, make the snapshot, dated to the moment given.
pub record IsComplete (source : Source) (now : Instant) (s : Snapshot) : Type 0 where
  pub branches : List Text
  pub batches : List (List Route)
  pub document : Option (List Text)
  pub listed : source.index ≡ ok document
  pub named : parse_index document ≡ some branches
  pub read : read_in_turn source 0 branches ≡ done batches
  pub made : s ≡ snapshot_of branches now batches
  pub dated_to : s.taken ≡ now

pub fetch_in_turn-IsComplete :
    (source : Source) (now : Instant) (s : Snapshot)
    → fetch_in_turn source now ≡ done s
    → IsComplete source now s
unfolding fetch_in_turn
fetch_in_turn-IsComplete source now s h = by source.index refl h
  where
    all_read :
        (document : Option (List Text)) (branches : List Text)
        → source.index ≡ ok document
        → parse_index document ≡ some branches
        → (o : Outcome (List (List Route))) → read_in_turn source 0 branches ≡ o
        → snapshot_in_turn branches now o ≡ done s
        → IsComplete source now s
    all_read document branches d n (done batches) r e = record {
      branches = branches;
      batches = batches;
      document = document;
      listed = d;
      named = n;
      read = r;
      made = cc e;
      dated_to = let m : s ≡ snapshot_of branches now batches = cc e in ap (λ t. t.taken) m;
    }
    all_read document branches d n (failed x) r e = cc e

    indexed_by :
        (document : Option (List Text))
        → source.index ≡ ok document
        → (o : Option (List Text)) → parse_index document ≡ o
        → indexed o (λ branches. snapshot_in_turn branches now (read_in_turn source 0 branches))
          ≡ done s
        → IsComplete source now s
    indexed_by document d none n e = cc e
    indexed_by document d (some branches) n e =
        all_read document branches d n (read_in_turn source 0 branches) refl e

    by :
        (r : Result (Option (List Text)))
        → source.index ≡ r
        → with_index r (λ branches. snapshot_in_turn branches now (read_in_turn source 0 branches))
          ≡ done s
        → IsComplete source now s
    by (err e) d h' = cc h'
    by (ok document) d h' = indexed_by document d (parse_index document) refl h'

-- What the program serves after any number of attempts, whatever the sources answer and in whatever
-- order the workers finish: either the loop has returned and an attempt's source was read whole, each
-- branch of its index, into the catalogue served, which is marked as live; or the loop has not
-- returned for a catalogue, and the fallback is served, marked as not live. The workers finish each
-- of their jobs.
pub background-served :
    (source : ℕ → Source) (order : ℕ → ℕ → List ℕ) (now : ℕ → Instant) (ends : ℕ → Bool)
    → ((attempt n i : ℕ) → i < n → In i (order attempt n))
    → (fuel : ℕ) (fallback : Snapshot)
    → let run =
        background (λ i. fetch (source i) (order i) (now i)) ends fuel 0 (new_remote fallback) in
      ((run.ending ≡ loaded)
        × (run.remote.current.live ≡ true)
        × ((i : ℕ) × IsComplete (source i) (now i) run.remote.current))
      ⊎ ((run.ending ≢ loaded) × (run.remote.current ≡ dated fallback))
unfolding new_remote
background-served source order now ends covers fuel fallback =
    elim (background-Serves (λ i. fetch (source i) (order i) (now i)) ends fuel 0
      (new_remote fallback)) [
        | inl (e, (i, d)) ↦
            let c =
              fetch_in_turn-IsComplete (source i) (now i) _
                (sym (fetch-eq-fetch_in_turn (source i) (order i) (covers i) (now i)) ∙ d) in
            inl (e, ap (λ s. s.live) c.made, (i, c))
        | inr (e, same) ↦ inr (e, same)
      ]
