-- ===== src/Http/Inventory/Counts.antt =====
-- internal/httpapi/inventory.go: the counts that the interface turns into filters are the numbers of
-- entries that the filters keep.
use keymaker.Prelude.{
  ℕ, ◌+◌, ◌≤◌, Bool, false, ◌||◌, Option, List, [], ◌∷◌, map, ◌≡◌, sym, ◌∙◌, arith, filter, length,
  if◌then◌else◌, length-map, length-filter-map, length-filter-sort, length-sort,
}
use keymaker.Credential.{Credential, is_validated, is_pending}
use keymaker.Audit.Branches.{Code, same_as_another, wider_than_needed, Code-beq}
use keymaker.Audit.{Finding, caution, examines}
use keymaker.Audit.Counting.{
  one, occurrences, occurrences_both, occurrences-when, inspected, inspect-occurrences, AllOnce,
  raises, is_flagged, is_risky, summarise_lem,
}
use keymaker.Http.Inventory.{
  CredentialResponse, Setting, describe, described, found, may_precede, inventory_response,
  summarise_response,
}

inspected-once :
    (k : Code)
    → inspected k + (one (Code-beq same_as_another k) + one (Code-beq wider_than_needed k)) ≤ 1
inspected-once k = ground arith

-- An entry whose credential the audit reads.
abbrev pub is_read : CredentialResponse → Bool
is_read d = if d.application.deleted then false else is_validated d.status || is_pending d.status

abbrev pub kept {ℓ} : {A : Type ℓ} → (A → Bool) → List A → ℕ
kept p xs = length (filter p xs)

module _ (set : Setting) (current : Option Credential) where
  found-once :
      (all : List Credential) (k : Code) (c : Credential)
      → occurrences k (found set all current c) ≤ 1
  unfolding found
  found-once all k c = omega (
    arith,
    inspected-once k,
    occurrences_both k _ _ _ _ (inspect-occurrences k c set.now) (
        occurrences_both k _ _ _ _ (occurrences-when k _ same_as_another caution)
          (occurrences-when k _ wider_than_needed caution)),
  )

  found-AllOnce : (all cs : List Credential) → AllOnce (map (found set all current) cs)
  found-AllOnce all [] = tt
  found-AllOnce all (c ∷ cs) = ((λ k. found-once all k c), found-AllOnce all cs)

  kept_sorted :
      (p : CredentialResponse → Bool) (cs : List Credential) (n : ℕ)
      → kept (λ c. p (described set cs current c)) cs
        ≡ kept p (inventory_response set current cs n).credentials
  unfolding inventory_response
  kept_sorted p cs n =
      sym (length-filter-map p (described set cs current) cs)
      ∙ sym (length-filter-sort (λ a b. may_precede a b) p (map (described set cs current) cs))

  kept_found :
      (p : List Finding → Bool) (all cs : List Credential)
      → length (filter p (map (found set all current) cs))
        ≡ kept (λ c. p (described set all current c).findings) cs
  unfolding described describe
  kept_found p all cs = length-filter-map p (found set all current) cs

  kept_read :
      (cs : List Credential) (n : ℕ)
      → kept examines cs ≡ kept is_read (inventory_response set current cs n).credentials
  unfolding examines described describe
  kept_read cs n = kept_sorted is_read cs n

  -- The summary of an inventory counts its entries: all of them, those that the audit reads, those
  -- with a finding, those with a risk, and for each code those that raise it, however often the
  -- audit could raise one; so each count is the number of entries that its filter keeps.
  pub inventory_response-counts :
      (cs : List Credential) (n : ℕ)
      → let r = inventory_response set current cs n in
        (r.summary.total ≡ length r.credentials)
        × (r.summary.examined ≡ kept is_read r.credentials)
        × (r.summary.flagged ≡ kept (λ d. is_flagged d.findings) r.credentials)
        × (r.summary.at_risk ≡ kept (λ d. is_risky d.findings) r.credentials)
        × ((k : Code) → r.summary.counts k ≡ kept (λ d. raises k d.findings) r.credentials)
  unfolding inventory_response summarise_response
  inventory_response-counts cs n =
      let counted = summarise_lem (map (found set cs current) cs) (found-AllOnce cs cs) in
      let all' =
        λ (p : List Finding → Bool). kept_found p cs cs ∙ kept_sorted (λ d. p d.findings) cs n in
      (
        sym (
            length-sort (λ a b. may_precede a b) (map (described set cs current) cs)
            ∙ length-map (described set cs current) cs),
        kept_read cs n,
        counted.1 ∙ all' is_flagged,
        counted.2 ∙ all' is_risky,
        (λ k. counted.0 k ∙ all' (raises k)),
      )
