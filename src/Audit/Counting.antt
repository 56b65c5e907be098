-- ===== src/Audit/Counting.antt =====
-- internal/audit/audit.go, Summarise: what it counts, and that a credential raises no code twice.
use keymaker.Prelude.{
  ℕ, ◌+◌, ◌≤◌, Bool, true, false, not, ◌||◌, List, [], ◌∷◌, ◌++◌, ◌≡◌, refl, inl, inr, ◌∙◌, arith,
  Bool-cases, any, filter, length, if◌then◌else◌,
}
use keymaker.Credential.{Credential, Instant, is_pending, AccessRule}
use keymaker.Audit.Branches.{
  Code, broad_access, no_ip_restriction, no_expiry, expires_soon, never_used, dormant,
  no_description, support_issued, account_control, billing_access, pending_validation, Code-beq,
}
use keymaker.Audit.{
  Finding, Severity, caution, note, is_risk, count_code, count_findings, summarise_onto, Summary,
  summarise, when, inspect, raised, access_findings, expiry_findings, use_findings, examines,
}

abbrev pub one : Bool → ℕ
one b = if b then 1 else 0

length-filter {ℓ} :
    {A : Type ℓ} (p : A → Bool) (x : A) (xs : List A)
    → length (filter p (x ∷ xs)) ≡ one (p x) + length (filter p xs)
length-filter p x xs = ground arith

-- How often a code stands among findings.
pub occurrences : Code → List Finding → ℕ
occurrences k [] = 0
occurrences k (f ∷ fs) = one (Code-beq f.code k) + occurrences k fs

occurrences-append :
    (k : Code) (fs gs : List Finding)
    → occurrences k (fs ++ gs) ≡ occurrences k fs + occurrences k gs
unfolding occurrences
occurrences-append k [] gs = omega arith
occurrences-append k (f ∷ fs) gs = omega (arith, occurrences-append k fs gs)

pub occurrences_both :
    (k : Code) (fs gs : List Finding) (a b : ℕ)
    → occurrences k fs ≤ a
    → occurrences k gs ≤ b
    → occurrences k (fs ++ gs) ≤ a + b
occurrences_both k fs gs a b p q = omega (arith, occurrences-append k fs gs)

occurrences-nil : (k : Code) → occurrences k [] ≡ 0
unfolding occurrences
occurrences-nil k = refl

pub occurrences-when :
    (k : Code) (b : Bool) (c : Code) (v : Severity)
    → occurrences k (when b c v) ≤ one (Code-beq c k)
unfolding occurrences
occurrences-when k b c v = ground arith

occurrences_of_any :
    (k : Code) (fs : List Finding)
    → occurrences k fs ≤ 1
    → occurrences k fs ≡ one (any (λ f. Code-beq f.code k) fs)
unfolding occurrences
occurrences_of_any k [] h = refl
occurrences_of_any k (f ∷ fs) h = ground (arith, occurrences_of_any k fs)

count_findings-counts :
    (k : Code) (fs : List Finding) (counts : Code → ℕ) (risky : Bool)
    → (count_findings fs counts risky).0 k ≡ counts k + occurrences k fs
unfolding count_findings occurrences
count_findings-counts k [] counts risky = omega arith
count_findings-counts k (f ∷ fs) counts risky =
    count_findings-counts k fs (count_code f.code counts) (risky || is_risk f.severity)
    ∙ ground arith

count_findings-risky :
    (fs : List Finding) (counts : Code → ℕ) (risky : Bool)
    → (count_findings fs counts risky).1 ≡ (risky || any (λ f. is_risk f.severity) fs)
unfolding count_findings
count_findings-risky [] counts risky = ground arith
count_findings-risky (f ∷ fs) counts risky =
    count_findings-risky fs (count_code f.code counts) (risky || is_risk f.severity) ∙ ground arith

abbrev pub raises : Code → List Finding → Bool
raises k fs = any (λ f. Code-beq f.code k) fs

abbrev pub is_risky : List Finding → Bool
is_risky fs = any (λ f. is_risk f.severity) fs

abbrev pub is_flagged : List Finding → Bool
is_flagged [] = false
is_flagged (f ∷ fs) = true

-- No code stands twice among the findings of one credential.
abbrev pub AllOnce : List (List Finding) → Type 0
AllOnce [] = Unit
AllOnce (fs ∷ lists) = ((k : Code) → occurrences k fs ≤ 1) × AllOnce lists

abbrev nothing_counted : Summary
nothing_counted = record { counts = λ c. 0; flagged = 0; at_risk = 0 }

summarise_onto-counts :
    (k : Code) (lists : List (List Finding)) (start : Summary)
    → AllOnce lists
    → (summarise_onto lists start).counts k ≡ start.counts k + length (filter (raises k) lists)
unfolding summarise_onto
summarise_onto-counts k [] start once = omega arith
summarise_onto-counts k ([] ∷ lists) start (o, once) = summarise_onto-counts k lists start once
summarise_onto-counts k ((f ∷ fs) ∷ lists) start (o, once) =
    summarise_onto-counts k lists _ once
    ∙ omega (
      arith,
      count_findings-counts k (f ∷ fs) start.counts false,
      occurrences_of_any k (f ∷ fs) (o k),
      length-filter (raises k) (f ∷ fs) lists,
    )

summarise_onto-flagged :
    (lists : List (List Finding)) (start : Summary)
    → (summarise_onto lists start).flagged ≡ start.flagged + length (filter is_flagged lists)
unfolding summarise_onto
summarise_onto-flagged [] start = omega arith
summarise_onto-flagged ([] ∷ lists) start = summarise_onto-flagged lists start
summarise_onto-flagged ((f ∷ fs) ∷ lists) start = summarise_onto-flagged lists _ ∙ omega arith

summarise_onto-at_risk :
    (lists : List (List Finding)) (start : Summary)
    → (summarise_onto lists start).at_risk ≡ start.at_risk + length (filter is_risky lists)
unfolding summarise_onto
summarise_onto-at_risk [] start = omega arith
summarise_onto-at_risk ([] ∷ lists) start = summarise_onto-at_risk lists start
summarise_onto-at_risk ((f ∷ fs) ∷ lists) start =
    summarise_onto-at_risk lists _
    ∙ ground (
      arith,
      count_findings-risky (f ∷ fs) start.counts false,
      length-filter is_risky (f ∷ fs) lists,
    )

-- Each group of findings that `Inspect` adds has its own codes.
access-occurrences :
    (k : Code) (rules : List AccessRule)
    → occurrences k (access_findings rules)
      ≤ one (Code-beq broad_access k)
        + one (Code-beq account_control k)
        + one (Code-beq billing_access k)
unfolding access_findings occurrences
access-occurrences k rules = ground arith

expiry-occurrences :
    (k : Code) (e now : Instant)
    → occurrences k (expiry_findings e now)
      ≤ one (Code-beq no_expiry k) + one (Code-beq expires_soon k)
unfolding expiry_findings occurrences
expiry-occurrences k e now = ground arith

use-occurrences :
    (k : Code) (c l now : Instant)
    → occurrences k (use_findings c l now) ≤ one (Code-beq never_used k) + one (Code-beq dormant k)
unfolding use_findings occurrences
use-occurrences k c l now = ground arith

-- The codes that `Inspect` may raise, each once.
abbrev pub inspected : Code → ℕ
inspected k =
    one (Code-beq pending_validation k)
    + ((one (Code-beq broad_access k)
          + one (Code-beq account_control k)
          + one (Code-beq billing_access k))
        + (one (Code-beq no_ip_restriction k)
            + ((one (Code-beq no_expiry k) + one (Code-beq expires_soon k))
                + ((one (Code-beq never_used k) + one (Code-beq dormant k))
                    + (one (Code-beq no_description k) + one (Code-beq support_issued k))))))

raised-occurrences :
    (k : Code) (c : Credential) (now : Instant) → occurrences k (raised c now) ≤ inspected k
unfolding raised
raised-occurrences k c now =
    occurrences_both k _ _ _ _ (occurrences-when k _ pending_validation caution) (
      occurrences_both k _ _ _ _ (access-occurrences k c.rules) (
        occurrences_both k _ _ _ _ (occurrences-when k _ no_ip_restriction caution) (
          occurrences_both k _ _ _ _ (expiry-occurrences k c.expires_at now) (
            occurrences_both k _ _ _ _ (use_if (not (is_pending c.status))) (
              occurrences_both k _ _ _ _ (occurrences-when k _ no_description note)
                (occurrences-when k _ support_issued caution))))))
  where
    use_if :
        (b : Bool)
        → occurrences k (if b then use_findings c.created_at c.last_used_at now else [])
          ≤ one (Code-beq never_used k) + one (Code-beq dormant k)
    use_if true = use-occurrences k c.created_at c.last_used_at now
    use_if false = ground (arith, occurrences-nil k)

pub inspect-occurrences :
    (k : Code) (c : Credential) (now : Instant) → occurrences k (inspect c now) ≤ inspected k
unfolding inspect occurrences
inspect-occurrences k c now = elim (Bool-cases (examines c)) [
  | inl seen ↦ rw seen (raised-occurrences k c now)
  | inr unseen ↦ rw unseen (omega arith)
]

-- With no code twice in one list, the summary counts the lists that raise a code, those that are not
-- empty, and those with a risk.
pub summarise_lem :
    (lists : List (List Finding))
    → AllOnce lists
    → ((k : Code) → (summarise lists).counts k ≡ length (filter (raises k) lists))
      × ((summarise lists).flagged ≡ length (filter is_flagged lists))
      × ((summarise lists).at_risk ≡ length (filter is_risky lists))
unfolding summarise
summarise_lem lists once = (
  (λ k. summarise_onto-counts k lists nothing_counted once ∙ omega arith),
  summarise_onto-flagged lists nothing_counted ∙ omega arith,
  summarise_onto-at_risk lists nothing_counted ∙ omega arith,
)
