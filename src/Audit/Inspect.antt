-- ===== src/Audit/Inspect.antt =====
-- internal/audit/audit.go, Inspect: a key that can act on a sensitive branch is flagged.
use keymaker.Prelude.{
  Bool, true, false, ◌&&◌, ◌||◌, List, [], ◌∷◌, ◌++◌, ◌≡◌, ◌⊎◌, inl, inr, refl, arith, ltb,
  nat_equality, Bool-cases, any, all, any_witness, any_of_In, all_of_In, In, here, In-append_left,
  In-append_right, length,
}
use keymaker.Text.{Text, has_suffix, equal_fold}
use keymaker.Text.Folding.{equal_fold_trans}
use keymaker.Credential.{AccessRule, Credential, Instant, match_path, permits}
use keymaker.Credential.Matching.{match_path_iff}
use keymaker.Audit.Branches.{
  Code, broad_access, account_control, billing_access, Code-beq, Branch, sensitive_branches,
  method_counts, branch_reaches, reaches, has_broad_rule,
}
use keymaker.Audit.Reach.{Within, path_reaches_complete}
use keymaker.Audit.{Finding, finding, risk, caution, examines, access_findings, raised, inspect}

method_counts_fold :
    (methods : List Text) (m n : Text)
    → method_counts methods n ≡ true
    → equal_fold m n ≡ true
    → method_counts methods m ≡ true
unfolding method_counts
method_counts_fold [] m n h e = refl
method_counts_fold (k ∷ ks) m n h e =
    let (a, i, t) = any_witness (λ x. equal_fold x n) (k ∷ ks) h in
    any_of_In (λ x. equal_fold x m) i (equal_fold_trans a n m t e)

abbrev pub OpenPath : Text → Type 0
OpenPath path = (ltb 1 (length path) && has_suffix path (b'/' ∷ [])) ≡ false

module _ (c : Credential) (method path : Text) (b : Branch) where
  branch_reaches_of_permits :
      permits c method path ≡ true
      → method_counts b.methods method ≡ true
      → Within path b.path
      → OpenPath path
      → any (λ rule. branch_reaches b rule) c.rules ≡ true
  unfolding permits branch_reaches
  branch_reaches_of_permits allowed counts under open' =
      let p = λ (r : AccessRule). equal_fold r.method method && match_path r.path path in
      let (rule, i, t) = any_witness p c.rules allowed in
      let same_method : equal_fold rule.method method ≡ true = ground arith in
      let covered : match_path rule.path path ≡ true = ground arith in
      let here' = method_counts_fold b.methods rule.method method counts same_method in
      let there' =
        path_reaches_complete b.path ((match_path_iff rule.path path).0 covered) under open' in
      any_of_In (λ r. branch_reaches b r) i (ground arith)

-- Every sensitive branch is about the control of the account or about its billing.
abbrev kinds : Bool
kinds =
    all (λ b. Code-beq b.finding account_control || Code-beq b.finding billing_access)
      sensitive_branches

kinds-true : kinds ≡ true
unfolding sensitive_branches
kinds-true = refl

branch_kind :
    (b : Branch)
    → In b sensitive_branches
    → (b.finding ≡ account_control) ⊎ (b.finding ≡ billing_access)
branch_kind b i = kind_of b.finding (
    all_of_In (λ b. Code-beq b.finding account_control || Code-beq b.finding billing_access) i
      kinds-true)
  where
    kind_of :
        (k : Code)
        → (Code-beq k account_control || Code-beq k billing_access) ≡ true
        → (k ≡ account_control) ⊎ (k ≡ billing_access)
    kind_of k h = ground arith

-- The findings name the kind of the branch at its severity, or say that the access is broad.
abbrev pub Flags : Code → List Finding → Type 0
Flags k fs =
    In (finding broad_access risk) fs
    ⊎ (((k ≡ account_control) × In (finding account_control risk) fs)
        ⊎ ((k ≡ billing_access) × In (finding billing_access caution) fs))

Flags-append :
    {k : Code} (xs : List Finding) {ys : List Finding} (zs : List Finding)
    → Flags k ys
    → Flags k (xs ++ (ys ++ zs))
Flags-append xs zs (inl i) = inl (In-append_right xs (In-append_left zs i))
Flags-append xs zs (inr (inl (e, i))) = inr (inl (e, In-append_right xs (In-append_left zs i)))
Flags-append xs zs (inr (inr (e, i))) = inr (inr (e, In-append_right xs (In-append_left zs i)))

access_Flags :
    (rules : List AccessRule) (k : Code)
    → (k ≡ account_control) ⊎ (k ≡ billing_access)
    → reaches rules k ≡ true
    → Flags k (access_findings rules)
unfolding access_findings
access_Flags rules k kind h = elim (Bool-cases (has_broad_rule rules)) [
  | inl broad ↦ inl (rw broad (here refl))
  | inr narrow ↦ elim kind [
    | inl control ↦
        let h' : reaches rules account_control ≡ true = rw control at h in
        inr (inl (control, rw (narrow, h') (here refl)))
    | inr billing ↦
        let h' : reaches rules billing_access ≡ true = rw billing at h in
        inr (inr (billing, rw (narrow, h') (In-append_right _ (here refl))))
  ]
]

-- A credential that is examined, and whose rules permit a call on a path of a sensitive branch by
-- a method that counts there, is flagged: for the branch's kind, or for broad access. The path is
-- a route, so it does not end in a slash.
pub inspect-Flags :
    (c : Credential) (now : Instant) (method path : Text) (b : Branch)
    → In b sensitive_branches
    → examines c ≡ true
    → permits c method path ≡ true
    → method_counts b.methods method ≡ true
    → Within path b.path
    → OpenPath path
    → Flags b.finding (inspect c now)
unfolding inspect raised reaches
inspect-Flags c now method path b i on allowed counts under open' =
    let touched = branch_reaches_of_permits c method path b allowed counts under open' in
    let found : reaches c.rules b.finding ≡ true =
      any_of_In (λ d. Code-beq d.finding b.finding && any (λ rule. branch_reaches d rule) c.rules) i
        (ground arith) in
    rw on (Flags-append _ _ (access_Flags c.rules b.finding (branch_kind b i) found))
