-- ===== src/Catalog/Instances.antt =====
-- internal/catalog/schema.go: the rule made of a documented route lets every call of the route
-- through.
use keymaker.Prelude.{
  ℕ, suc, Bool, true, false, none, some, [], ◌∷◌, ◌++◌, ◌≡◌, ◌≢◌, ◌↔◌, refl, sym, ap, subst, inl,
  inr, arith, ◌==◌, nat_equality, Bool-cases, Option-cases, eq_of, ne_of, length, all, not, ◌&&◌,
}
use keymaker.Text.{Text}
use keymaker.Credential.{star, match_path}
use keymaker.Credential.Glob.{Matches, done, same, run}
use keymaker.Credential.Matching.{match_path_iff}
use keymaker.Catalog.{placeholder_end, opens, replace, rule_path, parameterised}

-- The name of a parameter.
abbrev pub is_name : Text → Bool
is_name = all (λ c. not (c == b'/') && not (c == b'{') && not (c == b'}'))

-- A path is a call of a documented route: each parameter stands for any text.
pub data IsInstance : Text → Text → Type 0 where
  ends : {path : Text} → path ≡ [] → IsInstance [] path
  literal :
      {c : ℕ} {route path : Text} (rest : Text)
      → path ≡ c ∷ rest
      → IsInstance route rest
      → IsInstance (c ∷ route) path
  parameter :
      {c : ℕ} {documented path : Text} (name value route rest : Text)
      → c ≡ b'{'
      → is_name name ≡ true
      → documented ≡ name ++ (b'}' ∷ route)
      → path ≡ value ++ rest
      → IsInstance route rest
      → IsInstance (c ∷ documented) path

placeholder_end-name :
    (name route : Text)
    → is_name name ≡ true
    → placeholder_end (name ++ (b'}' ∷ route)) ≡ some (suc (length name))
unfolding placeholder_end
placeholder_end-name [] route h = refl
placeholder_end-name (c ∷ name) route h = ground (arith, placeholder_end-name name route)

placeholder_end-nil : (n : ℕ) → placeholder_end [] ≢ some n
unfolding placeholder_end
placeholder_end-nil n h = cc

placeholder_end-brace : (c : ℕ) (s : Text) (n : ℕ) → c ≡ b'{' → placeholder_end (c ∷ s) ≢ some n
unfolding placeholder_end
placeholder_end-brace c s n e h = ground arith

replace-name :
    (name : Text) (c : ℕ) (route : Text)
    → replace (suc (length name)) (name ++ (c ∷ route)) ≡ replace 0 route
unfolding replace
replace-name [] c route = refl
replace-name (d ∷ name) c route = replace-name name c route

-- Behind some text, the path matches what is left of the rule once `n` characters are left out.
abbrev Behind : ℕ → Text → Text → Type 0
Behind n route path =
    (skipped rest : Text) × (path ≡ skipped ++ rest) × Matches (replace n route) rest

-- What the two lemmas below pass on from the rest of a route to the whole.
abbrev Covered : Text → Text → Type 0
Covered route path =
    Matches (replace 0 route) path
    × ((n : ℕ) → placeholder_end route ≡ some n → Behind n route path)

replace-plain : (c : ℕ) (s : Text) → opens c s ≡ none → replace 0 (c ∷ s) ≡ c ∷ replace 0 s
unfolding replace
replace-plain c s h =
    subst (λ o. elim o [ none ↦ c ∷ replace 0 s | some k ↦ star ∷ replace k s ] ≡ c ∷ replace 0 s)
      (sym h) refl

replace-opens :
    (c : ℕ) (s : Text) (n : ℕ) → opens c s ≡ some n → replace 0 (c ∷ s) ≡ star ∷ replace n s
unfolding replace
replace-opens c s n h =
    subst
      (λ o. elim o [ none ↦ c ∷ replace 0 s | some k ↦ star ∷ replace k s ] ≡ star ∷ replace n s)
      (sym h) refl

Matches-literal :
    (c : ℕ) (pattern rest : Text) → Matches pattern rest → Matches (c ∷ pattern) (c ∷ rest)
Matches-literal c pattern rest m = elim (Bool-cases (c == b'*')) [
  | inl wild ↦ run (c ∷ []) rest (eq_of c b'*' wild) refl m
  | inr plain ↦ same rest (ne_of c b'*' plain) refl m
]

opens-end : (c : ℕ) (s : Text) (n : ℕ) → opens c s ≡ some n → placeholder_end s ≡ some n
unfolding opens
opens-end c s n h = ground arith

Matches-literal_replace :
    (c : ℕ) (route rest : Text) → Covered route rest → Matches (replace 0 (c ∷ route)) (c ∷ rest)
Matches-literal_replace c route rest (m, behind) = elim (Option-cases (opens c route)) [
  | inl plain ↦ rw (replace-plain c route plain) (Matches-literal c (replace 0 route) rest m)
  | inr (n, h) ↦
      let (u, w, e, k) = behind n (opens-end c route n h) in
      rw (replace-opens c route n h) (run (c ∷ u) w refl (ap (◌∷◌ c) e) k)
]

Behind-literal :
    (c : ℕ) (route rest : Text) (n : ℕ)
    → Covered route rest
    → placeholder_end (c ∷ route) ≡ some n
    → Behind n (c ∷ route) (c ∷ rest)
unfolding placeholder_end replace
Behind-literal c route rest n (m, behind) h = elim (Bool-cases (c == b'}')) [
  | inl closes ↦ let e : 1 ≡ n = ground arith in rw (← e) (c ∷ [], rest, refl, m)
  | inr open' ↦ elim (Option-cases (placeholder_end route)) [
    | inl endless ↦ absurd (ground arith)
    | inr (k, found) ↦
        let e : suc k ≡ n = ground arith in
        let (u, w, split', m') = behind k found in rw (← e) (c ∷ u, w, ap (◌∷◌ c) split', m')
  ]
]

opens-brace :
    (c : ℕ) (name route : Text)
    → c ≡ b'{'
    → is_name name ≡ true
    → opens c (name ++ (b'}' ∷ route)) ≡ some (suc (length name))
unfolding opens
opens-brace c name route e v = rw e (placeholder_end-name name route v)

Covered-parameter :
    (c : ℕ) (name value route rest : Text)
    → c ≡ b'{'
    → is_name name ≡ true
    → Matches (replace 0 route) rest
    → Covered (c ∷ (name ++ (b'}' ∷ route))) (value ++ rest)
Covered-parameter c name value route rest e v m = (
  rw
      (
        replace-opens c (name ++ (b'}' ∷ route)) (suc (length name)) (opens-brace c name route e v),
        replace-name name b'}' route,
      )
      (run value rest refl refl m),
  λ n h. absurd (placeholder_end-brace c (name ++ (b'}' ∷ route)) n e h),
)

Covered-instance : {route path : Text} → IsInstance route path → Covered route path
Covered-instance (ends e) = (unfold replace in done e, λ n h. absurd (placeholder_end-nil n h))
Covered-instance (literal {c} {route} rest e i) =
    let k = Covered-instance i in
    rw e (Matches-literal_replace c route rest k, λ n h. Behind-literal c route rest n k h)
Covered-instance (parameter {c} name value route rest e v d e' i) =
    rw (d, e') (Covered-parameter c name value route rest e v (Covered-instance i).0)

-- The rule made of a documented route lets every call of that route through, whatever stands for
-- its parameters.
pub match_path-rule_path :
    (documented path : Text)
    → IsInstance documented path
    → match_path (rule_path documented) path ≡ true
unfolding rule_path
match_path-rule_path documented path i =
    (match_path_iff (replace 0 documented) path).1 (Covered-instance i).0

opens-c : (c : ℕ) (s : Text) (n : ℕ) → opens c s ≡ some n → c ≡ b'{'
unfolding opens
opens-c c s n h = ground arith

parameterised-plain :
    (c : ℕ) (s : Text) → opens c s ≡ none → parameterised (c ∷ s) ≡ parameterised s
unfolding parameterised
parameterised-plain c s h =
    subst (λ o. elim o [ none ↦ parameterised s | some k ↦ true ] ≡ parameterised s) (sym h) refl

parameterised-opens : (c : ℕ) (s : Text) (n : ℕ) → opens c s ≡ some n → parameterised (c ∷ s) ≡ true
unfolding parameterised
parameterised-opens c s n h =
    subst (λ o. elim o [ none ↦ parameterised s | some k ↦ true ] ≡ true) (sym h) refl

replace-nil : (parameterised [] ≡ false) ↔ (replace 0 [] ≡ [])
unfolding parameterised replace
replace-nil = (λ h. refl, λ h. refl)

cons_iff : (c : ℕ) (s t : Text) → (s ≡ t) ↔ (◌≡◌ {A = Text} (c ∷ s) (c ∷ t))
cons_iff c s t = (λ e. ap (◌∷◌ c) e, λ e. cc)

replace_iff : (s : Text) → (parameterised s ≡ false) ↔ (replace 0 s ≡ s)
replace_iff [] = replace-nil
replace_iff (c ∷ s) = elim (Option-cases (opens c s)) [
  | inl plain ↦
      let ih = replace_iff s in
      let k = cons_iff c (replace 0 s) s in
      rw (parameterised-plain c s plain, replace-plain c s plain)
        (λ h. k.0 (ih.0 h), λ e. ih.1 (k.1 e))
  | inr (n, found) ↦
      let brace = opens-c c s n found in
      rw (parameterised-opens c s n found, replace-opens c s n found)
        (λ h. absurd (cc), λ e. let h : star ≡ c = cc in absurd (omega arith))
]

-- A route is shown as one that the rule widens exactly when the rule differs from it.
pub parameterised_iff :
    (documented : Text) → (parameterised documented ≡ false) ↔ (rule_path documented ≡ documented)
unfolding rule_path
parameterised_iff documented = replace_iff documented
