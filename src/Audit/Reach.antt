-- ===== src/Audit/Reach.antt =====
-- What `Branch.Reaches` promises: a rule that permits a call on a branch is never missed.
use mathlib.Core.List.{append_assoc, append-nil}
use keymaker.Prelude.{
  ℕ, suc, ◌-◌, true, false, ◌&&◌, Option, none, some, [], ◌∷◌, ◌++◌, ◌≡◌, ◌≢◌, ◌⊎◌, inl, inr, refl,
  sym, ap, ◌∙◌, arith, nat_equality, list_equality, list_beq_iff, ltb, Bool-cases, Option-cases,
  length, length-append,
}
use keymaker.Text.{Text, take, has_prefix, has_suffix, trim_suffix, index}
use keymaker.Text.Slices.{has_prefix_complete, has_suffix_sound}
use keymaker.Credential.Glob.{Matches, done, same, run}
use keymaker.Audit.Branches.{within, route_reaches, fixed_reaches, path_reaches}

-- A path is the branch or lies under it.
abbrev pub Within : Text → Text → Type 0
Within path branch = (path ≡ branch) ⊎ ((rest : Text) × (path ≡ branch ++ b'/' ∷ rest))

index-star : (c : ℕ) (s : Text) → c ≡ b'*' → index (c ∷ s) (b'*' ∷ []) ≡ some 0
unfolding index
index-star c s e = ground arith

index-other :
    (c : ℕ) (s : Text)
    → c ≢ b'*'
    → index (c ∷ s) (b'*' ∷ []) ≡ elim (index s (b'*' ∷ [])) [ none ↦ none | some n ↦ some (suc n) ]
unfolding index
index-other c s ne = ground arith

-- Without a star a pattern means itself alone; with one, everything it means starts with the part
-- before the first.
Starts : Text → Text → Option ℕ → Type 0
Starts pattern path none = path ≡ pattern
Starts pattern path (some at) = (rest : Text) × (path ≡ take at pattern ++ rest)

Starts-cons :
    (c : ℕ) (pattern rest : Text) {path : Text} (at : Option ℕ)
    → path ≡ c ∷ rest
    → Starts pattern rest at
    → Starts (c ∷ pattern) path (elim at [ none ↦ none | some n ↦ some (suc n) ])
unfolding Starts
Starts-cons c pattern rest none e h = e ∙ ap (◌∷◌ c) h
Starts-cons c pattern rest (some at) e (r, h) = (r, e ∙ ap (◌∷◌ c) h)

Matches-Starts :
    {pattern path : Text} → Matches pattern path → Starts pattern path (index pattern (b'*' ∷ []))
unfolding Starts
Matches-Starts (done e) = unfold index in e
Matches-Starts (same {c} {pattern} rest ne e m) =
    rw (index-other c pattern ne) (Starts-cons c pattern rest _ e (Matches-Starts m))
Matches-Starts (run {c} {pattern} {path} skipped rest e e' m) =
    rw (index-star c pattern e) (path, refl)

-- Two beginnings of one text: one is a beginning of the other.
two_prefixes :
    (a b r t : Text)
    → a ++ r ≡ b ++ t
    → ((w : Text) × (b ≡ a ++ w)) ⊎ ((c : ℕ) × ((w : Text) × (a ≡ b ++ c ∷ w) × (t ≡ c ∷ (w ++ r))))
two_prefixes [] b r t e = inl (b, refl)
two_prefixes (c ∷ a) [] r t e = inr (c, (a, refl, sym e))
two_prefixes (c ∷ a) (d ∷ b) r t e = elim (two_prefixes a b r t (ground arith)) [
  | inl (w, p) ↦ inl (w, ground arith)
  | inr (x, (w, p, q)) ↦ inr (x, (w, ground arith, q))
]

within_of_Within : (path branch : Text) → Within path branch → within path branch ≡ true
unfolding within
within_of_Within path branch (inl e) = ground (arith, list_beq_iff path branch)
within_of_Within path branch (inr (rest, e)) =
    let starts : has_prefix path (branch ++ b'/' ∷ []) ≡ true =
      has_prefix_complete path (branch ++ b'/' ∷ []) rest
        (e ∙ sym (append_assoc branch (b'/' ∷ []) rest)) in
    ground arith

nothing_between :
    (y x w branch : Text) → branch ≡ y ++ x → branch ++ b'/' ∷ w ≡ y ++ b'/' ∷ [] → y ++ x ≡ y
nothing_between y [] w branch p e = append-nil y
nothing_between y (c ∷ x) w branch p e = absurd (
    omega (
      arith,
      ap length p,
      ap length e,
      length-append {0} branch (b'/' ∷ w),
      length-append {0} y (c ∷ x),
      length-append {0} y (b'/' ∷ []),
    ))

-- Cutting one slash off a text under the branch leaves a text under it, or the branch itself.
Within-trim : (branch w : Text) → Within (trim_suffix (branch ++ b'/' ∷ w) (b'/' ∷ [])) branch
unfolding trim_suffix
Within-trim branch w = elim (Bool-cases (has_suffix (branch ++ b'/' ∷ w) (b'/' ∷ []))) [
  | inr stays ↦ rw stays (inr (w, refl))
  | inl cut ↦
      let y : Text = take (length (branch ++ b'/' ∷ w) - 1) (branch ++ b'/' ∷ w) in
      let e : branch ++ b'/' ∷ w ≡ y ++ b'/' ∷ [] =
        has_suffix_sound (branch ++ b'/' ∷ w) (b'/' ∷ []) cut in
      rw cut (elim (two_prefixes y branch (b'/' ∷ []) (b'/' ∷ w) (sym e)) [
        | inl (x, p) ↦ inl (sym (p ∙ nothing_between y x w branch p e))
        | inr (c, (x, p, q)) ↦
            let slash : c ≡ b'/' = ground arith in inr (x, p ∙ ap (λ k. branch ++ k ∷ x) slash)
      ])
]

route_reaches_complete :
    (path branch : Text)
    → (ltb 1 (length path) && has_suffix path (b'/' ∷ [])) ≡ false
    → Within path branch
    → route_reaches path branch ≡ true
unfolding route_reaches
route_reaches_complete path branch open' h = rw open' (within_of_Within path branch h)

fixed_reaches_complete :
    (fixed rest branch : Text) → Within (fixed ++ rest) branch → fixed_reaches fixed branch ≡ true
unfolding fixed_reaches
fixed_reaches_complete fixed rest branch (inl e) =
    let starts = has_prefix_complete branch fixed rest (sym e) in ground arith
fixed_reaches_complete fixed rest branch (inr (t, e)) =
    elim (two_prefixes fixed branch rest (b'/' ∷ t) e) [
      | inl (w, p) ↦ let starts = has_prefix_complete branch fixed w p in ground arith
      | inr (c, (w, p, q)) ↦
          let p' : fixed ≡ branch ++ b'/' ∷ w =
            p ∙ ap (λ k. branch ++ k ∷ w) (let s : c ≡ b'/' = ground arith in s) in
          let under : within (trim_suffix fixed (b'/' ∷ [])) branch ≡ true =
            rw p' (within_of_Within _ branch (Within-trim branch w)) in
          ground arith
    ]

-- A rule path that means a path of the branch reaches the branch. The path is a route, so it does
-- not end in a slash.
pub path_reaches_complete :
    {pattern path : Text} (branch : Text)
    → Matches pattern path
    → Within path branch
    → (ltb 1 (length path) && has_suffix path (b'/' ∷ [])) ≡ false
    → path_reaches pattern branch ≡ true
unfolding path_reaches Starts
path_reaches_complete {pattern} {path} branch m h open' =
    elim (Option-cases (index pattern (b'*' ∷ []))) [
      | inl plain ↦
          let e : path ≡ pattern = rw plain at (Matches-Starts m) in
          rw (plain, path_reaches, ← e) (route_reaches_complete path branch open' h)
      | inr (at, found) ↦
          let (rest, e) = starts_at at found in
          rw (found, path_reaches)
            (fixed_reaches_complete (take at pattern) rest branch (rw e at h))
    ]
  where
    starts_at :
        (at : ℕ)
        → index pattern (b'*' ∷ []) ≡ some at
        → (rest : Text) × (path ≡ take at pattern ++ rest)
    starts_at at found = rw found at (Matches-Starts m)
