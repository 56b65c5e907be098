-- ===== src/Credential/Matching.antt =====
-- `matchPath` decides the meaning of a rule path.
use mathlib.Core.List.{append_assoc}
use keymaker.Prelude.{
  ℕ, ◌+◌, ◌-◌, true, some, List, [], ◌∷◌, ◌++◌, ◌≡◌, ◌≢◌, ◌↔◌, refl, sym, ap, ◌∙◌, inl, inr, arith,
  ◌==◌, nat_equality, list_beq_iff, Bool-cases, eq_of, ne_of, Option-cases, length,
}
use keymaker.Text.{Text, take, drop, has_prefix, index, split, onto_first}
use keymaker.Text.Slices.{
  drop-append, has_prefix_sound, has_prefix-append, has_suffix_sound, has_suffix-append,
  index_sound, index_complete,
}
use keymaker.Credential.Glob.{Matches, done, same, run, Whole, only, more, After}
use keymaker.Credential.{match_rest, match_segments, match_path}

split-star : (c : ℕ) (s : Text) → c ≡ b'*' → split b'*' (c ∷ s) ≡ [] ∷ split b'*' s
unfolding split
split-star c s e = ground arith

split-other : (c : ℕ) (s : Text) → c ≢ b'*' → split b'*' (c ∷ s) ≡ onto_first c (split b'*' s)
unfolding split
split-other c s e = ground arith

onto_first-ne-nil : (c : ℕ) (ts : List Text) → onto_first c ts ≢ []
onto_first-ne-nil c [] = λ e. cc
onto_first-ne-nil c (t ∷ ts) = λ e. cc

split-ne-nil : (s : Text) → split b'*' s ≢ []
unfolding split
split-ne-nil [] = λ e. cc
split-ne-nil (c ∷ s) = elim (Bool-cases (c == b'*')) [
  | inl hit ↦ rw hit (λ e. cc)
  | inr miss ↦ rw miss (onto_first-ne-nil c (split b'*' s))
]

Whole-onto_first :
    (c : ℕ) {segments : List Text} {path : Text}
    → Whole segments path
    → Whole (onto_first c segments) (c ∷ path)
Whole-onto_first c (only e) = only (ap (◌∷◌ c) e)
Whole-onto_first c (more u w e h) = more u w (ap (◌∷◌ c) e) h

Whole-onto_first_inv :
    (c : ℕ) (segments : List Text) {path : Text}
    → segments ≢ []
    → Whole (onto_first c segments) path
    → (rest : Text) × (path ≡ c ∷ rest) × Whole segments rest
Whole-onto_first_inv c [] ne h = absurd (ne refl)
Whole-onto_first_inv c (s ∷ []) ne (only e) = (s, e, only refl)
Whole-onto_first_inv c (s ∷ more') ne (more u w e h) = (s ++ (u ++ w), e, more u w refl h)

Whole-star_inv :
    {segments : List Text} {path : Text}
    → segments ≢ []
    → Whole ([] ∷ segments) path
    → After segments path
Whole-star_inv ne (only e) = absurd (ne refl)
Whole-star_inv ne (more u w e h) = (u, (w, e, h))

Whole-nil : {path : Text} → Whole ([] ∷ []) path → Matches [] path
Whole-nil (only e) = done e
Whole-nil (more u w e h) = elim h [ ]

Whole-split : {pattern path : Text} → Matches pattern path → Whole (split b'*' pattern) path
Whole-split (done e) = unfold split in only e
Whole-split (same {c} {pattern} rest ne e m) =
    rw (e, split-other c pattern ne) (Whole-onto_first c (Whole-split m))
Whole-split (run {c} {pattern} skipped rest e e' m) =
    rw (split-star c pattern e) (more skipped rest e' (Whole-split m))

Matches-split :
    (pattern : Text) {path : Text} → Whole (split b'*' pattern) path → Matches pattern path
Matches-split [] h = unfold split in Whole-nil h
Matches-split (c ∷ pattern) h = elim (Bool-cases (c == b'*')) [
  | inl hit ↦
      let star : c ≡ b'*' = eq_of c b'*' hit in
      let (u, (w, e, t)) =
        Whole-star_inv (split-ne-nil pattern) (rw (split-star c pattern star) at h) in
      run u w star e (Matches-split pattern t)
  | inr miss ↦
      let other : c ≢ b'*' = ne_of c b'*' miss in
      let (t, e, k) =
        Whole-onto_first_inv c (split b'*' pattern) (split-ne-nil pattern)
          (rw (split-other c pattern other) at h) in
      same t other e (Matches-split pattern k)
]

match_rest_sound :
    (segments : List Text) (path : Text)
    → segments ≢ []
    → match_rest segments path ≡ true
    → After segments path
unfolding match_rest
match_rest_sound [] path ne h = absurd (ne refl)
match_rest_sound (last ∷ []) path ne h =
    (take (length path - length last) path, (last, has_suffix_sound path last h, only refl))
match_rest_sound (segment ∷ next ∷ rest) path ne h = elim (Option-cases (index path segment)) [
  | inl missing ↦ absurd (ground arith)
  | inr (i, found) ↦
      let (u, e) = index_sound path segment i found in
      let (x, (y, e', t)) =
        match_rest_sound (next ∷ rest) (drop (i + length segment) path) (λ q. cc) (ground arith) in
      (u, (segment ++ drop (i + length segment) path, e, more x y (ap (◌++◌ segment) e') t))
]

match_rest_complete :
    (segments : List Text) (u w : Text) → Whole segments w → match_rest segments (u ++ w) ≡ true
unfolding match_rest
match_rest_complete [] u w h = refl
match_rest_complete (last ∷ []) u w (only e) = rw e (has_suffix-append u last)
match_rest_complete (last ∷ []) u w (more x y e h) = elim h [ ]
match_rest_complete (segment ∷ next ∷ rest) u w (more x y e h) =
    let (i, found, (v, e')) = index_complete u segment (x ++ y) in
    let after : drop (i + length segment) (u ++ w) ≡ (v ++ x) ++ y =
      rw e (e' ∙ sym (append_assoc v x y)) in
    let found' : index (u ++ w) segment ≡ some i = rw e found in
    rw (found', match_rest) (rw after (match_rest_complete (next ∷ rest) (v ++ x) y h))

onto_first-single :
    (c : ℕ) (ts : List Text) (t : Text)
    → ts ≢ []
    → onto_first c ts ≡ t ∷ []
    → (t' : Text) × (ts ≡ t' ∷ []) × (c ∷ t' ≡ t)
onto_first-single c [] t ne e = absurd (ne refl)
onto_first-single c (t' ∷ []) t ne e = (t', refl, ground arith)
onto_first-single c (t' ∷ x ∷ ts) t ne e = absurd (ground arith)

-- A pattern with no star is its own single segment.
split-single : (s t : Text) → split b'*' s ≡ t ∷ [] → t ≡ s
split-single [] t e = unfold split in ground arith
split-single (c ∷ s) t e = elim (Bool-cases (c == b'*')) [
  | inl hit ↦ absurd (split-ne-nil s (ground (arith, split-star c s (eq_of c b'*' hit))))
  | inr miss ↦
      let (t', e', e'') =
        onto_first-single c (split b'*' s) t (split-ne-nil s)
          (rw (split-other c s (ne_of c b'*' miss)) at e) in
      sym e'' ∙ ap (◌∷◌ c) (split-single s t' e')
]

module _ (pattern path : Text) where
  match_segments_sound :
      (segments : List Text)
      → segments ≢ []
      → ((t : Text) → segments ≡ t ∷ [] → t ≡ pattern)
      → match_segments segments pattern path ≡ true
      → Whole segments path
  unfolding match_segments
  match_segments_sound [] ne single h = absurd (ne refl)
  match_segments_sound (first ∷ []) ne single h =
      only (sym (single first refl ∙ (list_beq_iff pattern path).0 h))
  match_segments_sound (first ∷ next ∷ rest) ne single h =
      let starts : has_prefix path first ≡ true = ground arith in
      let (u, (w, e, t)) =
        match_rest_sound (next ∷ rest) (drop (length first) path) (λ q. cc) (ground arith) in
      more u w (has_prefix_sound path first starts ∙ ap (◌++◌ first) e) t

  match_segments_complete :
      (segments : List Text)
      → ((t : Text) → segments ≡ t ∷ [] → t ≡ pattern)
      → Whole segments path
      → match_segments segments pattern path ≡ true
  unfolding match_segments
  match_segments_complete [] single h = refl
  match_segments_complete (first ∷ []) single (only e) =
      (list_beq_iff pattern path).1 (sym (e ∙ single first refl))
  match_segments_complete (first ∷ []) single (more u w e h) = elim h [ ]
  match_segments_complete (first ∷ next ∷ rest) single (more u w e h) =
      rw (e, has_prefix-append first (u ++ w), drop-append first (u ++ w))
        (match_rest_complete (next ∷ rest) u w h)

-- `matchPath` says yes exactly when the pattern means the path: the leftmost search for each
-- segment loses no match.
pub match_path_iff : (pattern path : Text) → (match_path pattern path ≡ true) ↔ Matches pattern path
unfolding match_path
match_path_iff pattern path = (
  λ h. Matches-split pattern (
      match_segments_sound pattern path (split b'*' pattern) (split-ne-nil pattern)
        (split-single pattern) h),
  λ m.
      match_segments_complete pattern path (split b'*' pattern) (split-single pattern)
        (Whole-split m),
)
