-- ===== src/Text/Splitting.antt =====
-- Splitting a text at a character: what joined texts come apart into.
use keymaker.Prelude.{
  ℕ, Bool, true, false, not, ◌&&◌, some, List, [], ◌∷◌, ◌++◌, ◌≡◌, ◌≢◌, inl, inr, refl, sym, ap,
  ◌∙◌, arith, ◌==◌, nat_equality, Bool-cases, Option-cases, all, filter, filter-append,
}
use keymaker.Text.{Text, split, onto_first, join, cut}

-- The character is not in the text.
abbrev pub lacks : ℕ → Text → Bool
lacks c s = all (λ d. not (d == c)) s

onto_first-ne-nil : (c : ℕ) (ts : List Text) → onto_first c ts ≢ []
onto_first-ne-nil c [] = λ e. cc
onto_first-ne-nil c (t ∷ ts) = λ e. cc

split-ne-nil : (sep : ℕ) (s : Text) → split sep s ≢ []
unfolding split
split-ne-nil sep [] = λ e. cc
split-ne-nil sep (c ∷ s) = elim (Bool-cases (c == sep)) [
  | inl hit ↦ rw hit (λ e. cc)
  | inr miss ↦ rw miss (onto_first-ne-nil c (split sep s))
]

onto_first-append :
    (c : ℕ) (xs ys : List Text) → xs ≢ [] → onto_first c (xs ++ ys) ≡ onto_first c xs ++ ys
onto_first-append c [] ys ne = absurd (ne refl)
onto_first-append c (x ∷ xs) ys ne = refl

pub split-append : (sep : ℕ) (s t : Text) → split sep (s ++ (sep ∷ t)) ≡ split sep s ++ split sep t
unfolding split
split-append sep [] t = ground arith
split-append sep (c ∷ s) t = elim (Bool-cases (c == sep)) [
  | inl hit ↦ rw hit (ap (◌∷◌ []) (split-append sep s t))
  | inr miss ↦ rw miss (
      ap (onto_first c) (split-append sep s t)
      ∙ onto_first-append c (split sep s) (split sep t) (split-ne-nil sep s))
]

pub split-lacks : (sep : ℕ) (s : Text) → lacks sep s ≡ true → split sep s ≡ s ∷ []
unfolding split
split-lacks sep [] h = refl
split-lacks sep (c ∷ s) h = ground (arith, split-lacks sep s)

-- The pieces of joined texts that a test keeps are the texts that it keeps, if it keeps no empty one.
pub filter-split-join :
    (q : Text → Bool) (sep : ℕ) (ts : List Text)
    → q [] ≡ false
    → all (lacks sep) ts ≡ true
    → filter q (split sep (join ts (sep ∷ []))) ≡ filter q ts
unfolding join
filter-split-join q sep [] e h = ap (filter q) (split-lacks sep [] refl) ∙ rw e refl
filter-split-join q sep (t ∷ []) e h = ap (filter q) (split-lacks sep t (ground arith))
filter-split-join q sep (t ∷ u ∷ ts) e h =
    let rest = split sep (join (u ∷ ts) (sep ∷ [])) in
    ap (filter q) (split-append sep t (join (u ∷ ts) (sep ∷ [])))
    ∙ filter-append q (split sep t) rest
    ∙ ap (λ l. filter q l ++ filter q rest) (split-lacks sep t (ground arith))
    ∙ ap (◌++◌ (filter q (t ∷ []))) (filter-split-join q sep (u ∷ ts) e (ground arith))
    ∙ sym (filter-append q (t ∷ []) (u ∷ ts))

pub cut-append : (c : ℕ) (s t : Text) → lacks c s ≡ true → cut c (s ++ (c ∷ t)) ≡ some (s, t)
unfolding cut
cut-append c [] t h = elim (Option-cases (cut c t)) [
  | inl none' ↦ ground arith
  | inr (r, found) ↦ ground arith
]
cut-append c (d ∷ s) t h = ground (arith, cut-append c s t)

pub lacks-append : (c : ℕ) (s t : Text) → lacks c (s ++ t) ≡ (lacks c s && lacks c t)
lacks-append c [] t = refl
lacks-append c (d ∷ s) t = ground (arith, lacks-append c s t)
