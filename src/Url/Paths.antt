-- ===== src/Url/Paths.antt =====
-- net/url: a slash is never made by reading the escapes of a path, but by one that announces it; a
-- path whose escapes read to a text without slashes has none.
use keymaker.Prelude.{
  ℕ, true, false, [], ◌∷◌, ◌++◌, ◌≡◌, refl, ap, sym, ◌∙◌, arith, ◌==◌, nat_equality, Bool-cases,
  inl, inr, ◌⊎◌, eq_of,
}
use keymaker.Text.{Text}
use keymaker.Text.Splitting.{lacks, lacks-append}
use keymaker.Url.{path_unescape}

-- The first slash of a path, and what stands around it.
path_unescape-slash_head : (s : Text) → path_unescape (b'/' ∷ s) ≡ b'/' ∷ path_unescape s
unfolding path_unescape
path_unescape-slash_head [] = refl
path_unescape-slash_head (c ∷ []) = refl
path_unescape-slash_head (c ∷ d ∷ s) = refl

pub path_unescape-plain_head :
    (c : ℕ) (s : Text) → (c == b'%') ≡ false → path_unescape (c ∷ s) ≡ c ∷ path_unescape s
unfolding path_unescape
path_unescape-plain_head c [] h = refl
path_unescape-plain_head c (d ∷ []) h = refl
path_unescape-plain_head c (d ∷ e ∷ s) h = rw h refl

path_unescape-slash :
    (s t : Text) → path_unescape (s ++ (b'/' ∷ t)) ≡ path_unescape s ++ (b'/' ∷ path_unescape t)
unfolding path_unescape
path_unescape-slash [] t = path_unescape-slash_head t
path_unescape-slash (c ∷ []) [] = refl
path_unescape-slash (c ∷ []) (e ∷ t) = ground (arith, path_unescape-slash_head (e ∷ t))
path_unescape-slash (c ∷ d ∷ []) t = ground (arith, path_unescape-slash (d ∷ []) t)
path_unescape-slash (c ∷ d ∷ e ∷ s) t =
    ground (arith, path_unescape-slash s t, path_unescape-slash (d ∷ e ∷ s) t)

slash_cases : (s : Text) → (lacks b'/' s ≡ true) ⊎ ((a : Text) × (b : Text) × (s ≡ a ++ (b'/' ∷ b)))
slash_cases [] = inl refl
slash_cases (c ∷ s) = elim (Bool-cases (c == b'/')) [
  | inl slash ↦ inr ([], s, ap (λ d. d ∷ s) (eq_of c b'/' slash))
  | inr other ↦ elim (slash_cases s) [
    | inl none' ↦ inl (ground arith)
    | inr (a, b, e) ↦ inr (c ∷ a, b, ap (◌∷◌ c) e)
  ]
]

-- What reads to a text without slashes has none.
pub lacks-path_unescape : (s : Text) → lacks b'/' (path_unescape s) ≡ true → lacks b'/' s ≡ true
lacks-path_unescape s h = elim (slash_cases s) [
  | inl none' ↦ none'
  | inr (a, b, e) ↦
      absurd (by (path_unescape a) (path_unescape b) (ap path_unescape e ∙ path_unescape-slash a b))
]
  where
    by : (x y : Text) → path_unescape s ≡ x ++ (b'/' ∷ y) → ⊥
    by x y e =
        let k = lacks-append b'/' x (b'/' ∷ y) in
        let l = sym h ∙ ap (lacks b'/') e ∙ k in ground arith

-- A text without percent signs reads as itself.
pub path_unescape-lacks : (s : Text) → lacks b'%' s ≡ true → path_unescape s ≡ s
path_unescape-lacks [] h = unfold path_unescape in refl
path_unescape-lacks (c ∷ s) h =
    path_unescape-plain_head c s (ground arith) ∙ ap (◌∷◌ c) (path_unescape-lacks s (ground arith))
