-- ===== src/Text/Slices.antt =====
-- Prefixes, suffixes and positions: what the tests and searches of `Text` answer.
use mathlib.Core.List.{append_assoc}
use keymaker.Prelude.{
  ℕ, zero, suc, ◌+◌, ◌-◌, ◌≤◌, true, some, List, [], ◌∷◌, ◌++◌, ◌≡◌, refl, sym, ap, ◌∙◌, inl, inr,
  arith, leb, nat_equality, list_equality, list_beq_iff, Bool-cases, Option-cases, length,
  length-append,
}
use keymaker.Text.{Text, take, drop, has_prefix, has_suffix, index}

module _ {ℓ} {A : Type ℓ} where
  pub drop-append : (xs ys : List A) → drop (length xs) (xs ++ ys) ≡ ys
  drop-append [] ys = refl
  drop-append (x ∷ xs) ys = drop-append xs ys

  pub drop-append_le :
      (n : ℕ) (xs ys : List A) → n ≤ length xs → drop n (xs ++ ys) ≡ drop n xs ++ ys
  drop-append_le zero xs ys h = refl
  drop-append_le (suc n) [] ys h = absurd (omega arith)
  drop-append_le (suc n) (x ∷ xs) ys h = drop-append_le n xs ys (omega arith)

  pub drop-add : (m n : ℕ) (xs : List A) → drop (m + n) xs ≡ drop n (drop m xs)
  drop-add zero n xs = ap (λ k. drop k xs) (omega arith)
  drop-add (suc m) zero [] = ap (λ k. drop k []) (let e : suc m + zero ≡ suc m = omega arith in e)
  drop-add (suc m) (suc n) [] =
      ap (λ k. drop k []) (let e : suc m + suc n ≡ suc (m + suc n) = omega arith in e)
  drop-add (suc m) n (x ∷ xs) =
      ap (λ k. drop k (x ∷ xs)) (let e : suc m + n ≡ suc (m + n) = omega arith in e)
      ∙ drop-add m n xs

  pub take-append-drop : (n : ℕ) (xs : List A) → take n xs ++ drop n xs ≡ xs
  take-append-drop zero xs = refl
  take-append-drop (suc n) [] = refl
  take-append-drop (suc n) (x ∷ xs) = ap (◌∷◌ x) (take-append-drop n xs)

  pub take-append : (xs ys : List A) → take (length xs) (xs ++ ys) ≡ xs
  take-append [] ys = refl
  take-append (x ∷ xs) ys = ap (◌∷◌ x) (take-append xs ys)

-- `HasPrefix` answers yes exactly when the text goes on from the prefix.
pub has_prefix_sound : (s p : Text) → has_prefix s p ≡ true → s ≡ p ++ drop (length p) s
unfolding has_prefix
has_prefix_sound s [] h = refl
has_prefix_sound [] (c ∷ p) h = cc
has_prefix_sound (d ∷ s) (c ∷ p) h = ground (arith, has_prefix_sound s p)

pub has_prefix-append : (p s : Text) → has_prefix (p ++ s) p ≡ true
unfolding has_prefix
has_prefix-append [] s = refl
has_prefix-append (c ∷ p) s = ground (arith, has_prefix-append p s)

pub has_prefix_complete : (s p v : Text) → s ≡ p ++ v → has_prefix s p ≡ true
has_prefix_complete s p v e = rw e (has_prefix-append p v)

pub has_suffix-append : (u p : Text) → has_suffix (u ++ p) p ≡ true
unfolding has_suffix
has_suffix-append u p =
    let e : length (u ++ p) - length p ≡ length u = omega (arith, length-append {0} u p) in
    let l : leb (length p) (length (u ++ p)) ≡ true = ground (arith, length-append u p) in
    rw (l, e, drop-append u p) ((list_beq_iff p p).1 refl)

pub has_suffix_sound : (s p : Text) → has_suffix s p ≡ true → s ≡ take (length s - length p) s ++ p
unfolding has_suffix
has_suffix_sound s p h =
    let e : drop (length s - length p) s ≡ p =
      ground (arith, list_beq_iff (drop (length s - length p) s) p) in
    sym (take-append-drop (length s - length p) s) ∙ ap (◌++◌ (take (length s - length p) s)) e

has_prefix-drop : (s p : Text) → has_prefix s p ≡ true → s ≡ p ++ drop (0 + length p) s
has_prefix-drop s p h = has_prefix_sound s p h ∙ ap (λ k. p ++ drop k s) (omega arith)

index_of_prefix : (s p : Text) → has_prefix s p ≡ true → index s p ≡ some 0
unfolding index
index_of_prefix [] p h = rw h
index_of_prefix (c ∷ s) p h = rw h

-- A position found splits the text there.
pub index_sound :
    (s p : Text) (i : ℕ) → index s p ≡ some i → (u : Text) × (s ≡ u ++ (p ++ drop (i + length p) s))
unfolding index
index_sound [] p i h = elim (Bool-cases (has_prefix [] p)) [
  | inl yes' ↦ let e : 0 ≡ i = ground arith in ([], rw (← e) (has_prefix-drop [] p yes'))
  | inr no' ↦ ([], absurd (ground arith))
]
index_sound (c ∷ s) p i h = elim (Bool-cases (has_prefix (c ∷ s) p)) [
  | inl yes' ↦ let e : 0 ≡ i = ground arith in ([], rw (← e) (has_prefix-drop (c ∷ s) p yes'))
  | inr no' ↦ elim (Option-cases (index s p)) [
    | inl none' ↦ ([], absurd (ground arith))
    | inr (j, found) ↦
        let (u, e) = index_sound s p j found in
        let k : i + length p ≡ suc (j + length p) = ground arith in (c ∷ u, rw k (ap (◌∷◌ c) e))
  ]
]

drop_past :
    (c : ℕ) (u p v : Text)
    → drop (0 + length p) (c ∷ (u ++ (p ++ v))) ≡ drop (length p) (c ∷ (u ++ p)) ++ v
drop_past c u p v =
    drop-add 0 (length p) (c ∷ (u ++ (p ++ v)))
    ∙ ap (λ t. drop (length p) (c ∷ t)) (sym (append_assoc u p v))
    ∙ drop-append_le (length p) (c ∷ (u ++ p)) v (omega (arith, length-append {0} u p))

-- Wherever the text holds the piece, the search finds a place that is no later, so that what
-- follows the place found ends in what follows the piece.
pub index_complete :
    (u p v : Text)
    → (i : ℕ) × (index (u ++ (p ++ v)) p ≡ some i)
      × ((w : Text) × (drop (i + length p) (u ++ (p ++ v)) ≡ w ++ v))
unfolding index
index_complete [] p v = (
  0,
  index_of_prefix (p ++ v) p (has_prefix-append p v),
  ([], drop-add 0 (length p) (p ++ v) ∙ drop-append p v),
)
index_complete (c ∷ u) p v = elim (Bool-cases (has_prefix (c ∷ (u ++ (p ++ v))) p)) [
  | inl yes' ↦ (0, rw yes', (drop (length p) ((c ∷ u) ++ p), drop_past c u p v))
  | inr no' ↦
      let (j, found, (w, e)) = index_complete u p v in
      let k : suc j + length p ≡ suc (j + length p) = omega arith in
      (suc j, rw (no', found), (w, rw k e))
]
