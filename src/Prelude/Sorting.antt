-- ===== src/Prelude/Sorting.antt =====
-- Insertion sort by a test. Where no two elements are equal in the order, every sorting algorithm
-- gives this list.
use Prim.Native.Nat.{suc}
use mathlib.Core.List.Perm
use mathlib.Core.List.{Perm}
use mathlib.Core.Path.{◌≡◌, refl, sym, ap, subst, ◌∙◌}
use mathlib.Core.Logic.{◌⊎◌, inl, inr}
use mathlib.Core.Bool.{Bool, true, false, not, ◌||◌}
use mathlib.Core.List.{List, [], ◌∷◌}
use native.Mathlib.Omega.{arith}
use keymaker.Prelude.Tests.{Bool-cases, if◌then◌else◌}
use keymaker.Prelude.Lists.{In, here, there, any, all, all-any, filter, length}

module _ {ℓ} {A : Type ℓ} (before : A → A → Bool) where
  abbrev pub insert : A → List A → List A
  insert x [] = x ∷ []
  insert x (y ∷ ys) = let rest = insert x ys in if before y x then y ∷ rest else x ∷ y ∷ ys

  abbrev pub sort : List A → List A
  sort [] = []
  sort (x ∷ xs) = insert x (sort xs)

  pub any-insert : (q : A → Bool) (x : A) (xs : List A) → any q (insert x xs) ≡ (q x || any q xs)
  any-insert q x [] = refl
  any-insert q x (y ∷ ys) = elim (Bool-cases (before y x)) [
    | inl earlier ↦ rw earlier (ground (arith, any-insert q x ys))
    | inr later ↦ rw later refl
  ]

  pub any-sort : (q : A → Bool) (xs : List A) → any q (sort xs) ≡ any q xs
  any-sort q [] = refl
  any-sort q (x ∷ xs) = any-insert q x (sort xs) ∙ ap (λ b. q x || b) (any-sort q xs)

  pub all-sort : (q : A → Bool) (xs : List A) → all q (sort xs) ≡ all q xs
  all-sort q xs = all-any q (sort xs) ∙ ap not (any-sort (λ x. not (q x)) xs) ∙ sym (all-any q xs)

  length-insert : (x : A) (xs : List A) → length (insert x xs) ≡ suc (length xs)
  length-insert x [] = refl
  length-insert x (y ∷ ys) = elim (Bool-cases (before y x)) [
    | inl earlier ↦ rw earlier (ap suc (length-insert x ys))
    | inr later ↦ rw later refl
  ]

  pub length-sort : (xs : List A) → length (sort xs) ≡ length xs
  length-sort [] = refl
  length-sort (x ∷ xs) = length-insert x (sort xs) ∙ ap suc (length-sort xs)

  length-filter-insert :
      (q : A → Bool) (x : A) (xs : List A)
      → length (filter q (insert x xs)) ≡ length (filter q (x ∷ xs))
  length-filter-insert q x [] = refl
  length-filter-insert q x (y ∷ ys) = elim (Bool-cases (before y x)) [
    | inl earlier ↦ rw earlier (ground (arith, length-filter-insert q x ys))
    | inr later ↦ rw later refl
  ]

  pub length-filter-sort :
      (q : A → Bool) (xs : List A) → length (filter q (sort xs)) ≡ length (filter q xs)
  length-filter-sort q [] = refl
  length-filter-sort q (x ∷ xs) =
      length-filter-insert q x (sort xs) ∙ ground (arith, length-filter-sort q xs)

  insert-perm : (x : A) (xs : List A) → Perm (insert x xs) (x ∷ xs)
  insert-perm x [] = Perm.refl (x ∷ [])
  insert-perm x (y ∷ ys) = elim (Bool-cases (before y x)) [
    | inl earlier ↦ rw earlier (Perm.trans (Perm.cons y (insert-perm x ys)) (Perm.swap x y ys))
    | inr later ↦ rw later (Perm.refl (x ∷ y ∷ ys))
  ]

  pub sort-perm : (xs : List A) → Perm (sort xs) xs
  sort-perm [] = Perm.refl []
  sort-perm (x ∷ xs) = Perm.trans (insert-perm x (sort xs)) (Perm.cons x (sort-perm xs))

  -- Each element may stand before the next one.
  abbrev pub IsSorted : List A → Type 0
  IsSorted [] = Unit
  IsSorted (x ∷ []) = Unit
  IsSorted (x ∷ y ∷ ys) = (before x y ≡ true) × IsSorted (y ∷ ys)

  IsSorted-cons_if :
      (b : Bool) (y z x : A) (zs us : List A)
      → before y z ≡ true
      → before y x ≡ true
      → IsSorted (if b then z ∷ zs else x ∷ us)
      → IsSorted (y ∷ (if b then z ∷ zs else x ∷ us))
  IsSorted-cons_if true y z x zs us h e s = (h, s)
  IsSorted-cons_if false y z x zs us h e s = (e, s)

  module _ (total : (x y : A) → before y x ≡ false → before x y ≡ true) where
    insert-IsSorted : (x : A) (xs : List A) → IsSorted xs → IsSorted (insert x xs)
    insert-IsSorted x [] s = tt
    insert-IsSorted x (y ∷ []) s = elim (Bool-cases (before y x)) [
      | inl earlier ↦ rw earlier (earlier, tt)
      | inr later ↦ rw later (total x y later, tt)
    ]
    insert-IsSorted x (y ∷ z ∷ zs) (h, s) = elim (Bool-cases (before y x)) [
      | inl earlier ↦ rw earlier (
          IsSorted-cons_if (before z x) y z x (insert x zs) (z ∷ zs) h earlier
            (insert-IsSorted x (z ∷ zs) s))
      | inr later ↦ rw later (total x y later, (h, s))
    ]

    pub sort-IsSorted : (xs : List A) → IsSorted (sort xs)
    sort-IsSorted [] = tt
    sort-IsSorted (x ∷ xs) = insert-IsSorted x (sort xs) (sort-IsSorted xs)

  In-insert : {a : A} (x : A) (xs : List A) → In a (insert x xs) → (a ≡ x) ⊎ In a xs
  In-insert x [] (here e) = inl e
  In-insert x [] (there m) = inr m
  In-insert {a} x (y ∷ ys) m = elim (Bool-cases (before y x)) [
    | inl earlier ↦ elim (subst (λ b. In a (if b then y ∷ insert x ys else x ∷ y ∷ ys)) earlier m) [
      | here e ↦ inr (here e)
      | there m' ↦ elim (In-insert x ys m') [ inl e ↦ inl e | inr k ↦ inr (there k) ]
    ]
    | inr later ↦ elim (subst (λ b. In a (if b then y ∷ insert x ys else x ∷ y ∷ ys)) later m) [
      | here e ↦ inl e
      | there m' ↦ inr m'
    ]
  ]

  pub In-sort : {a : A} (xs : List A) → In a (sort xs) → In a xs
  In-sort [] m = m
  In-sort (x ∷ xs) m = elim (In-insert x (sort xs) m) [
    | inl e ↦ here e
    | inr k ↦ there (In-sort xs k)
  ]

  -- Each element may stand before every later one.
  abbrev pub IsOrdered : List A → Type ℓ
  IsOrdered [] = Unit
  IsOrdered (x ∷ xs) = ((y : A) → In y xs → before x y ≡ true) × IsOrdered xs

  module _
      (transitive : (x y z : A) → before x y ≡ true → before y z ≡ true → before x z ≡ true) where
    IsSorted-In : (x y : A) (xs : List A) → IsSorted (x ∷ xs) → In y xs → before x y ≡ true
    IsSorted-In x y [] s m = elim m [ ]
    IsSorted-In x y (z ∷ zs) (h, s) (here e) = subst (λ w. before x w ≡ true) (sym e) h
    IsSorted-In x y (z ∷ zs) (h, s) (there m) = transitive x z y h (IsSorted-In z y zs s m)

    pub IsSorted-IsOrdered : (xs : List A) → IsSorted xs → IsOrdered xs
    IsSorted-IsOrdered [] s = tt
    IsSorted-IsOrdered (x ∷ []) s = ((λ y m. elim m [ ]), tt)
    IsSorted-IsOrdered (x ∷ y ∷ ys) (h, s) =
        ((λ z m. IsSorted-In x z (y ∷ ys) (h, s) m), IsSorted-IsOrdered (y ∷ ys) s)
