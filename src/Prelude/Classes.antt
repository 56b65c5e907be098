-- ===== src/Prelude/Classes.antt =====
-- Equality tests as an interface: one operator for every type that has an instance.
use Prim.Native.Nat.{ℕ}
use mathlib.Core.Path.{◌≡◌, refl, sym}
use mathlib.Core.Logic.{◌↔◌, ◌≢◌}
use mathlib.Core.Bool.{Bool, true, false, ◌&&◌}
use mathlib.Core.List.{List, [], ◌∷◌}
use native.Mathlib.Omega.{arith}
use keymaker.Prelude.Tests.{nat_beq, nat_beq_iff, eq_of_iff}

-- A test that reflects equality.
pub record Equality {ℓ} (A : Type ℓ) : Type ℓ where
  pub test : A → A → Bool
  pub reflects : (x y : A) → (test x y ≡ true) ↔ (x ≡ y)

instance abbrev pub nat_equality : Equality ℕ
nat_equality = record { test = nat_beq; reflects = nat_beq_iff }

abbrev pub ◌==◌ {ℓ} : {A : Type ℓ} ⦃d : Equality A⦄ → A → A → Bool
◌==◌ ⦃d⦄ x y = d.test x y

infix 50 ◌==◌
module _ {ℓ} {A : Type ℓ} ⦃e : Equality A⦄ where
  pub eq_of : (a b : A) → (a == b) ≡ true → a ≡ b
  eq_of a b h = (e.reflects a b).0 h

  pub eq_self : (a : A) → (a == a) ≡ true
  eq_self a = (e.reflects a a).1 refl

  pub ne_of : (a b : A) → (a == b) ≡ false → a ≢ b
  ne_of a b h p = cc ((e.reflects a b).1 p)

  pub beq_of_ne : (a b : A) → a ≢ b → (a == b) ≡ false
  beq_of_ne a b h = ground (arith, e.reflects a b)

  pub test_sym : (a b : A) → (a == b) ≡ (b == a)
  test_sym a b =
      eq_of_iff (a == b) (b == a)
        (λ h. (e.reflects b a).1 (sym (eq_of a b h)), λ h. (e.reflects a b).1 (sym (eq_of b a h)))

  abbrev pub list_beq : List A → List A → Bool
  list_beq [] [] = true
  list_beq (x ∷ xs) (y ∷ ys) = x == y && list_beq xs ys
  list_beq _ _ = false

  pub list_beq_iff : (xs ys : List A) → (list_beq xs ys ≡ true) ↔ (xs ≡ ys)
  list_beq_iff [] [] = ground arith
  list_beq_iff [] (y ∷ ys) = ground arith
  list_beq_iff (x ∷ xs) [] = ground arith
  list_beq_iff (x ∷ xs) (y ∷ ys) = ground (arith, e.reflects x y, list_beq_iff xs ys)

  instance abbrev pub list_equality : Equality (List A)
  list_equality = record { test = list_beq; reflects = list_beq_iff }
