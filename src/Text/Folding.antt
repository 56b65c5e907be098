-- ===== src/Text/Folding.antt =====
-- Case folding: texts that fold to the same text are equal but for case.
use keymaker.Prelude.{true, [], ◌∷◌, ◌≡◌, ◌↔◌, sym, ◌∙◌, map, arith, nat_equality, nat_beq_iff}
use keymaker.Text.{Text, fold, equal_fold}

pub equal_fold_iff : (s t : Text) → (equal_fold s t ≡ true) ↔ (map fold s ≡ map fold t)
unfolding equal_fold
equal_fold_iff [] [] = ground arith
equal_fold_iff [] (d ∷ t) = ground arith
equal_fold_iff (c ∷ s) [] = ground arith
equal_fold_iff (c ∷ s) (d ∷ t) = ground (arith, nat_beq_iff (fold c) (fold d), equal_fold_iff s t)

pub equal_fold_trans :
    (s t u : Text) → equal_fold s t ≡ true → equal_fold u t ≡ true → equal_fold s u ≡ true
equal_fold_trans s t u h k =
    (equal_fold_iff s u).1 ((equal_fold_iff s t).0 h ∙ sym ((equal_fold_iff u t).0 k))
