-- ===== src/Logging/Absence.antt =====
-- A text in which another one does not occur.
use keymaker.Prelude.{ℕ, true, false, none, [], ◌∷◌, ◌++◌, ◌≡◌, ◌≢◌, ◌↔◌, refl, arith, nat_equality}
use keymaker.Text.Splitting.{lacks}
use keymaker.Text.{Text, has_prefix, index}

-- The text stands at no position.
abbrev pub Absent : Text → Text → Type 0
Absent s [] = has_prefix [] s ≡ false
Absent s (c ∷ t) = (has_prefix (c ∷ t) s ≡ false) × Absent s t

pub Absent_iff : (s t : Text) → (index t s ≡ none) ↔ Absent s t
unfolding index
Absent_iff s [] = ground arith
Absent_iff s (c ∷ t) = ground (arith, Absent_iff s t)

-- A match cannot run past a character that it lacks.
pub has_prefix-lacks :
    (x : Text) (c : ℕ) (w s : Text)
    → lacks c s ≡ true
    → has_prefix (x ++ (c ∷ w)) s ≡ true
    → has_prefix x s ≡ true
unfolding has_prefix
has_prefix-lacks x c w [] l h = refl
has_prefix-lacks [] c w (d ∷ s) l h = absurd (ground arith)
has_prefix-lacks (e ∷ x) c w (d ∷ s) l h = ground (arith, has_prefix-lacks x c w s)

pub has_prefix-first :
    (c : ℕ) (w s : Text) → s ≢ [] → lacks c s ≡ true → has_prefix (c ∷ w) s ≡ false
unfolding has_prefix
has_prefix-first c w [] ne l = absurd (ne refl)
has_prefix-first c w (d ∷ s) ne l = ground arith

pub Absent-append :
    (s x : Text) (c : ℕ) (w : Text)
    → lacks c s ≡ true
    → Absent s x
    → Absent s (c ∷ w)
    → Absent s (x ++ (c ∷ w))
Absent-append s [] c w l a b = b
Absent-append s (d ∷ x) c w l (here, a) b =
    (ground (arith, has_prefix-lacks (d ∷ x) c w s), Absent-append s x c w l a b)
