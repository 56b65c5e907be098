-- ===== src/Config/Sections.antt =====
-- internal/config/load.go: the sections met while the file is read.
use keymaker.Prelude.{
  ℕ, suc, Bool, true, false, not, ◌||◌, Option, none, some, ◌⊎◌, subst, List, [], ◌∷◌, ◌++◌, ◌-◌,
  map, if◌then◌else◌, ◌≡◌, ◌≢◌, refl, ap, ◌∙◌, arith, inl, inr, ◌==◌, nat_equality, list_equality,
  any-append, Bool-cases, ne_of, test_sym, length,
}
use keymaker.Text.{cut, take, drop, has_suffix, Text, text, trim_space, has_prefix}
use keymaker.Config.{
  Section, Scan, ConfigError, Parsed, parsed, failed, known, open_section, assign_in, read_header,
  read_cut, read_pair, read_line, read_lines,
}

-- No name stands twice, and none is empty.
abbrev pub IsDistinct : List Section → Type 0
IsDistinct [] = Unit
IsDistinct (s ∷ sections) = (known s.name sections ≡ false) × (s.name ≢ []) × IsDistinct sections

known-append :
    (name : Text) (sections : List Section) (s : Section)
    → known name (sections ++ (s ∷ [])) ≡ (known name sections || s.name == name)
unfolding known
known-append name sections s = any-append (λ t. t.name == name) sections (s ∷ []) ∙ ground arith

IsDistinct-append :
    (sections : List Section) (s : Section)
    → IsDistinct sections
    → known s.name sections ≡ false
    → s.name ≢ []
    → IsDistinct (sections ++ (s ∷ []))
unfolding known
IsDistinct-append [] s d new ne = (refl, ne, tt)
IsDistinct-append (t ∷ sections) s (fresh, filled, d) new ne = (
  known-append t.name sections s ∙ ground (arith, test_sym s.name t.name),
  filled,
  IsDistinct-append sections s d (ground arith) ne,
)

known-map :
    (name current key value : Text) (sections : List Section)
    → known name (map (assign_in current key value) sections) ≡ known name sections
unfolding known
known-map name current key value [] = refl
known-map name current key value (s ∷ sections) =
    ap (λ b. s.name == name || b) (known-map name current key value sections)

IsDistinct-map :
    (current key value : Text) (sections : List Section)
    → IsDistinct sections
    → IsDistinct (map (assign_in current key value) sections)
IsDistinct-map current key value [] d = tt
IsDistinct-map current key value (s ∷ sections) (fresh, filled, d) = (
  known-map s.name current key value sections ∙ fresh,
  filled,
  IsDistinct-map current key value sections d,
)

IsDistinct-open_section :
    (name : Text) (sections : List Section)
    → IsDistinct sections
    → name ≢ []
    → IsDistinct (open_section name sections)
unfolding open_section
IsDistinct-open_section name sections d ne = elim (Bool-cases (known name sections)) [
  | inl met ↦ rw met d
  | inr new ↦ rw new (IsDistinct-append sections (record { name = name; pairs = [] }) d new ne)
]

-- A line that is read keeps the names of the sections distinct.
abbrev Keeps : Parsed Scan → Type 0
Keeps (failed e) = Unit
Keeps (parsed scan) = IsDistinct scan.sections

Keeps-if :
    (b : Bool) (m n : Parsed Scan)
    → (b ≡ true → Keeps m)
    → (b ≡ false → Keeps n)
    → Keeps (if b then m else n)
Keeps-if true m n km kn = km refl
Keeps-if false m n km kn = kn refl

read_header-Keeps :
    (line : ℕ) (header : Text) (scan : Scan)
    → IsDistinct scan.sections
    → Keeps (read_header line header scan)
unfolding read_header
read_header-Keeps line header scan d =
    let name = trim_space (take (length header - 2) (drop 1 header)) in
    Keeps-if (not (has_suffix header (text "]"))) _ _ (λ open_header. tt)
      (λ closed.
        Keeps-if (name == []) _ _ (λ empty. tt)
          (λ filled. IsDistinct-open_section name scan.sections d (ne_of name [] filled)))

read_cut-Keeps :
    (line : ℕ) (pair : Option (Text × Text)) (scan : Scan)
    → IsDistinct scan.sections
    → Keeps (read_cut line scan pair)
unfolding read_cut
read_cut-Keeps line none scan d = tt
read_cut-Keeps line (some (key, value)) scan d =
    Keeps-if (scan.current == []) _ _ (λ outside. tt)
      (λ inside. IsDistinct-map scan.current (trim_space key) (trim_space value) scan.sections d)

read_pair-Keeps :
    (line : ℕ) (entry : Text) (scan : Scan)
    → IsDistinct scan.sections
    → Keeps (read_pair line entry scan)
unfolding read_pair
read_pair-Keeps line entry scan d = read_cut-Keeps line (cut b'=' entry) scan d

read_line-Keeps :
    (line : ℕ) (raw : Text) (scan : Scan)
    → IsDistinct scan.sections
    → Keeps (read_line line raw scan)
unfolding read_line
read_line-Keeps line raw scan d =
    let entry = trim_space raw in
    Keeps-if (entry == [] || has_prefix entry (text ";") || has_prefix entry (text "#")) _ _
      (λ skipped. d)
      (λ kept.
        Keeps-if (has_prefix entry (text "[")) _ _ (λ h. read_header-Keeps line entry scan d)
          (λ p. read_pair-Keeps line entry scan d))

pub Parsed-cases {ℓ} :
    {A : Type ℓ} (r : Parsed A) → ((e : ConfigError) × (r ≡ failed e)) ⊎ ((a : A) × (r ≡ parsed a))
Parsed-cases (failed e) = inl (e, refl)
Parsed-cases (parsed a) = inr (a, refl)

pub read_lines-IsDistinct :
    (line : ℕ) (lines : List Text) (scan end : Scan)
    → IsDistinct scan.sections
    → read_lines line lines scan ≡ parsed end
    → IsDistinct end.sections
unfolding read_lines
read_lines-IsDistinct line [] scan end d h =
    let e : scan ≡ end = cc in subst (λ x. IsDistinct x.sections) e d
read_lines-IsDistinct line (raw ∷ more) scan end d h =
    elim (Parsed-cases (read_line line raw scan)) [
      | inl (e, stopped) ↦ absurd (ground arith)
      | inr (next, went) ↦
          read_lines-IsDistinct (suc line) more next end
            (subst Keeps went (read_line-Keeps line raw scan d)) (ground arith)
    ]
