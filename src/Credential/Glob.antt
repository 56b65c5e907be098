-- ===== src/Credential/Glob.antt =====
-- What a rule path means, independently of the code: `*` stands for any run of characters,
-- separators included, and every other character for itself.
use keymaker.Prelude.{ℕ, List, [], ◌∷◌, ◌++◌, ◌≡◌, ◌≢◌}
use keymaker.Text.{Text}

pub data Matches : Text → Text → Type 0 where
  done : {path : Text} → path ≡ [] → Matches [] path
  same :
      {c : ℕ} {pattern path : Text} (rest : Text)
      → c ≢ b'*'
      → path ≡ c ∷ rest
      → Matches pattern rest
      → Matches (c ∷ pattern) path
  run :
      {c : ℕ} {pattern path : Text} (skipped rest : Text)
      → c ≡ b'*'
      → path ≡ skipped ++ rest
      → Matches pattern rest
      → Matches (c ∷ pattern) path

-- The same, read off the segments between the stars.
pub data Whole : List Text → Text → Type 0 where
  only : {segment path : Text} → path ≡ segment → Whole (segment ∷ []) path
  more :
      {segment path : Text} {segments : List Text} (skipped rest : Text)
      → path ≡ segment ++ (skipped ++ rest)
      → Whole segments rest
      → Whole (segment ∷ segments) path

-- The segments follow a star.
abbrev pub After : List Text → Text → Type 0
After segments path =
    (skipped : Text) × ((rest : Text) × (path ≡ skipped ++ rest) × Whole segments rest)
