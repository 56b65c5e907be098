-- ===== src/Http/Entries/Restriction.antt =====
-- internal/httpapi/addresses.go: what a list that is accepted holds.
use keymaker.Prelude.{some, List, ◌≡◌, ◌≢◌, ◌⊎◌, ◌↔◌, nat_equality, In}
use keymaker.Text.{Text}
use keymaker.Netip.{IpPrefix, Parsing}
use keymaker.Http.Entries.{read_address}

module _ (parsing : Parsing) where
  -- An entry of the list reads as the block.
  abbrev pub ReadsAs : List Text → IpPrefix → Type 0
  ReadsAs entries p = (entry : Text) × In entry entries × (read_address parsing entry ≡ some p)

  -- What an accepted list holds beside the one that was there before.
  abbrev Adding : List Text → List IpPrefix → List IpPrefix → Type 0
  Adding entries before allowed =
      ((p : IpPrefix) → In p allowed ↔ (In p before ⊎ ReadsAs entries p))
      × (((p : IpPrefix) → In p before → p.bits ≢ 0) → (p : IpPrefix) → In p allowed → p.bits ≢ 0)
