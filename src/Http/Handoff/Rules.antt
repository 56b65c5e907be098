-- ===== src/Http/Handoff/Rules.antt =====
-- internal/httpapi/handoff.go: which rules are accepted.
use keymaker.Prelude.{
  ℕ, List, [], ◌∷◌, ◌≡◌, ◌≢◌, inl, inr, refl, map, all, Bool-cases, if◌then◌else◌,
}
use keymaker.Credential.{AccessRule}
use keymaker.Http.Replies.{answered, refused, code_malformed_rule, code_no_rules}
use keymaker.Http.Handoff.{cleaned, acceptable, read_each, read_rules}

read_each-all :
    (beyond : ℕ → ℕ) (sent : List AccessRule)
    → read_each beyond sent ≡ (
        if all (λ r. acceptable (cleaned beyond r)) sent
        then answered (map (cleaned beyond) sent)
        else refused 400 code_malformed_rule)
unfolding read_each
read_each-all beyond [] = refl
read_each-all beyond (rule ∷ sent) = elim (Bool-cases (acceptable (cleaned beyond rule))) [
  | inl good ↦
      rw (good, read_each-all beyond sent)
        (elim (Bool-cases (all (λ r. acceptable (cleaned beyond r)) sent)) [
          | inl others ↦ rw others refl
          | inr bad ↦ rw bad refl
        ])
  | inr bad ↦ rw bad refl
]

-- Rules are accepted when there is one and each, with its spaces taken off and its method in upper
-- case, names a method that a rule may name and a path from the root; they are then those rules, in
-- their order and none left out. Any other list is refused, an empty one with its own code.
pub read_rules-all :
    (beyond : ℕ → ℕ) (sent : List AccessRule)
    → (read_rules beyond [] ≡ refused 400 code_no_rules)
      × (sent ≢ []
          → read_rules beyond sent ≡ (
              if all (λ r. acceptable (cleaned beyond r)) sent
              then answered (map (cleaned beyond) sent)
              else refused 400 code_malformed_rule))
unfolding read_rules
read_rules-all beyond [] = (refl, λ ne. absurd (ne refl))
read_rules-all beyond (rule ∷ sent) = (refl, λ ne. read_each-all beyond (rule ∷ sent))
