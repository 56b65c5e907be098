-- ===== src/Http/Sweep/Report.antt =====
-- internal/httpapi/sweep.go: what the report of a sweep says.
use keymaker.Prelude.{
  ℕ, ◌+◌, ℤ, Bool, true, Option, none, some, List, [], ◌∷◌, ◌++◌, ◌≡◌, ◌⊎◌, inl, inr, refl, sym,
  subst, In-append_cases, In-single, arith, ◌==◌, int_equality, if◌then◌else◌, In, Bool-cases,
  length, length-append, filter,
}
use keymaker.Failure.{Failure, Result, ok, err, context, is, not_found, status_code, translate}
use keymaker.Credential.{Credential}
use keymaker.Ovh.Client.{Call, Api, History, ◌>>=◌}
use keymaker.Legacy.Provider.{write_error, revoke, revoke_against}
use keymaker.Http.Offers.{revocation_offer, inactive}
use keymaker.Http.Sweep.{
  SweepReport, report_revoked, nothing_swept, report_revocation, sweep_one, sweep,
}

-- The number of keys that the report names.
abbrev pub named : SweepReport → ℕ
named r = length r.revoked + length r.failed

abbrev counts : Bool → ℕ
counts b = if b then 1 else 0

report_revocation-named :
    (id : ℤ) (e : Option Failure) (r : SweepReport) → named (report_revocation id e r) ≡ named r + 1
unfolding report_revocation
report_revocation-named id none r = omega (arith, length-append {0} r.revoked (id ∷ []))
report_revocation-named id (some e) r = elim (Bool-cases (is not_found e)) [
  | inl lost ↦ rw lost (omega (arith, length-append {0} r.revoked (id ∷ [])))
  | inr found ↦ rw found (omega (arith, length-append {0} r.failed _))
]

module _ (api : Api) where
  sweep_one-named :
      (current : Option Credential) (t : Credential) (r : SweepReport) (h : History)
      → named (sweep_one api current t r h).0 ≡ named r + counts (inactive t.status)
  unfolding sweep_one ◌>>=◌
  sweep_one-named current t r h = elim (Bool-cases (inactive t.status)) [
    | inr live ↦ rw live (omega arith)
    | inl dead ↦ elim (Bool-cases (revocation_offer current t).allowed) [
      | inr denied ↦ rw (dead, denied) (omega (arith, length-append {0} r.failed _))
      | inl offered ↦ rw (dead, offered) (report_revocation-named t.id _ r)
    ]
  ]

  -- A sweep reports each inactive key of the list once, as revoked or as failed, and no other.
  pub sweep-named :
      (current : Option Credential) (targets : List Credential) (r : SweepReport) (h : History)
      → named (sweep api current targets r h).0
        ≡ named r + length (filter (λ t. inactive t.status) targets)
  unfolding sweep ◌>>=◌
  sweep-named current [] r h = omega arith
  sweep-named current (t ∷ ts) r h = ground (
    arith,
    sweep-named current ts (sweep_one api current t r h).0 (sweep_one api current t r h).1,
    sweep_one-named current t r h,
  )

  -- The API took the deletion of the key, or answered that it is gone.
  pub data IsGone (id : ℤ) : Type 0 where
    deleted : (before : History) → api.delete_credential before id ≡ ok tt → IsGone id
    lost :
        (before : History) (e : Failure)
        → api.delete_credential before id ≡ err e
        → is not_found (context (translate e)) ≡ true
        → IsGone id

  -- What the report calls revoked after a step was so before it, or is gone.
  abbrev Keeps : SweepReport → SweepReport → Type 0
  Keeps r r' = (id : ℤ) → In id r'.revoked → In id r.revoked ⊎ IsGone id

  add-IsGone :
      (r : SweepReport) (t id : ℤ)
      → IsGone t
      → In id (r.revoked ++ t ∷ [])
      → In id r.revoked ⊎ IsGone id
  add-IsGone r t id g m = elim (In-append_cases r.revoked m) [
    | inl before ↦ inl before
    | inr last ↦ inr (subst IsGone (sym (In-single last)) g)
  ]

  report_answer-Keeps :
      (t : ℤ) (before : History) (answer : Result Unit) (r : SweepReport)
      → api.delete_credential before t ≡ answer
      → Keeps r (report_revocation t (write_error answer) r)
  unfolding report_revocation
  report_answer-Keeps t before (ok tt) r p = λ id m. add-IsGone r t id (deleted before p) m
  report_answer-Keeps t before (err e) r p =
      elim (Bool-cases (is not_found (context (translate e)))) [
        | inl missing ↦ rw missing (λ id m. add-IsGone r t id (lost before e p missing) m)
        | inr other ↦ rw other (λ id m. inl m)
      ]

  module _ (current : Credential) where
    sweep_one-Keeps :
        (t : Credential) (r : SweepReport) (h : History)
        → Keeps r (sweep_one api (some current) t r h).0
    unfolding sweep_one revoke_against ◌>>=◌
    sweep_one-Keeps t r h = elim (Bool-cases (inactive t.status)) [
      | inr live ↦ rw live (λ id m. inl m)
      | inl dead ↦ elim (Bool-cases (revocation_offer (some current) t).allowed) [
        | inr denied ↦ rw (dead, denied) (λ id m. inl m)
        | inl offered ↦ elim (Bool-cases (current.id == t.id)) [
          | inl same ↦ rw (dead, offered, same) (λ id m. inl (unfold report_revocation is in m))
          | inr apart ↦ rw (dead, offered, apart) (report_answer-Keeps t.id h _ r refl)
        ]
      ]
    ]

    sweep-Keeps :
        (targets : List Credential) (r : SweepReport) (h : History)
        → Keeps r (sweep api (some current) targets r h).0
    unfolding sweep ◌>>=◌
    sweep-Keeps [] r h = λ id m. inl m
    sweep-Keeps (t ∷ ts) r h = λ id m.
        elim (sweep-Keeps ts (sweep_one api (some current) t r h).0
          (sweep_one api (some current) t r h).1 id m) [
            | inl before ↦ sweep_one-Keeps t r h id before
            | inr g ↦ inr g
          ]

    -- With the key in use identified, every key that a sweep reports as revoked is gone: the API
    -- took its deletion, or answered that it no longer knows the key.
    pub sweep-IsGone :
        (targets : List Credential) (h : History) (id : ℤ)
        → In id (sweep api (some current) targets nothing_swept h).0.revoked
        → IsGone id
    sweep-IsGone targets h id m = elim (sweep-Keeps targets nothing_swept h id m) [
      | inl before ↦ elim before [ ]
      | inr g ↦ g
    ]

-- When the call that identifies the key in use is answered by a 404, a sweep reports an inactive
-- key as revoked although it has sent no deletion: the error of the identification carries the
-- mark of a missing key, which the sweep takes for the key it was to revoke.
pub sweep_one_of_lost_identity :
    (api : Api) (t : Credential) (r : SweepReport) (h : History) (e : Failure)
    → inactive t.status ≡ true
    → api.current_credential h ≡ err e
    → status_code e ≡ 404
    → sweep_one api none t r h ≡ (report_revoked t.id r, Call.current_credential ∷ h)
unfolding sweep_one revoke report_revocation revocation_offer is translate ◌>>=◌
sweep_one_of_lost_identity api t r h e dead answer status = rw (dead, answer, status)
