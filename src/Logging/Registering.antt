-- ===== src/Logging/Registering.antt =====
-- internal/logging/redact.go: the values registered, and what becomes of them in a log.
use keymaker.Prelude.{
  Bool, true, false, ◌||◌, List, [], ◌∷◌, ◌++◌, ◌≡◌, ◌≢◌, ◌⊎◌, ◌↔◌, inl, inr, refl, sym, subst, ◌∙◌,
  arith, ◌==◌, nat_equality, list_equality, list_beq_iff, Bool-cases, In, here, there,
  In-append_left, In-append_right, In-append_cases, In-single, any_witness,
}
use keymaker.Text.{Text}
use keymaker.Logging.{
  Redactor, known, add_one, add_all, add, Handed, Activity, operate, new_handler,
}
use keymaker.Logging.Scrubbing.{IsPlain, ArePlain}
use keymaker.Logging.Safety.{CleanHanded, ShowAll, operate-HandsClean}

add_one-known :
    (secret : Text) (secrets : List Text)
    → (secret == [] || known secrets secret) ≡ true
    → add_one secret secrets ≡ secrets
unfolding add_one
add_one-known secret secrets h = rw h refl

add_one-new :
    (secret : Text) (secrets : List Text)
    → (secret == [] || known secrets secret) ≡ false
    → add_one secret secrets ≡ secrets ++ (secret ∷ [])
unfolding add_one
add_one-new secret secrets h = rw h refl

known-In : (secret : Text) (secrets : List Text) → known secrets secret ≡ true → In secret secrets
unfolding known
known-In secret secrets h =
    let (a, m, e) = any_witness (λ s. s == secret) secrets h in
    subst (λ x. In x secrets) ((list_beq_iff a secret).0 e) m

not_left : (a b : Bool) → (a || b) ≡ false → a ≡ false
not_left a b h = ground arith

In-add_one :
    (s secret : Text) (secrets : List Text)
    → In s (add_one secret secrets) ↔ (In s secrets ⊎ ((s ≡ secret) × (s ≢ [])))
In-add_one s secret secrets = elim (Bool-cases (secret == [] || known secrets secret)) [
  | inl skipped ↦ rw (add_one-known secret secrets skipped) (
    inl,
    λ c. elim c [
      | inl m ↦ m
      | inr (e, ne) ↦
          let k : known secrets secret ≡ true = elim (Bool-cases (secret == [])) [
            | inl empty' ↦ absurd (ne (e ∙ (list_beq_iff secret []).0 empty'))
            | inr filled ↦ ground arith
          ] in
          subst (λ x. In x secrets) (sym e) (known-In secret secrets k)
    ],
  )
  | inr new ↦ rw (add_one-new secret secrets new) (
    λ m. elim (In-append_cases secrets m) [
      | inl l ↦ inl l
      | inr r ↦
          let e : s ≡ secret = In-single r in
          inr (
            e,
            λ z. cc (
              (list_beq_iff secret []).1 (sym e ∙ z),
              not_left (secret == []) (known secrets secret) new,
            ),
          )
    ],
    λ c. elim c [
      | inl m ↦ In-append_left (secret ∷ []) m
      | inr (e, ne) ↦ In-append_right secrets (here e)
    ],
  )
]

-- The values registered are those registered before and, of the new ones, those that are not empty.
In-add_all :
    (s : Text) (more secrets : List Text)
    → In s (add_all more secrets) ↔ (In s secrets ⊎ (In s more × (s ≢ [])))
unfolding add_all
In-add_all s [] secrets = (inl, λ c. elim c [ inl m ↦ m | inr (m, ne) ↦ elim m [ ] ])
In-add_all s (secret ∷ more) secrets =
    let later = In-add_all s more (add_one secret secrets) in
    let one = In-add_one s secret secrets in
    (
      λ m. elim (later.0 m) [
        | inl l ↦ elim (one.0 l) [ inl old ↦ inl old | inr (e, ne) ↦ inr (here e, ne) ]
        | inr (r, ne) ↦ inr (there r, ne)
      ],
      λ c. elim c [
        | inl old ↦ later.1 (inl (one.1 (inl old)))
        | inr (here e, ne) ↦ later.1 (inl (one.1 (inr (e, ne))))
        | inr (there m, ne) ↦ later.1 (inr (m, ne))
      ],
    )

abbrev pub nothing_registered : Redactor
nothing_registered = record { secrets = [] }

-- Once values are registered, whatever is logged, with whatever attributes and groups set on the way
-- or given in the record, reaches the handler behind with none of them in it: not in a message, in
-- an attribute's key or value, within a group, or in a group's name. It takes that each value can be
-- redacted: it holds no bracket, and is no part of the word that replaces it; and that of an
-- attribute that is no string, and whose rendering by `Value.String` holds none of them, the handler
-- behind prints none either. Empty values, which are not registered, are the only ones left out.
pub operate-Clean :
    (more : List Text) (ops : List Activity)
    → ((s : Text) → In s more → s ≢ [] → IsPlain s)
    → ShowAll (add more nothing_registered) ops
    → let r = add more nothing_registered in
      ((s : Text) → In s more → s ≢ [] → In s r.secrets)
      × ((x : Handed) → In x (operate ops (new_handler r)).next → CleanHanded r x)
unfolding add
operate-Clean more ops plain shows =
    let r = add more nothing_registered in
    let all_plain : ArePlain r.secrets = λ s m. elim ((In-add_all s more []).0 m) [
      | inl none' ↦ elim none' [ ]
      | inr (given, ne) ↦ plain s given ne
    ] in
    (
      λ s m ne. (In-add_all s more []).1 (inr (m, ne)),
      (operate-HandsClean r all_plain ops (new_handler r) shows (refl, λ x m. elim m [ ])).1,
    )
