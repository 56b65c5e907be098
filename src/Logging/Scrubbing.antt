-- ===== src/Logging/Scrubbing.antt =====
-- internal/logging/redact.go: a scrubbed text holds no registered value.
use keymaker.Prelude.{
  ℕ, zero, suc, ◌-◌, true, false, List, [], ◌∷◌, ◌++◌, ◌≡◌, ◌≢◌, ◌⊎◌, inl, inr, refl, sym, subst,
  arith, nat_equality, ◌==◌, Bool-cases, length, In, here, there,
}
use keymaker.Text.Splitting.{lacks}
use keymaker.Text.{Text, text, has_prefix}
use keymaker.Logging.{placeholder, replace_all, scrub_each}
use keymaker.Logging.Absence.{Absent, has_prefix-first, Absent-append}

-- A value that can be redacted: it is not empty, has neither bracket of the placeholder, and does
-- not occur in its word.
pub record IsPlain (s : Text) : Type 0 where
  pub filled : s ≢ []
  pub opens : lacks b'[' s ≡ true
  pub closes : lacks b']' s ≡ true
  pub apart : Absent s (text "redacted")

-- The word of the placeholder and its end, in front of what follows.
abbrev tail : Text → Text
tail w = text "redacted" ++ (b']' ∷ w)

replace-hit :
    (old : Text) (c : ℕ) (t : Text)
    → has_prefix (c ∷ t) old ≡ true
    → replace_all 0 old placeholder (c ∷ t)
      ≡ b'[' ∷ tail (replace_all (length old - 1) old placeholder t)
unfolding replace_all placeholder
replace-hit old c t h =
    subst
      (λ b.
        elim b [
          | true ↦ placeholder ++ replace_all (length old - 1) old placeholder t
          | false ↦ c ∷ replace_all zero old placeholder t
        ]
        ≡ b'[' ∷ tail (replace_all (length old - 1) old placeholder t))
      (sym h) refl

replace-miss :
    (old : Text) (c : ℕ) (t : Text)
    → has_prefix (c ∷ t) old ≡ false
    → replace_all 0 old placeholder (c ∷ t) ≡ c ∷ replace_all 0 old placeholder t
unfolding replace_all
replace-miss old c t h =
    subst
      (λ b.
        elim b [
          | true ↦ placeholder ++ replace_all (length old - 1) old placeholder t
          | false ↦ c ∷ replace_all zero old placeholder t
        ]
        ≡ c ∷ replace_all zero old placeholder t)
      (sym h) refl

replace-nil : (n : ℕ) (old : Text) → replace_all n old placeholder [] ≡ []
unfolding replace_all
replace-nil zero old = refl
replace-nil (suc n) old = refl

replace-skip :
    (n : ℕ) (old : Text) (c : ℕ) (t : Text)
    → replace_all (suc n) old placeholder (c ∷ t) ≡ replace_all n old placeholder t
unfolding replace_all
replace-skip n old c t = refl

has_prefix-nil : (s : Text) → s ≢ [] → has_prefix [] s ≡ false
unfolding has_prefix
has_prefix-nil [] ne = absurd (ne refl)
has_prefix-nil (c ∷ s) ne = refl

has_prefix-cons :
    (c d : ℕ) (s t : Text)
    → has_prefix (c ∷ t) (d ∷ s) ≡ true
    → ((c == d) ≡ true) × (has_prefix t s ≡ true)
unfolding has_prefix
has_prefix-cons c d s t h = ground arith

has_prefix-join :
    (c d : ℕ) (s t : Text)
    → (c == d) ≡ true
    → has_prefix t s ≡ true
    → has_prefix (c ∷ t) (d ∷ s) ≡ true
unfolding has_prefix
has_prefix-join c d s t e h = ground arith

has_prefix-all : (t : Text) → has_prefix t [] ≡ true
unfolding has_prefix
has_prefix-all t = refl

-- What stands at the start of the result, and has no bracket, stood there before.
has_prefix-replace :
    (old s t : Text)
    → lacks b'[' s ≡ true
    → has_prefix (replace_all 0 old placeholder t) s ≡ true
    → has_prefix t s ≡ true
has_prefix-replace old [] t l h = has_prefix-all t
has_prefix-replace old (d ∷ s) [] l h =
    subst (λ x. has_prefix x (d ∷ s) ≡ true) (replace-nil 0 old) h
has_prefix-replace old (d ∷ s) (c ∷ t) l h = elim (Bool-cases (has_prefix (c ∷ t) old)) [
  | inl hit ↦
      let k = subst (λ x. has_prefix x (d ∷ s) ≡ true) (replace-hit old c t hit) h in
      absurd (
        cc (
          k,
          has_prefix-first b'[' (tail (replace_all (length old - 1) old placeholder t)) (d ∷ s)
              (λ e. cc) l,
        ))
  | inr miss ↦
      let k = subst (λ x. has_prefix x (d ∷ s) ≡ true) (replace-miss old c t miss) h in
      let (e, rest) = has_prefix-cons c d s (replace_all 0 old placeholder t) k in
      has_prefix-join c d s t e (has_prefix-replace old s t (ground arith) rest)
]

has_prefix-kept :
    (old s t : Text) (c : ℕ)
    → lacks b'[' s ≡ true
    → has_prefix (c ∷ t) s ≡ false
    → has_prefix (c ∷ replace_all 0 old placeholder t) s ≡ false
has_prefix-kept old [] t c l h = absurd (cc (h, has_prefix-all (c ∷ t)))
has_prefix-kept old (d ∷ s) t c l h =
    elim (Bool-cases (has_prefix (c ∷ replace_all 0 old placeholder t) (d ∷ s))) [
      | inl yes' ↦
          let (e, rest) = has_prefix-cons c d s (replace_all 0 old placeholder t) yes' in
          let back = has_prefix-join c d s t e (has_prefix-replace old s t (ground arith) rest) in
          absurd (cc (h, back))
      | inr no' ↦ no'
    ]

Absent-tail : (s w : Text) → IsPlain s → Absent s w → Absent s (tail w)
Absent-tail s w p a =
    Absent-append s (text "redacted") b']' w p.closes p.apart
      (has_prefix-first b']' w s p.filled p.closes, a)

-- A plain value that is the one replaced, or was absent, is absent from the result.
Absent-replace :
    (n : ℕ) (old s t : Text)
    → IsPlain s
    → (s ≡ old) ⊎ Absent s t
    → Absent s (replace_all n old placeholder t)
Absent-replace n old s [] p h = rw (replace-nil n old) (has_prefix-nil s p.filled)
Absent-replace (suc n) old s (c ∷ t) p h =
    rw (replace-skip n old c t)
      (Absent-replace n old s t p (elim h [ inl e ↦ inl e | inr a ↦ inr a.1 ]))
Absent-replace zero old s (c ∷ t) p h =
    let rest : (s ≡ old) ⊎ Absent s t = elim h [ inl e ↦ inl e | inr a ↦ inr a.1 ] in
    elim (Bool-cases (has_prefix (c ∷ t) old)) [
      | inl hit ↦
          let w = replace_all (length old - 1) old placeholder t in
          rw (replace-hit old c t hit) (
            has_prefix-first b'[' (tail w) s p.filled p.opens,
            Absent-tail s w p (Absent-replace (length old - 1) old s t p rest),
          )
      | inr miss ↦
          let w = replace_all 0 old placeholder t in
          rw (replace-miss old c t miss) (
            has_prefix-kept old s t c p.opens (elim h [
              | inl e ↦ subst (λ x. has_prefix (c ∷ t) x ≡ false) (sym e) miss
              | inr a ↦ a.0
            ]),
            Absent-replace 0 old s t p rest,
          )
    ]

-- Every registered value can be redacted.
abbrev pub ArePlain : List Text → Type 0
ArePlain secrets = (s : Text) → In s secrets → IsPlain s

Absent-scrub_kept :
    (secrets : List Text) (s t : Text) → IsPlain s → Absent s t → Absent s (scrub_each secrets t)
unfolding scrub_each
Absent-scrub_kept [] s t p a = a
Absent-scrub_kept (old ∷ secrets) s t p a =
    Absent-scrub_kept secrets s (replace_all 0 old placeholder t) p
      (Absent-replace 0 old s t p (inr a))

pub Absent-scrub_each :
    (secrets : List Text) (t : Text) {s : Text}
    → In s secrets
    → IsPlain s
    → Absent s (scrub_each secrets t)
unfolding scrub_each
Absent-scrub_each [] t m p = elim m [ ]
Absent-scrub_each (old ∷ secrets) t {s} (here e) p =
    Absent-scrub_kept secrets s (replace_all 0 old placeholder t) p
      (Absent-replace 0 old s t p (inl e))
Absent-scrub_each (old ∷ secrets) t (there m) p =
    Absent-scrub_each secrets (replace_all 0 old placeholder t) m p
