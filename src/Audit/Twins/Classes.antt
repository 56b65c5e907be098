-- ===== src/Audit/Twins/Classes.antt =====
-- internal/audit/audit.go: which credentials are twins.
use keymaker.Prelude.{
  ℕ, ℤ, Bool, true, false, ◌&&◌, ◌||◌, List, [], ◌∷◌, ◌++◌, map, ◌≡◌, refl, sym, ap, ◌∙◌, arith,
  inl, inr, ◌==◌, nat_equality, int_equality, list_equality, list_beq_iff, leb, if◌then◌else◌, any,
  any-append, any-ext, any-map, length-map, any_witness, any_of_In, filter, length, Bool-cases,
  test_sym, subst,
}
use mathlib.Core.List.{append_assoc, append-nil}
use keymaker.Text.{Text}
use keymaker.Netip.{IpPrefix}
use keymaker.Credential.{Credential}
use keymaker.Audit.Twins.{Seen, nothing_seen, see, fingerprint, comparable, see_all, twins}

see-hit :
    (key k : Text) (id : ℤ) (seen : Seen)
    → (key == k) ≡ true
    → (see key id seen).ids k ≡ seen.ids k ++ (id ∷ [])
unfolding see
see-hit key k id seen h = rw (test_sym k key ∙ h) refl

see-miss :
    (key k : Text) (id : ℤ) (seen : Seen)
    → (key == k) ≡ false
    → (see key id seen).ids k ≡ seen.ids k
unfolding see
see-miss key k id seen h = rw (test_sym k key ∙ h) refl

see-keys :
    (p : Text → Bool) (key : Text) (id : ℤ) (seen : Seen)
    → any p (see key id seen).keys ≡ (any p seen.keys || p key)
unfolding see
see-keys p key id seen = elim (Bool-cases (any (λ k. k == key) seen.keys)) [
  | inl held ↦
      let (k, m, e) = any_witness (λ k. k == key) seen.keys held in
      let same : p k ≡ p key = ap p ((list_beq_iff k key).0 e) in
      rw held (elim (Bool-cases (p key)) [
        | inl yes' ↦ ground (arith, any_of_In p m (same ∙ yes'))
        | inr no' ↦ ground arith
      ])
  | inr new ↦ rw new (any-append p seen.keys (key ∷ []) ∙ ground arith)
]

module _ (beyond : ℕ → ℕ) (print : IpPrefix → Text) where
  -- The credentials that are compared and have the fingerprint.
  abbrev pub alike : Text → List Credential → List Credential
  alike key = filter (λ c. comparable c && fingerprint beyond print c == key)

  -- What Twins means, without its map: one of the credentials compared has a fingerprint that two
  -- of them have at least, and the identifier is that of a credential with it.
  abbrev pub has_twin : List Credential → ℤ → Bool
  has_twin credentials id =
      any
        (λ c.
          comparable c
          && (leb 2 (length (alike (fingerprint beyond print c) credentials))
              && any (λ d. d.id == id) (alike (fingerprint beyond print c) credentials)))
        credentials

  see_all-nil : (seen : Seen) → see_all beyond print [] seen ≡ seen
  unfolding see_all
  see_all-nil seen = refl

  see_all-skipped :
      (c : Credential) (cs : List Credential) (seen : Seen)
      → comparable c ≡ false
      → see_all beyond print (c ∷ cs) seen ≡ see_all beyond print cs seen
  unfolding see_all
  see_all-skipped c cs seen h =
      subst
        (λ b.
          see_all beyond print cs (if b then see (fingerprint beyond print c) c.id seen else seen)
          ≡ see_all beyond print cs seen)
        (sym h) refl

  see_all-compared :
      (c : Credential) (cs : List Credential) (seen : Seen)
      → comparable c ≡ true
      → see_all beyond print (c ∷ cs) seen
        ≡ see_all beyond print cs (see (fingerprint beyond print c) c.id seen)
  unfolding see_all
  see_all-compared c cs seen h =
      subst
        (λ b.
          see_all beyond print cs (if b then see (fingerprint beyond print c) c.id seen else seen)
          ≡ see_all beyond print cs (see (fingerprint beyond print c) c.id seen))
        (sym h) refl

  see_all-ids :
      (cs : List Credential) (seen : Seen) (key : Text)
      → (see_all beyond print cs seen).ids key ≡ seen.ids key ++ map (λ c. c.id) (alike key cs)
  see_all-ids [] seen key = rw (see_all-nil seen) (sym (append-nil (seen.ids key)))
  see_all-ids (c ∷ cs) seen key = elim (Bool-cases (comparable c)) [
    | inr skipped ↦ rw (see_all-skipped c cs seen skipped, skipped) (see_all-ids cs seen key)
    | inl compared ↦
        let ih = see_all-ids cs (see (fingerprint beyond print c) c.id seen) key in
        elim (Bool-cases (fingerprint beyond print c == key)) [
          | inl hit ↦
              rw (see_all-compared c cs seen compared, compared, hit)
                (ih
                  ∙ ap (λ l. l ++ map (λ d. d.id) (alike key cs))
                      (see-hit (fingerprint beyond print c) key c.id seen hit)
                  ∙ append_assoc (seen.ids key) (c.id ∷ []) (map (λ d. d.id) (alike key cs)))
          | inr miss ↦
              rw (see_all-compared c cs seen compared, compared, miss)
                (ih
                  ∙ ap (λ l. l ++ map (λ d. d.id) (alike key cs))
                      (see-miss (fingerprint beyond print c) key c.id seen miss))
        ]
  ]

  see_all-keys :
      (p : Text → Bool) (cs : List Credential) (seen : Seen)
      → any p (see_all beyond print cs seen).keys
        ≡ (any p seen.keys || any (λ c. comparable c && p (fingerprint beyond print c)) cs)
  see_all-keys p [] seen = rw (see_all-nil seen) (ground arith)
  see_all-keys p (c ∷ cs) seen = elim (Bool-cases (comparable c)) [
    | inr skipped ↦ rw (see_all-skipped c cs seen skipped, skipped) (see_all-keys p cs seen)
    | inl compared ↦
        rw (see_all-compared c cs seen compared, compared)
          (see_all-keys p cs (see (fingerprint beyond print c) c.id seen)
            ∙ ground (arith, see-keys p (fingerprint beyond print c) c.id seen))
  ]

  ids_of :
      (credentials : List Credential) (key : Text)
      → (see_all beyond print credentials nothing_seen).ids key
        ≡ map (λ c. c.id) (alike key credentials)
  ids_of credentials key = see_all-ids credentials nothing_seen key

  test_of :
      (credentials : List Credential) (id : ℤ) (key : Text)
      → (leb 2 (length ((see_all beyond print credentials nothing_seen).ids key))
          && any (λ i. i == id) ((see_all beyond print credentials nothing_seen).ids key))
        ≡ (leb 2 (length (alike key credentials)) && any (λ d. d.id == id) (alike key credentials))
  test_of credentials id key =
      rw
        (
          ids_of credentials key,
          length-map (λ c. c.id) (alike key credentials),
          any-map (λ i. i == id) (λ c. c.id) (alike key credentials),
        )
        refl

  -- A credential is marked exactly when one that is compared has its identifier and a fingerprint
  -- that at least two of those compared have.
  pub twins-eq-has_twin :
      (credentials : List Credential) (id : ℤ)
      → twins beyond print credentials id ≡ has_twin credentials id
  unfolding twins
  twins-eq-has_twin credentials id =
      let seen = see_all beyond print credentials nothing_seen in
      let test =
        λ (key : Text). leb 2 (length (seen.ids key)) && any (λ i. i == id) (seen.ids key) in
      see_all-keys test credentials nothing_seen
      ∙ any-ext _ _ credentials
          (λ c m. ap (λ b. comparable c && b) (test_of credentials id (fingerprint beyond print c)))
