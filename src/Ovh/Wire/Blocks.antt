-- ===== src/Ovh/Wire/Blocks.antt =====
-- internal/ovh/wire.go: no block of an answer is lost.
use keymaker.Prelude.{
  none, some, List, [], ◌∷◌, map, ◌≡◌, ◌⊎◌, inl, inr, refl, ap, Option-cases, In, here, there,
}
use keymaker.Text.{Text}
use keymaker.Netip.{IpPrefix, Parsing}
use keymaker.Failure.{unread, context, ok, err}
use keymaker.Credential.{Credential}
use keymaker.Ovh.Wire.{
  ApiCredential, parse_prefix, parse_prefixes, credential_with, with_blocks, credential_to_domain,
}

module _ (parsing : Parsing) where
  -- Either each text reads as a block, or one of them does not.
  parse_prefixes-cases :
      (values : List Text)
      → ((ps : List IpPrefix) × (parse_prefixes parsing values ≡ some ps)
          × (map (parse_prefix parsing) values ≡ map some ps))
        ⊎ ((parse_prefixes parsing values ≡ none)
            × ((v : Text) × In v values × (parse_prefix parsing v ≡ none)))
  unfolding parse_prefixes
  parse_prefixes-cases [] = inl ([], refl, refl)
  parse_prefixes-cases (v ∷ values) = elim (Option-cases (parse_prefix parsing v)) [
    | inl e ↦ inr (rw e refl, (v, here refl, e))
    | inr (p, e) ↦ elim (parse_prefixes-cases values) [
      | inl (ps, q, m) ↦ inl (p ∷ ps, rw (e, q) refl, rw (e, m) refl)
      | inr (n, (w, i, u)) ↦ inr (rw (e, n) refl, (w, there i, u))
    ]
  ]

  -- An answer about a credential is read with all its blocks, in order: either each text of its list
  -- reads as a block and the credential has those blocks, with the identifiers that were sent;
  -- or one of them does not, and the whole answer is an error with no credential.
  pub credential_to_domain-blocks :
      (c : ApiCredential)
      → ((d : Credential) × (credential_to_domain parsing c ≡ ok d)
          × (map (parse_prefix parsing) c.allowed_ips ≡ map some d.allowed_ips)
          × (d.id ≡ c.credential_id)
          × (d.application.id ≡ c.application_id))
        ⊎ ((credential_to_domain parsing c ≡ err (context (unread 0)))
            × ((v : Text) × In v c.allowed_ips × (parse_prefix parsing v ≡ none)))
  unfolding credential_to_domain with_blocks credential_with
  credential_to_domain-blocks c = elim (parse_prefixes-cases c.allowed_ips) [
    | inl (ps, q, m) ↦ inl (credential_with c ps, ap (with_blocks c) q, m, refl, refl)
    | inr (n, unreadable) ↦ inr (ap (with_blocks c) n, unreadable)
  ]
