-- ===== src/Audit/Dates.antt =====
-- internal/audit/audit.go, Inspect: the findings that read dates, in plain arithmetic.
use keymaker.Prelude.{
  ℕ, ◌+◌, ◌<◌, ◌≤◌, Bool, true, false, List, [], ◌≡◌, ◌≢◌, ◌↔◌, arith, nat_equality, any,
  any-append,
}
use keymaker.Credential.{is_pending, Credential, Instant, AccessRule}
use keymaker.Audit.Branches.{Code, no_expiry, expires_soon, never_used, dormant, Code-beq}
use keymaker.Audit.{
  Finding, exceeds, sub, unused_grace, dormant_after, expiring_within, examines, access_findings,
  expiry_findings, use_findings, raised, inspect,
}

-- The code is among the findings.
abbrev pub raises : Code → List Finding → Bool
raises code = any (λ f. Code-beq f.code code)

-- Saturation changes no comparison that the program makes.
pub exceeds-sub :
    (t u limit : ℕ)
    → limit < 9_223_372_036_854_775_807
    → (exceeds (sub t u) limit ≡ true) ↔ (u + limit < t)
unfolding sub
exceeds-sub t u limit small = ground arith

raises-expiry :
    (e now : Instant)
    → ((raises no_expiry (expiry_findings e now) ≡ true) ↔ (e ≡ 0))
      × ((raises expires_soon (expiry_findings e now) ≡ true)
          ↔ ((now < e) × (e ≤ now + expiring_within)))
      × (raises never_used (expiry_findings e now) ≡ false)
      × (raises dormant (expiry_findings e now) ≡ false)
unfolding expiry_findings
raises-expiry e now = ground arith

raises-use :
    (created used now : Instant)
    → ((raises never_used (use_findings created used now) ≡ true)
        ↔ ((used ≡ 0) × (created ≢ 0) × (created + unused_grace < now)))
      × ((raises dormant (use_findings created used now) ≡ true)
          ↔ ((used ≢ 0) × (used + dormant_after < now)))
      × (raises no_expiry (use_findings created used now) ≡ false)
      × (raises expires_soon (use_findings created used now) ≡ false)
unfolding use_findings
raises-use created used now = ground arith

-- The findings of the rules are about none of the dates.
raises-access :
    (rules : List AccessRule)
    → (raises no_expiry (access_findings rules) ≡ false)
      × (raises expires_soon (access_findings rules) ≡ false)
      × (raises never_used (access_findings rules) ≡ false)
      × (raises dormant (access_findings rules) ≡ false)
unfolding access_findings
raises-access rules = ground arith

module _ (c : Credential) (now : Instant) where
  raised_no_expiry : (raises no_expiry (raised c now) ≡ true) ↔ (c.expires_at ≡ 0)
  unfolding raised
  raised_no_expiry = simp any-append (
      ground (
        arith,
        raises-expiry c.expires_at now,
        raises-use c.created_at c.last_used_at now,
        raises-access c.rules,
      ))

  raised_expires_soon :
      (raises expires_soon (raised c now) ≡ true)
      ↔ ((now < c.expires_at) × (c.expires_at ≤ now + expiring_within))
  unfolding raised
  raised_expires_soon = simp any-append (
      ground (
        arith,
        raises-expiry c.expires_at now,
        raises-use c.created_at c.last_used_at now,
        raises-access c.rules,
      ))

  raised_never_used : (raises never_used (raised c now) ≡ true) ↔ (
      (is_pending c.status ≡ false)
      × (c.last_used_at ≡ 0)
      × (c.created_at ≢ 0)
      × (c.created_at + unused_grace < now))
  unfolding raised
  raised_never_used = simp any-append (
      ground (
        arith,
        raises-expiry c.expires_at now,
        raises-use c.created_at c.last_used_at now,
        raises-access c.rules,
      ))

  raised_dormant : (raises dormant (raised c now) ≡ true) ↔ (
      (is_pending c.status ≡ false) × (c.last_used_at ≢ 0) × (c.last_used_at + dormant_after < now))
  unfolding raised
  raised_dormant = simp any-append (
      ground (
        arith,
        raises-expiry c.expires_at now,
        raises-use c.created_at c.last_used_at now,
        raises-access c.rules,
      ))

-- On a credential that is examined, the four findings about dates are raised exactly as follows,
-- whatever the saturation of durations: no expiry when none is set; soon to expire when the expiry
-- lies ahead by a week at most; never used when it is not pending, was never used, and has a
-- creation date more than thirty days back; dormant when it is not pending and its last use lies
-- more than 180 days back. On any other credential nothing at all is raised.
pub inspect_dates :
    (c : Credential) (now : Instant)
    → (examines c ≡ false → inspect c now ≡ [])
      × (examines c ≡ true
          → ((raises no_expiry (inspect c now) ≡ true) ↔ (c.expires_at ≡ 0))
            × ((raises expires_soon (inspect c now) ≡ true)
                ↔ ((now < c.expires_at) × (c.expires_at ≤ now + expiring_within)))
            × ((raises never_used (inspect c now) ≡ true) ↔ (
                (is_pending c.status ≡ false)
                × (c.last_used_at ≡ 0)
                × (c.created_at ≢ 0)
                × (c.created_at + unused_grace < now)))
            × ((raises dormant (inspect c now) ≡ true) ↔ (
                (is_pending c.status ≡ false)
                × (c.last_used_at ≢ 0)
                × (c.last_used_at + dormant_after < now))))
unfolding inspect
inspect_dates c now = (
  λ off. rw off,
  λ on. rw on (
    raised_no_expiry c now,
    raised_expires_soon c now,
    raised_never_used c now,
    raised_dormant c now,
  ),
)
