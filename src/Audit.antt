-- ===== src/Audit.antt =====
-- internal/audit/audit.go: what is wrong with a credential. A finding is a code and a severity;
-- a duration is an integer number of nanoseconds.
pub mod Branches
pub mod Dates
pub mod Inspect
pub mod Reach
pub mod Counting
pub mod Twins
use keymaker.Prelude.{
  ℕ, ℤ, pos, negsuc, ◌+◌, ◌-◌, ◌*◌, ◌^◌, min, Bool, true, false, not, ◌&&◌, ◌||◌, List, [], ◌∷◌,
  ◌++◌, ◌==◌, list_equality, nat_equality, ltb, leb, if◌then◌else◌, any, filter,
}
use keymaker.Text.{Text, text, trim_space, equal_fold}
use keymaker.Netip.{IpPrefix}
use keymaker.Credential.{Status, is_validated, is_pending, AccessRule, Instant, is_zero, Credential}
use Branches.{
  Code, broad_access, no_ip_restriction, no_expiry, expires_soon, never_used, dormant,
  no_description, support_issued, account_control, billing_access, pending_validation, Code-beq,
  has_broad_rule, reaches,
}

pub data Severity : Type 0 where
  risk caution note : Severity

pub record Finding : Type 0 where
  pub code : Code
  pub severity : Severity

abbrev pub finding : Code → Severity → Finding
finding c s = record { code = c; severity = s }

abbrev pub hour : ℕ
hour = 3_600_000_000_000

abbrev pub unused_grace : ℕ
unused_grace = 30 * 24 * hour

abbrev pub dormant_after : ℕ
dormant_after = 180 * 24 * hour

abbrev pub expiring_within : ℕ
expiring_within = 7 * 24 * hour

-- The largest `time.Duration`, an int64.
abbrev pub max_duration : ℕ
max_duration = 2 ^ 63 - 1

-- `t.Sub(u)`, which saturates at both ends of an int64.
unfoldable pub sub : Instant → Instant → ℤ
sub t u =
    if leb u t then pos (min (t - u) max_duration) else negsuc (min (u - t) (max_duration + 1) - 1)

-- `d > limit` for a positive constant
abbrev pub exceeds : ℤ → ℕ → Bool
exceeds (pos n) limit = ltb limit n
exceeds (negsuc n) limit = false

-- A list of allowed addresses keeps a source out.
unfoldable pub restricts_addresses : List IpPrefix → Bool
restricts_addresses [] = false
restricts_addresses (p ∷ ps) = not (any (λ q. q.bits == 0) (p ∷ ps))

unfoldable pub examines : Credential → Bool
examines c = if c.application.deleted then false else is_validated c.status || is_pending c.status

-- `if b { add(code, severity) }`
abbrev pub when : Bool → Code → Severity → List Finding
when b code severity = if b then finding code severity ∷ [] else []

unfoldable pub access_findings : List AccessRule → List Finding
access_findings rules =
    if has_broad_rule rules
    then finding broad_access risk ∷ []
    else when (reaches rules account_control) account_control risk
      ++ when (reaches rules billing_access) billing_access caution

unfoldable pub expiry_findings : Instant → Instant → List Finding
unfolding sub
expiry_findings expires_at now =
    if is_zero expires_at
    then finding no_expiry caution ∷ []
    else when (ltb now expires_at && not (exceeds (sub expires_at now) expiring_within))
        expires_soon caution

unfoldable pub use_findings : Instant → Instant → Instant → List Finding
unfolding sub
use_findings created_at last_used_at now =
    if is_zero last_used_at
    then when (not (is_zero created_at) && exceeds (sub now created_at) unused_grace) never_used
        caution
    else when (exceeds (sub now last_used_at) dormant_after) dormant caution

-- What `Inspect` adds for a credential that it examines, in order.
unfoldable pub raised : Credential → Instant → List Finding
raised c now =
    when (is_pending c.status) pending_validation caution
    ++ (access_findings c.rules
        ++ (when (not (restricts_addresses c.allowed_ips)) no_ip_restriction caution
            ++ (expiry_findings c.expires_at now
                ++ ((if not (is_pending c.status)
                      then use_findings c.created_at c.last_used_at now
                      else [])
                    ++ (when (trim_space c.application.description == []) no_description note
                        ++ when c.issued_by_support support_issued caution)))))

unfoldable pub inspect : Credential → Instant → List Finding
inspect c now = if not (examines c) then [] else raised c now

unfoldable pub surplus : Credential → List AccessRule → List AccessRule
surplus c needed =
    filter (λ rule. not (any (λ n. equal_fold n.method rule.method && n.path == rule.path) needed))
      c.rules

pub record Summary : Type 0 where
  pub counts : Code → ℕ
  pub flagged : ℕ
  pub at_risk : ℕ

abbrev pub is_risk : Severity → Bool
is_risk risk = true
is_risk _ = false

-- `summary.Counts[code]++`
abbrev pub count_code : Code → (Code → ℕ) → Code → ℕ
count_code code counts other = if Code-beq code other then counts other + 1 else counts other

-- The inner loop over the findings of one credential.
pub count_findings : List Finding → (Code → ℕ) → Bool → (Code → ℕ) × Bool
count_findings [] counts risky = (counts, risky)
count_findings (f ∷ fs) counts risky =
    count_findings fs (count_code f.code counts) (risky || is_risk f.severity)

summarise_onto : List (List Finding) → Summary → Summary
summarise_onto [] summary = summary
summarise_onto ([] ∷ lists) summary = summarise_onto lists summary
summarise_onto ((f ∷ fs) ∷ lists) summary =
    let (counts, risky) = count_findings (f ∷ fs) summary.counts false in
    summarise_onto lists (record {
      counts = counts;
      flagged = summary.flagged + 1;
      at_risk = if risky then summary.at_risk + 1 else summary.at_risk;
    })

unfoldable pub summarise : List (List Finding) → Summary
unfolding summarise_onto count_findings
summarise findings = summarise_onto findings (record { counts = λ c. 0; flagged = 0; at_risk = 0 })
