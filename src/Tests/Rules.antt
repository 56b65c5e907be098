-- ===== src/Tests/Rules.antt =====
-- Rules, findings and identifiers.
use keymaker.Prelude.{
  ◌+◌, ◌<◌, ◌≤◌, negsuc, true, false, some, [], ◌∷◌, ◌≡◌, ◌≢◌, ◌↔◌, refl, arith, here, there, inr,
}
use keymaker.Text.{text, split, index, has_prefix, equal_fold, has_suffix}
use keymaker.Strconv.{format_int, parse_int}
use keymaker.Strconv.RoundTrip.{parse_int-format_int}
use keymaker.Credential.{
  validated, Credential, match_segments, match_path, permits_rules, permits, is_pending,
}
use keymaker.Credential.Glob.{Matches}
use keymaker.Credential.Matching.{match_path_iff}
use keymaker.Audit.{inspect, examines, unused_grace, dormant_after, expiring_within}
use keymaker.Audit.Branches.{
  Branch, account_control, no_expiry, expires_soon, never_used, dormant, sensitive_branches, writes,
  method_counts,
}
use keymaker.Audit.Inspect.{Flags, inspect-Flags}
use keymaker.Audit.Dates.{raises, inspect_dates}
use keymaker.Tests.World.{key, own}

star_in_the_middle : match_path (text "/me/*/status") (text "/me/api/credential/7/status") ≡ true
unfolding match_path match_segments split index has_suffix has_prefix
star_in_the_middle = refl

match_path_iff_example :
    (match_path (text "/me/*") (text "/me/api") ≡ true) ↔ Matches (text "/me/*") (text "/me/api")
match_path_iff_example = match_path_iff (text "/me/*") (text "/me/api")

abbrev identity_key : Credential
identity_key = key 4 10 validated (record { method = text "post"; path = text "/me/i*" } ∷ [])

abbrev identity_branch : Branch
identity_branch = record { finding = account_control; path = text "/me/identity"; methods = writes }

identity_key-permits : permits identity_key (text "POST") (text "/me/identity/user") ≡ true
unfolding permits permits_rules match_path match_segments split has_prefix has_suffix equal_fold
identity_key-permits = refl

inspect-Flags_example : Flags account_control (inspect identity_key 5)
unfolding sensitive_branches examines method_counts equal_fold has_suffix
inspect-Flags_example =
    inspect-Flags identity_key 5 (text "POST") (text "/me/identity/user") identity_branch
      (there (here refl)) refl identity_key-permits refl (inr (text "user", refl)) refl

inspect_dates_example :
    (examines own ≡ false → inspect own 9 ≡ [])
    × (examines own ≡ true
        → ((raises no_expiry (inspect own 9) ≡ true) ↔ (own.expires_at ≡ 0))
          × ((raises expires_soon (inspect own 9) ≡ true)
              ↔ ((9 < own.expires_at) × (own.expires_at ≤ 9 + expiring_within)))
          × ((raises never_used (inspect own 9) ≡ true) ↔ (
              (is_pending own.status ≡ false)
              × (own.last_used_at ≡ 0)
              × (own.created_at ≢ 0)
              × (own.created_at + unused_grace < 9)))
          × ((raises dormant (inspect own 9) ≡ true) ↔ (
              (is_pending own.status ≡ false)
              × (own.last_used_at ≢ 0)
              × (own.last_used_at + dormant_after < 9))))
inspect_dates_example = inspect_dates own 9

round_trip_of_negative : parse_int (format_int (negsuc 41)) ≡ some (negsuc 41)
round_trip_of_negative = parse_int-format_int (negsuc 41) (omega arith)
