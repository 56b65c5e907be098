-- ===== src/Ovh/Rules.antt =====
-- internal/ovh/api.go: the rules asked for cover the calls made. The two routes under /auth need no
-- rule: any valid credential may call them.
use mathlib.Core.List.{append-nil}
use keymaker.Prelude.{
  ℤ, Bool, true, false, ◌&&◌, List, [], ◌∷◌, ◌++◌, ◌≡◌, ◌≢◌, refl, sym, arith, nat_equality, In,
  here, there, any_of_In,
}
use keymaker.Text.{Text, text, equal_fold}
use keymaker.Credential.Glob.{Matches, done, same, run}
use keymaker.Credential.Matching.{match_path_iff}
use keymaker.Credential.{AccessRule, match_path, permits_rules}
use keymaker.Netip.{IpPrefix}
use keymaker.Ovh.Client.{Call}
use keymaker.Ovh.Paths.{management_rules, address_rule, usable_rules, call_route}

abbrev NoStar : Text → Type 0
NoStar [] = Unit
NoStar (c ∷ s) = (c ≢ b'*') × NoStar s

Matches-literal : (p : Text) → NoStar p → Matches p p
Matches-literal [] free = done refl
Matches-literal (c ∷ p) (ne, free) = same p ne refl (Matches-literal p free)

Matches-under : (p s : Text) → NoStar p → Matches (p ++ b'*' ∷ []) (p ++ s)
Matches-under [] s free = run s [] refl (sym (append-nil s)) (done refl)
Matches-under (c ∷ p) s (ne, free) = same (p ++ s) ne refl (Matches-under p s free)

rule_permits :
    (method path : Text) (rule : AccessRule) (rules : List AccessRule)
    → In rule rules
    → equal_fold rule.method method ≡ true
    → Matches rule.path path
    → permits_rules rules method path ≡ true
unfolding permits_rules
rule_permits method path rule rules i m p =
    any_of_In (λ r. equal_fold r.method method && match_path r.path path) i
      (let covered = (match_path_iff rule.path path).1 p in ground arith)

-- The calls that need a rule, and hold one among the management rules.
abbrev pub IsManaged : Call → Type 0
IsManaged Call.current_credential = ⊥
IsManaged Call.logout = ⊥
IsManaged (Call.set_allowed_ips id allowed) = ⊥
IsManaged _ = Unit

abbrev pub permitted : List AccessRule → Call → Bool
permitted rules call = permits_rules rules (call_route call).method (call_route call).path

abbrev credentials_prefix : Text
credentials_prefix = text "/me/api/credential/"

abbrev applications_prefix : Text
applications_prefix = text "/me/api/application/"

-- Every call that needs a rule is permitted by the rules that a management key is issued with, but
-- for the change of addresses, which `usable_rules` adds.
pub management_rules_suffice :
    (call : Call) → IsManaged call → permitted management_rules call ≡ true
unfolding management_rules call_route equal_fold
management_rules_suffice Call.current_credential m = elim m [ ]
management_rules_suffice Call.logout m = elim m [ ]
management_rules_suffice (Call.set_allowed_ips id allowed) m = elim m [ ]
management_rules_suffice Call.list_credential_ids m =
    rule_permits _ _ _ _ (here refl) refl (Matches-literal _ (omega arith))
management_rules_suffice (Call.credential id) m =
    rule_permits _ _ _ _ (there (here refl)) refl (Matches-under credentials_prefix _ (omega arith))
management_rules_suffice (Call.credential_application id) m =
    rule_permits _ _ _ _ (there (here refl)) refl (Matches-under credentials_prefix _ (omega arith))
management_rules_suffice (Call.delete_credential id) m =
    rule_permits _ _ _ _ (there (there (there (there (here refl))))) refl
      (Matches-under credentials_prefix _ (omega arith))
management_rules_suffice Call.list_application_ids m =
    rule_permits _ _ _ _ (there (there (here refl))) refl (Matches-literal _ (omega arith))
management_rules_suffice (Call.application id) m =
    rule_permits _ _ _ _ (there (there (there (here refl)))) refl
      (Matches-under applications_prefix _ (omega arith))
management_rules_suffice (Call.delete_application id) m =
    rule_permits _ _ _ _ (there (there (there (there (there (here refl)))))) refl
      (Matches-under applications_prefix _ (omega arith))

-- The change of addresses is permitted by `usable_rules`, and by none of the management rules.
pub address_rule_needed :
    (id : ℤ) (allowed : List IpPrefix)
    → (permitted usable_rules (Call.set_allowed_ips id allowed) ≡ true)
      × (permitted management_rules (Call.set_allowed_ips id allowed) ≡ false)
unfolding usable_rules management_rules address_rule call_route equal_fold
address_rule_needed id allowed = (
  rule_permits _ _ _ _ (there (there (there (there (there (there (here refl))))))) refl
      (Matches-under credentials_prefix _ (omega arith)),
  unfold permits_rules in refl,
)
