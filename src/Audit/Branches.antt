-- ===== src/Audit/Branches.antt =====
-- internal/audit/audit.go: the sensitive branches of the API and the tests that say whether a rule
-- reaches one.
use keymaker.Prelude.{
  ℕ, Bool, true, false, ◌&&◌, ◌||◌, none, some, List, [], ◌∷◌, ◌++◌, ◌==◌, nat_equality,
  list_equality, ltb, if◌then◌else◌, length, any,
}
use keymaker.Text.{Text, text, take, has_prefix, has_suffix, trim_suffix, index, equal_fold}
use keymaker.Credential.{AccessRule}

pub data Code : Type 0 where
  broad_access no_ip_restriction no_expiry expires_soon never_used dormant no_description : Code
  support_issued account_control billing_access wider_than_needed same_as_another : Code
  pending_validation : Code

abbrev rank : Code → ℕ
rank broad_access = 0
rank no_ip_restriction = 1
rank no_expiry = 2
rank expires_soon = 3
rank never_used = 4
rank dormant = 5
rank no_description = 6
rank support_issued = 7
rank account_control = 8
rank billing_access = 9
rank wider_than_needed = 10
rank same_as_another = 11
rank pending_validation = 12

abbrev pub Code-beq : Code → Code → Bool
Code-beq a b = rank a == rank b

pub record Branch : Type 0 where
  pub finding : Code
  pub path : Text
  pub methods : List Text

abbrev control : Text → List Text → Branch
control path methods = record { finding = account_control; path = path; methods = methods }

abbrev billing : Text → Branch
billing path = record { finding = billing_access; path = path; methods = [] }

abbrev pub writes : List Text
writes = text "POST" ∷ text "PUT" ∷ text "DELETE" ∷ []

unfoldable pub sensitive_branches : List Branch
sensitive_branches =
    control (text "/me/accessRestriction") writes
    ∷ control (text "/me/identity") writes
    ∷ control (text "/me/subAccount") (text "POST" ∷ text "PUT" ∷ [])
    ∷ control (text "/me/api/oauth2/client") (text "POST" ∷ text "PUT" ∷ [])
    ∷ control (text "/me/api/credential") (text "PUT" ∷ [])
    ∷ control (text "/me/changeEmail") (text "POST" ∷ [])
    ∷ control (text "/me/changePassword") (text "POST" ∷ [])
    ∷ control (text "/me/passwordRecover") (text "POST" ∷ [])
    ∷ control (text "/me/sshKey") (text "POST" ∷ text "DELETE" ∷ [])
    ∷ billing (text "/me/autorenew")
    ∷ billing (text "/me/availableAutomaticPaymentMeans")
    ∷ billing (text "/me/bill")
    ∷ billing (text "/me/billing")
    ∷ billing (text "/me/consumption")
    ∷ billing (text "/me/correctiveInvoice")
    ∷ billing (text "/me/credit")
    ∷ billing (text "/me/debtAccount")
    ∷ billing (text "/me/deposit")
    ∷ billing (text "/me/downPaymentInvoice")
    ∷ billing (text "/me/fidelityAccount")
    ∷ billing (text "/me/order")
    ∷ billing (text "/me/ovhAccount")
    ∷ billing (text "/me/payment")
    ∷ billing (text "/me/paymentMean")
    ∷ billing (text "/me/refund")
    ∷ billing (text "/me/reverseBill")
    ∷ billing (text "/me/voucher")
    ∷ billing (text "/me/withdrawal")
    ∷ []

unfoldable pub within : Text → Text → Bool
within path branch = path == branch || has_prefix path (branch ++ b'/' ∷ [])

-- `len(b.Methods) > 0 && !ContainsFunc(…)` is the early return.
unfoldable pub method_counts : List Text → Text → Bool
method_counts [] method = true
method_counts (m ∷ ms) method = any (λ n. equal_fold n method) (m ∷ ms)

-- A rule without a wildcard: no route ends in a slash.
unfoldable pub route_reaches : Text → Text → Bool
route_reaches path branch =
    if ltb 1 (length path) && has_suffix path (b'/' ∷ []) then false else within path branch

-- A rule whose part before the first wildcard is `fixed`.
unfoldable pub fixed_reaches : Text → Text → Bool
fixed_reaches fixed branch =
    within (trim_suffix fixed (b'/' ∷ [])) branch || has_prefix branch fixed

unfoldable pub path_reaches : Text → Text → Bool
path_reaches path branch = elim (index path (b'*' ∷ [])) [
  | none ↦ route_reaches path branch
  | some at ↦ fixed_reaches (take at path) branch
]

-- `Branch.Reaches`
unfoldable pub branch_reaches : Branch → AccessRule → Bool
branch_reaches b rule = method_counts b.methods rule.method && path_reaches rule.path b.path

unfoldable pub reaches : List AccessRule → Code → Bool
reaches rules code =
    any (λ b. Code-beq b.finding code && any (λ rule. branch_reaches b rule) rules)
      sensitive_branches

unfoldable pub is_broad : Text → Bool
is_broad path = elim (index path (b'*' ∷ [])) [
  | none ↦ false
  | some at ↦
      let fixed = trim_suffix (take at path) (b'/' ∷ []) in fixed == [] || fixed == text "/me"
]

unfoldable pub has_broad_rule : List AccessRule → Bool
has_broad_rule rules = any (λ rule. is_broad rule.path) rules
