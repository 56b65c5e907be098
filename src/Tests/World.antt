-- ===== src/Tests/World.antt =====
-- A small account: the key in use (1), an expired key (2), and a key (3) that the API lists and
-- cannot describe. Application 12 is the one that key 3 was issued under.
use keymaker.Prelude.{
  ℕ, zero, suc, ◌<◌, ℤ, pos, false, List, [], ◌∷◌, ◌==◌, nat_equality, int_equality, if◌then◌else◌,
  In, here, there, arith, inl, inr, Bool-cases, eq_of,
}
use keymaker.Text.{text}
use keymaker.Failure.{api_error, Result, ok, err}
use keymaker.Credential.{Status, expired, validated, AccessRule, Application, Credential}
use keymaker.Ovh.Client.{Api}
use keymaker.Ovh.Paths.{management_rules}
use keymaker.Legacy.FanOut.{Scheduler}

abbrev pub carrier : ℕ → Application
carrier n = record {
  id = pos n;
  key = text "ak";
  name = text "app";
  description = [];
  external = false;
  deleted = false;
}

abbrev pub key : ℕ → ℕ → Status → List AccessRule → Credential
key id application status rules = record {
  id = pos id;
  application = carrier application;
  status = status;
  rules = rules;
  allowed_ips = [];
  created_at = 1;
  expires_at = 0;
  last_used_at = 0;
  issued_by_support = false;
}

abbrev pub own : Credential
own = key 1 10 validated management_rules

abbrev pub old : Credential
old = key 2 11 expired []

abbrev pub detail : ℤ → Result Credential
detail id = if id == pos 1 then ok own else if id == pos 2 then ok old else err (api_error 500)

abbrev pub number : ℤ → ℕ
number (pos n) = n
number _ = 0

abbrev pub account : Api
account = record {
  current_credential = λ h. ok own;
  list_credential_ids = λ h. ok (pos 1 ∷ pos 2 ∷ pos 3 ∷ []);
  credential = λ h id. detail id;
  credential_application = λ h id. err (api_error 404);
  delete_credential = λ h id. ok tt;
  set_allowed_ips = λ h id allowed. ok tt;
  logout = λ h. ok tt;
  list_application_ids = λ h. ok (pos 10 ∷ pos 12 ∷ []);
  application = λ h id. ok (carrier (number id));
  delete_application = λ h id. ok tt;
}

-- The same account, where the call that identifies the key in use answers 404.
abbrev pub lost_account : Api
lost_account = record account { current_credential = λ h. err (api_error 404) }

abbrev pub down : ℕ → List ℕ
down zero = []
down (suc n) = n ∷ down n

pub In-down : (n i : ℕ) → i < n → In i (down n)
In-down zero i lt = absurd (omega arith)
In-down (suc n) i lt = elim (Bool-cases (i == n)) [
  | inl last ↦ here (eq_of i n last)
  | inr before ↦ there (In-down n i (ground arith))
]

-- The jobs reach the API from the last one to the first.
abbrev pub backwards : Scheduler
backwards = record { order = λ h n. down n; covers = λ h n i lt. In-down n i lt }
