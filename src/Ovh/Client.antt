-- ===== src/Ovh/Client.antt =====
-- internal/ovh/client.go: the calls on the OVHcloud API as its callers see them. The API is not
-- code of the repository: it is a record of answers, each a function of the calls made before it,
-- so it may change between two calls and answer as it likes.
use keymaker.Prelude.{ℤ, List, ◌∷◌}
use keymaker.Failure.{Result}
use keymaker.Netip.{IpPrefix}
use keymaker.Credential.{Application, Credential}

-- The methods of `Client` that internal/legacy calls.
pub data Call : Type 0 where
  current_credential : Call
  list_credential_ids : Call
  credential : ℤ → Call
  credential_application : ℤ → Call
  delete_credential : ℤ → Call
  set_allowed_ips : ℤ → List IpPrefix → Call
  logout : Call
  list_application_ids : Call
  application : ℤ → Call
  delete_application : ℤ → Call

-- The calls made so far, the last one first.
abbrev pub History : Type 0
History = List Call

pub record Api : Type 0 where
  pub current_credential : History → Result Credential
  pub list_credential_ids : History → Result (List ℤ)
  pub credential : History → ℤ → Result Credential
  pub credential_application : History → ℤ → Result Application
  pub delete_credential : History → ℤ → Result (Unit {0})
  pub set_allowed_ips : History → ℤ → List IpPrefix → Result (Unit {0})
  pub logout : History → Result (Unit {0})
  pub list_application_ids : History → Result (List ℤ)
  pub application : History → ℤ → Result Application
  pub delete_application : History → ℤ → Result (Unit {0})

-- A computation that makes calls.
abbrev pub Calls {ℓ} : Type ℓ → Type ℓ
Calls A = History → A × History

pub pure {ℓ} : {A : Type ℓ} → A → Calls A
pure a h = (a, h)

-- Makes one call and reads its answer.
pub ask {ℓ} : {A : Type ℓ} → (History → A) → Call → Calls A
ask answer call h = (answer h, call ∷ h)

infixl 5 ◌>>=◌
-- Opening this opens `pure` and `ask` too.
unfoldable pub ◌>>=◌ {ℓ κ} : {A : Type ℓ} {B : Type κ} → Calls A → (A → Calls B) → Calls B
unfolding pure ask
◌>>=◌ m f h = let r = m h in f r.0 r.1
