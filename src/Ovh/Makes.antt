-- ===== src/Ovh/Makes.antt =====
-- Which calls a computation makes, whatever the API answers: one rule for each way to build one.
use mathlib.Core.List.{append_assoc}
use keymaker.Prelude.{
  Bool, true, false, List, [], ◌∷◌, ◌++◌, ◌≡◌, refl, sym, ap, ◌∙◌, if◌then◌else◌,
}
use keymaker.Failure.{Failure, Result, ok, err}
use keymaker.Ovh.Client.{Call, History, Calls, ◌>>=◌, pure, ask}

module _ (P : Call → Type 0) where
  abbrev pub AllCalls : List Call → Type 0
  AllCalls [] = Unit
  AllCalls (c ∷ cs) = P c × AllCalls cs

  pub AllCalls-append : (cs ds : List Call) → AllCalls cs → AllCalls ds → AllCalls (cs ++ ds)
  AllCalls-append [] ds a b = b
  AllCalls-append (c ∷ cs) ds (p, a) b = (p, AllCalls-append cs ds a b)

  -- The calls between two histories are all of the kind `P`.
  pub record Adds (before after : History) : Type 0 where
    pub added : List Call
    pub splits : after ≡ added ++ before
    pub kind : AllCalls added

  pub Adds-refl : (h : History) → Adds h h
  Adds-refl h = record { added = []; splits = refl; kind = tt }

  pub Adds-trans : {h k l : History} → Adds h k → Adds k l → Adds h l
  Adds-trans {h} a b = record {
    added = b.added ++ a.added;
    splits = b.splits ∙ ap (◌++◌ b.added) a.splits ∙ sym (append_assoc b.added a.added h);
    kind = AllCalls-append b.added a.added b.kind a.kind;
  }

-- `m` makes calls of the kind `P` only, from any history.
pub record Makes {ℓ} {A : Type ℓ} (P : Call → Type 0) (m : Calls A) : Type ℓ where
  pub from : (h : History) → Adds P h (m h).1

module _ {P : Call → Type 0} where
  pub Makes-pure {ℓ} : {A : Type ℓ} (a : A) → Makes P (pure a)
  unfolding ◌>>=◌
  Makes-pure a = record { from = λ h. Adds-refl P h }

  pub Makes-ask {ℓ} : {A : Type ℓ} (f : History → A) (c : Call) → P c → Makes P (ask f c)
  unfolding ◌>>=◌
  Makes-ask f c p = record { from = λ h. record { added = c ∷ []; splits = refl; kind = (p, tt) } }

  pub Makes-bind {ℓ κ} :
      {A : Type ℓ} {B : Type κ} (m : Calls A) (f : A → Calls B)
      → Makes P m
      → ((a : A) → Makes P (f a))
      → Makes P (m >>= f)
  unfolding ◌>>=◌
  Makes-bind m f km kf = record { from = λ h. Adds-trans P (km.from h) ((kf (m h).0).from (m h).1) }

  pub Makes-if {ℓ} :
      {A : Type ℓ} (b : Bool) (m n : Calls A)
      → (b ≡ true → Makes P m)
      → (b ≡ false → Makes P n)
      → Makes P (if b then m else n)
  Makes-if true m n km kn = km refl
  Makes-if false m n km kn = kn refl

  pub Makes-Result {ℓ κ} :
      {A : Type ℓ} {B : Type κ} (r : Result A) (a : Failure → Calls B) (b : A → Calls B)
      → ((e : Failure) → Makes P (a e))
      → ((c : A) → Makes P (b c))
      → Makes P (elim r [ ok c ↦ b c | err e ↦ a e ])
  Makes-Result (ok c) a b ka kb = kb c
  Makes-Result (err e) a b ka kb = ka e

AllCalls-weaken :
    {P Q : Call → Type 0} (cs : List Call)
    → ((c : Call) → P c → Q c)
    → AllCalls P cs
    → AllCalls Q cs
AllCalls-weaken [] w a = tt
AllCalls-weaken (c ∷ cs) w (p, a) = (w c p, AllCalls-weaken cs w a)

pub Makes-weaken {ℓ} :
    {A : Type ℓ} {P Q : Call → Type 0} (m : Calls A)
    → ((c : Call) → P c → Q c)
    → Makes P m
    → Makes Q m
Makes-weaken m w k = record {
  from = λ h. record {
    added = (k.from h).added;
    splits = (k.from h).splits;
    kind = AllCalls-weaken (k.from h).added w (k.from h).kind;
  };
}

-- A call that changes nothing at the API.
abbrev pub IsRead : Call → Type 0
IsRead Call.current_credential = Unit
IsRead Call.list_credential_ids = Unit
IsRead (Call.credential id) = Unit
IsRead (Call.credential_application id) = Unit
IsRead (Call.delete_credential id) = ⊥
IsRead (Call.set_allowed_ips id allowed) = ⊥
IsRead Call.logout = ⊥
IsRead Call.list_application_ids = Unit
IsRead (Call.application id) = Unit
IsRead (Call.delete_application id) = ⊥

pub ruleset makes_rules = (Makes-pure, Makes-ask, Makes-bind, Makes-if, Makes-Result)
