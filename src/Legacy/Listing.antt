-- ===== src/Legacy/Listing.antt =====
-- internal/legacy/provider.go, fetchAll: what the listing says of each identifier, whatever the
-- order in which the workers' calls reach the API and whatever it answers.
use keymaker.Prelude.{
  at, ℕ, zero, suc, map, none, ap, if◌then◌else◌, ◌<◌, ℤ, pos, true, false, Option, some, List, [],
  ◌∷◌, ◌≡◌, ◌≢◌, ◌⊎◌, inl, inr, refl, sym, subst, ◌∙◌, arith, ◌==◌, nat_equality, In, Bool-cases,
  length,
}
use keymaker.Failure.{
  Failure, Failures, cons, context, joined, incomplete, Result, ok, err, is, is_any,
  permission_denied, status_code, translate,
}
use keymaker.Credential.{Credential}
use keymaker.Ovh.Client.{Call, Api, History, Calls, ask, pure, ◌>>=◌}
use keymaker.Legacy.FanOut.{Scheduler, fan_out, slot_list}
use keymaker.Legacy.Reading.{
  Slot, fetched, revoked, failed, credential_slot, values, failures, unreadable, read_credentials,
  no_credential,
}
use keymaker.Legacy.Provider.{fetch_all}
use keymaker.Legacy.Slots.{
  pick_each, fan_out_fill, In-slot_list, slot_list-ext, slot_list-map, is_any-failures,
}

-- The credentials among the answers, and how many answers are failures other than a 404.
abbrev pub read_answers : List (Result Credential) → List Credential
read_answers [] = []
read_answers (ok c ∷ answers) = c ∷ read_answers answers
read_answers (err f ∷ answers) = read_answers answers

abbrev pub failed_answers : List (Result Credential) → ℕ
failed_answers [] = 0
failed_answers (ok c ∷ answers) = failed_answers answers
failed_answers (err f ∷ answers) =
    if status_code f == 404 then failed_answers answers else suc (failed_answers answers)

-- The error of a listing with so many credentials missing: none, or one with their number.
abbrev pub Tells : ℕ → Option Failure → Type 0
Tells zero e = e ≡ none
Tells (suc n) e = (g : Failure) × (e ≡ some (incomplete (suc n) g))

module _ (api : Api) (ids : List ℤ) where
  abbrev detail : ℕ → Calls (Slot Credential)
  detail i =
      ask (λ h. api.credential h (at (pos 0) ids i)) (Call.credential (at (pos 0) ids i))
      >>= λ answer. pure (credential_slot answer)

  -- The API answered `answer` to the detail call about the i-th identifier.
  pub record Answered (i : ℕ) (answer : Result Credential) : Type 0 where
    pub before : History
    pub says : api.credential before (at (pos 0) ids i) ≡ answer

  -- Each detail call was answered once; the credentials listed are those answered, in the order of
  -- the identifiers, no answer was a refusal, and the error counts the answers that were failures
  -- but for those of a credential that is gone.
  pub record Accounted (cs : List Credential) (e : Option Failure) : Type 0 where
    pub answers : ℕ → Result Credential
    pub answered : (i : ℕ) → i < length ids → Answered i (answers i)
    pub allowed : (i : ℕ) (f : Failure) → i < length ids → answers i ≡ err f → status_code f ≢ 403
    pub listed : cs ≡ read_answers (slot_list (length ids) answers)
    pub counted : Tells (failed_answers (slot_list (length ids) answers)) e

  module _ (s : Scheduler) (h : History) where
    slots : List (Slot Credential)
    slots = slot_list (length ids) (fan_out s detail (length ids) (λ i. fetched no_credential) h).0

    fetch_all-slots :
        (fetch_all api s ids h).0
        ≡ read_credentials (values slots) (unreadable slots) (failures slots)
    unfolding fetch_all slots ◌>>=◌
    fetch_all-slots = refl

    -- One answer for each identifier, of which the slots are made.
    slots-answers :
        (answers : ℕ → Result Credential) × ((i : ℕ)
          → i < length ids
          → Answered i (answers i) × In (credential_slot (answers i)) slots)
        × (slots ≡ map credential_slot (slot_list (length ids) answers))
    unfolding slots ◌>>=◌
    slots-answers =
        let filled = fan_out s detail (length ids) (λ i. fetched no_credential) h in
        let fill = fan_out_fill detail s (length ids) (λ i. fetched no_credential) h in
        let (answers, each) =
          pick_each (length ids)
            (λ i answer. Answered i answer × (filled.0 i ≡ credential_slot answer))
            (λ i lt. (
              api.credential (fill i lt).0 (at (pos 0) ids i),
              (record { before = (fill i lt).0; says = refl }, (fill i lt).1),
            ))
            (ok no_credential) in
        (
          answers,
          λ i lt. (
            (each i lt).0,
            subst (λ x. In x (slot_list (length ids) filled.0)) (each i lt).1
                (In-slot_list (length ids) filled.0 i lt),
          ),
          slot_list-ext (length ids) filled.0 (λ i. credential_slot (answers i))
                (λ i lt. (each i lt).1)
              ∙ slot_list-map (length ids) credential_slot answers,
        )

read_listed :
    (vs : List Credential) (n : ℕ) (fs : Failures) {cs : List Credential} {e : Option Failure}
    → read_credentials vs n fs ≡ (some cs, e)
    → (vs ≡ cs)
      × (is_any permission_denied fs ≡ false)
      × (((fs ≡ Failures.nil) × (e ≡ none))
          ⊎ ((f g : Failure) × (rest : Failures) × (fs ≡ cons f rest)
              × (e ≡ some (incomplete n g))))
unfolding read_credentials is
read_listed vs n Failures.nil h = (ground arith, refl, inl (refl, ground arith))
read_listed [] n (cons f fs) h = absurd (ground arith)
read_listed (v ∷ vs) n (cons f fs) h =
    (ground arith, ground arith, inr (f, joined (cons f fs), fs, refl, ground arith))

values-answers : (l : List (Result Credential)) → values (map credential_slot l) ≡ read_answers l
unfolding credential_slot
values-answers [] = refl
values-answers (ok c ∷ l) = ap (◌∷◌ c) (values-answers l)
values-answers (err f ∷ l) = elim (Bool-cases (status_code f == 404)) [
  | inl lost ↦ rw lost (values-answers l)
  | inr other ↦ rw other (values-answers l)
]

unreadable-answers :
    (l : List (Result Credential)) → unreadable (map credential_slot l) ≡ failed_answers l
unfolding credential_slot
unreadable-answers [] = refl
unreadable-answers (ok c ∷ l) = unreadable-answers l
unreadable-answers (err f ∷ l) = elim (Bool-cases (status_code f == 404)) [
  | inl lost ↦ rw lost (unreadable-answers l)
  | inr other ↦ rw other (omega (arith, unreadable-answers l))
]

failures-nil : (l : List (Slot Credential)) → failures l ≡ Failures.nil → unreadable l ≡ 0
failures-nil [] e = refl
failures-nil (fetched c ∷ l) e = failures-nil l e
failures-nil (revoked ∷ l) e = failures-nil l e
failures-nil (failed f ∷ l) e = absurd (ground arith)

failures-filled :
    (l : List (Slot Credential)) (f : Failure) (fs : Failures)
    → failures l ≡ cons f fs
    → (n : ℕ) × (unreadable l ≡ suc n)
failures-filled [] f fs e = absurd (ground arith)
failures-filled (fetched c ∷ l) f fs e = failures-filled l f fs e
failures-filled (revoked ∷ l) f fs e = failures-filled l f fs e
failures-filled (failed g ∷ l) f fs e = (unreadable l, omega arith)

-- A refusal by the API is a missing permission in the error that carries it.
is-refusal :
    (f : Failure) → status_code f ≡ 403 → is permission_denied (context (translate f)) ≡ true
unfolding is translate
is-refusal f e = rw e

credential_slot-failed :
    (f : Failure) → status_code f ≢ 404 → credential_slot (err f) ≡ failed (context (translate f))
unfolding credential_slot
credential_slot-failed f ne = ground arith

Tells-unreadable :
    (l : List (Slot Credential)) (e : Option Failure)
    → (((failures l ≡ Failures.nil) × (e ≡ none))
        ⊎ ((f g : Failure) × (rest : Failures) × (failures l ≡ cons f rest)
            × (e ≡ some (incomplete (unreadable l) g))))
    → Tells (unreadable l) e
Tells-unreadable l e (inl (nothing, quiet)) =
    subst (λ n. Tells n e) (sym (failures-nil l nothing)) quiet
Tells-unreadable l e (inr (f, g, rest, some_failed, told)) =
    let (n, count) = failures-filled l f rest some_failed in
    subst (λ n. Tells n e) (sym count) (g, told ∙ ap (λ n. some (incomplete n g)) count)

module _ (api : Api) (s : Scheduler) (ids : List ℤ) (h : History) {cs : List Credential}
    {e : Option Failure} (listing : (fetch_all api s ids h).0 ≡ (some cs, e)) where
  abbrev read : List (Slot Credential)
  read = slots api ids s h

  facts :
      (values read ≡ cs)
      × (is_any permission_denied (failures read) ≡ false)
      × (((failures read ≡ Failures.nil) × (e ≡ none))
          ⊎ ((f g : Failure) × (rest : Failures) × (failures read ≡ cons f rest)
              × (e ≡ some (incomplete (unreadable read) g))))
  facts =
      read_listed (values read) (unreadable read) (failures read)
        (sym (fetch_all-slots api ids s h) ∙ listing)

  -- When the fetch answers a list, the API answered one detail call for each identifier, none of
  -- them with a refusal. The list holds exactly the credentials it answered, in the order of the
  -- identifiers. A 404 is left out, and the other failures are counted: without one there is no
  -- error, and otherwise the error says how many there are.
  pub fetch_all-Accounted : Accounted api ids cs e
  fetch_all-Accounted =
      let (answers, each, made) = slots-answers api ids s h in
      let l = slot_list (length ids) answers in
      record {
        answers = answers;
        answered = λ i lt. (each i lt).0;
        allowed = λ i f lt says refused.
            let m = subst (λ r. In (credential_slot r) read) says (each i lt).1 in
            let m' = subst (λ x. In x read) (credential_slot-failed f (omega arith)) m in
            cc (is_any-failures permission_denied read m' (is-refusal f refused), facts.1);
        listed = sym facts.0 ∙ ap values made ∙ values-answers l;
        counted =
            subst (λ n. Tells n e) (ap unreadable made ∙ unreadable-answers l)
              (Tells-unreadable read e facts.2);
      }
