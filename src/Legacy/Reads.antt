-- ===== src/Legacy/Reads.antt =====
-- internal/legacy/provider.go: which calls the methods make. The listing methods, `Get` and
-- `Current` change nothing at the API; a revocation is the only write of `Revoke`.
use keymaker.Prelude.{
  ℕ, ℤ, none, some, List, [], ◌∷◌, ◌≡◌, ◌≢◌, false, ◌==◌, int_equality, ne_of, any,
}
use keymaker.Credential.{Credential}
use keymaker.Ovh.Client.{Call, Api, Calls}
use keymaker.Ovh.Makes.{Makes, Makes-pure, Makes-ask, Makes-bind, Makes-if, Makes-Result, IsRead}
use keymaker.Legacy.FanOut.{Scheduler, update, run_jobs, fan_out}
use keymaker.Legacy.Reading.{Listing, settle}
use keymaker.Legacy.Provider.{
  read_application, resolve_applications, fetch_all, list_read, list, resolve_one, get, current,
  applications, revoke_against, revoke, delete_application_against,
}

module _ {ℓ} {A : Type ℓ} (work : ℕ → Calls A) (reads : (i : ℕ) → Makes IsRead (work i)) where
  run_jobs-Makes : (order : List ℕ) (slots : ℕ → A) → Makes IsRead (run_jobs work order slots)
  unfolding run_jobs
  run_jobs-Makes [] slots = Makes-pure slots
  run_jobs-Makes (i ∷ order) slots =
      Makes-bind (work i) _ (reads i) (λ a. run_jobs-Makes order (update slots i a))

  pub fan_out-Makes :
      (s : Scheduler) (n : ℕ) (slots : ℕ → A) → Makes IsRead (fan_out s work n slots)
  unfolding fan_out
  fan_out-Makes s n slots = record { from = λ h. (run_jobs-Makes (s.order h n) slots).from h }

module _ (api : Api) where
  read_application-Makes : (c : Credential) → Makes IsRead (read_application api c)
  unfolding read_application
  read_application-Makes c = Makes-bind _ _ (Makes-ask _ _ tt) (λ answer.
      Makes-Result answer _ _
        (λ e. Makes-bind _ _ (Makes-ask _ _ tt) (λ v. Makes-pure (settle c e v)))
        (λ found. Makes-pure found))

  module _ (s : Scheduler) where
    resolve_applications-Makes :
        (credentials : List Credential) → Makes IsRead (resolve_applications api s credentials)
    unfolding resolve_applications
    resolve_applications-Makes credentials =
        Makes-bind _ _ (fan_out-Makes _ (λ i. read_application-Makes _) s _ _) (λ r. Makes-pure _)

    fetch_all-Makes : (ids : List ℤ) → Makes IsRead (fetch_all api s ids)
    unfolding fetch_all
    fetch_all-Makes ids =
        Makes-bind _ _
          (fan_out-Makes _ (λ i. Makes-bind _ _ (Makes-ask _ _ tt) (λ a. Makes-pure _)) s _ _)
          (λ r. Makes-pure _)

    list_read-Makes : (r : Listing Credential) → Makes IsRead (list_read api s r)
    unfolding list_read
    list_read-Makes (none, e) = Makes-pure _
    list_read-Makes (some cs, e) =
        Makes-bind _ _ (resolve_applications-Makes cs) (λ r. Makes-pure _)

    pub list-Makes : Makes IsRead (list api s)
    unfolding list
    list-Makes = Makes-bind _ _ (Makes-ask _ _ tt) (λ answer.
        Makes-Result answer _ _ (λ e. Makes-pure _)
          (λ ids. Makes-bind _ _ (fetch_all-Makes ids) (λ r. list_read-Makes r)))

    resolve_one-Makes : (c : Credential) → Makes IsRead (resolve_one api s c)
    unfolding resolve_one
    resolve_one-Makes c = Makes-bind _ _ (resolve_applications-Makes _) (λ r. Makes-pure _)

    pub get-Makes : (id : ℤ) → Makes IsRead (get api s id)
    unfolding get
    get-Makes id = Makes-bind _ _ (Makes-ask _ _ tt) (λ answer.
        Makes-Result answer _ _ (λ e. Makes-pure _)
          (λ c. Makes-bind _ _ (resolve_one-Makes c) (λ r. Makes-pure _)))

    pub current-Makes : Makes IsRead (current api s)
    unfolding current
    current-Makes = Makes-bind _ _ (Makes-ask _ _ tt) (λ answer.
        Makes-Result answer _ _ (λ e. Makes-pure _)
          (λ c. Makes-bind _ _ (resolve_one-Makes c) (λ r. Makes-pure _)))

    pub applications-Makes : Makes IsRead (applications api s)
    unfolding applications
    applications-Makes = Makes-bind _ _ (Makes-ask _ _ tt) (λ answer.
        Makes-Result answer _ _ (λ e. Makes-pure _)
          (λ ids.
            Makes-bind _ _
              (fan_out-Makes _ (λ i. Makes-bind _ _ (Makes-ask _ _ tt) (λ a. Makes-pure _)) s _ _)
              (λ r. Makes-pure _)))

module _ (api : Api) {P : Call → Type 0} where
  pub revoke_against-Makes :
      (c : Credential) (id : ℤ)
      → (c.id ≢ id → P (Call.delete_credential id))
      → Makes P (revoke_against api c id)
  unfolding revoke_against
  revoke_against-Makes c id write =
      Makes-if (c.id == id) _ _ (λ same. Makes-pure _)
        (λ apart. Makes-bind _ _ (Makes-ask _ _ (write (ne_of c.id id apart))) (λ a. Makes-pure _))

  pub revoke-Makes :
      (id : ℤ) → P Call.current_credential → P (Call.delete_credential id) → Makes P (revoke api id)
  unfolding revoke
  revoke-Makes id read write = Makes-bind _ _ (Makes-ask _ _ read) (λ answer.
      Makes-Result answer _ _ (λ e. Makes-pure _) (λ c. revoke_against-Makes c id (λ ne. write)))

  pub delete_application_against-Makes :
      (credentials : List Credential) (id : ℤ)
      → (any (λ c. c.application.id == id) credentials ≡ false → P (Call.delete_application id))
      → Makes P (delete_application_against api credentials id)
  unfolding delete_application_against
  delete_application_against-Makes credentials id write =
      Makes-if (any (λ c. c.application.id == id) credentials) _ _ (λ held. Makes-pure _)
        (λ free. Makes-bind _ _ (Makes-ask _ _ (write free)) (λ a. Makes-pure _))
