-- ===== src/Http/Applications/Safety.antt =====
-- internal/httpapi/applications.go: which calls the deletion of the keyless applications makes.
use keymaker.Prelude.{
  ℤ, false, not, Option, none, some, List, [], ◌∷◌, ◌≡◌, refl, arith, ◌==◌, int_equality, ltb, In,
  here, there, any,
}
use keymaker.Credential.{Application, Credential}
use keymaker.Ovh.Client.{Call, Api, History, ◌>>=◌}
use keymaker.Ovh.Makes.{
  Adds, Adds-refl, Adds-trans, Makes, Makes-pure, Makes-bind, Makes-if, Makes-weaken, IsRead,
}
use keymaker.Legacy.FanOut.{Scheduler}
use keymaker.Legacy.Reading.{Listing}
use keymaker.Legacy.Provider
use keymaker.Legacy.Reads.{
  list-Makes, current-Makes, applications-Makes, delete_application_against-Makes,
}
use keymaker.Http.Offers.{deletion_offer}
use keymaker.Http.Sweep.{Listed, listed, unlisted, read_listing, known_current}
use keymaker.Http.Sweep.Safety.{swept}
use keymaker.Http.Applications.{
  used, DeletionReport, delete_keyless, delete_all_keyless, delete_listed, delete_found,
  delete_keyless_applications,
}

-- No credential of the list points at the application.
abbrev pub IsKeyless : List Credential → ℤ → Type 0
IsKeyless credentials id = any (λ c. c.application.id == id) credentials ≡ false

-- A call that the deletion may make: a read, or the deletion of a listed application that no
-- listed credential points at.
abbrev pub DeletionCall : List Credential → List Application → Call → Type 0
DeletionCall credentials found (Call.delete_application id) =
    IsKeyless credentials id × ((a : Application) × In a found × (a.id ≡ id))
DeletionCall credentials found (Call.delete_credential id) = ⊥
DeletionCall credentials found (Call.set_allowed_ips id allowed) = ⊥
DeletionCall credentials found Call.logout = ⊥
DeletionCall credentials found _ = Unit

DeletionCall-read :
    (credentials : List Credential) (found : List Application) (c : Call)
    → IsRead c
    → DeletionCall credentials found c
DeletionCall-read credentials found (Call.delete_application id) r = absurd r
DeletionCall-read credentials found (Call.delete_credential id) r = r
DeletionCall-read credentials found (Call.set_allowed_ips id allowed) r = r
DeletionCall-read credentials found Call.logout r = r
DeletionCall-read credentials found _ r = tt

-- The count that the screen shows is zero exactly when no credential points at the application.
pub used_iff :
    (credentials : List Credential) (id : ℤ)
    → ltb 0 (used credentials id) ≡ any (λ c. c.application.id == id) credentials
unfolding used
used_iff [] id = refl
used_iff (c ∷ cs) id = ground (arith, used_iff cs id)

abbrev pub found_list : Listing Application → List Application
found_list (none, e) = []
found_list (some found, e) = found

module _ (api : Api) (credentials : List Credential) (found : List Application)
    (current : Option Credential) where
  delete_keyless-Makes :
      (a : Application) (r : DeletionReport)
      → In a found
      → Makes (DeletionCall credentials found) (delete_keyless api credentials current a r)
  unfolding delete_keyless
  delete_keyless-Makes a r i =
      Makes-if (ltb 0 (used credentials a.id)) _ _ (λ held. Makes-pure r)
        (λ free.
          Makes-if (not (deletion_offer current a.id 0).allowed) _ _ (λ d. Makes-pure _)
            (λ o.
              Makes-bind _ _
                (delete_application_against-Makes api credentials a.id
                  (λ keyless. (keyless, (a, i, refl))))
                (λ e. Makes-pure _)))

  delete_all_keyless-Makes :
      (as' : List Application) (r : DeletionReport)
      → ((a : Application) → In a as' → In a found)
      → Makes (DeletionCall credentials found) (delete_all_keyless api credentials current as' r)
  unfolding delete_all_keyless
  delete_all_keyless-Makes [] r sub = Makes-pure r
  delete_all_keyless-Makes (a ∷ as') r sub =
      Makes-bind _ _ (delete_keyless-Makes a r (sub a (here refl)))
        (λ r'. delete_all_keyless-Makes as' r' (λ b i. sub b (there i)))

module _ (api : Api) (s : Scheduler) where
  delete_listed-Makes :
      (found : List Application) (l : Listed)
      → Makes (DeletionCall (swept l) found) (delete_listed api s found l)
  unfolding delete_listed
  delete_listed-Makes found (unlisted e) = Makes-pure _
  delete_listed-Makes found (listed cs n) =
      Makes-bind _ _ (Makes-weaken _ (DeletionCall-read cs found) (current-Makes api s)) (λ own.
        Makes-bind _ _
          (delete_all_keyless-Makes api cs found (known_current own) found _ (λ a i. i))
          (λ r. Makes-pure _))

  delete_found-Adds :
      (found : Listing Application) (h : History)
      → let listing = Provider.list api s h in
        Adds
          (DeletionCall (swept (read_listing listing.0)) (found_list found))
          h
          (delete_found api s found h).1
  unfolding delete_found ◌>>=◌
  delete_found-Adds (none, e) h = Adds-refl _ h
  delete_found-Adds (some as', e) h =
      let listing = Provider.list api s h in
      let l = read_listing listing.0 in
      Adds-trans (DeletionCall (swept l) as')
        ((Makes-weaken _ (DeletionCall-read (swept l) as') (list-Makes api s)).from h)
        ((delete_listed-Makes as' l).from listing.1)

  -- Besides reads, the deletion of the keyless applications makes no call but deletions of
  -- applications that the account lists and that no credential it could read points at.
  pub delete_keyless_applications-DeletionCall :
      (h : History)
      → let found = Provider.applications api s h in
        let listing = Provider.list api s found.1 in
        Adds
          (DeletionCall (swept (read_listing listing.0)) (found_list found.0))
          h
          (delete_keyless_applications api s h).1
  unfolding delete_keyless_applications ◌>>=◌
  delete_keyless_applications-DeletionCall h =
      let found = Provider.applications api s h in
      let l = read_listing (Provider.list api s found.1).0 in
      Adds-trans (DeletionCall (swept l) (found_list found.0))
        ((Makes-weaken _ (DeletionCall-read (swept l) (found_list found.0))
            (applications-Makes api s)).from
          h)
        (delete_found-Adds found.0 found.1)
