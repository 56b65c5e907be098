-- ===== src/Http/Applications.antt =====
-- internal/httpapi/applications.go: listing the applications, deleting one, and deleting every one
-- that holds no key.
pub mod Safety
use keymaker.Prelude.{
  ℕ, zero, suc, ◌+◌, ℤ, Bool, true, false, not, ◌&&◌, Option, none, some, List, [], ◌∷◌, ◌++◌, map,
  ◌==◌, int_equality, ltb, if◌then◌else◌,
}
use keymaker.Text.{Text, text}
use keymaker.Strconv.{parse_int}
use keymaker.Failure.{Failure, Result, ok, err, as_incomplete, context}
use keymaker.Credential.{Application, Credential, permits}
use keymaker.Ovh.Client.{Call, Api, History, Calls, ◌>>=◌, pure}
use keymaker.Legacy.FanOut.{Scheduler}
use keymaker.Legacy.Reading.{Listing}
use keymaker.Legacy.Provider
use keymaker.Http.Offers.{Reason, no_reason, missing_rule, Offer, deletion_offer}
use keymaker.Http.Replies.{
  Reply, answered, no_content, refused, ErrorCode, code_bad_identifier, code_permission_denied,
  fail, fail_application_deletion, application_error_code,
}
use keymaker.Http.Sweep.{Listed, listed, unlisted, read_listing, known_current}

-- The map `used`: how many of the credentials point at the application.
unfoldable pub used : List Credential → ℤ → ℕ
used [] id = 0
used (c ∷ cs) id = let rest = used cs id in if c.application.id == id then rest + 1 else rest

pub record ApplicationUse : Type 0 where
  pub application : Application
  pub credentials : ℕ
  pub delete : Offer

pub record ApplicationsResponse : Type 0 where
  pub is_listed : Bool
  pub reason : Reason
  pub applications : List ApplicationUse
  pub unreadable : ℕ

abbrev listing_denied : ApplicationsResponse
listing_denied = record {
  is_listed = false;
  reason = missing_rule;
  applications = [];
  unreadable = 0;
}

abbrev unreadable_in : Option Failure → ℕ
unreadable_in none = 0
unreadable_in (some e) = elim (as_incomplete e) [ none ↦ 0 | some n ↦ n ]

-- The error of a listing with no list.
abbrev error_of : Option Failure → Failure
error_of none = context (Failure.unread 0)
error_of (some e) = e

abbrev counted : Listed → List Credential
counted (listed cs n) = cs
counted (unlisted e) = []

-- The management key is known to hold no rule for the listing.
abbrev lacks_listing : Result Credential → Bool
lacks_listing (err e) = false
lacks_listing (ok own) = not (permits own (text "GET") (text "/me/api/application"))

unfoldable pub describe_use : List Credential → Option Credential → Application → ApplicationUse
unfolding used
describe_use credentials current a = record {
  application = a;
  credentials = used credentials a.id;
  delete = deletion_offer current a.id (used credentials a.id);
}

abbrev deleted_or {ℓ} : {A : Type ℓ} → Option Failure → Reply A
deleted_or none = no_content
deleted_or (some e) = fail_application_deletion e

pub record DeletionReport : Type 0 where
  pub deleted : List ℤ
  pub failed : List (ℤ × ErrorCode)

unfoldable pub report_deletion : ℤ → Option Failure → DeletionReport → DeletionReport
report_deletion id none r = record r { deleted = r.deleted ++ id ∷ [] }
report_deletion id (some e) r = record r {
  failed = r.failed ++ (id, application_error_code e) ∷ [];
}

module _ (api : Api) where
  -- The body of the loop of `deleteKeylessApplications`.
  unfoldable pub delete_keyless :
      List Credential → Option Credential → Application → DeletionReport → Calls DeletionReport
  delete_keyless credentials current a r =
      if ltb 0 (used credentials a.id)
      then pure r
      else let offer = deletion_offer current a.id 0 in
        if not offer.allowed
        then pure (record r { failed = r.failed ++ (a.id, code_permission_denied) ∷ [] })
        else (do
          e ← Provider.delete_application_against api credentials a.id
          pure (report_deletion a.id e r))

  unfoldable pub delete_all_keyless :
      List Credential → Option Credential → List Application → DeletionReport → Calls DeletionReport
  unfolding delete_keyless
  delete_all_keyless credentials current [] r = pure r
  delete_all_keyless credentials current (a ∷ as') r = do
    r' ← delete_keyless credentials current a r
    delete_all_keyless credentials current as' r'

  module _ (s : Scheduler) where
    -- `GET /api/applications`, once the listing is allowed.
    unfoldable pub list_uses : Listing Application → Calls (Reply ApplicationsResponse)
    unfolding describe_use read_listing
    list_uses (none, e) = pure (fail (error_of e))
    list_uses (some found, e) = do
      listing ← Provider.list api s
      own ← Provider.current api s
      pure (
          answered (record {
            is_listed = true;
            reason = no_reason;
            applications =
                map (describe_use (counted (read_listing listing)) (known_current own)) found;
            unreadable = unreadable_in e;
          }))

    unfoldable pub applications : Calls (Reply ApplicationsResponse)
    unfolding list_uses
    applications = do
      own ← Provider.current api s
      if lacks_listing own
          then pure (answered listing_denied)
          else do found ← Provider.applications api s; list_uses found

    unfoldable pub delete_id : Option ℤ → Calls (Reply (Unit {0}))
    delete_id none = pure (refused 400 code_bad_identifier)
    delete_id (some id) = do e ← Provider.delete_application api s id; pure (deleted_or e)

    -- `DELETE /api/applications/{id}`
    unfoldable pub delete_application : Text → Calls (Reply (Unit {0}))
    unfolding delete_id
    delete_application path_id = delete_id (parse_int path_id)

    unfoldable pub delete_listed : List Application → Listed → Calls (Reply DeletionReport)
    unfolding delete_all_keyless
    delete_listed found (unlisted e) = pure (fail e)
    delete_listed found (listed credentials n) = do
      own ← Provider.current api s
      r ←
          delete_all_keyless credentials (known_current own) found
            (record { deleted = []; failed = [] })
      pure (answered r)

    unfoldable pub delete_found : Listing Application → Calls (Reply DeletionReport)
    unfolding delete_listed read_listing
    delete_found (none, e) = pure (fail (error_of e))
    delete_found (some found, e) = do
      listing ← Provider.list api s
      delete_listed found (read_listing listing)

    -- `POST /api/applications/keyless/deletions`
    unfoldable pub delete_keyless_applications : Calls (Reply DeletionReport)
    unfolding delete_found
    delete_keyless_applications = do found ← Provider.applications api s; delete_found found
