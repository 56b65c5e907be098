-- ===== src/Tests/Handlers.antt =====
-- The handlers on the sample account.
use keymaker.Prelude.{pos, none, [], ◌∷◌, ◌≡◌, refl, int_equality, here}
use keymaker.Failure.{api_error, status_code}
use keymaker.Text.{split, index, has_prefix, has_suffix, equal_fold}
use keymaker.Strconv.{format_int}
use keymaker.Credential.{match_path, match_segments, permits, permits_rules}
use keymaker.Ovh.Paths.{credential_path, management_rules}
use keymaker.Ovh.Client.{Call, ◌>>=◌}
use keymaker.Ovh.Makes.{Adds}
use keymaker.Legacy.Provider
use keymaker.Http.Offers.{inactive, revocation_offer}
use keymaker.Http.Sweep.{
  report_revocation, read_listing, known_current, nothing_swept, report_revoked, sweep, sweep_one,
  revoke_inactive,
}
use keymaker.Http.Sweep.Safety.{swept, SweepCall, revoke_inactive-SweepCall}
use keymaker.Http.Sweep.Report.{IsGone, sweep-IsGone, sweep_one_of_lost_identity}
use keymaker.Http.Applications.{delete_keyless_applications}
use keymaker.Http.Applications.Safety.{
  DeletionCall, found_list, delete_keyless_applications-DeletionCall,
}
use keymaker.Tests.World.{own, old, account, lost_account, backwards}

revoke_inactive-SweepCall_example :
    let current = Provider.current account backwards [] in
    let listing = Provider.list account backwards current.1 in
    Adds
      (SweepCall (swept (read_listing listing.0)) (known_current current.0))
      []
      (revoke_inactive account backwards []).1
revoke_inactive-SweepCall_example = revoke_inactive-SweepCall account backwards []

delete_keyless_applications-DeletionCall_example :
    let found = Provider.applications account backwards [] in
    let listing = Provider.list account backwards found.1 in
    Adds
      (DeletionCall (swept (read_listing listing.0)) (found_list found.0))
      []
      (delete_keyless_applications account backwards []).1
delete_keyless_applications-DeletionCall_example =
    delete_keyless_applications-DeletionCall account backwards []

sweep-IsGone_example : IsGone account (pos 2)
unfolding sweep sweep_one revocation_offer Provider.revoke_against report_revocation inactive
    management_rules permits permits_rules match_path match_segments split index has_suffix
    has_prefix credential_path format_int equal_fold ◌>>=◌
sweep-IsGone_example = sweep-IsGone account own (own ∷ old ∷ []) [] (pos 2) (here refl)

sweep_one_of_lost_identity_example :
    sweep_one lost_account none old nothing_swept []
    ≡ (report_revoked (pos 2) nothing_swept, Call.current_credential ∷ [])
unfolding inactive status_code
sweep_one_of_lost_identity_example =
    sweep_one_of_lost_identity lost_account old nothing_swept [] (api_error 404) refl refl refl
