-- ===== src/Http/Revocation.antt =====
-- internal/httpapi/revoke.go: revoking one key, and ending the one in use.
use keymaker.Prelude.{ℤ, Option, none, some}
use keymaker.Text.{Text}
use keymaker.Strconv.{parse_int}
use keymaker.Failure.{Failure, Result, ok, err}
use keymaker.Ovh.Client.{Api, Calls, ◌>>=◌, pure}
use keymaker.Legacy.Provider.{Retirement}
use keymaker.Legacy.Provider
use keymaker.Http.Replies.{
  Reply, answered, no_content, refused, fail_revocation, code_bad_identifier,
}

abbrev done_or {ℓ} : {A : Type ℓ} → Option Failure → Reply A
done_or none = no_content
done_or (some e) = fail_revocation e

abbrev retired_or : Result Retirement → Reply Retirement
retired_or (ok r) = answered r
retired_or (err e) = fail_revocation e

module _ (api : Api) where
  unfoldable pub revoke_id : Option ℤ → Calls (Reply (Unit {0}))
  revoke_id none = pure (refused 400 code_bad_identifier)
  revoke_id (some id) = do e ← Provider.revoke api id; pure (done_or e)

  -- `DELETE /api/credentials/{id}`
  unfoldable pub revoke : Text → Calls (Reply (Unit {0}))
  unfolding revoke_id
  revoke path_id = revoke_id (parse_int path_id)

  -- `POST /api/credentials/current/retirement`
  unfoldable pub retire : Calls (Reply Retirement)
  retire = do r ← Provider.retire api; pure (retired_or r)
