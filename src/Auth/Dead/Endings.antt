-- ===== src/Auth/Dead/Endings.antt =====
-- How a session ends in features/auth/express/prisma/files/src/modules/auth/routes.ts, and what /refresh
-- answers its tokens from then on.
use projx.Auth.Tables.{find_sound, All-any, All-patch}
use projx.Auth.Dead.Final.{dead_session-IsRefused, IsRefused}
use projx.Auth.Refresh.Replay.{revoke_for_replay_found, live_in}
use projx.Auth.Responses.{token_replay_detected, done, valid}
use projx.Auth.Password.{hash_token}
use projx.Auth.Dead.Ends.{change_password_ends, reset_password_ends, logout_ends, IsOwned}
use projx.Auth.Session.{hash_refresh_token}
use projx.Auth.Account.{logout, change_password, or_else, ChangePasswordBody}
use projx.Auth.Challenge.{non_empty}
use projx.Auth.Recovery.{reset_password, is_usable, ResetPasswordBody}
use projx.Auth.Dead.History.{run, NeverDrawn, Call}
use projx.Auth.Dead.{IsDead, IsDeadRow}
use projx.Auth.Refresh.{
  revoke_data, resolve_rotation_grace_child, is_unused, replay_data, token_id, has_claims, refresh,
}
use projx.Auth.Rows.{VerificationTokenRow, patch, RefreshTokenRow}
use projx.Auth.Store.{Db, IsLawfulClient, Client}
use projx.Auth.Services.{Claims, Request, Services}
use projx.Base.Text.{Str, codes}
use projx.Base.{
  ◌∙◌, sym, ==_iff, ℕ, ◌≡◌, refl, ap, ◌≢◌, true, false, ◌&&◌, Option, none, some, List, ==_refl,
  ◌==◌, nat_eq, list_eq, option_eq, All,
}

module _ (services : Services) {U T V : Type 0} {client : Client U T V}
    (lawful : IsLawfulClient client) (sid : Str) (others : ℕ → Db U T V → Db U T V) (req : Request)
    (fuel : ℕ)
    (keep : (n : ℕ) (db : Db U T V) → IsDead client sid db → IsDead client sid (others n db))
    (token : Str) (decoded : Claims) (calls : List (Request × Call)) where
  -- After a user logs out of a session all of whose tokens are the user's, a refresh token whose
  -- claims name the session is refused, after any sequence of requests and clean-ups, one after the
  -- other, that does not draw the id of the session again, where other requests between the calls of
  -- the database leave the session without a usable token.
  pub logout_final :
      (before : Request) (session_id : Option Str) (db : Db U T V)
      → non_empty (some before.auth_sub) ≡ some before.auth_sub
      → non_empty (or_else services client session_id before.auth_sid) ≡ some sid
      → IsOwned client sid before.auth_sub db
      → NeverDrawn sid calls
      → services.verify token req.now ≡ some decoded
      → decoded.sid ≡ some sid
      → IsRefused (
          refresh services client others req fuel
            (valid token)
            (run services client calls (logout services client before (valid session_id) db).0))
  logout_final before session_id db user same owned fresh read names =
      dead_session-IsRefused services lawful sid others req fuel keep calls _ token decoded fresh
        (logout_ends services lawful sid before session_id db user same owned) read names

  -- After a password is reset with success by a token of the user, a refresh token whose claims name
  -- a session all of whose tokens are the user's is refused, as not valid, as a replay or by an error
  -- of the database, after any sequence of requests and clean-ups, one after the other, that does not
  -- draw the id of the session again. Other requests may change the tables between the calls of
  -- /refresh, as long as they leave the session without a usable token, which a rotation begun before
  -- the reset does not. The client keeps its laws, and the bound on the attempts is any.
  pub reset_password_final :
      (before : Request) (body : ResetPasswordBody) (db : Db U T V) (reset : VerificationTokenRow)
      → client.verification_token.find_first
          (is_usable (hash_token services body.token) (codes "password_reset") before.now)
          db.verification_tokens
        ≡ some reset
      → IsOwned client sid reset.user_id db
      → (reset_password services client before (valid body) db).1 ≡ done
      → NeverDrawn sid calls
      → services.verify token req.now ≡ some decoded
      → decoded.sid ≡ some sid
      → IsRefused (
          refresh services client others req fuel
            (valid token)
            (run services client calls (reset_password services client before (valid body) db).0))
  reset_password_final before body db reset found owned ok fresh read names =
      dead_session-IsRefused services lawful sid others req fuel keep calls _ token decoded fresh
        (reset_password_ends services lawful sid before body db reset found owned ok) read names

  -- The same after a password is changed with success, for every session all of whose tokens are the
  -- user's and that is not the session of the request.
  pub change_password_final :
      (before : Request) (body : ChangePasswordBody) (db : Db U T V)
      → non_empty before.auth_sid ≢ some sid
      → IsOwned client sid before.auth_sub db
      → (change_password services client before (valid body) db).1 ≡ done
      → NeverDrawn sid calls
      → services.verify token req.now ≡ some decoded
      → decoded.sid ≡ some sid
      → IsRefused (
          refresh services client others req fuel
            (valid token)
            (run services client calls (change_password services client before (valid body) db).0))
  change_password_final before body db differs owned ok fresh read names =
      dead_session-IsRefused services lawful sid others req fuel keep calls _ token decoded fresh
        (change_password_ends services lawful sid before body db differs owned ok) read names

module _ (services : Services) {U T V : Type 0} {client : Client U T V}
    (lawful : IsLawfulClient client) (others : ℕ → Db U T V → Db U T V) (req : Request)
    (fuel : ℕ) where
  replay_rows_dead :
      (session_id id : Str) (now : ℕ) (rows : List RefreshTokenRow)
      → All (IsDeadRow session_id) (
          patch
            (token_id id)
            (replay_data now)
            (patch (live_in services lawful session_id) (revoke_data now) rows))
  replay_rows_dead session_id id now rows =
      All-patch (IsDeadRow session_id) (IsDeadRow session_id) (token_id id) (replay_data now) _
        (λ r k _. k) (λ r k _. k)
        (All-patch (λ r. Unit {0}) (IsDeadRow session_id) _ (revoke_data now) rows
          (λ r k hit same. refl) (λ r k miss same. rw (same) at miss) (All-any rows))

  -- A refresh token with the claims that are needed, found by its hash for the user and the session
  -- that it names, that was revoked or rotated and has no usable replacement to go on with when that
  -- is looked up: if its row is still there, whatever else other requests have done by then,
  -- /refresh answers that it detected a replay, and all the tokens that the session has are revoked.
  -- The client keeps its laws, and the bound on the attempts is any.
  pub replay_ends_session :
      (token : Str) (decoded : Claims) (row there : RefreshTokenRow) (db : Db U T V)
      → services.verify token req.now ≡ some decoded
      → (decoded.token_type == some (codes "refresh") && has_claims decoded) ≡ true
      → non_empty decoded.sub ≡ some row.user_id
      → non_empty decoded.sid ≡ some row.session_id
      → let db0 = others 0 db in
        let db1 = others 1 db0 in
        let db2 = others 3 db1 in
        client.refresh_token.find_first
            (λ r. r.token_hash == hash_refresh_token services token)
            db0.refresh_tokens
          ≡ some row
        → is_unused row ≡ false
        → resolve_rotation_grace_child services client row.session_id req.now row db1 ≡ none
        → client.refresh_token.find_first (token_id row.id) db2.refresh_tokens ≡ some there
        → (db' : Db U T V) × (refresh services client others req fuel (valid token) db
            ≡ some (db', token_replay_detected))
          × IsDead client row.session_id db'
  unfolding refresh
  replay_ends_session token decoded row there db read needed sub own found used nothing still =
      let db' = others 3 (others 1 (others 0 db)) in
      let same_id : there.id ≡ row.id = (==_iff there.id row.id).0 (
        find_sound (token_id row.id) (client.refresh_token.rows db'.refresh_tokens) there (
          sym (lawful.refresh_tokens.rows-find_first (token_id row.id) db'.refresh_tokens)
          ∙ still)) in
      let (t, same, rows) =
        revoke_for_replay_found services lawful req.now row.session_id _ there db' still in
      (
        record db' { refresh_tokens = t },
        rw
            (
              read,
              needed,
              sub,
              own,
              found,
              ==_refl row.session_id,
              ==_refl row.user_id,
              used,
              nothing,
            )
            (ap some (rw (same_id) at same)),
        rw (rows) (
            replay_rows_dead row.session_id there.id req.now
              (client.refresh_token.rows db'.refresh_tokens)),
      )
