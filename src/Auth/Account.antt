-- ===== src/Auth/Account.antt =====
-- The handlers of /logout, /change-password, /sessions and /me in
-- features/auth/express/prisma/files/src/modules/auth/routes.ts.
use projx.Base.Text.{Str, codes}
use projx.Auth.Rows.{UserRow, RefreshTokenRow, is_null}
use projx.Auth.Store.{Client, Db}
use projx.Auth.Services.{Services, Request}
use projx.Auth.Responses.{
  SessionInfo, Response, Parsed, valid, invalid, api_error, done, sessions, profile, unauthorized,
  not_found, parse_or_throw,
}
use projx.Auth.Password.{hash_password, verify_password}
use projx.Auth.Session.{user_info}
use projx.Auth.Login.{by_id, update_user}
use projx.Auth.Challenge.{non_empty}
use projx.Auth.Refresh.{in_session, revoke_data}
use projx.Base.{
  ℕ, Bool, true, false, not, ◌&&◌, Option, none, some, map, if◌then◌else◌, ◌==◌, nat_eq, list_eq,
  option_eq,
}

pub record ChangePasswordBody : Type 0 where
  pub current_password : Str
  pub new_password : Str

abbrev pub of_user : Str → RefreshTokenRow → Bool
of_user user_id row = row.user_id == user_id

abbrev pub session_info : Option Str → RefreshTokenRow → SessionInfo
session_info sid token = record {
  id = token.session_id;
  ip_address = token.ip_address;
  user_agent = token.user_agent;
  expires_at = token.expires_at;
  created_at = token.created_at;
  current = sid == some token.session_id;
}

module _ (services : Services) {U T V : Type 0} (client : Client U T V) where
  -- `refreshToken.updateMany` with the time of revocation, of tokens that are not revoked.
  abbrev pub revoke_tokens : ℕ → (RefreshTokenRow → Bool) → Db U T V → Db U T V
  revoke_tokens now p db = record db {
    refresh_tokens =
        (client.refresh_token.update_many (λ row. p row && is_null row.revoked_at) (revoke_data now)
          db.refresh_tokens).1;
  }

  -- `a ?? b`
  abbrev pub or_else : Option Str → Option Str → Option Str
  or_else none other = other
  or_else (some text) other = some text

  abbrev pub logout_ids : Request → Db U T V → Option Str → Option Str → Db U T V × Response
  logout_ids req db (some user_id) (some session_id) =
      (revoke_tokens req.now (λ row. in_session session_id row && of_user user_id row) db, done)
  logout_ids req db _ _ =
      (db, api_error 400 (codes "session_id is required") (codes "session_id_required"))

  -- The message of an issue stands alone here.
  unfoldable pub logout : Request → Parsed (Option Str) → Db U T V → Db U T V × Response
  logout req (valid session_id) db =
      logout_ids req db (non_empty (some req.auth_sub))
        (non_empty (or_else session_id req.auth_sid))
  logout req (invalid path message) db = (db, api_error 400 message (codes "validation_error"))

  -- The other sessions of the user: all of them when the current one is not known.
  abbrev pub other_session : Option Str → RefreshTokenRow → Bool
  other_session none row = true
  other_session (some sid) row = not (in_session sid row)

  abbrev pub set_password : Request → Str → UserRow → UserRow
  set_password req password user = record user {
    password_hash = some (hash_password services (req.salts 0) password);
  }

  abbrev pub revoke_others : Request → UserRow → Db U T V → Db U T V × Response
  revoke_others req user db = (
    revoke_tokens req.now
        (λ row. of_user req.auth_sub row && other_session (non_empty req.auth_sid) row) db,
    done,
  )

  abbrev pub change_checked : Request → Str → Db U T V → Bool → Db U T V × Response
  change_checked req password db false =
      (db, api_error 400 (codes "Invalid password") (codes "invalid_password"))
  change_checked req password db true =
      update_user services client req.auth_sub (set_password req password) db (revoke_others req)

  abbrev pub change_hash :
      Request → ChangePasswordBody → Db U T V → Option Str → Db U T V × Response
  change_hash req body db none = (db, not_found)
  change_hash req body db (some hash) =
      change_checked req body.new_password db (verify_password services body.current_password hash)

  abbrev pub change_user :
      Request → ChangePasswordBody → Db U T V → Option UserRow → Db U T V × Response
  change_user req body db none = (db, not_found)
  change_user req body db (some user) = change_hash req body db (non_empty user.password_hash)

  unfoldable pub change_password :
      Request → Parsed ChangePasswordBody → Db U T V → Db U T V × Response
  unfolding hash_password verify_password not_found
  change_password req parsed db =
      parse_or_throw parsed db
        λ body. change_user req body db (client.user.find_first (by_id req.auth_sub) db.users)

  unfoldable pub list_sessions : Request → Db U T V → Db U T V × Response
  list_sessions req db = (
    db,
    elim (non_empty (some req.auth_sub)) [
      | none ↦ unauthorized
      | some user_id ↦ sessions (
          map (session_info req.auth_sid) (
            client.refresh_token.find_many (λ row. of_user user_id row && is_null row.revoked_at)
              (λ row. row.created_at) (λ row. row.session_id) db.refresh_tokens))
    ],
  )

  abbrev pub me_user : Option UserRow → Response
  me_user none = not_found
  me_user (some user) =
      if not (is_null user.deleted_at)
      then not_found
      else profile (user_info user) user.email_verified user.mfa_enabled

  unfoldable pub me : Request → Db U T V → Db U T V × Response
  me req db = (
    db,
    elim (non_empty (some req.auth_sub)) [
      | none ↦ unauthorized
      | some user_id ↦ me_user (client.user.find_first (by_id user_id) db.users)
    ],
  )
