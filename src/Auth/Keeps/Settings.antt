-- ===== src/Auth/Keeps/Settings.antt =====
-- What the handlers of a signed-in user, those of tokens sent by mail and the nightly clean-up leave of
-- a property of the refresh tokens:
-- features/auth/express/prisma/files/src/modules/auth/routes.ts and verification-jobs.ts.
use projx.Base.Text.{Str}
use projx.Auth.Rows.{UserRow}
use projx.Auth.Store.{Client, Db}
use projx.Auth.Services.{Services, Request}
use projx.Auth.Responses.{Parsed, valid, invalid}
use projx.Auth.Challenge.{CodeCheck, wrong, right, recovery, undecided, non_empty}
use projx.Auth.Enrollment.{
  DisableBody, enroll, enroll_user, enroll_verify, enroll_pending, enroll_secret, enroll_checked,
  disable, disable_user, disable_password, disable_secret, disable_checked, regenerate,
  regenerate_user, regenerate_secret, regenerate_checked,
}
use projx.Auth.Password.{verify_password}
use projx.Auth.Mfa.{is_mfa_locked}
use projx.Auth.Account.{
  revoke_others, ChangePasswordBody, logout, logout_ids, change_password, change_user, change_hash,
  change_checked,
}
use projx.Auth.Keeps.{
  IsClosed, Holds, Leaves, if_lem, revoke_tokens-Holds, update_user-Leaves, update_answer-Leaves,
}
use projx.Base.{Bool, true, false, not, Option, none, some, nat_eq, list_eq, option_eq}

module _ (services : Services) {U T V : Type 0} (client : Client U T V) {I J : T → Type 0}
    (closed : IsClosed client I J) (req : Request) where
  enroll_user-Leaves :
      (db : Db U T V) (user : Option UserRow)
      → Holds I db
      → Leaves J (enroll_user services client req db user)
  enroll_user-Leaves db none h = closed.kept db.refresh_tokens h
  enroll_user-Leaves db (some user) h =
      if_lem (Leaves J) user.mfa_enabled _ _ (closed.kept db.refresh_tokens h)
        (update_answer-Leaves services client closed req.auth_sub _ db _ h)

  pub enroll-Leaves : (db : Db U T V) → Holds I db → Leaves J (enroll services client req db)
  unfolding enroll
  enroll-Leaves db h = enroll_user-Leaves db _ h

  enroll_checked-Leaves :
      (user : UserRow) (db : Db U T V) (check : CodeCheck)
      → Holds I db
      → Leaves J (enroll_checked services client req user db check)
  enroll_checked-Leaves user db right h =
      update_answer-Leaves services client closed req.auth_sub _ db _ h
  enroll_checked-Leaves user db undecided h = closed.kept db.refresh_tokens h
  enroll_checked-Leaves user db wrong h = closed.kept db.refresh_tokens h
  enroll_checked-Leaves user db (recovery index) h = closed.kept db.refresh_tokens h

  enroll_secret-Leaves :
      (code : Str) (user : UserRow) (db : Db U T V) (secret : Option Str)
      → Holds I db
      → Leaves J (enroll_secret services client req code user db secret)
  enroll_secret-Leaves code user db none h = closed.kept db.refresh_tokens h
  enroll_secret-Leaves code user db (some secret) h =
      if_lem (Leaves J) user.mfa_enabled _ _ (closed.kept db.refresh_tokens h)
        (enroll_checked-Leaves user db _ h)

  enroll_pending-Leaves :
      (code : Str) (db : Db U T V) (user : Option UserRow)
      → Holds I db
      → Leaves J (enroll_pending services client req code db user)
  enroll_pending-Leaves code db none h = closed.kept db.refresh_tokens h
  enroll_pending-Leaves code db (some user) h =
      enroll_secret-Leaves code user db (non_empty user.mfa_secret_enc) h

  pub enroll_verify-Leaves :
      (parsed : Parsed Str) (db : Db U T V)
      → Holds I db
      → Leaves J (enroll_verify services client req parsed db)
  unfolding enroll_verify
  enroll_verify-Leaves (invalid path message) db h = closed.kept db.refresh_tokens h
  enroll_verify-Leaves (valid code) db h = enroll_pending-Leaves code db _ h

  disable_checked-Leaves :
      (user : UserRow) (db : Db U T V) (check : CodeCheck)
      → Holds I db
      → Leaves J (disable_checked services client req user db check)
  disable_checked-Leaves user db undecided h = closed.kept db.refresh_tokens h
  disable_checked-Leaves user db wrong h =
      update_answer-Leaves services client closed user.id _ db _ h
  disable_checked-Leaves user db right h =
      update_answer-Leaves services client closed req.auth_sub _ db _ h
  disable_checked-Leaves user db (recovery index) h =
      update_answer-Leaves services client closed req.auth_sub _ db _ h

  disable_secret-Leaves :
      (body : DisableBody) (user : UserRow) (db : Db U T V) (hash : Str) (secret : Option Str)
      → Holds I db
      → Leaves J (disable_secret services client req body user db hash secret)
  disable_secret-Leaves body user db hash none h = closed.kept db.refresh_tokens h
  disable_secret-Leaves body user db hash (some secret) h =
      if_lem (Leaves J) (not user.mfa_enabled) _ _ (closed.kept db.refresh_tokens h) (
        if_lem (Leaves J) (not (verify_password services body.password hash)) _ _
          (closed.kept db.refresh_tokens h) (disable_checked-Leaves user db _ h))

  disable_password-Leaves :
      (body : DisableBody) (user : UserRow) (db : Db U T V) (hash : Option Str)
      → Holds I db
      → Leaves J (disable_password services client req body user db hash)
  disable_password-Leaves body user db none h = closed.kept db.refresh_tokens h
  disable_password-Leaves body user db (some hash) h =
      disable_secret-Leaves body user db hash (non_empty user.mfa_secret_enc) h

  disable_user-Leaves :
      (body : DisableBody) (db : Db U T V) (user : Option UserRow)
      → Holds I db
      → Leaves J (disable_user services client req body db user)
  disable_user-Leaves body db none h = closed.kept db.refresh_tokens h
  disable_user-Leaves body db (some user) h =
      disable_password-Leaves body user db (non_empty user.password_hash) h

  pub disable-Leaves :
      (parsed : Parsed DisableBody) (db : Db U T V)
      → Holds I db
      → Leaves J (disable services client req parsed db)
  unfolding disable
  disable-Leaves (invalid path message) db h = closed.kept db.refresh_tokens h
  disable-Leaves (valid body) db h = disable_user-Leaves body db _ h

  regenerate_checked-Leaves :
      (user : UserRow) (db : Db U T V) (check : CodeCheck)
      → Holds I db
      → Leaves J (regenerate_checked services client req user db check)
  regenerate_checked-Leaves user db undecided h = closed.kept db.refresh_tokens h
  regenerate_checked-Leaves user db right h =
      update_answer-Leaves services client closed req.auth_sub _ db _ h
  regenerate_checked-Leaves user db wrong h =
      update_answer-Leaves services client closed user.id _ db _ h
  regenerate_checked-Leaves user db (recovery index) h =
      update_answer-Leaves services client closed user.id _ db _ h

  regenerate_secret-Leaves :
      (code : Str) (user : UserRow) (db : Db U T V) (secret : Option Str)
      → Holds I db
      → Leaves J (regenerate_secret services client req code user db secret)
  regenerate_secret-Leaves code user db none h = closed.kept db.refresh_tokens h
  regenerate_secret-Leaves code user db (some secret) h =
      if_lem (Leaves J) (not user.mfa_enabled) _ _ (closed.kept db.refresh_tokens h) (
        if_lem (Leaves J) (is_mfa_locked user.mfa_locked_until req.now) _ _
          (closed.kept db.refresh_tokens h) (regenerate_checked-Leaves user db _ h))

  regenerate_user-Leaves :
      (code : Str) (db : Db U T V) (user : Option UserRow)
      → Holds I db
      → Leaves J (regenerate_user services client req code db user)
  regenerate_user-Leaves code db none h = closed.kept db.refresh_tokens h
  regenerate_user-Leaves code db (some user) h =
      regenerate_secret-Leaves code user db (non_empty user.mfa_secret_enc) h

  pub regenerate-Leaves :
      (parsed : Parsed Str) (db : Db U T V)
      → Holds I db
      → Leaves J (regenerate services client req parsed db)
  unfolding regenerate
  regenerate-Leaves (invalid path message) db h = closed.kept db.refresh_tokens h
  regenerate-Leaves (valid code) db h = regenerate_user-Leaves code db _ h

  logout_ids-Leaves :
      (db : Db U T V) (user_id session_id : Option Str)
      → Holds I db
      → Leaves J (logout_ids services client req db user_id session_id)
  logout_ids-Leaves db none session_id h = closed.kept db.refresh_tokens h
  logout_ids-Leaves db (some user_id) none h = closed.kept db.refresh_tokens h
  logout_ids-Leaves db (some user_id) (some session_id) h =
      revoke_tokens-Holds services client closed req.now _ db h

  pub logout-Leaves :
      (parsed : Parsed (Option Str)) (db : Db U T V)
      → Holds I db
      → Leaves J (logout services client req parsed db)
  unfolding logout
  logout-Leaves (invalid path message) db h = closed.kept db.refresh_tokens h
  logout-Leaves (valid session_id) db h = logout_ids-Leaves db _ _ h

  change_checked-Leaves :
      (password : Str) (db : Db U T V) (ok : Bool)
      → Holds I db
      → Leaves J (change_checked services client req password db ok)
  change_checked-Leaves password db false h = closed.kept db.refresh_tokens h
  change_checked-Leaves password db true h =
      update_user-Leaves services client closed req.auth_sub _ db
        (revoke_others services client req) h
        (λ _ users.
          revoke_tokens-Holds services client closed req.now _ (record db { users = users }) h)

  change_hash-Leaves :
      (body : ChangePasswordBody) (db : Db U T V) (hash : Option Str)
      → Holds I db
      → Leaves J (change_hash services client req body db hash)
  change_hash-Leaves body db none h = closed.kept db.refresh_tokens h
  change_hash-Leaves body db (some hash) h = change_checked-Leaves body.new_password db _ h

  change_user-Leaves :
      (body : ChangePasswordBody) (db : Db U T V) (user : Option UserRow)
      → Holds I db
      → Leaves J (change_user services client req body db user)
  change_user-Leaves body db none h = closed.kept db.refresh_tokens h
  change_user-Leaves body db (some user) h =
      change_hash-Leaves body db (non_empty user.password_hash) h

  pub change_password-Leaves :
      (parsed : Parsed ChangePasswordBody) (db : Db U T V)
      → Holds I db
      → Leaves J (change_password services client req parsed db)
  unfolding change_password
  change_password-Leaves (invalid path message) db h = closed.kept db.refresh_tokens h
  change_password-Leaves (valid body) db h = change_user-Leaves body db _ h
