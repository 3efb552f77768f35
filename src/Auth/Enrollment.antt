-- ===== src/Auth/Enrollment.antt =====
-- The handlers of /mfa/enroll, /mfa/enroll/verify, /mfa/disable and /mfa/recovery-codes/regenerate in
-- features/auth/express/prisma/files/src/modules/auth/routes.ts.
use projx.Base.Text.{Str, codes}
use projx.Auth.Rows.{UserRow}
use projx.Auth.Store.{Client, Db}
use projx.Auth.Services.{Services, Request}
use projx.Auth.Responses.{
  Response, Parsed, api_error, exception, enrolling, recovery_codes, done, not_found,
  parse_or_throw,
}
use projx.Auth.Password.{verify_password}
use projx.Auth.Mfa.{
  is_mfa_locked, generate_recovery_codes, generate_from, hash_from, hash_recovery_codes,
  encrypt_recovery_codes,
}
use projx.Auth.Login.{by_id, update_user}
use projx.Auth.Challenge.{
  CodeCheck, wrong, right, undecided, check_code, non_empty, record_mfa_failure,
}
use projx.Base.{
  ℕ, Bool, true, false, not, Option, none, some, if◌then◌else◌, nat_eq, list_eq, option_eq,
}

pub record DisableBody : Type 0 where
  pub password : Str
  pub code : Str
  pub use_recovery : Bool

abbrev pub enroll_data : Str → UserRow → UserRow
enroll_data secret_enc user = record user {
  mfa_secret_enc = some secret_enc;
  mfa_verified_at = none;
}

abbrev pub enabled_data : Str → ℕ → UserRow → UserRow
enabled_data codes_enc now user = record user {
  mfa_enabled = true;
  mfa_verified_at = some now;
  mfa_recovery_codes_enc = some codes_enc;
  mfa_failed_count = 0;
  mfa_locked_until = none;
}

abbrev pub disabled_data : UserRow → UserRow
disabled_data user = record user {
  mfa_enabled = false;
  mfa_secret_enc = none;
  mfa_recovery_codes_enc = none;
  mfa_verified_at = none;
  mfa_failed_count = 0;
  mfa_locked_until = none;
}

abbrev pub regenerated_data : Str → UserRow → UserRow
regenerated_data codes_enc user = record user {
  mfa_recovery_codes_enc = some codes_enc;
  mfa_failed_count = 0;
  mfa_locked_until = none;
}

abbrev pub mfa_not_enabled : Response
mfa_not_enabled = api_error 400 (codes "MFA is not enabled.") (codes "mfa_not_enabled")

abbrev pub invalid_mfa_code : Response
invalid_mfa_code = api_error 400 (codes "Invalid MFA code") (codes "invalid_mfa_code")

module _ (services : Services) {U T V : Type 0} (client : Client U T V) where
  abbrev pub enroll_user : Request → Db U T V → Option UserRow → Db U T V × Response
  enroll_user req db none = (db, not_found)
  enroll_user req db (some user) =
      if user.mfa_enabled
      then (
        db,
        api_error 409 (codes "MFA is already enabled. Disable it first to re-enroll.")
            (codes "mfa_already_enabled"),
      )
      else update_user services client req.auth_sub (enroll_data (services.encrypt req.totp_secret))
          db
          λ _ db'. (
            db',
            enrolling req.totp_secret
                (services.keyuri user.email services.mfa_issuer req.totp_secret),
          )

  unfoldable pub enroll : Request → Db U T V → Db U T V × Response
  unfolding not_found
  enroll req db = enroll_user req db (client.user.find_first (by_id req.auth_sub) db.users)

  -- New recovery codes: encrypted, as they are stored, and in clear.
  abbrev pub new_codes_enc : Request → Str
  new_codes_enc req =
      encrypt_recovery_codes services
        (hash_recovery_codes services req.salts (generate_recovery_codes req.picks))

  abbrev pub enroll_checked : Request → UserRow → Db U T V → CodeCheck → Db U T V × Response
  enroll_checked req user db right =
      update_user services client req.auth_sub (enabled_data (new_codes_enc req) req.now) db
        λ _ db'. (db', recovery_codes (generate_recovery_codes req.picks))
  enroll_checked req user db undecided = (db, exception)
  enroll_checked req user db _ = (
    db,
    api_error 400 (codes "Invalid code. Scan the QR and try again.") (codes "invalid_mfa_code"),
  )

  abbrev pub no_mfa_enrollment : Response
  no_mfa_enrollment =
      api_error 400 (codes "No pending MFA enrollment. Start enrollment first.")
        (codes "no_mfa_enrollment")

  abbrev pub enroll_secret : Request → Str → UserRow → Db U T V → Option Str → Db U T V × Response
  enroll_secret req code user db none = (db, no_mfa_enrollment)
  enroll_secret req code user db (some secret_enc) =
      if user.mfa_enabled
      then (db, api_error 409 (codes "MFA is already enabled.") (codes "mfa_already_enabled"))
      else enroll_checked req user db (check_code services false code req.now none secret_enc)

  abbrev pub enroll_pending : Request → Str → Db U T V → Option UserRow → Db U T V × Response
  enroll_pending req code db none = (db, no_mfa_enrollment)
  enroll_pending req code db (some user) =
      enroll_secret req code user db (non_empty user.mfa_secret_enc)

  unfoldable pub enroll_verify : Request → Parsed Str → Db U T V → Db U T V × Response
  unfolding check_code generate_from hash_from
  enroll_verify req parsed db =
      parse_or_throw parsed db
        λ code. enroll_pending req code db (client.user.find_first (by_id req.auth_sub) db.users)

  abbrev pub disable_checked : Request → UserRow → Db U T V → CodeCheck → Db U T V × Response
  disable_checked req user db undecided = (db, exception)
  disable_checked req user db wrong =
      record_mfa_failure services client req user db invalid_mfa_code
  disable_checked req user db _ =
      update_user services client req.auth_sub disabled_data db λ _ db'. (db', done)

  abbrev pub disable_secret :
      Request → DisableBody → UserRow → Db U T V → Str → Option Str → Db U T V × Response
  disable_secret req body user db hash none = (db, mfa_not_enabled)
  disable_secret req body user db hash (some secret_enc) =
      if not user.mfa_enabled
      then (db, mfa_not_enabled)
      else if not (verify_password services body.password hash)
      then (db, api_error 400 (codes "Invalid password") (codes "invalid_password"))
      else disable_checked req user db (
          check_code services body.use_recovery body.code req.now user.mfa_recovery_codes_enc
            secret_enc)

  abbrev pub disable_password :
      Request → DisableBody → UserRow → Db U T V → Option Str → Db U T V × Response
  disable_password req body user db none = (db, not_found)
  disable_password req body user db (some hash) =
      disable_secret req body user db hash (non_empty user.mfa_secret_enc)

  abbrev pub disable_user : Request → DisableBody → Db U T V → Option UserRow → Db U T V × Response
  disable_user req body db none = (db, not_found)
  disable_user req body db (some user) =
      disable_password req body user db (non_empty user.password_hash)

  unfoldable pub disable : Request → Parsed DisableBody → Db U T V → Db U T V × Response
  unfolding verify_password check_code not_found
  disable req parsed db =
      parse_or_throw parsed db
        λ body. disable_user req body db (client.user.find_first (by_id req.auth_sub) db.users)

  abbrev pub regenerate_checked : Request → UserRow → Db U T V → CodeCheck → Db U T V × Response
  regenerate_checked req user db undecided = (db, exception)
  regenerate_checked req user db right =
      update_user services client req.auth_sub (regenerated_data (new_codes_enc req)) db
        λ _ db'. (db', recovery_codes (generate_recovery_codes req.picks))
  regenerate_checked req user db _ = record_mfa_failure services client req user db invalid_mfa_code

  abbrev pub regenerate_secret :
      Request → Str → UserRow → Db U T V → Option Str → Db U T V × Response
  regenerate_secret req code user db none = (db, mfa_not_enabled)
  regenerate_secret req code user db (some secret_enc) =
      if not user.mfa_enabled
      then (db, mfa_not_enabled)
      else if is_mfa_locked user.mfa_locked_until req.now
      then (db, api_error 429 (codes "MFA temporarily locked.") (codes "mfa_locked"))
      else regenerate_checked req user db (check_code services false code req.now none secret_enc)

  abbrev pub regenerate_user : Request → Str → Db U T V → Option UserRow → Db U T V × Response
  regenerate_user req code db none = (db, mfa_not_enabled)
  regenerate_user req code db (some user) =
      regenerate_secret req code user db (non_empty user.mfa_secret_enc)

  unfoldable pub regenerate : Request → Parsed Str → Db U T V → Db U T V × Response
  unfolding is_mfa_locked check_code generate_from hash_from
  regenerate req parsed db =
      parse_or_throw parsed db
        λ code. regenerate_user req code db (client.user.find_first (by_id req.auth_sub) db.users)
