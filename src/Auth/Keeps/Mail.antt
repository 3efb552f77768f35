-- ===== src/Auth/Keeps/Mail.antt =====
-- What the handlers of tokens sent by mail and the nightly clean-up leave of a property of
-- the refresh tokens: features/auth/express/prisma/files/src/modules/auth/routes.ts and verification-jobs.ts.
use projx.Base.Text.{Str}
use projx.Auth.Rows.{UserRow, VerificationTokenRow}
use projx.Auth.Store.{Client, Db}
use projx.Auth.Services.{Services, Request}
use projx.Auth.Responses.{Parsed, valid, invalid}
use projx.Auth.Recovery.{
  ResetPasswordBody, forgot_password, forgot_user, reset_password, reset_found, reset_user,
  consume_reset, verify_email, verify_found, verify_user, consume_verification, resend_verification,
  resend_user,
}
use projx.Auth.Jobs.{cleanup_auth_artifacts}
use projx.Auth.Keeps.{IsClosed, Holds, Leaves, if_lem, revoke_tokens-Holds}
use projx.Base.{ℕ, Option, none, some, nat_eq, list_eq, option_eq}

module _ (services : Services) {U T V : Type 0} (client : Client U T V) {I J : T → Type 0}
    (closed : IsClosed client I J) (req : Request) where
  forgot_user-Leaves :
      (db : Db U T V) (user : Option UserRow)
      → Holds I db
      → Leaves J (forgot_user services client req db user)
  forgot_user-Leaves db none h = closed.kept db.refresh_tokens h
  forgot_user-Leaves db (some user) h = closed.kept db.refresh_tokens h

  pub forgot_password-Leaves :
      (parsed : Parsed Str) (db : Db U T V)
      → Holds I db
      → Leaves J (forgot_password services client req parsed db)
  unfolding forgot_password
  forgot_password-Leaves (invalid path message) db h = closed.kept db.refresh_tokens h
  forgot_password-Leaves (valid email) db h = forgot_user-Leaves db _ h

  consume_reset-Leaves :
      (reset : VerificationTokenRow) (db : Db U T V) (users : U)
      (updated : Option (VerificationTokenRow × V))
      → Holds I db
      → Leaves J (consume_reset services client req reset db users updated)
  consume_reset-Leaves reset db users none h = closed.kept db.refresh_tokens h
  consume_reset-Leaves reset db users (some (row, tokens)) h =
      revoke_tokens-Holds services client closed req.now _
        (record db { users = users; verification_tokens = tokens }) h

  reset_user-Leaves :
      (reset : VerificationTokenRow) (db : Db U T V) (updated : Option (UserRow × U))
      → Holds I db
      → Leaves J (reset_user services client req reset db updated)
  reset_user-Leaves reset db none h = closed.kept db.refresh_tokens h
  reset_user-Leaves reset db (some (user, users)) h = consume_reset-Leaves reset db users _ h

  reset_found-Leaves :
      (password : Str) (db : Db U T V) (reset : Option VerificationTokenRow)
      → Holds I db
      → Leaves J (reset_found services client req password db reset)
  reset_found-Leaves password db none h = closed.kept db.refresh_tokens h
  reset_found-Leaves password db (some reset) h = reset_user-Leaves reset db _ h

  pub reset_password-Leaves :
      (parsed : Parsed ResetPasswordBody) (db : Db U T V)
      → Holds I db
      → Leaves J (reset_password services client req parsed db)
  unfolding reset_password
  reset_password-Leaves (invalid path message) db h = closed.kept db.refresh_tokens h
  reset_password-Leaves (valid body) db h = reset_found-Leaves body.new_password db _ h

  consume_verification-Leaves :
      (db : Db U T V) (users : U) (updated : Option (VerificationTokenRow × V))
      → Holds I db
      → Leaves J (consume_verification services client db users updated)
  consume_verification-Leaves db users none h = closed.kept db.refresh_tokens h
  consume_verification-Leaves db users (some (row, tokens)) h = closed.kept db.refresh_tokens h

  verify_user-Leaves :
      (token : VerificationTokenRow) (db : Db U T V) (updated : Option (UserRow × U))
      → Holds I db
      → Leaves J (verify_user services client req token db updated)
  verify_user-Leaves token db none h = closed.kept db.refresh_tokens h
  verify_user-Leaves token db (some (user, users)) h = consume_verification-Leaves db users _ h

  verify_found-Leaves :
      (db : Db U T V) (token : Option VerificationTokenRow)
      → Holds I db
      → Leaves J (verify_found services client req db token)
  verify_found-Leaves db none h = closed.kept db.refresh_tokens h
  verify_found-Leaves db (some token) h = verify_user-Leaves token db _ h

  pub verify_email-Leaves :
      (parsed : Parsed Str) (db : Db U T V)
      → Holds I db
      → Leaves J (verify_email services client req parsed db)
  unfolding verify_email
  verify_email-Leaves (invalid path message) db h = closed.kept db.refresh_tokens h
  verify_email-Leaves (valid token) db h = verify_found-Leaves db _ h

  resend_user-Leaves :
      (db : Db U T V) (user : Option UserRow)
      → Holds I db
      → Holds J (resend_user services client req db user)
  resend_user-Leaves db none h = closed.kept db.refresh_tokens h
  resend_user-Leaves db (some user) h =
      if_lem (Holds J) user.email_verified _ _ (closed.kept db.refresh_tokens h)
        (closed.kept db.refresh_tokens h)

  pub resend_verification-Leaves :
      (parsed : Parsed Str) (db : Db U T V)
      → Holds I db
      → Leaves J (resend_verification services client req parsed db)
  unfolding resend_verification
  resend_verification-Leaves (invalid path message) db h = closed.kept db.refresh_tokens h
  resend_verification-Leaves (valid email) db h = resend_user-Leaves db _ h

  pub cleanup-Leaves :
      (now : ℕ) (db : Db U T V) → Holds I db → Holds J (cleanup_auth_artifacts client now db).0
  unfolding cleanup_auth_artifacts
  cleanup-Leaves now db h = closed.deleted _ db.refresh_tokens h
