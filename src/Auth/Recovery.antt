-- ===== src/Auth/Recovery.antt =====
-- The handlers of /forgot-password, /reset-password, /verify-email and /resend-verification in
-- features/auth/express/prisma/files/src/modules/auth/routes.ts.
use projx.Base.Text.{Str, codes, to_lower_case}
use projx.Auth.Rows.{UserRow, VerificationTokenRow, NewVerificationToken, is_null}
use projx.Auth.Store.{Client, Db}
use projx.Auth.Services.{Services, Request}
use projx.Auth.Responses.{
  Response, Parsed, api_error, exception, done, reset_requested, verified, verification_sent,
  parse_or_throw,
}
use projx.Auth.Password.{hash_password, hash_token}
use projx.Auth.Login.{create_verification, verification_token_of}
use projx.Auth.Account.{set_password, of_user, revoke_tokens}
use projx.Base.{
  ℕ, ◌+◌, ◌*◌, Bool, true, ◌&&◌, Option, none, some, ltb, if◌then◌else◌, ◌==◌, nat_eq, list_eq,
  option_eq,
}

abbrev pub reset_token_ttl_seconds : ℕ
reset_token_ttl_seconds = 30 * 60

pub record ResetPasswordBody : Type 0 where
  pub token : Str
  pub new_password : Str

-- A user of the email that is not deleted.
abbrev pub active_email : Str → UserRow → Bool
active_email email user = user.email == email && is_null user.deleted_at

-- A token of a kind that was not used and has not expired.
unfoldable pub is_usable : Str → Str → ℕ → VerificationTokenRow → Bool
is_usable token_hash kind now row =
    row.token_hash == token_hash
    && row.kind == kind
    && is_null row.consumed_at
    && ltb now row.expires_at

abbrev pub consumed_data : ℕ → VerificationTokenRow → VerificationTokenRow
consumed_data now row = record row { consumed_at = some now }

module _ (services : Services) {U T V : Type 0} (client : Client U T V) where
  abbrev pub reset_token_of : Request → UserRow → NewVerificationToken
  reset_token_of req user = record {
    user_id = user.id;
    token_hash = hash_token services req.raw_token;
    kind = codes "password_reset";
    expires_at = req.now + reset_token_ttl_seconds * 1000;
  }

  -- The answer is the same for an email that is not known, where the token is not exposed.
  abbrev pub forgot_user : Request → Db U T V → Option UserRow → Db U T V × Response
  forgot_user req db none = (db, reset_requested none)
  forgot_user req db (some user) = (
    create_verification services client (reset_token_of req user) db,
    reset_requested (if services.expose_reset_token then some req.raw_token else none),
  )

  unfoldable pub forgot_password : Request → Parsed Str → Db U T V → Db U T V × Response
  unfolding to_lower_case
  forgot_password req parsed db = parse_or_throw parsed db λ email.
      forgot_user req db (client.user.find_first (active_email (to_lower_case email)) db.users)

  -- The transaction of a reset: all three changes, or none.
  abbrev pub consume_reset :
      Request
      → VerificationTokenRow
      → Db U T V
      → U
      → Option (VerificationTokenRow × V)
      → Db U T V × Response
  consume_reset req reset db users none = (db, exception)
  consume_reset req reset db users (some (row, tokens)) = (
    revoke_tokens services client req.now (of_user reset.user_id)
        (record db { users = users; verification_tokens = tokens }),
    done,
  )

  abbrev pub reset_user :
      Request → VerificationTokenRow → Db U T V → Option (UserRow × U) → Db U T V × Response
  reset_user req reset db none = (db, exception)
  reset_user req reset db (some (user, users)) =
      consume_reset req reset db users
        (client.verification_token.update reset.id (consumed_data req.now) db.verification_tokens)

  abbrev pub reset_found :
      Request → Str → Db U T V → Option VerificationTokenRow → Db U T V × Response
  reset_found req password db none =
      (db, api_error 400 (codes "Invalid or expired reset token") (codes "invalid_reset_token"))
  reset_found req password db (some reset) =
      reset_user req reset db
        (client.user.update reset.user_id (set_password services client req password) db.users)

  unfoldable pub reset_password :
      Request → Parsed ResetPasswordBody → Db U T V → Db U T V × Response
  unfolding hash_password is_usable
  reset_password req parsed db = parse_or_throw parsed db λ body.
      reset_found req body.new_password db (
        client.verification_token.find_first
          (is_usable (hash_token services body.token) (codes "password_reset") req.now)
          db.verification_tokens)

  abbrev pub consume_verification :
      Db U T V → U → Option (VerificationTokenRow × V) → Db U T V × Response
  consume_verification db users none = (db, exception)
  consume_verification db users (some (row, tokens)) =
      (record db { users = users; verification_tokens = tokens }, verified)

  abbrev pub verify_user :
      Request → VerificationTokenRow → Db U T V → Option (UserRow × U) → Db U T V × Response
  verify_user req token db none = (db, exception)
  verify_user req token db (some (user, users)) =
      consume_verification db users
        (client.verification_token.update token.id (consumed_data req.now) db.verification_tokens)

  abbrev pub verify_found : Request → Db U T V → Option VerificationTokenRow → Db U T V × Response
  verify_found req db none = (
    db,
    api_error 400 (codes "Invalid or expired verification token")
        (codes "invalid_verification_token"),
  )
  verify_found req db (some token) =
      verify_user req token db
        (client.user.update token.user_id (λ user. record user { email_verified = true }) db.users)

  unfoldable pub verify_email : Request → Parsed Str → Db U T V → Db U T V × Response
  unfolding is_usable
  verify_email req parsed db = parse_or_throw parsed db λ token. verify_found req db (
      client.verification_token.find_first
        (is_usable (hash_token services token) (codes "email_verify") req.now)
        db.verification_tokens)

  abbrev pub resend_user : Request → Db U T V → Option UserRow → Db U T V
  resend_user req db none = db
  resend_user req db (some user) =
      if user.email_verified
      then db
      else create_verification services client (verification_token_of services client req user) db

  unfoldable pub resend_verification : Request → Parsed Str → Db U T V → Db U T V × Response
  unfolding to_lower_case
  resend_verification req parsed db = parse_or_throw parsed db λ email. (
    resend_user req db (client.user.find_first (active_email (to_lower_case email)) db.users),
    verification_sent,
  )
