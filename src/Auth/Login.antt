-- ===== src/Auth/Login.antt =====
-- The handlers of /signup and /login in
-- features/auth/express/prisma/files/src/modules/auth/routes.ts, and
-- `sendInitialVerificationEmail` of verification-jobs.ts.
--
-- A handler runs from the body that its schema gives to the end, with one reading of the clock.
-- Sending mail has no effect on the tables; its errors are logged only.
use projx.Base.Text.{Str, codes, to_lower_case}
use projx.Auth.Rows.{UserRow, NewUser, NewVerificationToken, is_null}
use projx.Auth.Store.{Client, Db}
use projx.Auth.Services.{Services, Request}
use projx.Auth.Responses.{
  Response, Parsed, api_error, exception, created, mfa_required, invalid_credentials,
  account_locked, mfa_locked, parse_or_throw,
}
use projx.Auth.Password.{hash_password, verify_password, hash_token}
use projx.Auth.Mfa.{is_mfa_locked}
use projx.Auth.Session.{
  issue_auth_session, sign_tokens, payload_of, issue_tokens, new_token, create_token,
  sign_with_expiry, user_info,
}
use projx.Base.{
  ℕ, ◌+◌, ◌*◌, Bool, true, false, not, Option, none, some, [], ◌∷◌, leb, ltb, if◌then◌else◌, ◌==◌,
  nat_eq, list_eq, option_eq,
}

abbrev pub login_max_attempts : ℕ
login_max_attempts = 5

abbrev pub login_lockout_ms : ℕ
login_lockout_ms = 15 * 60 * 1000

abbrev pub verification_token_ttl_seconds : ℕ
verification_token_ttl_seconds = 24 * 60 * 60

abbrev pub mfa_challenge_ttl : ℕ
mfa_challenge_ttl = 5 * 60

pub record SignupBody : Type 0 where
  pub email : Str
  pub name : Str
  pub password : Str

pub record LoginBody : Type 0 where
  pub email : Str
  pub password : Str

abbrev pub by_email : Str → UserRow → Bool
by_email email user = user.email == email

abbrev pub by_id : Str → UserRow → Bool
by_id id user = user.id == id

-- `locked_until && locked_until.getTime() > Date.now()`
unfoldable pub is_locked : UserRow → ℕ → Bool
is_locked user now = elim user.locked_until [ none ↦ false | some until ↦ ltb now until ]

unfoldable pub lock_data : ℕ → ℕ → UserRow → UserRow
lock_data next_count now user = record user {
  failed_login_count = next_count;
  locked_until =
      if leb login_max_attempts next_count
      then some (now + login_lockout_ms)
      else user.locked_until;
}

abbrev pub login_data : ℕ → UserRow → UserRow
login_data now user = record user {
  last_login = some now;
  failed_login_count = 0;
  locked_until = none;
}

-- The time of a lock, where there is one.
abbrev pub time_of : Option ℕ → ℕ
time_of none = 0
time_of (some until) = until

module _ (services : Services) {U T V : Type 0} (client : Client U T V) where
  -- `user.update`, and what follows on the updated row.
  abbrev pub after_update :
      Db U T V
      → (UserRow → Db U T V → Db U T V × Response)
      → Option (UserRow × U)
      → Db U T V × Response
  after_update db next none = (db, exception)
  after_update db next (some (user, users)) = next user (record db { users = users })

  abbrev pub update_user :
      Str
      → (UserRow → UserRow)
      → Db U T V
      → (UserRow → Db U T V → Db U T V × Response)
      → Db U T V × Response
  update_user id change db next = after_update db next (client.user.update id change db.users)

  unfoldable pub sign_mfa_challenge : Request → UserRow → Str
  sign_mfa_challenge req user =
      sign_with_expiry services
        (record {
          sub = some user.id;
          sid = none;
          role = none;
          email = none;
          name = none;
          permissions = [];
          token_type = none;
          jti = none;
          stage = some (codes "mfa_pending");
        })
        mfa_challenge_ttl req.now

  abbrev pub create_verification : NewVerificationToken → Db U T V → Db U T V
  create_verification new db = record db {
    verification_tokens = (client.verification_token.create new db.verification_tokens).1;
  }

  -- `sendInitialVerificationEmail`
  abbrev pub verification_token_of : Request → UserRow → NewVerificationToken
  verification_token_of req user = record {
    user_id = user.id;
    kind = codes "email_verify";
    token_hash = hash_token services req.raw_token;
    expires_at = req.now + verification_token_ttl_seconds * 1000;
  }

  abbrev pub send_to : Request → Db U T V → Option UserRow → Db U T V
  send_to req db none = db
  send_to req db (some user) =
      if not (is_null user.deleted_at)
      then db
      else if user.email_verified
      then db
      else create_verification (verification_token_of req user) db

  unfoldable pub send_initial_verification_email : Request → Str → Db U T V → Db U T V
  send_initial_verification_email req user_id db =
      send_to req db (client.user.find_first (by_id user_id) db.users)

  -- A user that is new: the first one is the admin.
  abbrev pub new_user : Request → SignupBody → ℕ → NewUser
  new_user req body count = record {
    email = to_lower_case body.email;
    name = body.name;
    password_hash = hash_password services (req.salts 0) body.password;
    role = if count == 0 then codes "admin" else codes "user";
  }

  abbrev pub sign_in_new : Request → UserRow → Db U T V → Db U T V × Response
  sign_in_new req user db =
      let tokens = issue_tokens services client req user in
      (
        send_initial_verification_email req user.id (
            create_token services client (new_token services req user.id req.session_uuid tokens)
              db),
        created (user_info user) tokens.token tokens.refresh_token,
      )

  abbrev pub signup_existing :
      Request → SignupBody → Db U T V → Option UserRow → Db U T V × Response
  signup_existing req body db (some existing) = (
    db,
    api_error 409 (codes "An account with this email already exists.") (codes "duplicate_email"),
  )
  signup_existing req body db none =
      let made = client.user.create (new_user req body (client.user.count db.users)) db.users in
      sign_in_new req made.0 (record db { users = made.1 })

  unfoldable pub signup : Request → Parsed SignupBody → Db U T V → Db U T V × Response
  unfolding to_lower_case hash_password sign_tokens payload_of send_initial_verification_email
  signup req parsed db = parse_or_throw parsed db λ body.
      signup_existing req body db
        (client.user.find_first (by_email (to_lower_case body.email)) db.users)

  -- The user after a password that is right.
  abbrev pub login_fresh : Request → UserRow → Db U T V → Db U T V × Response
  login_fresh req user db =
      if user.mfa_enabled
      then if is_mfa_locked user.mfa_locked_until req.now
        then (db, mfa_locked (time_of user.mfa_locked_until) req.now)
        else (db, mfa_required (sign_mfa_challenge req user) user.email)
      else issue_auth_session services client req user db

  abbrev pub login_checked : Request → UserRow → Db U T V → Bool → Db U T V × Response
  login_checked req user db false =
      update_user user.id (lock_data (user.failed_login_count + 1) req.now) db
        λ _ db'. (db', invalid_credentials)
  login_checked req user db true =
      update_user user.id (login_data req.now) db λ fresh db'. login_fresh req fresh db'

  abbrev pub login_password : Request → Str → UserRow → Db U T V → Option Str → Db U T V × Response
  login_password req password user db none = (db, invalid_credentials)
  login_password req password user db (some []) = (db, invalid_credentials)
  login_password req password user db (some (c ∷ hash)) =
      login_checked req user db (verify_password services password (c ∷ hash))

  abbrev pub login_user : Request → LoginBody → Db U T V → Option UserRow → Db U T V × Response
  login_user req body db none = (db, invalid_credentials)
  login_user req body db (some user) =
      if is_locked user req.now
      then (db, account_locked (time_of user.locked_until) req.now)
      else login_password req body.password user db user.password_hash

  unfoldable pub login : Request → Parsed LoginBody → Db U T V → Db U T V × Response
  unfolding to_lower_case is_locked verify_password lock_data is_mfa_locked sign_mfa_challenge
      issue_auth_session
  login req parsed db = parse_or_throw parsed db λ body.
      login_user req body db (client.user.find_first (by_email (to_lower_case body.email)) db.users)
