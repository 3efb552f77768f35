-- ===== src/Auth/Keeps/Handlers.antt =====
-- What the handlers of features/auth/express/prisma/files/src/modules/auth/routes.ts leave of a
-- property of the refresh tokens; /refresh apart.
use projx.Base.Text.{Str, to_lower_case}
use projx.Auth.Rows.{UserRow, is_null}
use projx.Auth.Store.{Client, Db}
use projx.Auth.Services.{Services, Request, Claims}
use projx.Auth.Responses.{Parsed, valid, invalid}
use projx.Auth.Session.{new_token, sign_tokens, payload_of, issue_tokens}
use projx.Auth.Login.{
  SignupBody, LoginBody, new_user, signup, signup_existing, send_initial_verification_email,
  send_to, login, login_user, login_password, login_checked, login_fresh, is_locked,
}
use projx.Auth.Password.{hash_password}
use projx.Auth.Challenge.{
  ChallengeBody, CodeCheck, wrong, right, recovery, undecided, verify_challenge, challenge_claims,
  challenge_sub, challenge_user, challenge_secret, challenge_checked, non_empty,
}
use projx.Auth.Mfa.{is_mfa_locked}
use projx.Auth.Keeps.{
  Draws, IsClosed, Holds, Leaves, if_lem, update_user-Leaves, update_answer-Leaves,
  update_issue-Leaves, issue_auth_session-Leaves,
}
use projx.Base.{
  refl, Bool, true, false, not, Option, none, some, [], ◌∷◌, nat_eq, list_eq, option_eq,
}

module _ (services : Services) {U T V : Type 0} (client : Client U T V) {I J : T → Type 0}
    (closed : IsClosed client I J) (req : Request) (fresh : Draws client I J req) where
  send_to_same :
      (db : Db U T V) (user : Option UserRow)
      → Holds J db
      → Holds J (send_to services client req db user)
  send_to_same db none h = h
  send_to_same db (some user) h =
      if_lem (Holds J) (not (is_null user.deleted_at)) db _ h
        (if_lem (Holds J) user.email_verified db _ h h)

  signup_existing-Leaves :
      (body : SignupBody) (db : Db U T V) (user : Option UserRow)
      → Holds I db
      → Leaves J (signup_existing services client req body db user)
  unfolding send_initial_verification_email hash_password sign_tokens payload_of to_lower_case
  signup_existing-Leaves body db (some user) h = closed.kept db.refresh_tokens h
  signup_existing-Leaves body db none h =
      let made =
        client.user.create (new_user services client req body (client.user.count db.users))
          db.users in
      send_to_same _ _ (
        fresh
          (new_token services req made.0.id req.session_uuid
            (issue_tokens services client req made.0))
          db.refresh_tokens refl h)

  pub signup-Leaves :
      (parsed : Parsed SignupBody) (db : Db U T V)
      → Holds I db
      → Leaves J (signup services client req parsed db)
  unfolding signup
  signup-Leaves (invalid path message) db h = closed.kept db.refresh_tokens h
  signup-Leaves (valid body) db h = signup_existing-Leaves body db _ h

  login_fresh-Leaves :
      (user : UserRow) (db : Db U T V)
      → Holds I db
      → Leaves J (login_fresh services client req user db)
  login_fresh-Leaves user db h =
      if_lem (Leaves J) user.mfa_enabled _ _
        (if_lem (Leaves J) (is_mfa_locked user.mfa_locked_until req.now) _ _
          (closed.kept db.refresh_tokens h) (closed.kept db.refresh_tokens h))
        (issue_auth_session-Leaves services client closed req fresh user db h)

  login_checked-Leaves :
      (user : UserRow) (db : Db U T V) (ok : Bool)
      → Holds I db
      → Leaves J (login_checked services client req user db ok)
  login_checked-Leaves user db false h =
      update_answer-Leaves services client closed user.id _ db _ h
  login_checked-Leaves user db true h =
      update_user-Leaves services client closed user.id _ db (login_fresh services client req) h
        (λ fresh' users. login_fresh-Leaves fresh' (record db { users = users }) h)

  login_password-Leaves :
      (password : Str) (user : UserRow) (db : Db U T V) (hash : Option Str)
      → Holds I db
      → Leaves J (login_password services client req password user db hash)
  login_password-Leaves password user db none h = closed.kept db.refresh_tokens h
  login_password-Leaves password user db (some []) h = closed.kept db.refresh_tokens h
  login_password-Leaves password user db (some (c ∷ hash)) h = login_checked-Leaves user db _ h

  login_user-Leaves :
      (body : LoginBody) (db : Db U T V) (user : Option UserRow)
      → Holds I db
      → Leaves J (login_user services client req body db user)
  login_user-Leaves body db none h = closed.kept db.refresh_tokens h
  login_user-Leaves body db (some user) h =
      if_lem (Leaves J) (is_locked user req.now) _ _ (closed.kept db.refresh_tokens h)
        (login_password-Leaves body.password user db user.password_hash h)

  pub login-Leaves :
      (parsed : Parsed LoginBody) (db : Db U T V)
      → Holds I db
      → Leaves J (login services client req parsed db)
  unfolding login
  login-Leaves (invalid path message) db h = closed.kept db.refresh_tokens h
  login-Leaves (valid body) db h = login_user-Leaves body db _ h

  challenge_checked-Leaves :
      (user : UserRow) (db : Db U T V) (check : CodeCheck)
      → Holds I db
      → Leaves J (challenge_checked services client req user db check)
  challenge_checked-Leaves user db undecided h = closed.kept db.refresh_tokens h
  challenge_checked-Leaves user db wrong h =
      update_answer-Leaves services client closed user.id _ db _ h
  challenge_checked-Leaves user db right h =
      update_issue-Leaves services client closed req fresh user.id _ db user h
  challenge_checked-Leaves user db (recovery index) h =
      update_issue-Leaves services client closed req fresh user.id _ db user h

  challenge_secret-Leaves :
      (body : ChallengeBody) (user : UserRow) (db : Db U T V) (secret : Option Str)
      → Holds I db
      → Leaves J (challenge_secret services client req body user db secret)
  challenge_secret-Leaves body user db none h = closed.kept db.refresh_tokens h
  challenge_secret-Leaves body user db (some secret) h =
      if_lem (Leaves J) (is_mfa_locked user.mfa_locked_until req.now) _ _
        (closed.kept db.refresh_tokens h) (challenge_checked-Leaves user db _ h)

  challenge_user-Leaves :
      (body : ChallengeBody) (db : Db U T V) (user : Option UserRow)
      → Holds I db
      → Leaves J (challenge_user services client req body db user)
  challenge_user-Leaves body db none h = closed.kept db.refresh_tokens h
  challenge_user-Leaves body db (some user) h =
      if_lem (Leaves J) (not user.mfa_enabled) _ _ (closed.kept db.refresh_tokens h)
        (challenge_secret-Leaves body user db (non_empty user.mfa_secret_enc) h)

  challenge_sub-Leaves :
      (body : ChallengeBody) (db : Db U T V) (sub : Option Str) (staged : Bool)
      → Holds I db
      → Leaves J (challenge_sub services client req body db sub staged)
  challenge_sub-Leaves body db none staged h = closed.kept db.refresh_tokens h
  challenge_sub-Leaves body db (some sub) false h = closed.kept db.refresh_tokens h
  challenge_sub-Leaves body db (some sub) true h = challenge_user-Leaves body db _ h

  challenge_claims-Leaves :
      (body : ChallengeBody) (db : Db U T V) (decoded : Option Claims)
      → Holds I db
      → Leaves J (challenge_claims services client req body db decoded)
  challenge_claims-Leaves body db none h = closed.kept db.refresh_tokens h
  challenge_claims-Leaves body db (some decoded) h =
      challenge_sub-Leaves body db (non_empty decoded.sub) _ h

  pub verify_challenge-Leaves :
      (parsed : Parsed ChallengeBody) (db : Db U T V)
      → Holds I db
      → Leaves J (verify_challenge services client req parsed db)
  unfolding verify_challenge
  verify_challenge-Leaves (invalid path message) db h = closed.kept db.refresh_tokens h
  verify_challenge-Leaves (valid body) db h = challenge_claims-Leaves body db _ h
