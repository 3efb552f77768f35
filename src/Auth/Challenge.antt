-- ===== src/Auth/Challenge.antt =====
-- The handler of /mfa/verify-challenge in
-- features/auth/express/prisma/files/src/modules/auth/routes.ts, and the counters of failed codes.
use projx.Base.Text.{Str, codes}
use projx.Auth.Rows.{UserRow}
use projx.Auth.Store.{Client, Db}
use projx.Auth.Services.{Services, Request, Claims}
use projx.Auth.Responses.{Response, Parsed, api_error, exception, mfa_locked, parse_or_throw}
use projx.Auth.Mfa.{
  is_mfa_locked, mfa_max_attempts, mfa_lockout_ms, match_recovery_code, decrypt_recovery_codes,
  encrypt_recovery_codes, verify_totp,
}
use projx.Auth.Session.{issue_auth_session}
use projx.Auth.Login.{by_id, update_user, time_of}
use projx.Base.{
  ℕ, zero, suc, ◌+◌, Bool, true, false, not, Option, none, some, List, [], ◌∷◌, leb, if◌then◌else◌,
  ◌==◌, nat_eq, list_eq, option_eq,
}

pub record ChallengeBody : Type 0 where
  pub challenge_token : Str
  pub code : Str
  pub use_recovery : Bool

unfoldable pub failure_data : ℕ → ℕ → UserRow → UserRow
failure_data next_count now user = record user {
  mfa_failed_count = next_count;
  mfa_locked_until =
      if leb mfa_max_attempts next_count
      then some (now + mfa_lockout_ms)
      else user.mfa_locked_until;
}

abbrev pub reset_data : UserRow → UserRow
reset_data user = record user { mfa_failed_count = 0; mfa_locked_until = none }

-- `hashes.splice(index, 1)`
unfoldable pub splice_one : ℕ → List Str → List Str
splice_one n [] = []
splice_one zero (hash ∷ hashes) = hashes
splice_one (suc n) (hash ∷ hashes) = hash ∷ splice_one n hashes

-- What a code is: a wrong one, a right one of the authenticator, the recovery code of an index; or an
-- error of `decryptSecret`.
pub data CodeCheck : Type 0 where
  wrong : CodeCheck
  right : CodeCheck
  recovery : ℕ → CodeCheck
  undecided : CodeCheck

abbrev pub invalid_challenge : Str → Response
invalid_challenge detail = api_error 401 detail (codes "invalid_challenge")

-- A column that is empty counts as `null`.
abbrev pub non_empty : Option Str → Option Str
non_empty none = none
non_empty (some []) = none
non_empty (some (c ∷ s)) = some (c ∷ s)

module _ (services : Services) where
  abbrev pub check_totp : Str → ℕ → Option Str → CodeCheck
  check_totp code now none = undecided
  check_totp code now (some secret) = if verify_totp services code secret now then right else wrong

  abbrev pub check_recovery : Option ℕ → CodeCheck
  check_recovery none = wrong
  check_recovery (some index) = recovery index

  unfoldable pub check_code : Bool → Str → ℕ → Option Str → Str → CodeCheck
  unfolding match_recovery_code decrypt_recovery_codes
  check_code use_recovery code now codes_enc secret_enc =
      if use_recovery
      then check_recovery
          (match_recovery_code services code (decrypt_recovery_codes services codes_enc))
      else check_totp code now (services.decrypt secret_enc)

module _ (services : Services) {U T V : Type 0} (client : Client U T V) where
  -- `recordMfaFailure`, and the error that is thrown next.
  abbrev pub record_mfa_failure : Request → UserRow → Db U T V → Response → Db U T V × Response
  record_mfa_failure req user db response =
      update_user services client user.id (failure_data (user.mfa_failed_count + 1) req.now) db
        λ _ db'. (db', response)

  abbrev pub reset_mfa_counters :
      Str → Db U T V → (UserRow → Db U T V → Db U T V × Response) → Db U T V × Response
  reset_mfa_counters id db next = update_user services client id reset_data db next

  -- The code of the index is taken out.
  abbrev pub consume_data : UserRow → ℕ → UserRow → UserRow
  consume_data user index row =
      let hashes = decrypt_recovery_codes services user.mfa_recovery_codes_enc in
      record row {
        mfa_recovery_codes_enc = some (encrypt_recovery_codes services (splice_one index hashes));
        mfa_failed_count = 0;
        mfa_locked_until = none;
      }

  -- The session is that of the user as it was read.
  abbrev pub challenge_checked : Request → UserRow → Db U T V → CodeCheck → Db U T V × Response
  challenge_checked req user db undecided = (db, exception)
  challenge_checked req user db wrong =
      record_mfa_failure req user db
        (api_error 401 (codes "Invalid MFA code") (codes "invalid_mfa_code"))
  challenge_checked req user db right =
      reset_mfa_counters user.id db λ _ db'. issue_auth_session services client req user db'
  challenge_checked req user db (recovery index) =
      update_user services client user.id (consume_data user index) db
        λ _ db'. issue_auth_session services client req user db'

  abbrev pub mfa_not_configured : Response
  mfa_not_configured = api_error 401 (codes "MFA not configured") (codes "mfa_not_configured")

  abbrev pub challenge_secret :
      Request → ChallengeBody → UserRow → Db U T V → Option Str → Db U T V × Response
  challenge_secret req body user db none = (db, mfa_not_configured)
  challenge_secret req body user db (some secret_enc) =
      if is_mfa_locked user.mfa_locked_until req.now
      then (db, mfa_locked (time_of user.mfa_locked_until) req.now)
      else challenge_checked req user db (
          check_code services body.use_recovery body.code req.now user.mfa_recovery_codes_enc
            secret_enc)

  abbrev pub challenge_user :
      Request → ChallengeBody → Db U T V → Option UserRow → Db U T V × Response
  challenge_user req body db none = (db, mfa_not_configured)
  challenge_user req body db (some user) =
      if not user.mfa_enabled
      then (db, mfa_not_configured)
      else challenge_secret req body user db (non_empty user.mfa_secret_enc)

  abbrev pub challenge_sub :
      Request → ChallengeBody → Db U T V → Option Str → Bool → Db U T V × Response
  challenge_sub req body db none _ = (db, invalid_challenge (codes "Challenge token invalid"))
  challenge_sub req body db (some sub) false =
      (db, invalid_challenge (codes "Challenge token invalid"))
  challenge_sub req body db (some sub) true =
      challenge_user req body db (client.user.find_first (by_id sub) db.users)

  abbrev pub challenge_claims :
      Request → ChallengeBody → Db U T V → Option Claims → Db U T V × Response
  challenge_claims req body db none =
      (db, invalid_challenge (codes "Challenge token invalid or expired"))
  challenge_claims req body db (some decoded) =
      challenge_sub req body db (non_empty decoded.sub)
        (decoded.stage == some (codes "mfa_pending"))

  unfoldable pub verify_challenge : Request → Parsed ChallengeBody → Db U T V → Db U T V × Response
  unfolding failure_data check_code issue_auth_session is_mfa_locked decrypt_recovery_codes
      splice_one
  verify_challenge req parsed db =
      parse_or_throw parsed db
        λ body. challenge_claims req body db (services.verify body.challenge_token req.now)
