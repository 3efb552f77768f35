-- ===== src/Auth/Dead/History.antt =====
-- Sequences of requests to the handlers of
-- features/auth/express/prisma/files/src/modules/auth/routes.ts, one after the other, with the nightly
-- clean-up among them.
use projx.Auth.Keeps.Mail.{
  cleanup-Leaves, resend_verification-Leaves, verify_email-Leaves, reset_password-Leaves,
  forgot_password-Leaves,
}
use projx.Auth.Keeps.Settings.{
  change_password-Leaves, logout-Leaves, regenerate-Leaves, disable-Leaves, enroll_verify-Leaves,
  enroll-Leaves,
}
use projx.Auth.Keeps.Handlers.{verify_challenge-Leaves, login-Leaves, signup-Leaves}
use projx.Auth.Jobs.{cleanup_auth_artifacts}
use projx.Auth.Dead.Refused.{refresh-IsDead}
use projx.Auth.Refresh.{max_rotation_attempts, refresh}
use projx.Auth.Recovery.{
  resend_verification, verify_email, reset_password, forgot_password, ResetPasswordBody,
}
use projx.Auth.Enrollment.{regenerate, disable, enroll_verify, enroll, DisableBody}
use projx.Auth.Dead.Refresh.{LeavesIf}
use projx.Auth.Dead.{dead-Draws, dead-IsClosed, IsDead}
use projx.Auth.Challenge.{verify_challenge, ChallengeBody}
use projx.Auth.Account.{change_password, logout, ChangePasswordBody, me, list_sessions}
use projx.Auth.Login.{login, signup, LoginBody, SignupBody}
use projx.Auth.Store.{Db, IsLawfulClient, Client}
use projx.Auth.Responses.{Response, Parsed}
use projx.Auth.Services.{Request, Services}
use projx.Base.Text.{Str}
use projx.Base.{
  ℕ, ◌≡◌, false, Option, none, some, List, [], ◌∷◌, ◌==◌, nat_eq, list_eq, option_eq, All,
}

pub data Call : Type 0 where
  signs_up : Parsed SignupBody → Call
  logs_in : Parsed LoginBody → Call
  verifies_challenge : Parsed ChallengeBody → Call
  enrolls : Call
  verifies_enrollment : Parsed Str → Call
  disables : Parsed DisableBody → Call
  regenerates : Parsed Str → Call
  refreshes : Parsed Str → Call
  logs_out : Parsed (Option Str) → Call
  changes_password : Parsed ChangePasswordBody → Call
  lists_sessions : Call
  forgets_password : Parsed Str → Call
  resets_password : Parsed ResetPasswordBody → Call
  verifies_email : Parsed Str → Call
  resends_verification : Parsed Str → Call
  reads_profile : Call
  cleans_up : Call

module _ (services : Services) {U T V : Type 0} (client : Client U T V) where
  abbrev pub alone : ℕ → Db U T V → Db U T V
  alone n db = db

  abbrev pub tables_of : Db U T V → Option (Db U T V × Response) → Db U T V
  tables_of db none = db
  tables_of db (some (db', response)) = db'

  abbrev pub step : Request → Call → Db U T V → Db U T V
  step req (signs_up parsed) db = (signup services client req parsed db).0
  step req (logs_in parsed) db = (login services client req parsed db).0
  step req (verifies_challenge parsed) db = (verify_challenge services client req parsed db).0
  step req enrolls db = (enroll services client req db).0
  step req (verifies_enrollment parsed) db = (enroll_verify services client req parsed db).0
  step req (disables parsed) db = (disable services client req parsed db).0
  step req (regenerates parsed) db = (regenerate services client req parsed db).0
  step req (refreshes parsed) db =
      tables_of db (refresh services client alone req max_rotation_attempts parsed db)
  step req (logs_out parsed) db = (logout services client req parsed db).0
  step req (changes_password parsed) db = (change_password services client req parsed db).0
  step req lists_sessions db = (list_sessions services client req db).0
  step req (forgets_password parsed) db = (forgot_password services client req parsed db).0
  step req (resets_password parsed) db = (reset_password services client req parsed db).0
  step req (verifies_email parsed) db = (verify_email services client req parsed db).0
  step req (resends_verification parsed) db = (resend_verification services client req parsed db).0
  step req reads_profile db = (me services client req db).0
  step req cleans_up db = (cleanup_auth_artifacts client req.now db).0

  abbrev pub run : List (Request × Call) → Db U T V → Db U T V
  run [] db = db
  run ((req, call) ∷ calls) db = run calls (step req call db)

-- No request of the history draws the id of the session for a new one.
abbrev pub NeverDrawn : Str → List (Request × Call) → Type 0
NeverDrawn sid calls = All (λ c. (c.0.session_uuid == sid) ≡ false) calls

module _ (services : Services) {U T V : Type 0} {client : Client U T V}
    (lawful : IsLawfulClient client) (sid : Str) where
  tables_of-IsDead :
      (db : Db U T V) (result : Option (Db U T V × Response))
      → IsDead client sid db
      → LeavesIf services lawful sid result
      → IsDead client sid (tables_of services client db result)
  tables_of-IsDead db none h k = h
  tables_of-IsDead db (some (db', response)) h k = k

  pub step-IsDead :
      (req : Request) (call : Call) (db : Db U T V)
      → (req.session_uuid == sid) ≡ false
      → IsDead client sid db
      → IsDead client sid (step services client req call db)
  unfolding list_sessions me
  step-IsDead req (signs_up parsed) db fresh h =
      signup-Leaves services client (dead-IsClosed lawful sid) req (dead-Draws lawful sid req fresh)
        parsed db h
  step-IsDead req (logs_in parsed) db fresh h =
      login-Leaves services client (dead-IsClosed lawful sid) req (dead-Draws lawful sid req fresh)
        parsed db h
  step-IsDead req (verifies_challenge parsed) db fresh h =
      verify_challenge-Leaves services client (dead-IsClosed lawful sid) req
        (dead-Draws lawful sid req fresh) parsed db h
  step-IsDead req enrolls db fresh h =
      enroll-Leaves services client (dead-IsClosed lawful sid) req db h
  step-IsDead req (verifies_enrollment parsed) db fresh h =
      enroll_verify-Leaves services client (dead-IsClosed lawful sid) req parsed db h
  step-IsDead req (disables parsed) db fresh h =
      disable-Leaves services client (dead-IsClosed lawful sid) req parsed db h
  step-IsDead req (regenerates parsed) db fresh h =
      regenerate-Leaves services client (dead-IsClosed lawful sid) req parsed db h
  step-IsDead req (refreshes parsed) db fresh h = tables_of-IsDead db _ h (
      refresh-IsDead services lawful sid (alone services client) req max_rotation_attempts
        (λ n db' k. k) parsed db h)
  step-IsDead req (logs_out parsed) db fresh h =
      logout-Leaves services client (dead-IsClosed lawful sid) req parsed db h
  step-IsDead req (changes_password parsed) db fresh h =
      change_password-Leaves services client (dead-IsClosed lawful sid) req parsed db h
  step-IsDead req lists_sessions db fresh h = h
  step-IsDead req (forgets_password parsed) db fresh h =
      forgot_password-Leaves services client (dead-IsClosed lawful sid) req parsed db h
  step-IsDead req (resets_password parsed) db fresh h =
      reset_password-Leaves services client (dead-IsClosed lawful sid) req parsed db h
  step-IsDead req (verifies_email parsed) db fresh h =
      verify_email-Leaves services client (dead-IsClosed lawful sid) req parsed db h
  step-IsDead req (resends_verification parsed) db fresh h =
      resend_verification-Leaves services client (dead-IsClosed lawful sid) req parsed db h
  step-IsDead req reads_profile db fresh h = h
  step-IsDead req cleans_up db fresh h =
      cleanup-Leaves services client (dead-IsClosed lawful sid) req req.now db h

  pub run-IsDead :
      (calls : List (Request × Call)) (db : Db U T V)
      → NeverDrawn sid calls
      → IsDead client sid db
      → IsDead client sid (run services client calls db)
  run-IsDead [] db fresh h = h
  run-IsDead ((req, call) ∷ calls) db (f, fresh) h =
      run-IsDead calls (step services client req call db) fresh (step-IsDead req call db f h)
