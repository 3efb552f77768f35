-- ===== src/Auth/Tests.antt =====
-- Runs of the handlers of features/auth/express/prisma/files/src/modules/auth/routes.ts on tables in
-- lists.
mod Secrets
mod Runs
use projx.Auth.Credentials.Reset.{reset_password_once}
use projx.Auth.Dead.{IsDead}
use projx.Auth.Dead.Endings.{replay_ends_session, reset_password_final, logout_final}
use projx.Auth.Recovery.{is_usable, reset_password}
use projx.Auth.Account.{logout}
use projx.Auth.Refresh.Total.{refresh_answers}
use projx.Auth.Dead.History.{reads_profile, run}
use projx.Auth.Responses.{api_error, token_replay_detected, valid}
use projx.Auth.Refresh.{resolve_rotation_grace_child, refresh}
use projx.Auth.Dead.Final.{dead_session-IsRefused, IsRefused}
use projx.Auth.Rows.{
  fill_verification, fill_user, fill_token, UserRow, RefreshTokenRow, VerificationTokenRow,
}
use projx.Auth.Memory.{delegate, memory_client-IsLawfulClient, memory_client, MemoryDb}
use projx.Auth.Services.{Services, Request, Claims}
use projx.Base.Text.{split, join, Str, codes}
use projx.Base.{
  suc, ℕ, ◌≡◌, refl, ◌≢◌, true, false, Option, none, some, [], ◌∷◌, ◌++◌, if◌then◌else◌, ◌==◌,
  nat_eq, list_eq, option_eq, zero, suc,
}

abbrev pub claims : Str → Claims
claims token = record {
  sub = some (codes "u1");
  sid = some (codes "s1");
  role = some (codes "user");
  email = some (codes "ann@x.io");
  name = some (codes "Ann");
  permissions = [];
  token_type = some (codes "refresh");
  jti = some (codes "j");
  stage = if token == codes "challenge" then some (codes "mfa_pending") else none;
}

abbrev decoded : Str → Option Str
decoded [] = none
decoded (c ∷ s) = some s

abbrev pub services : Services
services = record {
  scrypt = λ password salt. password;
  to_hex = λ bytes. bytes;
  from_hex = λ hex. hex;
  sha256 = λ text. text;
  sign = λ payload expires. elim payload.jti [ none ↦ codes "t" | some jti ↦ jti ];
  verify = λ token now. some (claims token);
  totp_verify = λ code secret now. code == secret;
  keyuri = λ email issuer secret. secret;
  encrypt = λ text. b'e' ∷ text;
  decrypt = decoded;
  stringify = λ texts. join (0 ∷ []) texts;
  parse = λ text. some (split 0 text);
  mfa_issuer = codes "projx";
  expose_reset_token = false;
  to_upper_case = λ text. text;
}

abbrev pub request : ℕ → Request
request now = record {
  ip = none;
  user_agent = none;
  now = now;
  session_uuid = codes "s2";
  access_jti = codes "a";
  refresh_jti = codes "new";
  raw_token = codes "raw";
  salts = λ n. codes "salt";
  totp_secret = codes "123456";
  picks = λ n. 0;
  auth_sub = codes "u1";
  auth_sid = some (codes "s1");
}

abbrev pub ann : UserRow
ann =
    record (fill_user
      (record {
        email = codes "ann@x.io";
        name = codes "Ann";
        password_hash = codes "salt:secret99";
        role = codes "user";
      })
      (codes "u1") 0) {
        mfa_enabled = true;
        mfa_secret_enc = some (codes "e123456");
        mfa_recovery_codes_enc = some (b'e' ∷ codes "s:AAAA-BBBB" ++ (0 ∷ codes "s:CCCC-DDDD"));
      }

abbrev pub first_token : RefreshTokenRow
first_token =
    fill_token
      (record {
        user_id = codes "u1";
        session_id = codes "s1";
        token_hash = codes "old";
        expires_at = 1000;
        ip_address = none;
        user_agent = none;
      })
      (codes "k") 0

abbrev pub reset_token : VerificationTokenRow
reset_token =
    fill_verification
      (record {
        user_id = codes "u1";
        kind = codes "password_reset";
        token_hash = codes "reset";
        expires_at = 1000;
      })
      (codes "v") 0

abbrev pub tables : MemoryDb
tables = record {
  users = ann ∷ [];
  refresh_tokens = first_token ∷ [];
  verification_tokens = reset_token ∷ [];
}

abbrev pub dead_tables : MemoryDb
dead_tables = record tables { refresh_tokens = record first_token { revoked_at = some 5 } ∷ [] }

-- Before each call of the database the users are gone.
abbrev pub others : ℕ → MemoryDb → MemoryDb
others n db = record db { users = [] }

-- A logout before the token is looked up.
abbrev logs_out : ℕ → MemoryDb → MemoryDb
logs_out zero db = record db { refresh_tokens = record first_token { revoked_at = some 5 } ∷ [] }
logs_out (suc n) db = db

dead_session-IsRefused_example : IsRefused (
    refresh services memory_client others
      (request 10)
      3
      (valid (codes "old"))
      (run services memory_client ((request 6, reads_profile) ∷ []) dead_tables))
unfolding list_eq nat_eq memory_client delegate
dead_session-IsRefused_example =
    dead_session-IsRefused services memory_client-IsLawfulClient (codes "s1") others (request 10) 3
      (λ n db dead. dead) ((request 6, reads_profile) ∷ []) dead_tables (codes "old")
      (claims (codes "old")) (refl, tt) ((λ same. refl), tt) refl refl

replay_ends_session_example :
    (db' : MemoryDb) × (refresh services memory_client logs_out
        (request 10)
        3
        (valid (codes "old"))
        tables
      ≡ some (db', token_replay_detected))
    × IsDead memory_client (codes "s1") db'
unfolding list_eq nat_eq option_eq memory_client delegate resolve_rotation_grace_child
replay_ends_session_example =
    replay_ends_session services memory_client-IsLawfulClient logs_out (request 10) 3 (codes "old")
      (claims (codes "old")) (record first_token { revoked_at = some 5 })
      (record first_token { revoked_at = some 5 }) tables refl refl refl refl refl refl refl refl

reset_password_final_example : IsRefused (
    refresh services memory_client others (request 10) 3 (valid (codes "old")) (
      run services memory_client
        ((request 6, reads_profile) ∷ [])
        (reset_password services memory_client
          (request 5)
          (valid (record { token = codes "reset"; new_password = codes "pass1234" }))
          tables).0))
unfolding list_eq nat_eq memory_client delegate reset_password is_usable
reset_password_final_example =
    reset_password_final services memory_client-IsLawfulClient (codes "s1") others (request 10) 3
      (λ n db dead. dead) (codes "old") (claims (codes "old")) ((request 6, reads_profile) ∷ [])
      (request 5) (record { token = codes "reset"; new_password = codes "pass1234" }) tables
      reset_token refl ((λ same. refl), tt) refl (refl, tt) refl refl

refresh_answers_example :
    refresh services memory_client others (request 10) 3 (valid (codes "old")) tables ≢ none
refresh_answers_example =
    refresh_answers services memory_client others (request 10) (valid (codes "old")) tables

reset_password_once_example :
    let db' =
      (reset_password services memory_client
        (request 5)
        (valid (record { token = codes "reset"; new_password = codes "pass1234" }))
        tables).0 in
    reset_password services memory_client
      (request 6)
      (valid (record { token = codes "reset"; new_password = codes "other123" }))
      db'
    ≡ (db', api_error 400 (codes "Invalid or expired reset token") (codes "invalid_reset_token"))
unfolding list_eq nat_eq memory_client delegate reset_password is_usable
reset_password_once_example =
    reset_password_once services memory_client-IsLawfulClient (request 5) (request 6)
      (record { token = codes "reset"; new_password = codes "pass1234" })
      (record { token = codes "reset"; new_password = codes "other123" }) reset_token tables refl
      ((λ same. refl), tt) refl refl
