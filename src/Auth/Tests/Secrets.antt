-- ===== src/Auth/Tests/Secrets.antt =====
-- Logins, passwords and recovery codes on tables in lists, with the handlers of
-- features/auth/express/prisma/files/src/modules/auth/routes.ts.
use projx.Auth.Credentials.Once.{recovery_code_once}
use projx.Auth.Lockout.{brute_force_locked, run_logins}
use projx.Auth.Responses.{api_error, account_locked, valid}
use projx.Auth.Mfa.{
  is_mfa_locked, decrypt_recovery_codes, denormalize, match_from, match_recovery_code,
}
use projx.Auth.Credentials.{verify_password-hash_password}
use projx.Auth.Login.{login_lockout_ms, login, LoginBody}
use projx.Auth.Password.{hash_password, verify_password}
use projx.Auth.Memory.{memory_client-IsLawfulClient, delegate, memory_client}
use projx.Auth.Services.{Request}
use projx.Auth.Challenge.{verify_challenge, splice_one, ChallengeBody}
use projx.Base.Text.{join, is_space, trim, split, to_lower_case, codes}
use projx.Auth.Tests.{claims, services, request, ann, tables}
use projx.Base.{◌+◌, ◌≡◌, refl, true, List, [], ◌∷◌, arith, nat_eq, list_eq, option_eq}

abbrev wrong_login : LoginBody
wrong_login = record { email = codes "Ann@x.io"; password = codes "nope" }

abbrev right_login : LoginBody
right_login = record { email = codes "ann@x.io"; password = codes "secret99" }

abbrev four : List (Request × LoginBody)
four =
    (request 1, wrong_login)
    ∷ (request 2, wrong_login)
    ∷ (request 3, wrong_login)
    ∷ (request 4, wrong_login)
    ∷ []

brute_force_locked_example :
    let db' =
      (login services memory_client
        (request 5)
        (valid wrong_login)
        (run_logins services memory_client-IsLawfulClient (codes "ann@x.io") four tables)).0 in
    login services memory_client (request 6) (valid right_login) db'
    ≡ (db', account_locked (5 + login_lockout_ms) 6)
unfolding list_eq nat_eq memory_client delegate to_lower_case verify_password split
brute_force_locked_example =
    brute_force_locked services memory_client-IsLawfulClient (codes "ann@x.io") tables ann b's'
      (codes "alt:secret99") four (request 5) wrong_login (request 6) right_login refl refl refl
      refl ((refl, refl), ((refl, refl), ((refl, refl), ((refl, refl), ((refl, refl), tt))))) refl
      (omega arith)

verify_password-hash_password_example :
    verify_password services
      (codes "pass1234")
      (hash_password services (codes "salt") (codes "pass1234"))
    ≡ true
unfolding nat_eq
verify_password-hash_password_example =
    verify_password-hash_password services (codes "salt") (codes "pass1234") refl refl
      (refl, (refl, (refl, (refl, tt))))
      (refl, (refl, (refl, (refl, (refl, (refl, (refl, (refl, tt)))))))) refl

abbrev challenge : ChallengeBody
challenge = record {
  challenge_token = codes "challenge";
  code = codes "CCCC-DDDD";
  use_recovery = true;
}

recovery_code_once_example :
    (verify_challenge services memory_client
      (request 6)
      (valid challenge)
      (verify_challenge services memory_client (request 5) (valid challenge) tables).0).1
    ≡ api_error 401 (codes "Invalid MFA code") (codes "invalid_mfa_code")
unfolding list_eq nat_eq option_eq memory_client delegate match_recovery_code match_from denormalize
    verify_password split decrypt_recovery_codes trim is_space is_mfa_locked splice_one join
recovery_code_once_example =
    recovery_code_once services memory_client-IsLawfulClient (request 5) (request 6) challenge
      challenge (claims (codes "challenge")) (claims (codes "challenge")) ann (codes "e123456") 1
      tables refl refl refl refl refl refl refl refl refl refl refl refl refl refl refl refl
