-- ===== src/Auth/Credentials/Once.antt =====
-- Recovery codes at /mfa/verify-challenge of
-- features/auth/express/prisma/files/src/modules/auth/routes.ts.
use projx.Auth.Credentials.{match_recovery_code_once, opened}
use projx.Auth.Tables.{update_self}
use projx.Auth.Session.{payload_of, sign_tokens, issue_auth_session}
use projx.Auth.Responses.{api_error, mfa_locked, valid}
use projx.Auth.Login.{after_update, time_of, by_id}
use projx.Auth.Rows.{UserRow}
use projx.Auth.Mfa.{
  encrypt_recovery_codes, denormalize, is_mfa_locked, decrypt_recovery_codes, match_recovery_code,
}
use projx.Auth.Challenge.{
  splice_one, consume_data, failure_data, challenge_secret, mfa_not_configured, challenge_user,
  challenge_sub, challenge_claims, challenge_checked, non_empty, recovery, wrong, ChallengeBody,
  check_code, verify_challenge,
}
use projx.Auth.Store.{Db, IsLawfulClient, Client}
use projx.Auth.Services.{Claims, Request, Services}
use projx.Base.Text.{Str, codes}
use projx.Base.{
  ◌+◌, ℕ, ◌≡◌, refl, ap, ◌∙◌, true, false, not, Option, none, some, if◌then◌else◌, ◌==◌, nat_eq,
  list_eq, option_eq,
}

module _ (services : Services) {U T V : Type 0} {client : Client U T V}
    (lawful : IsLawfulClient client) where
  -- A challenge that gets to the check of its code.
  challenge_reaches :
      (req : Request) (body : ChallengeBody) (decoded : Claims) (user : UserRow) (secret : Str)
      (db : Db U T V)
      → services.verify body.challenge_token req.now ≡ some decoded
      → (decoded.stage == some (codes "mfa_pending")) ≡ true
      → non_empty decoded.sub ≡ some user.id
      → client.user.find_first (by_id user.id) db.users ≡ some user
      → user.mfa_enabled ≡ true
      → non_empty user.mfa_secret_enc ≡ some secret
      → is_mfa_locked user.mfa_locked_until req.now ≡ false
      → verify_challenge services client req (valid body) db
        ≡ challenge_checked services client req user db (
            check_code services body.use_recovery body.code req.now user.mfa_recovery_codes_enc
              secret)
  unfolding verify_challenge
  challenge_reaches req body decoded user secret db read staged sub found enabled kept open' =
      let reached = challenge_checked services client req user db (
        check_code services body.use_recovery body.code req.now user.mfa_recovery_codes_enc
          secret) in
      ap (challenge_claims services client req body db) read
      ∙ ap
          (λ o.
            challenge_sub services client req body db o
              (decoded.stage == some (codes "mfa_pending")))
          sub
      ∙ ap (challenge_sub services client req body db (some user.id)) staged
      ∙ ap (challenge_user services client req body db) found
      ∙ ap
          (λ b.
            if not b
            then (db, mfa_not_configured services client)
            else challenge_secret services client req body user db (non_empty user.mfa_secret_enc))
          enabled
      ∙ ap (challenge_secret services client req body user db) kept
      ∙ ap (λ b. if b then (db, mfa_locked (time_of user.mfa_locked_until) req.now) else reached)
          open'

  check_recovered :
      (code enc' : Str) (now : ℕ) (enc : Option Str) (i : ℕ)
      → match_recovery_code services code (decrypt_recovery_codes services enc) ≡ some i
      → check_code services true code now enc enc' ≡ recovery i
  unfolding check_code
  check_recovered code enc' now enc i h = rw (h) refl

  check_wrong :
      (code enc' : Str) (now : ℕ) (enc : Option Str)
      → match_recovery_code services code (decrypt_recovery_codes services enc) ≡ none
      → check_code services true code now enc enc' ≡ wrong
  unfolding check_code
  check_wrong code enc' now enc h = rw (h) refl

  -- A wrong code of a user that is there is answered as such.
  wrong_code :
      (req : Request) (user : UserRow) (db : Db U T V)
      → client.user.find_first (by_id user.id) db.users ≡ some user
      → (challenge_checked services client req user db wrong).1
        ≡ api_error 401 (codes "Invalid MFA code") (codes "invalid_mfa_code")
  unfolding failure_data
  wrong_code req user db found =
      let answer = api_error 401 (codes "Invalid MFA code") (codes "invalid_mfa_code") in
      let (users, updated, _) =
        update_self lawful.users user.id (failure_data (user.mfa_failed_count + 1) req.now) db.users
          user found (λ x. refl) in
      ap (λ o. (after_update services client db (λ _ db'. (db', answer)) o).1) updated

  -- A recovery code that opens one of a user's hashes alone, once a challenge has taken it from a user
  -- whose second factor is on and not locked, is answered as an invalid code in the next challenge of
  -- the user, at any time, where the codes that are left are read back as they were encrypted and the
  -- client keeps its laws.
  pub recovery_code_once :
      (req later : Request) (body again : ChallengeBody) (decoded decoded' : Claims)
      (user : UserRow) (secret : Str) (i : ℕ) (db : Db U T V)
      → services.verify body.challenge_token req.now ≡ some decoded
      → (decoded.stage == some (codes "mfa_pending")) ≡ true
      → non_empty decoded.sub ≡ some user.id
      → client.user.find_first (by_id user.id) db.users ≡ some user
      → user.mfa_enabled ≡ true
      → non_empty user.mfa_secret_enc ≡ some secret
      → is_mfa_locked user.mfa_locked_until req.now ≡ false
      → body.use_recovery ≡ true
      → match_recovery_code services body.code
          (decrypt_recovery_codes services user.mfa_recovery_codes_enc)
        ≡ some i
      → opened services
          (denormalize services body.code)
          (decrypt_recovery_codes services user.mfa_recovery_codes_enc)
        ≡ 1
      → let left = splice_one i (decrypt_recovery_codes services user.mfa_recovery_codes_enc) in
        decrypt_recovery_codes services (some (encrypt_recovery_codes services left)) ≡ left
        → services.verify again.challenge_token later.now ≡ some decoded'
        → (decoded'.stage == some (codes "mfa_pending")) ≡ true
        → non_empty decoded'.sub ≡ some user.id
        → again.use_recovery ≡ true
        → again.code ≡ body.code
        → (verify_challenge services client later
            (valid again)
            (verify_challenge services client req (valid body) db).0).1
          ≡ api_error 401 (codes "Invalid MFA code") (codes "invalid_mfa_code")
  unfolding issue_auth_session is_mfa_locked sign_tokens payload_of
  recovery_code_once req later body again decoded decoded' user secret i db read staged sub found
        enabled kept open' recovers matches one round read' staged' sub' recovers' same =
      let hashes = decrypt_recovery_codes services user.mfa_recovery_codes_enc in
      let change = consume_data services client user i in
      let used = change user in
      let (users, updated, found') =
        update_self lawful.users user.id change db.users user found (λ x. refl) in
      let first =
        challenge_reaches req body decoded user secret db read staged sub found enabled kept open'
        ∙ ap
            (λ b.
              challenge_checked services client req user db
                (check_code services b body.code req.now user.mfa_recovery_codes_enc secret))
            recovers
        ∙ ap (challenge_checked services client req user db)
            (check_recovered body.code secret req.now user.mfa_recovery_codes_enc i matches)
        ∙ ap
            (after_update services client db
              (λ _ db'. issue_auth_session services client req user db'))
            updated in
      let db' = (issue_auth_session services client req user (record db { users = users })).0 in
      let shut : match_recovery_code services again.code
            (decrypt_recovery_codes services used.mfa_recovery_codes_enc)
          ≡ none =
        rw (same, round) (match_recovery_code_once services body.code hashes i matches one) in
      let second : (verify_challenge services client later (valid again) db').1
          ≡ api_error 401 (codes "Invalid MFA code") (codes "invalid_mfa_code") =
        ap (λ r. r.1)
          (challenge_reaches later again decoded' used secret db' read' staged' sub' found' enabled
              kept refl
            ∙ ap
                (λ b.
                  challenge_checked services client later used db'
                    (check_code services b again.code later.now used.mfa_recovery_codes_enc secret))
                recovers'
            ∙ ap (challenge_checked services client later used db')
                (check_wrong again.code secret later.now used.mfa_recovery_codes_enc shut))
        ∙ wrong_code later used db' found' in
      ap (λ r. (verify_challenge services client later (valid again) r.0).1) first ∙ second
