-- ===== src/Auth/Tests/Runs.antt =====
-- Sequences of requests on tables in lists, with the handlers of
-- features/auth/express/prisma/files/src/modules/auth/routes.ts.
use projx.Auth.Session.{payload_of, sign_tokens}
use projx.Auth.Password.{hash_password}
use projx.Auth.Login.{send_initial_verification_email, SignupBody, signup}
use projx.Auth.Jobs.{is_stale_verification, is_stale_token, cleanup_auth_artifacts}
use projx.Auth.Heads.History.{run-IsSingle, IsSingle}
use projx.Auth.Account.{logout}
use projx.Auth.Responses.{
  unauthorized, token_replay_detected, api_error, refreshed, created, Response, valid,
}
use projx.Auth.Refresh.{
  is_grace_child, resolve_rotation_grace_child, revoke_for_replay, rotate, refresh,
}
use projx.Auth.Heads.{is_head, heads}
use projx.Auth.Dead.History.{alone, run, logs_out, refreshes, Call}
use projx.Auth.Services.{Request}
use projx.Auth.Rows.{RefreshTokenRow}
use projx.Auth.Memory.{fresh_key, memory_client-IsLawfulClient, delegate, memory_client}
use projx.Base.Text.{to_lower_case, Str, codes}
use projx.Auth.Tests.{services, request, first_token, tables}
use projx.Base.{
  ◌≡◌, false, true, some, Bool, Option, ℕ, ◌≤◌, refl, inl, inr, none, List, [], ◌∷◌, arith,
  Bool-cases, nat_eq, list_eq, option_eq,
}

one_head : (sid : Str) (row : RefreshTokenRow) → heads sid (row ∷ []) ≤ 1
one_head sid row = elim (Bool-cases (is_head sid row)) [
  | inl new ↦ rw (new) (omega arith)
  | inr old ↦ rw (old) (omega arith)
]

abbrev calls : List (Request × Call)
calls = (request 6, refreshes (valid (codes "old"))) ∷ (request 7, logs_out (valid none)) ∷ []

run-IsSingle_example :
    IsSingle memory_client (run services memory_client calls tables).refresh_tokens
unfolding list_eq nat_eq option_eq memory_client delegate refresh rotate logout
run-IsSingle_example =
    run-IsSingle services memory_client-IsLawfulClient calls tables (refl, (refl, tt))
      (λ sid. one_head sid first_token)

abbrev answer_of : {D : Type 0} → Option (D × Response) → Option Response
answer_of none = none
answer_of (some (db, response)) = some response

abbrev is_refreshed : Option Response → Bool
is_refreshed (some (refreshed tokens)) = true
is_refreshed _ = false

abbrev old : Call
old = refreshes (valid (codes "old"))

abbrev refresh_old : ℕ → List (Request × Call) → Option Response
refresh_old now before = answer_of (
    refresh services memory_client (alone services memory_client) (request now) 3
      (valid (codes "old")) (run services memory_client before tables))

-- A token is exchanged; presented again it is exchanged for the token that replaced it, as long as
-- that one is not used; then it is a replay. A token that has expired is refused.
refresh_test :
    (is_refreshed (refresh_old 6 []) ≡ true)
    × (is_refreshed (refresh_old 7 ((request 6, old) ∷ [])) ≡ true)
    × (refresh_old 8 ((request 6, old) ∷ (request 7, refreshes (valid (codes "new"))) ∷ [])
        ≡ some token_replay_detected)
    × (refresh_old 1001 [] ≡ some unauthorized)
unfolding list_eq nat_eq option_eq memory_client delegate refresh rotate revoke_for_replay
    resolve_rotation_grace_child is_grace_child fresh_key sign_tokens payload_of
refresh_test = (refl, refl, refl, refl)

abbrev role_of : Response → Option Str
role_of (created user token refresh_token) = some user.role
role_of _ = none

abbrev newcomer : SignupBody
newcomer = record { email = codes "Bob@x.io"; name = codes "Bob"; password = codes "pass1234" }

-- The first user is the admin; an email is taken once, in any case of its letters.
signup_test :
    let first =
      signup services memory_client (request 5) (valid newcomer) (record tables { users = [] }) in
    (role_of first.1 ≡ some (codes "admin"))
    × (role_of (signup services memory_client (request 5) (valid newcomer) tables).1
        ≡ some (codes "user"))
    × ((signup services memory_client (request 6) (valid newcomer) first.0).1
        ≡ api_error 409
            (codes "An account with this email already exists.")
            (codes "duplicate_email"))
unfolding list_eq nat_eq option_eq memory_client delegate signup to_lower_case hash_password
    fresh_key sign_tokens payload_of send_initial_verification_email
signup_test = (refl, refl, refl)

-- Old tokens go; a revoked one after 30 days.
cleanup_test :
    ((cleanup_auth_artifacts memory_client 999 tables).1.expired_refresh_tokens ≡ 0)
    × ((cleanup_auth_artifacts memory_client 1001 tables).1.expired_refresh_tokens ≡ 1)
    × ((cleanup_auth_artifacts memory_client 1001 tables).0.verification_tokens ≡ [])
unfolding list_eq nat_eq memory_client delegate cleanup_auth_artifacts is_stale_token
    is_stale_verification
cleanup_test = (refl, refl, refl)
