-- ===== src/Auth/Responses.antt =====
-- The answers of the handlers of
-- features/auth/express/prisma/files/src/modules/auth/routes.ts.
use projx.Base.Text.{Str, codes}
use projx.Base.{
  ℕ, zero, suc, ◌+◌, ◌-◌, ◌/◌, ◌%◌, ◌≡◌, refl, Bool, Option, List, [], ◌∷◌, ◌++◌, ltb,
  if◌then◌else◌, ◌==◌, nat_eq, list_eq, option_eq,
}

-- What a client learns of its user.
pub record UserInfo : Type 0 where
  pub id : Str
  pub email : Str
  pub name : Str
  pub role : Str
  pub last_login : Option ℕ
  pub created_at : ℕ

pub record SessionInfo : Type 0 where
  pub id : Str
  pub ip_address : Option Str
  pub user_agent : Option Str
  pub expires_at : ℕ
  pub created_at : ℕ
  pub current : Bool

pub record Tokens : Type 0 where
  pub token : Str
  pub refresh_token : Str
  pub access_jti : Str
  pub refresh_jti : Str

pub data Response : Type 0 where
  -- `new ApiError(status, detail, code)`, and any other error that reaches `next`.
  api_error : ℕ → Str → Str → Response
  exception : Response
  -- The user, the access token and the refresh token.
  created : UserInfo → Str → Str → Response
  signed_in : UserInfo → Str → Str → Response
  refreshed : Tokens → Response
  -- The challenge token and the email.
  mfa_required : Str → Str → Response
  -- The secret and its link.
  enrolling : Str → Str → Response
  recovery_codes : List Str → Response
  done : Response
  sessions : List SessionInfo → Response
  -- The reset token where it is exposed.
  reset_requested : Option Str → Response
  verified : Response
  verification_sent : Response
  profile : UserInfo → Bool → Bool → Response

-- The body of a request after its schema: `none` in place of a path that is empty.
pub data Parsed (B : Type 0) : Type 0 where
  valid : B → Parsed B
  invalid : Str → Str → Parsed B

abbrev pub validation_error : Str → Str → Response
validation_error path message =
    api_error 400 (elim path [ [] ↦ message | c ∷ p ↦ (c ∷ p) ++ codes ": " ++ message ])
      (codes "validation_error")

-- `parseOrThrow`, with what the handler does with the body.
abbrev pub parse_or_throw : {A B : Type 0} → Parsed B → A → (B → A × Response) → A × Response
parse_or_throw (valid body) db handle = handle body
parse_or_throw (invalid path message) db handle = (db, validation_error path message)

-- `${n}`
unfoldable pub digits : ℕ → ℕ → Str
digits zero n = []
digits (suc fuel) n =
    let rest = digits fuel (n / 10) in
    if ltb n 10 then (b'0' + n) ∷ [] else rest ++ (b'0' + n % 10) ∷ []

abbrev pub decimal : ℕ → Str
decimal n = digits (suc n) n

-- `Try again in ${mins} minute${mins === 1 ? '' : 's'}.` until a time
abbrev minutes : ℕ → Str
minutes mins =
    codes "Try again in "
    ++ decimal mins
    ++ codes " minute"
    ++ (if mins == 1 then [] else codes "s")
    ++ codes "."

abbrev pub try_again : ℕ → ℕ → Str
try_again until now = minutes ((until - now + 59999) / 60000)

digits_test : (decimal 0 ≡ codes "0") × (decimal 1230 ≡ codes "1230")
unfolding digits
digits_test = (refl, refl)

unfoldable pub invalid_credentials : Response
invalid_credentials = api_error 401 (codes "Invalid credentials") (codes "invalid_credentials")

unfoldable pub account_locked : ℕ → ℕ → Response
account_locked until now =
    api_error 429 (codes "Too many failed attempts. " ++ try_again until now)
      (codes "account_locked")

unfoldable pub mfa_locked : ℕ → ℕ → Response
mfa_locked until now =
    api_error 429 (codes "MFA temporarily locked. " ++ try_again until now) (codes "mfa_locked")

unfoldable pub unauthorized : Response
unauthorized = api_error 401 (codes "Unauthorized") (codes "unauthorized")

unfoldable pub not_found : Response
not_found = api_error 404 (codes "User not found") (codes "not_found")

unfoldable pub token_replay_detected : Response
token_replay_detected =
    api_error 401 (codes "token_replay_detected") (codes "token_replay_detected")
