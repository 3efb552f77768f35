-- ===== src/Auth/Services.antt =====
-- What the auth feature asks of the libraries it calls, and of a request.
use projx.Base.Text.{Str}
use projx.Base.{ℕ, Bool, Option, List, nat_eq, list_eq, option_eq}

-- The claims of a JSON web token, each one optional.
pub record Claims : Type 0 where
  pub sub : Option Str
  pub sid : Option Str
  pub role : Option Str
  pub email : Option Str
  pub name : Option Str
  pub permissions : List Str
  pub token_type : Option Str
  pub jti : Option Str
  pub stage : Option Str

pub record Services : Type 0 where
  -- `node:crypto`: `scrypt` of a password and a salt to 64 bytes, the hexadecimal text of bytes and
  -- back, the SHA-256 digest as text.
  pub scrypt : Str → Str → Str
  pub to_hex : Str → Str
  pub from_hex : Str → Str
  pub sha256 : Str → Str
  -- `jsonwebtoken` with the configured secret: the claims and the time they expire; `verify` at a
  -- time, `none` when it throws.
  pub sign : Claims → ℕ → Str
  pub verify : Str → ℕ → Option Claims
  -- `otplib`: a code, a secret and the time.
  pub totp_verify : Str → Str → ℕ → Bool
  pub keyuri : Str → Str → Str → Str
  -- `encryptString` and `decryptString` of lib/crypto.ts; `none` when it throws.
  pub encrypt : Str → Str
  pub decrypt : Str → Option Str
  -- `JSON.stringify` of strings; `JSON.parse` of text to an array of strings, `none` for another
  -- value or an error.
  pub stringify : List Str → Str
  pub parse : Str → Option (List Str)
  -- `MFA_ISSUER`, or `projx`; `AUTH_EXPOSE_RESET_TOKEN` is `true`.
  pub mfa_issuer : Str
  pub expose_reset_token : Bool
  -- `toUpperCase`
  pub to_upper_case : Str → Str

-- What a handler reads beside its body: the client, the clock, and random values.
pub record Request : Type 0 where
  pub ip : Option Str
  pub user_agent : Option Str
  pub now : ℕ
  -- `randomUUID()`: a session's id, the `jti` of two tokens, and the text of two ids in a row.
  pub session_uuid : Str
  pub access_jti : Str
  pub refresh_jti : Str
  pub raw_token : Str
  -- The hexadecimal salts of new hashes, one after the other.
  pub salts : ℕ → Str
  -- The secret of a new enrollment, and what `randomInt` answers, one after the other.
  pub totp_secret : Str
  pub picks : ℕ → ℕ
  -- The user of `requireAuth`: `sub` and `sid` of the access token.
  pub auth_sub : Str
  pub auth_sid : Option Str
