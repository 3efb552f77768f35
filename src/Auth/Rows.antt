-- ===== src/Auth/Rows.antt =====
-- The rows of the three tables of
-- features/auth/express/prisma/files/src/modules/auth/routes.ts.
--
-- A `Date` is its milliseconds. `updated_at`, which the database sets itself, is left out.
use projx.Base.Text.{Str}
use projx.Base.{
  ℕ, Bool, true, false, Option, none, some, List, map, if◌then◌else◌, nat_eq, list_eq, option_eq,
}

pub record UserRow : Type 0 where
  pub id : Str
  pub email : Str
  pub name : Str
  pub password_hash : Option Str
  pub role : Str
  pub email_verified : Bool
  pub email_verified_at : Option ℕ
  pub failed_login_count : ℕ
  pub locked_until : Option ℕ
  pub mfa_enabled : Bool
  pub mfa_secret_enc : Option Str
  pub mfa_recovery_codes_enc : Option Str
  pub mfa_verified_at : Option ℕ
  pub mfa_failed_count : ℕ
  pub mfa_locked_until : Option ℕ
  pub last_login : Option ℕ
  pub deleted_at : Option ℕ
  pub created_at : ℕ

pub record RefreshTokenRow : Type 0 where
  pub id : Str
  pub user_id : Str
  pub session_id : Str
  pub token_hash : Str
  pub ip_address : Option Str
  pub user_agent : Option Str
  pub expires_at : ℕ
  pub revoked_at : Option ℕ
  pub rotated_to : Option Str
  pub replay_detected_at : Option ℕ
  pub created_at : ℕ

pub record VerificationTokenRow : Type 0 where
  pub id : Str
  pub user_id : Str
  pub kind : Str
  pub token_hash : Str
  pub expires_at : ℕ
  pub consumed_at : Option ℕ
  pub created_at : ℕ

-- The columns that the code gives when it creates a row.
pub record NewUser : Type 0 where
  pub email : Str
  pub name : Str
  pub password_hash : Str
  pub role : Str

pub record NewRefreshToken : Type 0 where
  pub user_id : Str
  pub session_id : Str
  pub token_hash : Str
  pub expires_at : ℕ
  pub ip_address : Option Str
  pub user_agent : Option Str

pub record NewVerificationToken : Type 0 where
  pub user_id : Str
  pub kind : Str
  pub token_hash : Str
  pub expires_at : ℕ

-- A created row: the given columns, the schema's defaults in the others, and the id and the time that
-- the database chooses.
abbrev pub fill_user : NewUser → Str → ℕ → UserRow
fill_user new id now = record {
  id = id;
  email = new.email;
  name = new.name;
  password_hash = some new.password_hash;
  role = new.role;
  email_verified = false;
  email_verified_at = none;
  failed_login_count = 0;
  locked_until = none;
  mfa_enabled = false;
  mfa_secret_enc = none;
  mfa_recovery_codes_enc = none;
  mfa_verified_at = none;
  mfa_failed_count = 0;
  mfa_locked_until = none;
  last_login = none;
  deleted_at = none;
  created_at = now;
}

abbrev pub fill_token : NewRefreshToken → Str → ℕ → RefreshTokenRow
fill_token new id now = record {
  id = id;
  user_id = new.user_id;
  session_id = new.session_id;
  token_hash = new.token_hash;
  ip_address = new.ip_address;
  user_agent = new.user_agent;
  expires_at = new.expires_at;
  revoked_at = none;
  rotated_to = none;
  replay_detected_at = none;
  created_at = now;
}

abbrev pub fill_verification : NewVerificationToken → Str → ℕ → VerificationTokenRow
fill_verification new id now = record {
  id = id;
  user_id = new.user_id;
  kind = new.kind;
  token_hash = new.token_hash;
  expires_at = new.expires_at;
  consumed_at = none;
  created_at = now;
}

-- `patch p f rows`: `f` on the rows that `p` selects.
abbrev pub patch {ℓ} : {A : Type ℓ} → (A → Bool) → (A → A) → List A → List A
patch p f = map (λ r. if p r then f r else r)

-- The next two are compared with `null`.
abbrev pub is_null {ℓ} : {A : Type ℓ} → Option A → Bool
is_null none = true
is_null (some _) = false
