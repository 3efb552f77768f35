-- ===== src/Auth/Password.antt =====
-- Passwords: features/auth/express/common/files/src/modules/auth/password.ts.
use projx.Base.Text.{Str, split, is_truthy}
use projx.Auth.Services.{Services}
use projx.Base.{
  Bool, false, not, ◌||◌, List, ◌∷◌, ◌++◌, if◌then◌else◌, ◌==◌, nat_eq, list_eq, option_eq, length,
}

module _ (services : Services) where
  unfoldable pub hash_password : Str → Str → Str
  hash_password salt password = salt ++ (b':' ∷ services.to_hex (services.scrypt password salt))

  -- The bytes are compared when they are as many.
  abbrev pub same_bytes : Str → Str → Bool
  same_bytes expected derived =
      if length expected == length derived then expected == derived else false

  abbrev pub verify_parts : Str → List Str → Bool
  verify_parts password (salt ∷ (expected_hex ∷ _)) =
      if not (is_truthy salt) || not (is_truthy expected_hex)
      then false
      else same_bytes (services.from_hex expected_hex) (services.scrypt password salt)
  verify_parts password _ = false

  unfoldable pub verify_password : Str → Str → Bool
  unfolding split
  verify_password password stored_hash = verify_parts password (split b':' stored_hash)

  abbrev pub hash_token : Str → Str
  hash_token token = services.sha256 token
