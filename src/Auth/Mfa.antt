-- ===== src/Auth/Mfa.antt =====
-- Codes of the second factor: features/auth/express/common/files/src/modules/auth/mfa.ts.
use projx.Base.Text.{Str, codes, trim, is_space}
use projx.Auth.Services.{Services}
use projx.Auth.Password.{hash_password, verify_password}
use projx.Base.{
  ℕ, zero, suc, ◌+◌, ◌*◌, Bool, false, not, Option, none, some, List, [], ◌∷◌, ◌++◌, ltb,
  if◌then◌else◌, ◌==◌, nat_eq, list_eq, option_eq, take, drop, filter,
}

abbrev pub recovery_code_count : ℕ
recovery_code_count = 10

abbrev pub recovery_code_alphabet : Str
recovery_code_alphabet = codes "ABCDEFGHJKLMNPQRSTUVWXYZ23456789"

abbrev pub mfa_max_attempts : ℕ
mfa_max_attempts = 5

abbrev pub mfa_lockout_ms : ℕ
mfa_lockout_ms = 15 * 60 * 1000

unfoldable pub is_mfa_locked : Option ℕ → ℕ → Bool
is_mfa_locked none now = false
is_mfa_locked (some until) now = ltb now until

-- `alphabet[idx]`; `randomInt` answers below the length.
abbrev pub char_at : Str → ℕ → ℕ
char_at [] n = 0
char_at (c ∷ s) zero = c
char_at (c ∷ s) (suc n) = char_at s n

-- `length` characters, from the answers of `randomInt` from the `from`-th on.
unfoldable pub pick_chars : (ℕ → ℕ) → ℕ → ℕ → Str
pick_chars picks from zero = []
pick_chars picks from (suc n) =
    char_at recovery_code_alphabet (picks from) ∷ pick_chars picks (suc from) n

unfoldable pub generate_from : (ℕ → ℕ) → ℕ → ℕ → List Str
unfolding pick_chars
generate_from picks from zero = []
generate_from picks from (suc n) =
    (pick_chars picks from 4 ++ codes "-" ++ pick_chars picks (from + 4) 4)
    ∷ generate_from picks (from + 8) n

abbrev pub generate_recovery_codes : (ℕ → ℕ) → List Str
generate_recovery_codes picks = generate_from picks 0 recovery_code_count

module _ (services : Services) where
  unfoldable pub denormalize : Str → Str
  unfolding trim is_space
  denormalize code =
      let stripped =
        filter (λ c. not (c == b'-'))
          (filter (λ c. not (is_space c)) (services.to_upper_case (trim code))) in
      take 4 stripped ++ codes "-" ++ drop 4 stripped

  unfoldable pub hash_from : (ℕ → Str) → ℕ → List Str → List Str
  unfolding denormalize hash_password
  hash_from salts n [] = []
  hash_from salts n (code ∷ codes') =
      hash_password services (salts n) (denormalize code) ∷ hash_from salts (suc n) codes'

  -- Each code with a salt of its own.
  abbrev pub hash_recovery_codes : (ℕ → Str) → List Str → List Str
  hash_recovery_codes salts codes' = hash_from salts 0 codes'

  unfoldable pub match_from : Str → List Str → Option ℕ
  unfolding verify_password
  match_from normalized [] = none
  match_from normalized (hash ∷ hashes) =
      let rest = match_from normalized hashes in
      if verify_password services normalized hash
      then some 0
      else elim rest [ none ↦ none | some i ↦ some (suc i) ]

  -- The index of the first hash that the code opens, `none` for -1.
  unfoldable pub match_recovery_code : Str → List Str → Option ℕ
  unfolding match_from denormalize
  match_recovery_code input hashes = match_from (denormalize input) hashes

  abbrev pub encrypt_recovery_codes : List Str → Str
  encrypt_recovery_codes hashes = services.encrypt (services.stringify hashes)

  abbrev pub parse_codes : Option Str → List Str
  parse_codes none = []
  parse_codes (some text) = elim (services.parse text) [ none ↦ [] | some hashes ↦ hashes ]

  unfoldable pub decrypt_recovery_codes : Option Str → List Str
  decrypt_recovery_codes none = []
  decrypt_recovery_codes (some []) = []
  decrypt_recovery_codes (some (c ∷ enc)) = parse_codes (services.decrypt (c ∷ enc))

  abbrev pub verify_totp : Str → Str → ℕ → Bool
  verify_totp code secret now = services.totp_verify (trim code) secret now
