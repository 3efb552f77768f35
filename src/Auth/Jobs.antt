-- ===== src/Auth/Jobs.antt =====
-- The nightly clean-up: `cleanupAuthArtifacts` of
-- features/auth/express/prisma/files/src/modules/auth/verification-jobs.ts. The schedule is left out.
use projx.Auth.Rows.{RefreshTokenRow, VerificationTokenRow}
use projx.Auth.Store.{Client, Db}
use projx.Base.{ℕ, ◌-◌, ◌*◌, Bool, false, ◌||◌, Option, none, some, ltb, nat_eq, list_eq, option_eq}

abbrev pub revoked_retention_days : ℕ
revoked_retention_days = 30

pub record CleanupResult : Type 0 where
  pub expired_verification_tokens : ℕ
  pub expired_refresh_tokens : ℕ

-- The time 30 days ago; the clock is past that.
abbrev pub revoked_cutoff : ℕ → ℕ
revoked_cutoff now = now - revoked_retention_days * 24 * 60 * 60 * 1000

-- A time that is set and before another one.
abbrev pub set_before : ℕ → Option ℕ → Bool
set_before cutoff none = false
set_before cutoff (some time) = ltb time cutoff

unfoldable pub is_stale_verification : ℕ → VerificationTokenRow → Bool
is_stale_verification now row =
    ltb row.expires_at now || set_before (revoked_cutoff now) row.consumed_at

unfoldable pub is_stale_token : ℕ → RefreshTokenRow → Bool
is_stale_token now row = ltb row.expires_at now || set_before (revoked_cutoff now) row.revoked_at

module _ {U T V : Type 0} (client : Client U T V) where
  unfoldable pub cleanup_auth_artifacts : ℕ → Db U T V → Db U T V × CleanupResult
  unfolding is_stale_verification is_stale_token
  cleanup_auth_artifacts now db =
      let verification =
        client.verification_token.delete_many (is_stale_verification now) db.verification_tokens in
      let refresh = client.refresh_token.delete_many (is_stale_token now) db.refresh_tokens in
      (
        record db { refresh_tokens = refresh.1; verification_tokens = verification.1 },
        record { expired_verification_tokens = verification.0; expired_refresh_tokens = refresh.0 },
      )
