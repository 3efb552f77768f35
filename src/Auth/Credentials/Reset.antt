-- ===== src/Auth/Credentials/Reset.antt =====
-- Tokens of /reset-password in features/auth/express/prisma/files/src/modules/auth/routes.ts.
use projx.Auth.Account.{set_password}
use projx.Auth.Responses.{api_error, done, valid}
use projx.Auth.Password.{hash_token}
use projx.Auth.Tables.{All-patch, find-none, rows-update}
use projx.Auth.Store.{Db, IsLawfulClient, Client}
use projx.Auth.Rows.{UserRow, VerificationTokenRow}
use projx.Auth.Services.{Request, Services}
use projx.Auth.Recovery.{
  reset_found, reset_user, ResetPasswordBody, reset_password, consumed_data, is_usable,
}
use projx.Base.Text.{Str, codes}
use projx.Base.{
  ℕ, ◌≡◌, refl, ap, inl, inr, true, false, Option, none, some, Bool-cases, Option-cases, ◌==◌,
  nat_eq, list_eq, option_eq, All,
}

-- The row is not usable: of another hash, or consumed.
usable_other :
    (hash kind : Str) (now : ℕ) (row : VerificationTokenRow)
    → (row.token_hash == hash) ≡ false
    → is_usable hash kind now row ≡ false
unfolding is_usable
usable_other hash kind now row other = rw (other) refl

usable_consumed :
    (hash kind : Str) (now then' : ℕ) (row : VerificationTokenRow)
    → is_usable hash kind now (consumed_data then' row) ≡ false
unfolding is_usable
usable_consumed hash kind now then' row = elim (Bool-cases (row.token_hash == hash)) [
  | inl same ↦ elim (Bool-cases (row.kind == kind)) [
    | inl right ↦ rw (same, right) refl
    | inr wrong ↦ rw (same, wrong) refl
  ]
  | inr other ↦ rw (other) refl
]

module _ (services : Services) {U T V : Type 0} {client : Client U T V}
    (lawful : IsLawfulClient client) (hash kind : Str) (reset : VerificationTokenRow)
    (req : Request) where
  consumed_find :
      (t t' : V) (row : VerificationTokenRow) (now : ℕ)
      → All
          (λ r. (r.token_hash == hash) ≡ true → (r.id == reset.id) ≡ true)
          (client.verification_token.rows t)
      → client.verification_token.update reset.id (consumed_data req.now) t ≡ some (row, t')
      → client.verification_token.find_first (is_usable hash kind now) t' ≡ none
  consumed_find t t' row now unique updated =
      rw
        (
          lawful.verification_tokens.rows-find_first (is_usable hash kind now) t',
          rows-update lawful.verification_tokens reset.id (consumed_data req.now) t t' row updated,
        )
        (find-none (is_usable hash kind now) _ (
          All-patch (λ r. (r.token_hash == hash) ≡ true → (r.id == reset.id) ≡ true)
            (λ r. is_usable hash kind now r ≡ false) (λ r. r.id == reset.id) (consumed_data req.now)
            (client.verification_token.rows t) (λ r k hit. usable_consumed hash kind now req.now r)
            (λ r k miss. elim (Bool-cases (r.token_hash == hash)) [
              | inl same ↦ absurd (cc (k same, miss))
              | inr other ↦ usable_other hash kind now r other
            ])
            unique))

  reset_user_consumes :
      (db : Db U T V) (now : ℕ) (updated : Option (UserRow × U))
      → All
          (λ r. (r.token_hash == hash) ≡ true → (r.id == reset.id) ≡ true)
          (client.verification_token.rows db.verification_tokens)
      → (reset_user services client req reset db updated).1 ≡ done
      → client.verification_token.find_first
          (is_usable hash kind now)
          (reset_user services client req reset db updated).0.verification_tokens
        ≡ none
  reset_user_consumes db now none unique ok = absurd (cc)
  reset_user_consumes db now (some (user, users)) unique ok =
      elim (Option-cases (
        client.verification_token.update reset.id (consumed_data req.now) db.verification_tokens)) [
          | inl missing ↦ absurd (cc (rw (missing) at ok))
          | inr ((row, t'), found) ↦
              rw (found) (consumed_find db.verification_tokens t' row now unique found)
        ]

module _ (services : Services) {U T V : Type 0} {client : Client U T V}
    (lawful : IsLawfulClient client) where
  -- A reset token that no other row shares its hash with, once a password was reset by it with
  -- success, is refused by every request for a reset that follows next, at any time and for any new
  -- password, and that request changes nothing. The client keeps its laws.
  pub reset_password_once :
      (req later : Request) (body again : ResetPasswordBody) (reset : VerificationTokenRow)
      (db : Db U T V)
      → client.verification_token.find_first
          (is_usable (hash_token services body.token) (codes "password_reset") req.now)
          db.verification_tokens
        ≡ some reset
      → All
          (λ r. (r.token_hash == hash_token services body.token) ≡ true → (r.id == reset.id) ≡ true)
          (client.verification_token.rows db.verification_tokens)
      → (reset_password services client req (valid body) db).1 ≡ done
      → again.token ≡ body.token
      → let db' = (reset_password services client req (valid body) db).0 in
        reset_password services client later (valid again) db' ≡ (
          db',
          api_error 400 (codes "Invalid or expired reset token") (codes "invalid_reset_token"),
        )
  unfolding reset_password
  reset_password_once req later body again reset db found unique ok same =
      let hash = hash_token services body.token in
      let change = set_password services client req body.new_password in
      let updated = client.user.update reset.user_id change db.users in
      let first = ap (reset_found services client req body.new_password db) found in
      let spent =
        reset_user_consumes services lawful hash (codes "password_reset") reset req db later.now
          updated unique (rw (found) at ok) in
      rw (same, found, spent) refl
