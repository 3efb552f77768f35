-- ===== src/Auth/Store.antt =====
-- What features/auth/express/prisma/files/src/modules/auth/routes.ts asks of Prisma: a delegate for
-- each table, over an unknown state, and what the handlers rely on.
use projx.Base.Text.{Str}
use projx.Auth.Rows.{
  UserRow, RefreshTokenRow, VerificationTokenRow, NewUser, NewRefreshToken, NewVerificationToken,
  fill_user, fill_token, fill_verification, patch,
}
use projx.Base.{
  ℕ, ◌≡◌, Bool, not, Option, none, some, List, [], ◌∷◌, ◌++◌, ◌==◌, nat_eq, list_eq, option_eq,
  length, filter, find,
}

-- A table `T` of rows `R` that are created from `D`. A `where` is a test, a `data` a change of a row.
pub record Delegate (T R D : Type 0) : Type 0 where
  pub rows : T → List R
  pub find_first : (R → Bool) → T → Option R
  pub count : T → ℕ
  -- Ordered by a number, the largest first, and the first row alone of those with the same key.
  pub find_many : (R → Bool) → (R → ℕ) → (R → Str) → T → List R
  pub create : D → T → R × T
  pub update_many : (R → Bool) → (R → R) → T → ℕ × T
  -- By primary key; throws when no row is there.
  pub update : Str → (R → R) → T → Option (R × T)
  pub delete_many : (R → Bool) → T → ℕ × T

-- What a delegate documents. `key` is the primary key, `fill` the row that is created.
pub record IsLawful {T R D : Type 0} (d : Delegate T R D) (key : R → Str) (fill : D → Str → ℕ → R)
    : Type 0 where
  pub rows-find_first : (p : R → Bool) (t : T) → d.find_first p t ≡ find p (d.rows t)
  pub rows-count : (t : T) → d.count t ≡ length (d.rows t)
  pub rows-create :
      (new : D) (t : T) → d.rows (d.create new t).1 ≡ d.rows t ++ (d.create new t).0 ∷ []
  pub create-fill :
      (new : D) (t : T) → (now : ℕ) × ((d.create new t).0 ≡ fill new (key (d.create new t).0) now)
  pub create_fresh :
      (new : D) (t : T) → find (λ r. key r == key (d.create new t).0) (d.rows t) ≡ none
  pub rows-update_many :
      (p : R → Bool) (f : R → R) (t : T) → d.rows (d.update_many p f t).1 ≡ patch p f (d.rows t)
  pub count-update_many :
      (p : R → Bool) (f : R → R) (t : T) → (d.update_many p f t).0 ≡ length (filter p (d.rows t))
  pub update_missing :
      (id : Str) (f : R → R) (t : T)
      → find (λ r. key r == id) (d.rows t) ≡ none
      → d.update id f t ≡ none
  pub update_found :
      (id : Str) (f : R → R) (t : T) (r : R)
      → find (λ r. key r == id) (d.rows t) ≡ some r
      → (t' : T) × (d.update id f t ≡ some (f r, t'))
        × (d.rows t' ≡ patch (λ r. key r == id) f (d.rows t))
  pub rows-delete_many :
      (p : R → Bool) (t : T) → d.rows (d.delete_many p t).1 ≡ filter (λ r. not (p r)) (d.rows t)
  pub count-delete_many :
      (p : R → Bool) (t : T) → (d.delete_many p t).0 ≡ length (filter p (d.rows t))

pub record Client (U T V : Type 0) : Type 0 where
  pub user : Delegate U UserRow NewUser
  pub refresh_token : Delegate T RefreshTokenRow NewRefreshToken
  pub verification_token : Delegate V VerificationTokenRow NewVerificationToken

pub record Db (U T V : Type 0) : Type 0 where
  pub users : U
  pub refresh_tokens : T
  pub verification_tokens : V

module _ {U T V : Type 0} where
  pub record IsLawfulClient (client : Client U T V) : Type 0 where
    pub users : IsLawful client.user (λ r. r.id) fill_user
    pub refresh_tokens : IsLawful client.refresh_token (λ r. r.id) fill_token
    pub verification_tokens : IsLawful client.verification_token (λ r. r.id) fill_verification
