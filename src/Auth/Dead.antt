-- ===== src/Auth/Dead.antt =====
-- Sessions all of whose refresh tokens are revoked, in
-- features/auth/express/prisma/files/src/modules/auth/routes.ts.
pub mod Refresh
pub mod Refused
pub mod Ends
pub mod History
pub mod Final
pub mod Endings
use projx.Auth.Keeps.{IsClosed, Draws}
use projx.Base.Text.{Str}
use projx.Auth.Rows.{UserRow, RefreshTokenRow, NewRefreshToken, is_null}
use projx.Auth.Store.{Client, Db, IsLawfulClient}
use projx.Auth.Services.{Services, Request}
use projx.Auth.Responses.{Response}
use projx.Auth.Session.{
  create_token, new_token, issue_auth_session, sign_tokens, payload_of, issue_tokens,
}
use projx.Auth.Login.{update_user, after_update}
use projx.Auth.Refresh.{in_session, revoke_data}
use projx.Auth.Account.{revoke_tokens}
use projx.Auth.Tables.{delete_many-All, update_many-All, create-All}
use projx.Base.{
  ℕ, ◌≡◌, refl, Bool, true, false, none, some, if◌then◌else◌, ◌==◌, nat_eq, list_eq, option_eq, All,
}

abbrev pub IsDeadRow : Str → RefreshTokenRow → Type 0
IsDeadRow sid row = in_session sid row ≡ true → is_null row.revoked_at ≡ false

module _ {U T V : Type 0} (client : Client U T V) (sid : Str) where
  abbrev pub IsDeadTable : T → Type 0
  IsDeadTable t = All (IsDeadRow sid) (client.refresh_token.rows t)

  abbrev pub IsDead : Db U T V → Type 0
  IsDead db = IsDeadTable db.refresh_tokens

  -- The tables that a handler leaves.
  abbrev pub Leaves : Db U T V × Response → Type 0
  Leaves (db, response) = IsDead db

module _ {U T V : Type 0} {client : Client U T V} (lawful : IsLawfulClient client) (sid : Str) where
  pub dead-IsClosed : IsClosed client (IsDeadTable client sid) (IsDeadTable client sid)
  dead-IsClosed = record {
    kept = λ t h. h;
    revoked = λ p now t h.
        update_many-All lawful.refresh_tokens (IsDeadRow sid) _ (revoke_data now) t
          (λ r k same. refl) h;
    deleted = λ p t h. delete_many-All lawful.refresh_tokens (IsDeadRow sid) p t h;
  }

  pub create-IsDead :
      (new : NewRefreshToken) (t : T)
      → (new.session_id == sid) ≡ false
      → IsDeadTable client sid t
      → IsDeadTable client sid (client.refresh_token.create new t).1
  create-IsDead new t other h =
      create-All lawful.refresh_tokens (IsDeadRow sid) new t (λ id now same. absurd (cc)) h

  pub dead-Draws :
      (req : Request)
      → (req.session_uuid == sid) ≡ false
      → Draws client (IsDeadTable client sid) (IsDeadTable client sid) req
  dead-Draws req other new t drawn h = create-IsDead new t (rw (drawn) other) h
