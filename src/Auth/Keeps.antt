-- ===== src/Auth/Keeps.antt =====
-- Properties of the table of refresh tokens, and what the parts of the handlers in
-- features/auth/express/prisma/files/src/modules/auth/routes.ts do to them.
pub mod Handlers
pub mod Settings
pub mod Mail
use projx.Base.Text.{Str}
use projx.Auth.Rows.{UserRow, RefreshTokenRow, NewRefreshToken, is_null}
use projx.Auth.Store.{Client, Db, IsLawfulClient}
use projx.Auth.Services.{Services, Request}
use projx.Auth.Responses.{Response}
use projx.Auth.Session.{
  create_token, new_token, issue_auth_session, sign_tokens, payload_of, issue_tokens,
}
use projx.Auth.Login.{update_user, after_update}
use projx.Auth.Refresh.{in_session, revoke_data}
use projx.Auth.Account.{revoke_tokens}
use projx.Auth.Tables.{update_many-All, create-All}
use projx.Base.{
  ◌&&◌, ℕ, ◌≡◌, refl, Bool, true, false, none, some, if◌then◌else◌, ◌==◌, nat_eq, list_eq,
  option_eq, All,
}

-- A branch of either kind.
pub if_lem : {A : Type 0} (P : A → Type 0) (b : Bool) (x y : A) → P x → P y → P (if b then x else y)
if_lem P true x y h k = h
if_lem P false x y h k = k

module _ {U T V : Type 0} (I : T → Type 0) where
  abbrev pub Holds : Db U T V → Type 0
  Holds db = I db.refresh_tokens

  -- The tables that a handler leaves.
  abbrev pub Leaves : Db U T V × Response → Type 0
  Leaves (db, response) = Holds db

-- From `I` of the table, `J` of it after one revocation of tokens or one deletion.
pub record IsClosed {U T V : Type 0} (client : Client U T V) (I J : T → Type 0) : Type 0 where
  pub kept : (t : T) → I t → J t
  pub revoked :
      (p : RefreshTokenRow → Bool) (now : ℕ) (t : T)
      → I t
      → J
          (client.refresh_token.update_many
            (λ row. p row && is_null row.revoked_at)
            (revoke_data now)
            t).1
  pub deleted :
      (p : RefreshTokenRow → Bool) (t : T) → I t → J (client.refresh_token.delete_many p t).1

-- From `I` of the table, `J` of it after a token is created for the session that a request draws.
abbrev pub Draws : {U T V : Type 0} → Client U T V → (I J : T → Type 0) → Request → Type 0
Draws {U} {T} {V} client I J req =
    (new : NewRefreshToken) (t : T)
    → new.session_id ≡ req.session_uuid
    → I t
    → J (client.refresh_token.create new t).1

module _ (services : Services) {U T V : Type 0} (client : Client U T V) {I J : T → Type 0}
    (closed : IsClosed client I J) where
  pub revoke_tokens-Holds :
      (now : ℕ) (p : RefreshTokenRow → Bool) (db : Db U T V)
      → Holds I db
      → Holds J (revoke_tokens services client now p db)
  revoke_tokens-Holds now p db h = closed.revoked p now db.refresh_tokens h

  pub update_user-Leaves :
      (id : Str) (change : UserRow → UserRow) (db : Db U T V)
      (next : UserRow → Db U T V → Db U T V × Response)
      → Holds I db
      → ((user : UserRow) (users : U) → Leaves J (next user (record db { users = users })))
      → Leaves J (update_user services client id change db next)
  update_user-Leaves id change db next h then' =
      elim (client.user.update id change db.users)
        as (λ o. Leaves J (after_update services client db next o)) [
          | none ↦ closed.kept db.refresh_tokens h
          | some updated ↦ then' updated.0 updated.1
        ]

  pub update_answer-Leaves :
      (id : Str) (change : UserRow → UserRow) (db : Db U T V) (response : Response)
      → Holds I db
      → Leaves J (update_user services client id change db (λ _ db'. (db', response)))
  update_answer-Leaves id change db response h =
      update_user-Leaves id change db (λ _ db'. (db', response)) h
        (λ _ _. closed.kept db.refresh_tokens h)

  module _ (req : Request) (fresh : Draws client I J req) where
    pub issue_auth_session-Leaves :
        (user : UserRow) (db : Db U T V)
        → Holds I db
        → Leaves J (issue_auth_session services client req user db)
    unfolding issue_auth_session sign_tokens payload_of
    issue_auth_session-Leaves user db h =
        fresh
          (new_token services req user.id req.session_uuid (issue_tokens services client req user))
          db.refresh_tokens refl h

    pub update_issue-Leaves :
        (id : Str) (change : UserRow → UserRow) (db : Db U T V) (user : UserRow)
        → Holds I db
        → Leaves J (
            update_user services client id change db
              (λ _ db'. issue_auth_session services client req user db'))
    update_issue-Leaves id change db user h =
        update_user-Leaves id change db (λ _ db'. issue_auth_session services client req user db') h
          (λ _ users. issue_auth_session-Leaves user (record db { users = users }) h)
