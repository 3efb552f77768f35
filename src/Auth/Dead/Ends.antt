-- ===== src/Auth/Dead/Ends.antt =====
-- Which handlers of features/auth/express/prisma/files/src/modules/auth/routes.ts revoke all the tokens
-- of a session.
use projx.Auth.Login.{after_update}
use projx.Auth.Password.{hash_token}
use projx.Auth.Responses.{not_found, valid, done}
use projx.Auth.Challenge.{non_empty}
use projx.Auth.Recovery.{is_usable, ResetPasswordBody, consume_reset, reset_password, reset_user}
use projx.Base.Text.{codes, Str}
use projx.Auth.Rows.{VerificationTokenRow, RefreshTokenRow, is_null}
use projx.Auth.Store.{Client, Db, IsLawfulClient}
use projx.Auth.Services.{Services}
use projx.Auth.Refresh.{in_session, revoke_data}
use projx.Auth.Account.{
  change_hash, revoke_others, change_user, ChangePasswordBody, change_password, or_else,
  change_checked, other_session, logout, of_user, revoke_tokens,
}
use projx.Auth.Tables.{All-weaken, All-patch}
use projx.Auth.Dead.{UserRow, Request, IsDeadRow, IsDead}
use projx.Base.{
  ℕ, ◌≡◌, refl, sym, ap, ◌∙◌, ◌≢◌, inl, inr, Bool, true, false, ◌&&◌, Option, none, some, eq_cases,
  ==_iff, nat_eq, list_eq, option_eq, All,
}

module _ {U T V : Type 0} (client : Client U T V) (sid user_id : Str) where
  -- All the tokens of the session are the user's.
  abbrev pub IsOwned : Db U T V → Type 0
  IsOwned db =
      All (λ row. in_session sid row ≡ true → of_user user_id row ≡ true)
        (client.refresh_token.rows db.refresh_tokens)

module _ (services : Services) {U T V : Type 0} {client : Client U T V}
    (lawful : IsLawfulClient client) (sid : Str) where
  revoke_row-IsDeadRow :
      (p : RefreshTokenRow → Bool) (row : RefreshTokenRow)
      → (in_session sid row ≡ true → p row ≡ true)
      → (p row && is_null row.revoked_at) ≡ false
      → IsDeadRow sid row
  revoke_row-IsDeadRow p row covers miss same = rw (covers same) at miss

  pub revoke_tokens-All :
      (now : ℕ) (p : RefreshTokenRow → Bool) (db : Db U T V)
      → All
          (λ row. in_session sid row ≡ true → p row ≡ true)
          (client.refresh_token.rows db.refresh_tokens)
      → IsDead client sid (revoke_tokens services client now p db)
  revoke_tokens-All now p db covers =
      rw
        (lawful.refresh_tokens.rows-update_many (λ row. p row && is_null row.revoked_at)
          (revoke_data now) db.refresh_tokens)
        (All-patch (λ row. in_session sid row ≡ true → p row ≡ true) (IsDeadRow sid) _
          (revoke_data now) (client.refresh_token.rows db.refresh_tokens) (λ r k hit same. refl)
          (λ r k miss. revoke_row-IsDeadRow p r k miss) covers)

  pub logout_ends :
      (req : Request) (session_id : Option Str) (db : Db U T V)
      → non_empty (some req.auth_sub) ≡ some req.auth_sub
      → non_empty (or_else services client session_id req.auth_sid) ≡ some sid
      → IsOwned client sid req.auth_sub db
      → IsDead client sid (logout services client req (valid session_id) db).0
  unfolding logout
  logout_ends req session_id db user same owned =
      rw (user, same)
        (revoke_tokens-All req.now _ db
          (All-weaken _ _ _ (λ row k own. rw (own, k own) refl) owned))

  consume_reset_ends :
      (req : Request) (reset : VerificationTokenRow) (db : Db U T V) (users : U)
      (updated : Option (VerificationTokenRow × V))
      → IsOwned client sid reset.user_id db
      → (consume_reset services client req reset db users updated).1 ≡ done
      → IsDead client sid (consume_reset services client req reset db users updated).0
  consume_reset_ends req reset db users none owned ok = absurd (cc)
  consume_reset_ends req reset db users (some (row, tokens)) owned ok =
      revoke_tokens-All req.now (of_user reset.user_id)
        (record db { users = users; verification_tokens = tokens }) owned

  reset_user_ends :
      (req : Request) (reset : VerificationTokenRow) (db : Db U T V)
      (updated : Option (UserRow × U))
      → IsOwned client sid reset.user_id db
      → (reset_user services client req reset db updated).1 ≡ done
      → IsDead client sid (reset_user services client req reset db updated).0
  reset_user_ends req reset db none owned ok = absurd (cc)
  reset_user_ends req reset db (some (user, users)) owned ok =
      consume_reset_ends req reset db users _ owned ok

  pub reset_password_ends :
      (req : Request) (body : ResetPasswordBody) (db : Db U T V) (reset : VerificationTokenRow)
      → client.verification_token.find_first
          (is_usable (hash_token services body.token) (codes "password_reset") req.now)
          db.verification_tokens
        ≡ some reset
      → IsOwned client sid reset.user_id db
      → (reset_password services client req (valid body) db).1 ≡ done
      → IsDead client sid (reset_password services client req (valid body) db).0
  unfolding reset_password
  reset_password_ends req body db reset found owned ok =
      rw (found) (reset_user_ends req reset db _ owned (rw (found) at ok))

  -- Every token of the session is among those of the other sessions.
  abbrev Others : Request → Type 0
  Others req =
      (row : RefreshTokenRow)
      → in_session sid row ≡ true
      → other_session services client (non_empty req.auth_sid) row ≡ true

  change_updated_ends :
      (req : Request) (db : Db U T V) (updated : Option (UserRow × U))
      → IsOwned client sid req.auth_sub db
      → Others req
      → (after_update services client db (revoke_others services client req) updated).1 ≡ done
      → IsDead client sid
          (after_update services client db (revoke_others services client req) updated).0
  change_updated_ends req db none owned other ok = absurd (cc)
  change_updated_ends req db (some (user, users)) owned other ok =
      revoke_tokens-All req.now _ (record db { users = users })
        (All-weaken _ _ _ (λ row k own. rw (k own, other row own) refl) owned)

  change_checked_ends :
      (req : Request) (password : Str) (db : Db U T V) (right : Bool)
      → IsOwned client sid req.auth_sub db
      → Others req
      → (change_checked services client req password db right).1 ≡ done
      → IsDead client sid (change_checked services client req password db right).0
  change_checked_ends req password db false owned other ok = absurd (cc)
  change_checked_ends req password db true owned other ok =
      change_updated_ends req db _ owned other ok

  change_hash_ends :
      (req : Request) (body : ChangePasswordBody) (db : Db U T V) (hash : Option Str)
      → IsOwned client sid req.auth_sub db
      → Others req
      → (change_hash services client req body db hash).1 ≡ done
      → IsDead client sid (change_hash services client req body db hash).0
  unfolding not_found
  change_hash_ends req body db none owned other ok = absurd (cc)
  change_hash_ends req body db (some hash) owned other ok =
      change_checked_ends req body.new_password db _ owned other ok

  change_user_ends :
      (req : Request) (body : ChangePasswordBody) (db : Db U T V) (user : Option UserRow)
      → IsOwned client sid req.auth_sub db
      → Others req
      → (change_user services client req body db user).1 ≡ done
      → IsDead client sid (change_user services client req body db user).0
  unfolding not_found
  change_user_ends req body db none owned other ok = absurd (cc)
  change_user_ends req body db (some user) owned other ok =
      change_hash_ends req body db (non_empty user.password_hash) owned other ok

  -- The current session is another one, or is not known.
  other_session_of :
      (current : Option Str)
      → current ≢ some sid
      → (row : RefreshTokenRow) → in_session sid row ≡ true
      → other_session services client current row ≡ true
  other_session_of none differs row same = refl
  other_session_of (some own) differs row same = elim (eq_cases row.session_id own) [
    | inl (_, here) ↦ absurd (differs (ap some (sym here ∙ (==_iff row.session_id sid).0 same)))
    | inr (there, _) ↦ rw (there) refl
  ]

  pub change_password_ends :
      (req : Request) (body : ChangePasswordBody) (db : Db U T V)
      → non_empty req.auth_sid ≢ some sid
      → IsOwned client sid req.auth_sub db
      → (change_password services client req (valid body) db).1 ≡ done
      → IsDead client sid (change_password services client req (valid body) db).0
  unfolding change_password
  change_password_ends req body db differs owned ok =
      change_user_ends req body db _ owned (other_session_of (non_empty req.auth_sid) differs) ok
