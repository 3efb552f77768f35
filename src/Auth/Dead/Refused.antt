-- ===== src/Auth/Dead/Refused.antt =====
-- /refresh of features/auth/express/prisma/files/src/modules/auth/routes.ts as a whole, on sessions
-- whose tokens are revoked.
use projx.Auth.Keeps.{if_lem}
use projx.Base.Text.{Str}
use projx.Auth.Rows.{RefreshTokenRow, is_null}
use projx.Auth.Store.{Client, Db, IsLawfulClient}
use projx.Auth.Services.{Services, Request, Claims}
use projx.Auth.Responses.{unauthorized, Parsed, valid, invalid}
use projx.Auth.Refresh.{
  resolve_rotation_grace_child, refresh_user, refresh_active, refresh_ids, refresh_row,
  refresh_used, refresh_claims, is_unused, revoke_for_replay, refresh, refresh_token_row,
  in_session,
}
use projx.Auth.Login.{by_id}
use projx.Auth.Challenge.{non_empty}
use projx.Auth.Tables.{find_first-All}
use projx.Auth.Dead.Refresh.{no_grace_child, LeavesIf, rotate-Leaves, revoke_for_replay-Leaves}
use projx.Auth.Dead.{IsDead, IsDeadRow}
use projx.Base.{
  ℕ, ◌≡◌, refl, inl, inr, Bool, true, false, ◌&&◌, Option, none, some, ltb, Bool-cases,
  Option-cases, eq_cases, ==_refl, ◌==◌, nat_eq, list_eq, option_eq,
}

module _ (services : Services) {U T V : Type 0} {client : Client U T V}
    (lawful : IsLawfulClient client) (sid : Str) (others : ℕ → Db U T V → Db U T V) (req : Request)
    (fuel : ℕ) where
  -- A token that was presented while its session is dead is taken for a replay.
  pub refresh_token_row_dead :
      (sub own : Str) (token_row : RefreshTokenRow) (db : Db U T V)
      → IsDead client sid (others 1 db)
      → token_row.session_id ≡ sid
      → IsDeadRow sid token_row
      → refresh_token_row services client others req fuel sub own token_row db
        ≡ some (
            revoke_for_replay services client req.now token_row.session_id token_row.id
              (others 3 (others 1 db)))
  refresh_token_row_dead sub own token_row db h same dead =
      let revoked = dead (rw (same) (==_refl sid)) in
      let unused : is_unused token_row ≡ false =
        rw (revoked) (elim (Bool-cases (is_null token_row.rotated_to)) [
          | inl rotated ↦ rw (rotated) refl
          | inr rotated ↦ rw (rotated) refl
        ]) in
      let nothing : resolve_rotation_grace_child services client token_row.session_id req.now
            token_row (others 1 db)
          ≡ none =
        rw (same) (no_grace_child services lawful sid req.now _ (others 1 db) h) in
      rw (unused, nothing) refl

  module _
      (keep : (n : ℕ) (db : Db U T V)
        → IsDead client sid db
        → IsDead client sid (others n db)) where
    refresh_active-Leaves :
        (sub own : Str) (token_row active : RefreshTokenRow) (db : Db U T V)
        → in_session sid token_row ≡ false
        → IsDead client sid db
        → LeavesIf services lawful sid
            (refresh_active services client others req fuel sub own token_row active db)
    unfolding unauthorized
    refresh_active-Leaves sub own token_row active db other h =
        if_lem (LeavesIf services lawful sid) (ltb active.expires_at req.now) _ _ h
          (elim (client.user.find_first (by_id sub) (others 2 db).users)
            as (λ o. LeavesIf services lawful sid (
              refresh_user services client others req fuel sub own token_row active (others 2 db)
                o)) [
                  | none ↦ keep 2 db h
                  | some user ↦
                      rotate-Leaves services lawful sid others keep req fuel 1 sub own token_row
                        user active (others 2 db) other (keep 2 db h)
                ])

    refresh_used-Leaves :
        (sub own : Str) (token_row : RefreshTokenRow) (db : Db U T V)
        (child : Option RefreshTokenRow)
        → in_session sid token_row ≡ false
        → IsDead client sid db
        → LeavesIf services lawful sid
            (refresh_used services client others req fuel sub own token_row db child)
    refresh_used-Leaves sub own token_row db none other h =
        revoke_for_replay-Leaves services lawful sid req.now token_row.session_id token_row.id _
          (keep 3 db h)
    refresh_used-Leaves sub own token_row db (some child) other h =
        refresh_active-Leaves sub own token_row child db other h

    refresh_row-Leaves :
        (sub own : Str) (db : Db U T V) (p : RefreshTokenRow → Bool)
        → IsDead client sid db
        → LeavesIf services lawful sid (
            refresh_row services client others req fuel sub own db
              (client.refresh_token.find_first p db.refresh_tokens))
    refresh_row-Leaves sub own db p h =
        elim (Option-cases (client.refresh_token.find_first p db.refresh_tokens)) [
          | inl missing ↦ rw (missing) h
          | inr (token_row, found) ↦ rw (found) (
              if_lem (LeavesIf services lawful sid)
                (token_row.session_id == own && token_row.user_id == sub) _ _
                (elim (eq_cases token_row.session_id sid) [
                  | inl (_, same) ↦
                      rw
                        (refresh_token_row_dead sub own token_row db (keep 1 db h) same (
                          find_first-All lawful.refresh_tokens (IsDeadRow sid) p db.refresh_tokens
                            token_row found h))
                        (revoke_for_replay-Leaves services lawful sid req.now token_row.session_id
                          token_row.id _ (keep 3 _ (keep 1 db h)))
                  | inr (other, _) ↦
                      if_lem (LeavesIf services lawful sid) (is_unused token_row) _ _
                        (refresh_active-Leaves sub own token_row token_row db other h)
                        (refresh_used-Leaves sub own token_row (others 1 db) _ other (keep 1 db h))
                ])
                h)
        ]

    refresh_ids-Leaves :
        (token : Str) (ok : Bool) (db : Db U T V) (sub own : Option Str)
        → IsDead client sid db
        → LeavesIf services lawful sid
            (refresh_ids services client others req fuel token ok db sub own)
    refresh_ids-Leaves token true db (some sub) (some own) h =
        refresh_row-Leaves sub own (others 0 db) _ (keep 0 db h)
    refresh_ids-Leaves token true db (some sub) none h = h
    refresh_ids-Leaves token true db none own h = h
    refresh_ids-Leaves token false db sub own h = h

    refresh_claims-Leaves :
        (token : Str) (db : Db U T V) (decoded : Option Claims)
        → IsDead client sid db
        → LeavesIf services lawful sid
            (refresh_claims services client others req fuel token db decoded)
    refresh_claims-Leaves token db none h = h
    refresh_claims-Leaves token db (some decoded) h =
        refresh_ids-Leaves token _ db (non_empty decoded.sub) (non_empty decoded.sid) h

    pub refresh-IsDead :
        (parsed : Parsed Str) (db : Db U T V)
        → IsDead client sid db
        → LeavesIf services lawful sid (refresh services client others req fuel parsed db)
    unfolding refresh
    refresh-IsDead (invalid path message) db h = h
    refresh-IsDead (valid token) db h = refresh_claims-Leaves token db _ h
