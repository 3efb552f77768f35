-- ===== src/Auth/Dead/Refresh.antt =====
-- What /refresh of features/auth/express/prisma/files/src/modules/auth/routes.ts does with sessions
-- whose tokens are revoked.
use projx.Auth.Keeps.{if_lem}
use projx.Base.Text.{Str}
use projx.Auth.Rows.{UserRow, RefreshTokenRow}
use projx.Auth.Store.{Client, Db, IsLawfulClient}
use projx.Auth.Services.{Services, Request}
use projx.Auth.Responses.{Response, Tokens}
use projx.Auth.Session.{new_token}
use projx.Auth.Refresh.{
  token_id, find_token, child_of, resolve_rotation_grace_child, is_grace_child, in_session,
  revoke_data, replay_data, rotate_data, mark_replayed, revoke_for_replay, link_rotated,
  rotate_claimed, claim, retry, rotate,
}
use projx.Auth.Tables.{find_first-All, update_many-All, update-All}
use projx.Auth.Rows.{is_null}
use projx.Auth.Dead.{IsDeadRow, IsDead, Leaves, create-IsDead}
use projx.Base.{
  arith, not, Bool-cases, ℕ, zero, suc, ◌+◌, ◌*◌, ◌≡◌, refl, inl, inr, false, Option, none, some,
  leb, Option-cases, ◌==◌, nat_eq, list_eq, option_eq, All,
}

module _ (services : Services) {U T V : Type 0} {client : Client U T V}
    (lawful : IsLawfulClient client) (sid : Str) where
  abbrev pub LeavesIf : Option (Db U T V × Response) → Type 0
  LeavesIf none = Unit {0}
  LeavesIf (some result) = Leaves client sid result

  mark_replayed-Leaves :
      (db : Db U T V) (t : T) (id : Str) (now : ℕ)
      → All (IsDeadRow sid) (client.refresh_token.rows t)
      → IsDead client sid db
      → Leaves client sid
          (mark_replayed services client db (client.refresh_token.update id (replay_data now) t))
  mark_replayed-Leaves db t id now k h =
      elim (Option-cases (client.refresh_token.update id (replay_data now) t)) [
        | inl missing ↦ rw (missing) h
        | inr ((row, t'), found) ↦ rw (found) (
            update-All lawful.refresh_tokens (IsDeadRow sid) id (replay_data now) t t' row
              (λ r same. same) found k)
      ]

  pub revoke_for_replay-Leaves :
      (now : ℕ) (session_id id : Str) (db : Db U T V)
      → IsDead client sid db
      → Leaves client sid (revoke_for_replay services client now session_id id db)
  unfolding revoke_for_replay
  revoke_for_replay-Leaves now session_id id db h =
      mark_replayed-Leaves db _ id now
        (update_many-All lawful.refresh_tokens (IsDeadRow sid) _ (revoke_data now) db.refresh_tokens
          (λ r k same. refl) h)
        h

  module _ (others : ℕ → Db U T V → Db U T V)
      (keep : (n : ℕ) (db : Db U T V) → IsDead client sid db → IsDead client sid (others n db))
      (req : Request) where
    link_rotated-Leaves :
        (tokens : Tokens) (db : Db U T V) (claimed_id id : Str)
        → IsDead client sid db
        → Leaves client sid (
            link_rotated services client others req tokens db
              (client.refresh_token.update claimed_id (rotate_data id) db.refresh_tokens))
    link_rotated-Leaves tokens db claimed_id id h =
        elim (Option-cases
          (client.refresh_token.update claimed_id (rotate_data id) db.refresh_tokens)) [
            | inl missing ↦ rw (missing) h
            | inr ((row, t'), found) ↦ rw (found) (
                update-All lawful.refresh_tokens (IsDeadRow sid) claimed_id (rotate_data id)
                  db.refresh_tokens t' row (λ r same. same) found h)
          ]

    rotate_claimed-Leaves :
        (attempt : ℕ) (token_row : RefreshTokenRow) (tokens : Tokens) (claimed_id : Str)
        (db : Db U T V)
        → in_session sid token_row ≡ false
        → IsDead client sid db
        → Leaves client sid
            (rotate_claimed services client others req attempt token_row tokens claimed_id db)
    rotate_claimed-Leaves attempt token_row tokens claimed_id db other h =
        link_rotated-Leaves tokens _ claimed_id _ (
          keep (attempt * 5 + 4) _ (
            create-IsDead lawful sid
              (new_token services req token_row.user_id token_row.session_id tokens)
              (others (attempt * 5 + 3) db).refresh_tokens other (keep (attempt * 5 + 3) db h)))

    retry-Leaves :
        (attempt : ℕ) (token_row : RefreshTokenRow) (claimed_id : Str) (db : Db U T V)
        (again : RefreshTokenRow → Db U T V → Option (Db U T V × Response))
        (child : Option RefreshTokenRow)
        → IsDead client sid db
        → ((row : RefreshTokenRow) → LeavesIf (again row db))
        → LeavesIf (retry services client others req attempt token_row claimed_id db again child)
    retry-Leaves attempt token_row claimed_id db again none h then' =
        revoke_for_replay-Leaves req.now token_row.session_id claimed_id _
          (keep (attempt * 5 + 3) db h)
    retry-Leaves attempt token_row claimed_id db again (some child) h then' =
        if_lem LeavesIf (leb 3 attempt) _ _
          (revoke_for_replay-Leaves req.now token_row.session_id claimed_id _
            (keep (attempt * 5 + 3) db h))
          (then' child)

    pub rotate-Leaves :
        (fuel attempt : ℕ) (sub own : Str) (token_row : RefreshTokenRow) (user : UserRow)
        (active : RefreshTokenRow) (db : Db U T V)
        → in_session sid token_row ≡ false
        → IsDead client sid db
        → LeavesIf (rotate services client others req fuel attempt sub own token_row user active db)
    unfolding rotate
    rotate-Leaves zero attempt sub own token_row user active db other h = tt
    rotate-Leaves (suc fuel) attempt sub own token_row user active db other h =
        let db1 = others (attempt * 5) db in
        let db2 : Db U T V = record db1 {
          refresh_tokens = (claim services client others req active.id db1).1;
        } in
        let dead2 : IsDead client sid db2 =
          update_many-All lawful.refresh_tokens (IsDeadRow sid) _ (revoke_data req.now)
            db1.refresh_tokens (λ r k same. refl) (keep (attempt * 5) db h) in
        let read = others (attempt * 5 + 1) db2 in
        let found = others (attempt * 5 + 2) read in
        let dead3 = keep (attempt * 5 + 2) read (keep (attempt * 5 + 1) db2 dead2) in
        if_lem LeavesIf ((claim services client others req active.id db1).0 == 0) _ _
          (retry-Leaves attempt token_row active.id found
            (λ child db'.
              rotate services client others req fuel (suc attempt) sub own token_row user child db')
            _ dead3
            (λ child.
              rotate-Leaves fuel (suc attempt) sub own token_row user child found other dead3))
          (rotate_claimed-Leaves attempt token_row _ active.id db2 other dead2)

  grace_of-IsDeadRow :
      (now : ℕ) (row : RefreshTokenRow) → IsDeadRow sid row → is_grace_child sid now row ≡ false
  unfolding is_grace_child
  grace_of-IsDeadRow now row dead = elim (Bool-cases (row.session_id == sid)) [
    | inl same ↦ rw (same, dead same) (ground arith)
    | inr other ↦ rw (other) refl
  ]

  pub no_grace_child :
      (now : ℕ) (token : RefreshTokenRow) (db : Db U T V)
      → IsDead client sid db
      → resolve_rotation_grace_child services client sid now token db ≡ none
  unfolding resolve_rotation_grace_child
  no_grace_child now token db h =
      if_lem (λ o. o ≡ none) (not (is_null token.replay_detected_at)) none _ refl
        (elim token.rotated_to as (λ o. child_of services client sid now o db ≡ none) [
          | none ↦ refl
          | some child ↦ elim (Option-cases (find_token services client child db)) [
            | inl missing ↦ rw (missing) refl
            | inr (row, found) ↦
                rw
                  (
                    found,
                    grace_of-IsDeadRow now row (
                        find_first-All lawful.refresh_tokens (IsDeadRow sid) (token_id child)
                          db.refresh_tokens row found h),
                  )
                  refl
          ]
        ])
