-- ===== src/Auth/Refresh/Replay.antt =====
-- What the detection of a replay in /refresh does to the tables:
-- features/auth/express/prisma/files/src/modules/auth/routes.ts.
use projx.Auth.Tables.{find-patch, find_other}
use projx.Auth.Responses.{token_replay_detected}
use projx.Auth.Rows.{patch, is_null, RefreshTokenRow}
use projx.Auth.Refresh.{revoke_data, replay_data, token_id, in_session, revoke_for_replay}
use projx.Auth.Store.{Db, IsLawfulClient, Client}
use projx.Auth.Services.{Services}
use projx.Base.Text.{Str}
use projx.Base.{
  ℕ, ◌≡◌, refl, sym, ap, ◌∙◌, Bool, ◌&&◌, some, if◌then◌else◌, ==_refl, nat_eq, list_eq, option_eq,
  find,
}

module _ (services : Services) {U T V : Type 0} {client : Client U T V}
    (lawful : IsLawfulClient client) where
  abbrev pub live_in : Str → RefreshTokenRow → Bool
  live_in session_id row = in_session session_id row && is_null row.revoked_at

  -- The replay of a token that is in the table.
  pub revoke_for_replay_found :
      (now : ℕ) (session_id : Str) (p : RefreshTokenRow → Bool) (row : RefreshTokenRow)
      (db : Db U T V)
      → client.refresh_token.find_first p db.refresh_tokens ≡ some row
      → (t : T) × (revoke_for_replay services client now session_id row.id db
          ≡ (record db { refresh_tokens = t }, token_replay_detected))
        × (client.refresh_token.rows t
            ≡ patch (token_id row.id) (replay_data now) (
                patch
                  (live_in session_id)
                  (revoke_data now)
                  (client.refresh_token.rows db.refresh_tokens)))
  unfolding revoke_for_replay
  revoke_for_replay_found now session_id p row db found =
      let q = live_in session_id in
      let revoked = (client.refresh_token.update_many q (revoke_data now) db.refresh_tokens).1 in
      let rows' = lawful.refresh_tokens.rows-update_many q (revoke_data now) db.refresh_tokens in
      let (x, here) =
        find_other p (token_id row.id) (client.refresh_token.rows db.refresh_tokens) row
          (sym (lawful.refresh_tokens.rows-find_first p db.refresh_tokens) ∙ found)
          (==_refl row.id) in
      let still : find (token_id row.id) (client.refresh_token.rows revoked)
          ≡ some (if q x then revoke_data now x else x) =
        rw
          (
            rows',
            find-patch q (token_id row.id) (revoke_data now)
                (client.refresh_token.rows db.refresh_tokens) (λ r. refl),
            here,
          )
          refl in
      let (t', done', rows'') =
        lawful.refresh_tokens.update_found row.id (replay_data now) revoked _ still in
      (t', rw (done') refl, rows'' ∙ ap (patch (token_id row.id) (replay_data now)) rows')

  pub revoke_for_replay_answer :
      (now : ℕ) (session_id : Str) (p : RefreshTokenRow → Bool) (row : RefreshTokenRow)
      (db : Db U T V)
      → client.refresh_token.find_first p db.refresh_tokens ≡ some row
      → (revoke_for_replay services client now session_id row.id db).1 ≡ token_replay_detected
  revoke_for_replay_answer now session_id p row db found =
      let (t, same, _) = revoke_for_replay_found now session_id p row db found in
      ap (λ result. result.1) same
