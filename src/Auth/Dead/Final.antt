-- ===== src/Auth/Dead/Final.antt =====
-- /refresh of features/auth/express/prisma/files/src/modules/auth/routes.ts with a token of a session
-- that has ended.
use projx.Auth.Keeps.{if_lem}
use projx.Auth.Tables.{find_first-All}
use projx.Auth.Dead.Refused.{refresh_token_row_dead}
use projx.Auth.Challenge.{non_empty}
use projx.Auth.Rows.{RefreshTokenRow}
use projx.Auth.Dead.{IsDeadRow, IsDead}
use projx.Auth.Dead.History.{run-IsDead, run, NeverDrawn, Call}
use projx.Auth.Refresh.{mark_replayed, refresh_ids, refresh_row, refresh, revoke_for_replay}
use projx.Auth.Responses.{exception, valid, token_replay_detected, unauthorized, Response}
use projx.Auth.Services.{Claims, Request, Services}
use projx.Auth.Store.{IsLawfulClient, Client, Db}
use projx.Base.Text.{Str}
use projx.Base.{
  ℕ, ◌≡◌, refl, ◌⊎◌, inl, inr, Bool, true, false, ◌&&◌, Option, none, some, List, [], ◌∷◌,
  Option-cases, eq_cases, ◌==◌, nat_eq, list_eq, option_eq,
}

-- The refusals of a token: it is not valid, it is replayed, or the database throws, where the row to
-- mark as replayed is gone.
abbrev pub IsRefused : {U T V : Type 0} → Option (Db U T V × Response) → Type 0
IsRefused {U} {T} {V} result =
    (db : Db U T V) × ((result ≡ some (db, unauthorized))
      ⊎ (result ≡ some (db, token_replay_detected))
      ⊎ (result ≡ some (db, exception)))

module _ (services : Services) {U T V : Type 0} {client : Client U T V}
    (lawful : IsLawfulClient client) where
  mark_replayed-IsRefused :
      (db : Db U T V) (marked : Option (RefreshTokenRow × T))
      → IsRefused (some (mark_replayed services client db marked))
  mark_replayed-IsRefused db none = (db, inr (inr refl))
  mark_replayed-IsRefused db (some (row, t)) = (record db { refresh_tokens = t }, inr (inl refl))

  revoke_for_replay-IsRefused :
      (now : ℕ) (session_id id : Str) (db : Db U T V)
      → IsRefused (some (revoke_for_replay services client now session_id id db))
  unfolding revoke_for_replay
  revoke_for_replay-IsRefused now session_id id db = mark_replayed-IsRefused db _

  module _ (sid : Str) (others : ℕ → Db U T V → Db U T V) (req : Request) (fuel : ℕ)
      (keep : (n : ℕ) (db : Db U T V)
        → IsDead client sid db
        → IsDead client sid (others n db)) where
    refresh_row-IsRefused :
        (sub : Str) (db : Db U T V) (p : RefreshTokenRow → Bool)
        → IsDead client sid db
        → IsRefused (
            refresh_row services client others req fuel sub sid db
              (client.refresh_token.find_first p db.refresh_tokens))
    refresh_row-IsRefused sub db p h =
        elim (Option-cases (client.refresh_token.find_first p db.refresh_tokens)) [
          | inl missing ↦ rw (missing) (db, inl refl)
          | inr (row, found) ↦ rw (found) (elim (eq_cases row.session_id sid) [
            | inl (test, same) ↦
                if_lem IsRefused (row.session_id == sid && row.user_id == sub) _ _
                  (rw
                    (refresh_token_row_dead services lawful sid others req fuel sub sid row db
                      (keep 1 db h) same
                      (find_first-All lawful.refresh_tokens (IsDeadRow sid) p db.refresh_tokens row
                        found h))
                    (revoke_for_replay-IsRefused req.now row.session_id row.id
                      (others 3 (others 1 db))))
                  (db, inl refl)
            | inr (test, other) ↦ rw (test) (db, inl refl)
          ])
        ]

    refresh_ids-IsRefused :
        (token : Str) (ok : Bool) (db : Db U T V) (sub : Option Str) (own : Str)
        → own ≡ sid
        → IsDead client sid db
        → IsRefused
            (refresh_ids services client others req fuel token ok db sub (non_empty (some own)))
    refresh_ids-IsRefused token true db (some sub) [] same h = (db, inl refl)
    refresh_ids-IsRefused token true db (some sub) (c ∷ own) same h =
        rw (same) (refresh_row-IsRefused sub (others 0 db) _ (keep 0 db h))
    refresh_ids-IsRefused token true db none own same h = (db, inl refl)
    refresh_ids-IsRefused token false db sub own same h = (db, inl refl)

    pub refresh-IsRefused :
        (token : Str) (decoded : Claims) (db : Db U T V)
        → services.verify token req.now ≡ some decoded
        → decoded.sid ≡ some sid
        → IsDead client sid db
        → IsRefused (refresh services client others req fuel (valid token) db)
    unfolding refresh
    refresh-IsRefused token decoded db read names h =
        rw (read, names) (refresh_ids-IsRefused token _ db (non_empty decoded.sub) sid refl h)

    -- Once all the tokens of a session are revoked, a token whose claims name the session is refused
    -- by /refresh, after any sequence of requests and clean-ups, one after the other, that does not
    -- draw the id of the session again: the token is answered as not valid or as a replay, or the
    -- database throws. Other requests may change the tables between the calls of /refresh, as long as
    -- they leave the session without a usable token, which a rotation begun before the session ended
    -- does not. The client keeps its laws, and the bound on the attempts is any.
    pub dead_session-IsRefused :
        (calls : List (Request × Call)) (db : Db U T V) (token : Str) (decoded : Claims)
        → NeverDrawn sid calls
        → IsDead client sid db
        → services.verify token req.now ≡ some decoded
        → decoded.sid ≡ some sid
        → IsRefused
            (refresh services client others req fuel (valid token) (run services client calls db))
    dead_session-IsRefused calls db token decoded fresh h read names =
        refresh-IsRefused token decoded (run services client calls db) read names
          (run-IsDead services lawful sid calls db fresh h)
