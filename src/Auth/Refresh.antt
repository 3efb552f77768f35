-- ===== src/Auth/Refresh.antt =====
-- The handler of /refresh in features/auth/express/prisma/files/src/modules/auth/routes.ts: the
-- rotation of refresh tokens and the detection of replays.
--
-- Other requests may change the tables between two of the handler's calls of the database: `others n`
-- is what they do before one of these calls: 0 to 3 come before the loop (the token, its replacement,
-- the user, a replay), and from 5 on there are five for each attempt. A bound on the attempts makes
-- the loop a function.
pub mod Total
pub mod Replay
use projx.Base.Text.{Str, codes}
use projx.Auth.Rows.{UserRow, RefreshTokenRow, is_null}
use projx.Auth.Store.{Client, Db}
use projx.Auth.Services.{Services, Request, Claims}
use projx.Auth.Responses.{
  Response, Parsed, valid, invalid, Tokens, exception, refreshed, unauthorized,
  token_replay_detected, validation_error,
}
use projx.Auth.Session.{sign_tokens, payload_of, new_token, hash_refresh_token}
use projx.Auth.Login.{by_id}
use projx.Auth.Challenge.{non_empty}
use projx.Base.{
  ℕ, zero, suc, ◌+◌, ◌*◌, Bool, true, not, ◌&&◌, Option, none, some, leb, ltb, if◌then◌else◌, ◌==◌,
  nat_eq, list_eq, option_eq,
}

abbrev pub max_rotation_attempts : ℕ
max_rotation_attempts = 3

abbrev pub token_id : Str → RefreshTokenRow → Bool
token_id id row = row.id == id

abbrev pub in_session : Str → RefreshTokenRow → Bool
in_session sid row = row.session_id == sid

-- A token that was neither revoked nor rotated.
abbrev pub is_unused : RefreshTokenRow → Bool
is_unused row = is_null row.rotated_to && is_null row.revoked_at

abbrev pub revoke_data : ℕ → RefreshTokenRow → RefreshTokenRow
revoke_data now row = record row { revoked_at = some now }

abbrev pub replay_data : ℕ → RefreshTokenRow → RefreshTokenRow
replay_data now row = record row { replay_detected_at = some now }

abbrev pub rotate_data : Str → RefreshTokenRow → RefreshTokenRow
rotate_data id row = record row { rotated_to = some id }

-- The tests of `resolveRotationGraceChild` on the token that replaced another one.
unfoldable pub is_grace_child : Str → ℕ → RefreshTokenRow → Bool
is_grace_child session_id now child =
    child.session_id == session_id
    && is_null child.rotated_to
    && is_null child.revoked_at
    && is_null child.replay_detected_at
    && not (ltb child.expires_at now)

abbrev pub checked_child : Str → ℕ → Option RefreshTokenRow → Option RefreshTokenRow
checked_child session_id now none = none
checked_child session_id now (some child) =
    if is_grace_child session_id now child then some child else none

-- The claims that are needed beside the user and the session.
abbrev pub has_claims : Claims → Bool
has_claims decoded =
    not (is_null (non_empty decoded.email))
    && not (is_null (non_empty decoded.role))
    && not (is_null (non_empty decoded.jti))

module _ (services : Services) {U T V : Type 0} (client : Client U T V) where
  abbrev pub find_token : Str → Db U T V → Option RefreshTokenRow
  find_token id db = client.refresh_token.find_first (token_id id) db.refresh_tokens

  abbrev pub child_of : Str → ℕ → Option Str → Db U T V → Option RefreshTokenRow
  child_of session_id now none db = none
  child_of session_id now (some child) db = checked_child session_id now (find_token child db)

  unfoldable pub resolve_rotation_grace_child :
      Str → ℕ → RefreshTokenRow → Db U T V → Option RefreshTokenRow
  unfolding is_grace_child
  resolve_rotation_grace_child session_id now token db =
      if not (is_null token.replay_detected_at)
      then none
      else child_of session_id now token.rotated_to db

  -- Both changes are one transaction.
  abbrev pub mark_replayed : Db U T V → Option (RefreshTokenRow × T) → Db U T V × Response
  mark_replayed db none = (db, exception)
  mark_replayed db (some (row, tokens)) =
      (record db { refresh_tokens = tokens }, token_replay_detected)

  unfoldable pub revoke_for_replay : ℕ → Str → Str → Db U T V → Db U T V × Response
  unfolding token_replay_detected
  revoke_for_replay now session_id id db =
      let revoked =
        client.refresh_token.update_many
          (λ row. in_session session_id row && is_null row.revoked_at) (revoke_data now)
          db.refresh_tokens in
      mark_replayed db (client.refresh_token.update id (replay_data now) revoked.1)

  module _ (others : ℕ → Db U T V → Db U T V) (req : Request) where
    -- The claimed token points to the new one.
    abbrev pub link_rotated : Tokens → Db U T V → Option (RefreshTokenRow × T) → Db U T V × Response
    link_rotated tokens db none = (db, exception)
    link_rotated tokens db (some (row, rows)) =
        (record db { refresh_tokens = rows }, refreshed tokens)

    abbrev pub rotate_claimed : ℕ → RefreshTokenRow → Tokens → Str → Db U T V → Db U T V × Response
    rotate_claimed attempt token_row tokens claimed_id db =
        let before = others (attempt * 5 + 3) db in
        let made =
          client.refresh_token.create
            (new_token services req token_row.user_id token_row.session_id tokens)
            before.refresh_tokens in
        let after = others (attempt * 5 + 4) (record before { refresh_tokens = made.1 }) in
        link_rotated tokens after
          (client.refresh_token.update claimed_id (rotate_data made.0.id) after.refresh_tokens)

    -- The token that may be tried in place of one that another request claimed.
    abbrev pub next_child :
        ℕ → RefreshTokenRow → Option RefreshTokenRow → Db U T V → Option RefreshTokenRow
    next_child attempt token_row none db = none
    next_child attempt token_row (some current) db =
        resolve_rotation_grace_child token_row.session_id req.now current db

    abbrev pub claim : Str → Db U T V → ℕ × T
    claim id db =
        client.refresh_token.update_many (λ row. token_id id row && is_unused row)
          (revoke_data req.now) db.refresh_tokens

    abbrev pub retry :
        ℕ
        → RefreshTokenRow
        → Str
        → Db U T V
        → (RefreshTokenRow → Db U T V → Option (Db U T V × Response))
        → Option RefreshTokenRow
        → Option (Db U T V × Response)
    retry attempt token_row claimed_id db again none =
        some
          (revoke_for_replay req.now token_row.session_id claimed_id (others (attempt * 5 + 3) db))
    retry attempt token_row claimed_id db again (some child) =
        if leb max_rotation_attempts attempt
        then some (
            revoke_for_replay req.now token_row.session_id claimed_id (others (attempt * 5 + 3) db))
        else again child db

    -- The loop from an attempt on, at most `fuel` of them: `none` when they are used up.
    unfoldable pub rotate :
        ℕ
        → ℕ
        → Str
        → Str
        → RefreshTokenRow
        → UserRow
        → RefreshTokenRow
        → Db U T V
        → Option (Db U T V × Response)
    unfolding sign_tokens payload_of resolve_rotation_grace_child revoke_for_replay
    rotate zero attempt sub sid token_row user active db = none
    rotate (suc fuel) attempt sub sid token_row user active db =
        let tokens = sign_tokens services req (payload_of sub sid user) in
        let db1 = others (attempt * 5) db in
        let claimed = claim active.id db1 in
        let db2 = record db1 { refresh_tokens = claimed.1 } in
        let read = others (attempt * 5 + 1) db2 in
        let current = find_token active.id read in
        let found = others (attempt * 5 + 2) read in
        let again =
          retry attempt token_row active.id found
            (λ child db'. rotate fuel (suc attempt) sub sid token_row user child db')
            (next_child attempt token_row current found) in
        if claimed.0 == 0
        then again
        else some (rotate_claimed attempt token_row tokens active.id db2)

    module _ (fuel : ℕ) where
      abbrev pub refresh_user :
          Str
          → Str
          → RefreshTokenRow
          → RefreshTokenRow
          → Db U T V
          → Option UserRow
          → Option (Db U T V × Response)
      refresh_user sub sid token_row active db none = some (db, unauthorized)
      refresh_user sub sid token_row active db (some user) =
          rotate fuel 1 sub sid token_row user active db

      abbrev pub refresh_active :
          Str → Str → RefreshTokenRow → RefreshTokenRow → Db U T V → Option (Db U T V × Response)
      refresh_active sub sid token_row active db =
          if ltb active.expires_at req.now
          then some (db, unauthorized)
          else (let read = others 2 db in
              refresh_user sub sid token_row active read
                (client.user.find_first (by_id sub) read.users))

      -- A token that was used: its grace child is taken in its place.
      abbrev pub refresh_used :
          Str
          → Str
          → RefreshTokenRow
          → Db U T V
          → Option RefreshTokenRow
          → Option (Db U T V × Response)
      refresh_used sub sid token_row db none =
          some (revoke_for_replay req.now token_row.session_id token_row.id (others 3 db))
      refresh_used sub sid token_row db (some child) = refresh_active sub sid token_row child db

      abbrev pub refresh_token_row :
          Str → Str → RefreshTokenRow → Db U T V → Option (Db U T V × Response)
      refresh_token_row sub sid token_row db =
          if is_unused token_row
          then refresh_active sub sid token_row token_row db
          else (let read = others 1 db in
              refresh_used sub sid token_row read
                (resolve_rotation_grace_child token_row.session_id req.now token_row read))

      abbrev pub refresh_row :
          Str → Str → Db U T V → Option RefreshTokenRow → Option (Db U T V × Response)
      refresh_row sub sid db none = some (db, unauthorized)
      refresh_row sub sid db (some token_row) =
          if token_row.session_id == sid && token_row.user_id == sub
          then refresh_token_row sub sid token_row db
          else some (db, unauthorized)

      abbrev pub refresh_ids :
          Str → Bool → Db U T V → Option Str → Option Str → Option (Db U T V × Response)
      refresh_ids token true db (some sub) (some sid) =
          let read = others 0 db in
          refresh_row sub sid read (
            client.refresh_token.find_first
              (λ row. row.token_hash == hash_refresh_token services token) read.refresh_tokens)
      refresh_ids token _ db _ _ = some (db, unauthorized)

      abbrev pub refresh_claims : Str → Db U T V → Option Claims → Option (Db U T V × Response)
      refresh_claims token db none = some (db, unauthorized)
      refresh_claims token db (some decoded) =
          refresh_ids token (decoded.token_type == some (codes "refresh") && has_claims decoded) db
            (non_empty decoded.sub) (non_empty decoded.sid)

      abbrev pub refresh_parsed : Parsed Str → Db U T V → Option (Db U T V × Response)
      refresh_parsed (valid token) db = refresh_claims token db (services.verify token req.now)
      refresh_parsed (invalid path message) db = some (db, validation_error path message)

      unfoldable pub refresh : Parsed Str → Db U T V → Option (Db U T V × Response)
      unfolding rotate unauthorized revoke_for_replay resolve_rotation_grace_child
      refresh parsed db = refresh_parsed parsed db
