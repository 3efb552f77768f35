-- ===== src/Auth/Heads/Refresh.antt =====
-- What /refresh of features/auth/express/prisma/files/src/modules/auth/routes.ts leaves of the tokens
-- that may still be exchanged, when no other request comes between its calls of the database.
use projx.Auth.Heads.Rotate.{NoMore, rotate-NoMore, revoke_for_replay-NoMore}
use projx.Auth.Challenge.{non_empty}
use projx.Auth.Keeps.{if_lem}
use projx.Auth.Dead.History.{alone}
use projx.Auth.Responses.{valid, invalid, Parsed, unauthorized}
use projx.Auth.Rows.{UserRow, is_null, RefreshTokenRow}
use projx.Auth.Heads.{is_head}
use projx.Auth.Refresh.{
  refresh_active, refresh_claims, refresh_user, refresh_row, refresh, refresh_ids, checked_child,
  find_token, is_grace_child, resolve_rotation_grace_child, is_unused, token_id, in_session,
}
use projx.Auth.Store.{Db, IsLawfulClient, Client}
use projx.Auth.Services.{Claims, Request, Services}
use projx.Base.Text.{Str}
use projx.Base.{
  ℕ, ◌≡◌, refl, ap, ◌∙◌, inl, inr, Bool, true, false, ◌&&◌, Option, none, some, none-ne-some,
  some-injective, arith, ltb, Bool-cases, Option-cases, ==_refl, ◌==◌, nat_eq, list_eq, option_eq,
}

module _ (services : Services) {U T V : Type 0} {client : Client U T V}
    (lawful : IsLawfulClient client) (sid : Str) where
  grace_head :
      (session_id : Str) (now : ℕ) (x : RefreshTokenRow)
      → is_grace_child session_id now x ≡ true
      → is_head session_id x ≡ true
  unfolding is_grace_child
  grace_head session_id now x ok = elim (Bool-cases (in_session session_id x)) [
    | inl same ↦ elim (Bool-cases (is_null x.rotated_to)) [
      | inl unrotated ↦ elim (Bool-cases (is_null x.revoked_at)) [
        | inl unrevoked ↦ rw (same, unrotated, unrevoked) refl
        | inr revoked ↦ absurd (cc (rw (same, unrotated, revoked) at ok))
      ]
      | inr rotated ↦ absurd (cc (rw (same, rotated) at ok))
    ]
    | inr other ↦ absurd (cc (rw (other) at ok))
  ]

  -- What a grace child is: a token of the table that is usable.
  grace_child_head :
      (now : ℕ) (session_id : Str) (token child : RefreshTokenRow) (db : Db U T V)
      → resolve_rotation_grace_child services client session_id now token db ≡ some child
      → (q : RefreshTokenRow → Bool) × (client.refresh_token.find_first q db.refresh_tokens
          ≡ some child)
        × (is_head session_id child ≡ true)
  unfolding resolve_rotation_grace_child is_grace_child
  grace_child_head now session_id token child db h =
      elim (Bool-cases (is_null token.replay_detected_at)) [
        | inl fresh ↦ elim (Option-cases token.rotated_to) [
          | inl none' ↦ absurd (none-ne-some child (rw (fresh, none') at h))
          | inr (id, same) ↦ elim (Option-cases (find_token services client id db)) [
            | inl missing ↦ absurd (none-ne-some child (rw (fresh, same, missing) at h))
            | inr (x, found) ↦
                let h' : checked_child session_id now (some x) ≡ some child =
                  rw (fresh, same, found) at h in
                elim (Bool-cases (is_grace_child session_id now x)) [
                  | inl ok ↦
                      let here = some-injective x child (rw (ok) at h') in
                      (
                        token_id id,
                        found ∙ ap some here,
                        rw (← here) (grace_head session_id now x ok),
                      )
                  | inr bad ↦ absurd (none-ne-some child (rw (bad) at h'))
                ]
          ]
        ]
        | inr replayed ↦ absurd (none-ne-some child (rw (replayed) at h))
      ]

  refresh_user-NoMore :
      (req : Request) (fuel : ℕ) (sub own : Str) (token_row active : RefreshTokenRow)
      (db : Db U T V) (q : RefreshTokenRow → Bool) (user : Option UserRow)
      → client.refresh_token.find_first q db.refresh_tokens ≡ some active
      → is_head token_row.session_id active ≡ true
      → NoMore services lawful sid db (
          refresh_user services client
            (alone services client)
            req
            fuel
            sub
            own
            token_row
            active
            db
            user)
  refresh_user-NoMore req fuel sub own token_row active db q none found head = omega arith
  refresh_user-NoMore req fuel sub own token_row active db q (some user) found head =
      rotate-NoMore services lawful sid req fuel 1 sub own token_row user active db q found head

  refresh_active-NoMore :
      (req : Request) (fuel : ℕ) (sub own : Str) (token_row active : RefreshTokenRow)
      (db : Db U T V) (q : RefreshTokenRow → Bool)
      → client.refresh_token.find_first q db.refresh_tokens ≡ some active
      → is_head token_row.session_id active ≡ true
      → NoMore services lawful sid db (
          refresh_active services client
            (alone services client)
            req
            fuel
            sub
            own
            token_row
            active
            db)
  unfolding unauthorized
  refresh_active-NoMore req fuel sub own token_row active db q found head =
      if_lem (NoMore services lawful sid db) (ltb active.expires_at req.now) _ _ (omega arith)
        (refresh_user-NoMore req fuel sub own token_row active db q _ found head)

  refresh_row-NoMore :
      (req : Request) (fuel : ℕ) (sub own : Str) (db : Db U T V) (q : RefreshTokenRow → Bool)
      → NoMore services lawful sid db (
          refresh_row services client
            (alone services client)
            req
            fuel
            sub
            own
            db
            (client.refresh_token.find_first q db.refresh_tokens))
  refresh_row-NoMore req fuel sub own db q =
      elim (Option-cases (client.refresh_token.find_first q db.refresh_tokens)) [
        | inl missing ↦ rw (missing) (omega arith)
        | inr (row, found) ↦ rw (found) (
            if_lem (NoMore services lawful sid db) (row.session_id == own && row.user_id == sub) _ _
              (elim (Bool-cases (is_unused row)) [
                | inl unused ↦ rw (unused) (
                    refresh_active-NoMore req fuel sub own row row db q found
                      (rw (==_refl row.session_id, unused) refl))
                | inr used ↦
                    elim (Option-cases (
                      resolve_rotation_grace_child services client row.session_id req.now row db)) [
                        | inl nothing ↦
                            rw (used, nothing)
                              (revoke_for_replay-NoMore services lawful sid req.now row.session_id
                                row.id db)
                        | inr (child, grace) ↦
                            let (q', found', head) =
                              grace_child_head req.now row.session_id row child db grace in
                            rw (used, grace)
                              (refresh_active-NoMore req fuel sub own row child db q' found' head)
                      ]
              ])
              (omega arith))
      ]

  refresh_ids-NoMore :
      (req : Request) (fuel : ℕ) (token : Str) (ok : Bool) (db : Db U T V) (sub own : Option Str)
      → NoMore services lawful sid db
          (refresh_ids services client (alone services client) req fuel token ok db sub own)
  refresh_ids-NoMore req fuel token true db (some sub) (some own) =
      refresh_row-NoMore req fuel sub own db _
  refresh_ids-NoMore req fuel token true db (some sub) none = omega arith
  refresh_ids-NoMore req fuel token true db none own = omega arith
  refresh_ids-NoMore req fuel token false db sub own = omega arith

  refresh_claims-NoMore :
      (req : Request) (fuel : ℕ) (token : Str) (db : Db U T V) (decoded : Option Claims)
      → NoMore services lawful sid db
          (refresh_claims services client (alone services client) req fuel token db decoded)
  refresh_claims-NoMore req fuel token db none = omega arith
  refresh_claims-NoMore req fuel token db (some decoded) =
      refresh_ids-NoMore req fuel token _ db (non_empty decoded.sub) (non_empty decoded.sid)

  -- The number of usable tokens of a session does not grow.
  pub refresh-NoMore :
      (req : Request) (fuel : ℕ) (parsed : Parsed Str) (db : Db U T V)
      → NoMore services lawful sid db
          (refresh services client (alone services client) req fuel parsed db)
  unfolding refresh
  refresh-NoMore req fuel (invalid path message) db = omega arith
  refresh-NoMore req fuel (valid token) db = refresh_claims-NoMore req fuel token db _
