-- ===== src/Auth/Heads/Rotate.antt =====
-- What the rotation of a token by /refresh of features/auth/express/prisma/files/src/modules/auth/routes.ts leaves of the tokens
-- that may still be exchanged, when no other request comes between its calls of the database.
use projx.Auth.Dead.History.{alone}
use projx.Auth.Tables.{rows-update}
use projx.Auth.Session.{payload_of, sign_tokens, new_token}
use projx.Auth.Responses.{Tokens, Response}
use projx.Auth.Rows.{UserRow, is_null, RefreshTokenRow}
use projx.Auth.Heads.{
  filter-some, heads-append_other, heads-append, heads-claim, heads-patch, is_head, heads,
}
use projx.Auth.Refresh.{
  link_rotated, rotate, is_unused, token_id, in_session, replay_data, rotate_data, mark_replayed,
  revoke_data, revoke_for_replay,
}
use projx.Auth.Store.{Db, IsLawfulClient, Client}
use projx.Auth.Services.{Request, Services}
use projx.Base.Text.{Str}
use projx.Base.{
  ℕ, zero, suc, ◌≤◌, ◌<◌, ◌≡◌, refl, sym, ◌∙◌, inl, inr, Bool, true, false, ◌&&◌, Option, none,
  some, arith, Bool-cases, Option-cases, eq_cases, ==_refl, ◌==◌, nat_eq, list_eq, option_eq,
}

and_right : (a b : Bool) → (a && b) ≡ true → b ≡ true
and_right true b h = h
and_right false b h = absurd (cc)

and_left : (a b : Bool) → (a && b) ≡ true → a ≡ true
and_left true b h = refl
and_left false b h = absurd (cc)

module _ (services : Services) {U T V : Type 0} {client : Client U T V}
    (lawful : IsLawfulClient client) (sid : Str) where
  abbrev heads_in : T → ℕ
  heads_in t = heads sid (client.refresh_token.rows t)

  revoked_head : (now : ℕ) (r : RefreshTokenRow) → is_head sid (revoke_data now r) ≡ false
  revoked_head now r = elim (Bool-cases (in_session sid r)) [
    | inl same ↦ elim (Bool-cases (is_null r.rotated_to)) [
      | inl new ↦ rw (same, new) refl
      | inr old ↦ rw (same, old) refl
    ]
    | inr other ↦ rw (other) refl
  ]

  rotated_head : (id : Str) (r : RefreshTokenRow) → is_head sid (rotate_data id r) ≡ false
  rotated_head id r = elim (Bool-cases (in_session sid r)) [
    | inl same ↦ rw (same) refl
    | inr other ↦ rw (other) refl
  ]

  pub revoke-heads :
      (p : RefreshTokenRow → Bool) (now : ℕ) (t : T)
      → heads_in (client.refresh_token.update_many p (revoke_data now) t).1 ≤ heads_in t
  revoke-heads p now t = rw (lawful.refresh_tokens.rows-update_many p (revoke_data now) t) (
      heads-patch sid p (revoke_data now) (client.refresh_token.rows t) (λ r _. revoked_head now r))

  update-heads :
      (id : Str) (f : RefreshTokenRow → RefreshTokenRow) (t t' : T) (row : RefreshTokenRow)
      → ((r : RefreshTokenRow) → is_head sid r ≡ false → is_head sid (f r) ≡ false)
      → client.refresh_token.update id f t ≡ some (row, t')
      → heads_in t' ≤ heads_in t
  update-heads id f t t' row keeps updated =
      rw (rows-update lawful.refresh_tokens id f t t' row updated)
        (heads-patch sid _ f (client.refresh_token.rows t) keeps)

  abbrev pub NoMore : Db U T V → Option (Db U T V × Response) → Type 0
  NoMore db none = Unit {0}
  NoMore db (some (db', response)) = heads_in db'.refresh_tokens ≤ heads_in db.refresh_tokens

  mark_replayed-NoMore :
      (db : Db U T V) (t : T) (id : Str) (now : ℕ)
      → heads_in t ≤ heads_in db.refresh_tokens
      → NoMore db (
          some
            (mark_replayed services client db (client.refresh_token.update id (replay_data now) t)))
  mark_replayed-NoMore db t id now less =
      elim (Option-cases (client.refresh_token.update id (replay_data now) t)) [
        | inl missing ↦ rw (missing) (omega arith)
        | inr ((row, t'), found) ↦
            rw (found)
              (omega (arith, less, update-heads id (replay_data now) t t' row (λ r old. old) found))
      ]

  pub revoke_for_replay-NoMore :
      (now : ℕ) (session_id id : Str) (db : Db U T V)
      → NoMore db (some (revoke_for_replay services client now session_id id db))
  unfolding revoke_for_replay
  revoke_for_replay-NoMore now session_id id db =
      mark_replayed-NoMore db _ id now (revoke-heads _ now db.refresh_tokens)

  -- A token created in a session, after a usable one of the session was claimed.
  create-heads :
      (req : Request) (token_row active : RefreshTokenRow) (tokens : Tokens) (t : T)
      (q : RefreshTokenRow → Bool)
      → client.refresh_token.find_first q t ≡ some active
      → is_head token_row.session_id active ≡ true
      → heads_in
          (client.refresh_token.create
            (new_token services req token_row.user_id token_row.session_id tokens)
            (client.refresh_token.update_many
              (λ row. token_id active.id row && is_unused row)
              (revoke_data req.now)
              t).1).1
        ≤ heads_in t
  create-heads req token_row active tokens t q found head =
      let p : RefreshTokenRow → Bool = λ row. token_id active.id row && is_unused row in
      let claimed = (client.refresh_token.update_many p (revoke_data req.now) t).1 in
      let new = new_token services req token_row.user_id token_row.session_id tokens in
      let (now, filled) = lawful.refresh_tokens.create-fill new claimed in
      rw (lawful.refresh_tokens.rows-create new claimed) (elim (eq_cases token_row.session_id sid) [
        | inl (_, same) ↦
            let used : is_unused active ≡ true =
              and_right (in_session token_row.session_id active) _ head in
            let less : heads_in claimed < heads_in t =
              rw (lawful.refresh_tokens.rows-update_many p (revoke_data req.now) t) (
                heads-claim sid p q (revoke_data req.now) (client.refresh_token.rows t) active
                  (revoked_head req.now) (sym (lawful.refresh_tokens.rows-find_first q t) ∙ found)
                  (rw (==_refl active.id, used) refl) (rw (← same) head)) in
            omega (
              arith,
              less,
              heads-append sid (client.refresh_token.rows claimed)
                  (client.refresh_token.create new claimed).0,
            )
        | inr (other, _) ↦
            let old : is_head sid (client.refresh_token.create new claimed).0 ≡ false =
              rw (filled, other) refl in
            rw
              (heads-append_other sid (client.refresh_token.rows claimed)
                (client.refresh_token.create new claimed).0 old)
              (revoke-heads p req.now t)
      ])

  link_rotated-NoMore :
      (req : Request) (tokens : Tokens) (db before : Db U T V) (claimed_id id : Str)
      → heads_in db.refresh_tokens ≤ heads_in before.refresh_tokens
      → NoMore before (
          some (
            link_rotated services client
              (alone services client)
              req
              tokens
              db
              (client.refresh_token.update claimed_id (rotate_data id) db.refresh_tokens)))
  link_rotated-NoMore req tokens db before claimed_id id less =
      elim (Option-cases
        (client.refresh_token.update claimed_id (rotate_data id) db.refresh_tokens)) [
          | inl missing ↦ rw (missing) less
          | inr ((row, t'), found) ↦ rw (found) (
              omega (
                arith,
                less,
                update-heads claimed_id (rotate_data id) db.refresh_tokens t' row
                    (λ r _. rotated_head id r) found,
              ))
        ]

  pub rotate-NoMore :
      (req : Request) (fuel attempt : ℕ) (sub own : Str) (token_row : RefreshTokenRow)
      (user : UserRow) (active : RefreshTokenRow) (db : Db U T V) (q : RefreshTokenRow → Bool)
      → client.refresh_token.find_first q db.refresh_tokens ≡ some active
      → is_head token_row.session_id active ≡ true
      → NoMore db (
          rotate services client
            (alone services client)
            req
            fuel
            attempt
            sub
            own
            token_row
            user
            active
            db)
  unfolding rotate
  rotate-NoMore req zero attempt sub own token_row user active db q found head = tt
  rotate-NoMore req (suc fuel) attempt sub own token_row user active db q found head =
      let p : RefreshTokenRow → Bool = λ row. token_id active.id row && is_unused row in
      let used = and_right (in_session token_row.session_id active) (is_unused active) head in
      let some' : 0
          < (client.refresh_token.update_many p (revoke_data req.now) db.refresh_tokens).0 =
        rw (lawful.refresh_tokens.count-update_many p (revoke_data req.now) db.refresh_tokens) (
          filter-some p q (client.refresh_token.rows db.refresh_tokens) active
            (sym (lawful.refresh_tokens.rows-find_first q db.refresh_tokens) ∙ found)
            (rw (==_refl active.id, used) refl)) in
      let claimed : ((client.refresh_token.update_many p (revoke_data req.now) db.refresh_tokens).0
            == 0)
          ≡ false =
        ground (arith, some') in
      let tokens = sign_tokens services req (payload_of sub own user) in
      rw (claimed) (
        link_rotated-NoMore req tokens _ db active.id _
          (create-heads req token_row active tokens db.refresh_tokens q found head))
