-- ===== src/Auth/Refresh/Total.antt =====
-- The attempts of /refresh to rotate a token:
-- features/auth/express/prisma/files/src/modules/auth/routes.ts.
use projx.Auth.Challenge.{non_empty}
use projx.Auth.Responses.{valid, invalid, Parsed, Response}
use projx.Auth.Rows.{UserRow, RefreshTokenRow}
use projx.Auth.Refresh.{
  claim, is_unused, refresh_claims, refresh_user, refresh_active, refresh_used, refresh_row,
  refresh, refresh_ids, retry, max_rotation_attempts, rotate,
}
use projx.Auth.Store.{Db, Client}
use projx.Auth.Services.{Claims, Request, Services}
use projx.Base.Text.{Str}
use projx.Base.{
  ℕ, zero, suc, ◌+◌, ◌*◌, ◌≤◌, ◌<◌, ◌≡◌, refl, ◌≢◌, Bool, true, false, ◌&&◌, Option, none, some,
  arith, leb, ltb, if◌then◌else◌, ◌==◌, nat_eq, list_eq, option_eq,
}

if_false_lem :
    {A : Type 0} (P : A → Type 0) (b : Bool) (x y : A)
    → P x
    → (b ≡ false → P y)
    → P (if b then x else y)
if_false_lem P true x y h k = h
if_false_lem P false x y h k = k refl

module _ (services : Services) {U T V : Type 0} (client : Client U T V)
    (others : ℕ → Db U T V → Db U T V) (req : Request) where
  abbrev Answers : Option (Db U T V × Response) → Type 0
  Answers none = ⊥
  Answers (some answer) = Unit {0}

  answer_lem : (result : Option (Db U T V × Response)) → Answers result → result ≢ none
  answer_lem none h same = h
  answer_lem (some answer) h same = absurd (cc)

  retry-Answers :
      (attempt : ℕ) (token_row : RefreshTokenRow) (claimed_id : Str) (db : Db U T V)
      (again : RefreshTokenRow → Db U T V → Option (Db U T V × Response))
      (child : Option RefreshTokenRow)
      → (leb max_rotation_attempts attempt ≡ false
          → (row : RefreshTokenRow) → Answers (again row db))
      → Answers (retry services client others req attempt token_row claimed_id db again child)
  retry-Answers attempt token_row claimed_id db again none then' = tt
  retry-Answers attempt token_row claimed_id db again (some child) then' =
      if_false_lem Answers (leb max_rotation_attempts attempt) _ _ tt (λ less. then' less child)

  rotate-Answers :
      (fuel attempt : ℕ) (sub sid : Str) (token_row : RefreshTokenRow) (user : UserRow)
      (active : RefreshTokenRow) (db : Db U T V)
      → attempt ≤ max_rotation_attempts
      → max_rotation_attempts < fuel + attempt
      → Answers (rotate services client others req fuel attempt sub sid token_row user active db)
  unfolding rotate
  rotate-Answers zero attempt sub sid token_row user active db low enough =
      absurd (omega (arith, low, enough))
  rotate-Answers (suc fuel) attempt sub sid token_row user active db low enough =
      let db1 = others (attempt * 5) db in
      let claimed = claim services client others req active.id db1 in
      let db2 : Db U T V = record db1 { refresh_tokens = claimed.1 } in
      let read = others (attempt * 5 + 1) db2 in
      let found = others (attempt * 5 + 2) read in
      if_false_lem Answers (claimed.0 == 0) _ _
        (retry-Answers attempt token_row active.id found
          (λ child db'.
            rotate services client others req fuel (suc attempt) sub sid token_row user child db')
          _
          (λ less child.
            rotate-Answers fuel (suc attempt) sub sid token_row user child found
              (ground (arith, less)) (omega (arith, enough))))
        (λ _. tt)

  refresh_user-Answers :
      (sub sid : Str) (token_row active : RefreshTokenRow) (db : Db U T V) (user : Option UserRow)
      → Answers (
          refresh_user services client others req max_rotation_attempts sub sid token_row active db
            user)
  refresh_user-Answers sub sid token_row active db none = tt
  refresh_user-Answers sub sid token_row active db (some user) =
      rotate-Answers max_rotation_attempts 1 sub sid token_row user active db (omega arith)
        (omega arith)

  refresh_active-Answers :
      (sub sid : Str) (token_row active : RefreshTokenRow) (db : Db U T V)
      → Answers (
          refresh_active services client others req max_rotation_attempts sub sid token_row active
            db)
  refresh_active-Answers sub sid token_row active db =
      if_false_lem Answers (ltb active.expires_at req.now) _ _ tt
        (λ _. refresh_user-Answers sub sid token_row active (others 2 db) _)

  refresh_used-Answers :
      (sub sid : Str) (token_row : RefreshTokenRow) (db : Db U T V) (child : Option RefreshTokenRow)
      → Answers
          (refresh_used services client others req max_rotation_attempts sub sid token_row db child)
  refresh_used-Answers sub sid token_row db none = tt
  refresh_used-Answers sub sid token_row db (some child) =
      refresh_active-Answers sub sid token_row child db

  refresh_row-Answers :
      (sub sid : Str) (db : Db U T V) (row : Option RefreshTokenRow)
      → Answers (refresh_row services client others req max_rotation_attempts sub sid db row)
  refresh_row-Answers sub sid db none = tt
  refresh_row-Answers sub sid db (some row) =
      if_false_lem Answers (row.session_id == sid && row.user_id == sub) _ _
        (if_false_lem Answers (is_unused row) _ _ (refresh_active-Answers sub sid row row db)
          (λ _. refresh_used-Answers sub sid row (others 1 db) _))
        (λ _. tt)

  refresh_ids-Answers :
      (token : Str) (ok : Bool) (db : Db U T V) (sub sid : Option Str)
      → Answers (refresh_ids services client others req max_rotation_attempts token ok db sub sid)
  refresh_ids-Answers token true db (some sub) (some sid) =
      refresh_row-Answers sub sid (others 0 db) _
  refresh_ids-Answers token true db (some sub) none = tt
  refresh_ids-Answers token true db none sid = tt
  refresh_ids-Answers token false db sub sid = tt

  refresh_claims-Answers :
      (token : Str) (db : Db U T V) (decoded : Option Claims)
      → Answers (refresh_claims services client others req max_rotation_attempts token db decoded)
  refresh_claims-Answers token db none = tt
  refresh_claims-Answers token db (some decoded) =
      refresh_ids-Answers token _ db (non_empty decoded.sub) (non_empty decoded.sid)

  refresh-Answers :
      (parsed : Parsed Str) (db : Db U T V)
      → Answers (refresh services client others req max_rotation_attempts parsed db)
  unfolding refresh
  refresh-Answers (invalid path message) db = tt
  refresh-Answers (valid token) db = refresh_claims-Answers token db _

  -- Whatever other requests do between the calls of the database, /refresh makes at most
  -- MAX_ROTATION_ATTEMPTS attempts: with that many it always comes to an answer.
  pub refresh_answers :
      (parsed : Parsed Str) (db : Db U T V)
      → refresh services client others req max_rotation_attempts parsed db ≢ none
  refresh_answers parsed db = answer_lem _ (refresh-Answers parsed db)
