-- ===== src/Auth/Heads/History.antt =====
-- Sequences of requests to the handlers of
-- features/auth/express/prisma/files/src/modules/auth/routes.ts, and the usable tokens of each session.
use projx.Auth.Keeps.Mail.{
  cleanup-Leaves, resend_verification-Leaves, verify_email-Leaves, reset_password-Leaves,
  forgot_password-Leaves,
}
use projx.Auth.Refresh.{max_rotation_attempts}
use projx.Auth.Keeps.Settings.{
  change_password-Leaves, logout-Leaves, regenerate-Leaves, disable-Leaves, enroll_verify-Leaves,
  enroll-Leaves,
}
use projx.Auth.Keeps.Handlers.{verify_challenge-Leaves, login-Leaves, signup-Leaves}
use projx.Auth.Rows.{is_null}
use projx.Auth.Heads.Rotate.{NoMore, revoke-heads}
use projx.Auth.Heads.Refresh.{refresh-NoMore}
use projx.Auth.Responses.{Response}
use projx.Auth.Account.{me, list_sessions}
use projx.Auth.Dead.History.{
  Call, signs_up, logs_in, verifies_challenge, enrolls, verifies_enrollment, disables, regenerates,
  refreshes, logs_out, changes_password, lists_sessions, forgets_password, resets_password,
  verifies_email, resends_verification, reads_profile, cleans_up, step, run, tables_of,
}
use projx.Auth.Keeps.{Draws, IsClosed}
use projx.Auth.Heads.{heads-append_other, heads-filter, is_head, heads-append, heads}
use projx.Auth.Store.{Db, IsLawfulClient, Client}
use projx.Auth.Services.{Request, Services}
use projx.Base.Text.{Str}
use projx.Base.{
  ◌≤◌, ◌≡◌, refl, inl, inr, false, not, ◌&&◌, Option, none, some, List, [], ◌∷◌, arith, eq_cases,
  nat_eq, list_eq, option_eq,
}

module _ {U T V : Type 0} (client : Client U T V) where
  -- Every session has at most one token that may be exchanged.
  abbrev pub IsSingle : T → Type 0
  IsSingle t = (sid : Str) → heads sid (client.refresh_token.rows t) ≤ 1

  -- And the session that a request draws has none.
  abbrev IsSingleBefore : Str → T → Type 0
  IsSingleBefore uuid t = IsSingle t × (heads uuid (client.refresh_token.rows t) ≡ 0)

  -- Each request of the history draws the id of a session without a usable token.
  abbrev pub DrawsUnused : Services → List (Request × Call) → Db U T V → Type 0
  DrawsUnused services [] db = Unit {0}
  DrawsUnused services ((req, call) ∷ calls) db =
      (heads req.session_uuid (client.refresh_token.rows db.refresh_tokens) ≡ 0)
      × DrawsUnused services calls (step services client req call db)

module _ (services : Services) {U T V : Type 0} {client : Client U T V}
    (lawful : IsLawfulClient client) where
  IsSingle-IsClosed : (uuid : Str) → IsClosed client (IsSingleBefore client uuid) (IsSingle client)
  IsSingle-IsClosed uuid = record {
    kept = λ t h. h.0;
    revoked = λ p now t h sid. omega (
      arith,
      h.0 sid,
      revoke-heads services lawful sid (λ row. p row && is_null row.revoked_at) now t,
    );
    deleted = λ p t h sid.
        rw (lawful.refresh_tokens.rows-delete_many p t)
          (omega (arith, h.0 sid, heads-filter sid (λ r. not (p r)) (client.refresh_token.rows t)));
  }

  IsSingle-Draws :
      (req : Request) → Draws client (IsSingleBefore client req.session_uuid) (IsSingle client) req
  IsSingle-Draws req new t drawn h sid =
      let row = (client.refresh_token.create new t).0 in
      let (now, filled) = lawful.refresh_tokens.create-fill new t in
      rw (lawful.refresh_tokens.rows-create new t) (elim (eq_cases new.session_id sid) [
        | inl (_, same) ↦
            let none' : heads sid (client.refresh_token.rows t) ≡ 0 = rw (← same, drawn) h.1 in
            omega (arith, none', heads-append sid (client.refresh_token.rows t) row)
        | inr (other, _) ↦
            let useless : is_head sid row ≡ false = rw (filled, other) refl in
            omega (arith, h.0 sid, heads-append_other sid (client.refresh_token.rows t) row useless)
      ])

  tables_of-IsSingle :
      (db : Db U T V) (result : Option (Db U T V × Response))
      → IsSingle client db.refresh_tokens
      → ((sid : Str) → NoMore services lawful sid db result)
      → IsSingle client (tables_of services client db result).refresh_tokens
  tables_of-IsSingle db none h less sid = h sid
  tables_of-IsSingle db (some (db', response)) h less sid = omega (arith, h sid, less sid)

  step-IsSingle :
      (req : Request) (call : Call) (db : Db U T V)
      → IsSingleBefore client req.session_uuid db.refresh_tokens
      → IsSingle client (step services client req call db).refresh_tokens
  unfolding list_sessions me
  step-IsSingle req (signs_up parsed) db h =
      signup-Leaves services client (IsSingle-IsClosed req.session_uuid) req (IsSingle-Draws req)
        parsed db h
  step-IsSingle req (logs_in parsed) db h =
      login-Leaves services client (IsSingle-IsClosed req.session_uuid) req (IsSingle-Draws req)
        parsed db h
  step-IsSingle req (verifies_challenge parsed) db h =
      verify_challenge-Leaves services client (IsSingle-IsClosed req.session_uuid) req
        (IsSingle-Draws req) parsed db h
  step-IsSingle req enrolls db h =
      enroll-Leaves services client (IsSingle-IsClosed req.session_uuid) req db h
  step-IsSingle req (verifies_enrollment parsed) db h =
      enroll_verify-Leaves services client (IsSingle-IsClosed req.session_uuid) req parsed db h
  step-IsSingle req (disables parsed) db h =
      disable-Leaves services client (IsSingle-IsClosed req.session_uuid) req parsed db h
  step-IsSingle req (regenerates parsed) db h =
      regenerate-Leaves services client (IsSingle-IsClosed req.session_uuid) req parsed db h
  step-IsSingle req (refreshes parsed) db h =
      tables_of-IsSingle db _ h.0
        (λ sid. refresh-NoMore services lawful sid req max_rotation_attempts parsed db)
  step-IsSingle req (logs_out parsed) db h =
      logout-Leaves services client (IsSingle-IsClosed req.session_uuid) req parsed db h
  step-IsSingle req (changes_password parsed) db h =
      change_password-Leaves services client (IsSingle-IsClosed req.session_uuid) req parsed db h
  step-IsSingle req lists_sessions db h = h.0
  step-IsSingle req (forgets_password parsed) db h =
      forgot_password-Leaves services client (IsSingle-IsClosed req.session_uuid) req parsed db h
  step-IsSingle req (resets_password parsed) db h =
      reset_password-Leaves services client (IsSingle-IsClosed req.session_uuid) req parsed db h
  step-IsSingle req (verifies_email parsed) db h =
      verify_email-Leaves services client (IsSingle-IsClosed req.session_uuid) req parsed db h
  step-IsSingle req (resends_verification parsed) db h =
      resend_verification-Leaves services client (IsSingle-IsClosed req.session_uuid) req parsed db
        h
  step-IsSingle req reads_profile db h = h.0
  step-IsSingle req cleans_up db h =
      cleanup-Leaves services client (IsSingle-IsClosed req.session_uuid) req req.now db h

  -- Over any sequence of requests and clean-ups, one after the other, each of which draws an id
  -- for a new session that no usable token carries, every session keeps at most one usable token:
  -- one that is neither revoked nor rotated. The client keeps its laws.
  pub run-IsSingle :
      (calls : List (Request × Call)) (db : Db U T V)
      → DrawsUnused client services calls db
      → IsSingle client db.refresh_tokens
      → IsSingle client (run services client calls db).refresh_tokens
  run-IsSingle [] db drawn h = h
  run-IsSingle ((req, call) ∷ calls) db (unused, drawn) h =
      run-IsSingle calls (step services client req call db) drawn
        (step-IsSingle req call db (h, unused))
