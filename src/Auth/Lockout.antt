-- ===== src/Auth/Lockout.antt =====
-- Failed logins: /login in features/auth/express/prisma/files/src/modules/auth/routes.ts.
use projx.Auth.Tables.{find-patch, find_other}
use projx.Auth.Password.{verify_password}
use projx.Auth.Responses.{invalid_credentials, account_locked, valid}
use projx.Auth.Rows.{UserRow}
use projx.Auth.Login.{
  login_lockout_ms, after_update, login_checked, login_max_attempts, login_password, by_id,
  LoginBody, by_email, lock_data, is_locked, login,
}
use projx.Auth.Store.{Db, IsLawfulClient, Client}
use projx.Auth.Services.{Request, Services}
use projx.Base.Text.{Str, to_lower_case}
use projx.Base.{
  ℕ, suc, ◌+◌, ◌<◌, ◌≡◌, refl, sym, ap, ◌∙◌, true, false, Option, none, some, List, [], ◌∷◌, arith,
  leb, ltb, ==_refl, nat_eq, list_eq, option_eq, length, All,
}

module _ (services : Services) {U T V : Type 0} {client : Client U T V}
    (lawful : IsLawfulClient client) (email : Str) where
  abbrev user_in : Db U T V → Option UserRow
  user_in db = client.user.find_first (by_email email) db.users

  -- The user is locked: /login answers that, and changes nothing.
  login_locked :
      (req : Request) (body : LoginBody) (db : Db U T V) (user : UserRow) (until : ℕ)
      → to_lower_case body.email ≡ email
      → user_in db ≡ some user
      → user.locked_until ≡ some until
      → req.now < until
      → login services client req (valid body) db ≡ (db, account_locked until req.now)
  unfolding login is_locked
  login_locked req body db user until same found locked early =
      let still : ltb req.now until ≡ true = ground (arith, early) in
      rw (same, found, locked, still) refl

  -- A wrong password of a user that is not locked.
  login_wrong :
      (req : Request) (body : LoginBody) (db : Db U T V) (user : UserRow) (c : ℕ) (hash : Str)
      → to_lower_case body.email ≡ email
      → user_in db ≡ some user
      → is_locked user req.now ≡ false
      → user.password_hash ≡ some (c ∷ hash)
      → verify_password services body.password (c ∷ hash) ≡ false
      → ((login services client req (valid body) db).1 ≡ invalid_credentials)
        × (user_in (login services client req (valid body) db).0
            ≡ some (lock_data (user.failed_login_count + 1) req.now user))
  unfolding login lock_data
  login_wrong req body db user c hash same found open' stored wrong' =
      let rows-found = sym (lawful.users.rows-find_first (by_email email) db.users) ∙ found in
      let lock = lock_data (user.failed_login_count + 1) req.now in
      let (x, here) =
        find_other (by_email email) (by_id user.id) (client.user.rows db.users) user rows-found
          (==_refl user.id) in
      let (users, updated, rows) = lawful.users.update_found user.id lock db.users x here in
      let after : client.user.find_first (by_email email) users ≡ some (lock user) =
        rw
          (
            lawful.users.rows-find_first (by_email email) users,
            rows,
            find-patch (by_id user.id) (by_email email) lock (client.user.rows db.users)
                (λ r. refl),
            rows-found,
            ==_refl user.id,
          )
          refl in
      let result : login services client req (valid body) db
          ≡ (record db { users = users }, invalid_credentials) =
        rw (same, found, open')
          (ap (login_password services client req body.password user db) stored
            ∙ ap (login_checked services client req user db) wrong'
            ∙ ap (after_update services client db (λ _ db'. (db', invalid_credentials))) updated) in
      (ap (λ r. r.1) result, ap (λ r. user_in r.0) result ∙ after)

  -- Attempts of one email with wrong passwords, one after the other.
  abbrev pub run_logins : List (Request × LoginBody) → Db U T V → Db U T V
  run_logins [] db = db
  run_logins ((req, body) ∷ attempts) db =
      run_logins attempts (login services client req (valid body) db).0

  abbrev pub AllWrong : Str → List (Request × LoginBody) → Type 0
  AllWrong hash = All (λ a.
      (to_lower_case a.1.email ≡ email) × (verify_password services a.1.password hash ≡ false))

  -- A user with a number of failures, who is not locked.
  abbrev IsOpen : Str → ℕ → Db U T V → Type 0
  IsOpen hash count db =
      (user : UserRow) × (user_in db ≡ some user)
      × (user.locked_until ≡ none)
      × (user.password_hash ≡ some hash)
      × (user.failed_login_count ≡ count)

  run_logins-IsOpen :
      (c : ℕ) (hash : Str) (attempts : List (Request × LoginBody)) (count : ℕ) (db : Db U T V)
      → count + length attempts < login_max_attempts
      → AllWrong (c ∷ hash) attempts
      → IsOpen (c ∷ hash) count db
      → IsOpen (c ∷ hash) (count + length attempts) (run_logins attempts db)
  unfolding lock_data is_locked
  run_logins-IsOpen c hash [] count db few wrong' (user, found, open', stored, counted) =
      (user, found, open', stored, omega (arith, counted))
  run_logins-IsOpen c hash ((req, body) ∷ attempts) count db few ((same, bad), wrong')
        (user, found, open', stored, counted) =
      let next = login_wrong req body db user c hash same found (rw (open') refl) stored bad in
      let low : leb login_max_attempts (user.failed_login_count + 1) ≡ false =
        ground (arith, few, counted) in
      let step' =
        run_logins-IsOpen c hash attempts (count + 1) (login services client req (valid body) db).0
          (omega (arith, few)) wrong'
          (
            lock_data (user.failed_login_count + 1) req.now user,
            next.1,
            rw (low) open',
            stored,
            omega (arith, counted),
          ) in
      let (user', found', open'', stored', counted') = step' in
      (user', found', open'', stored', omega (arith, counted'))

  fifth_locked :
      (db : Db U T V) (c : ℕ) (hash : Str) (count : ℕ) (req : Request) (body : LoginBody)
      (later : Request) (guess : LoginBody)
      → IsOpen (c ∷ hash) count db
      → suc count ≡ login_max_attempts
      → AllWrong (c ∷ hash) ((req, body) ∷ [])
      → to_lower_case guess.email ≡ email
      → later.now < req.now + login_lockout_ms
      → let db' = (login services client req (valid body) db).0 in
        login services client later (valid guess) db'
        ≡ (db', account_locked (req.now + login_lockout_ms) later.now)
  unfolding lock_data is_locked
  fifth_locked db c hash count req body later guess (user, found, open', stored, counted) five
        ((same, bad), _) asked early =
      let next = login_wrong req body db user c hash same found (rw (open') refl) stored bad in
      let high : leb login_max_attempts (user.failed_login_count + 1) ≡ true =
        ground (arith, five, counted) in
      login_locked later guess (login services client req (valid body) db).0
        (lock_data (user.failed_login_count + 1) req.now user) (req.now + login_lockout_ms) asked
        next.1 (rw (high) refl) early

  -- After LOGIN_MAX_ATTEMPTS logins with wrong passwords, counted with the failures that are on
  -- record, of a user with a password who was not locked, every login of that email in the next 15
  -- minutes, with any password, is answered that the account is locked, and changes nothing. The
  -- client keeps its laws.
  pub brute_force_locked :
      (db : Db U T V) (user : UserRow) (c : ℕ) (hash : Str) (attempts : List (Request × LoginBody))
      (req : Request) (body : LoginBody) (later : Request) (guess : LoginBody)
      → user_in db ≡ some user
      → user.locked_until ≡ none
      → user.password_hash ≡ some (c ∷ hash)
      → user.failed_login_count + suc (length attempts) ≡ login_max_attempts
      → AllWrong (c ∷ hash) ((req, body) ∷ attempts)
      → to_lower_case guess.email ≡ email
      → later.now < req.now + login_lockout_ms
      → let db' = (login services client req (valid body) (run_logins attempts db)).0 in
        login services client later (valid guess) db'
        ≡ (db', account_locked (req.now + login_lockout_ms) later.now)
  brute_force_locked db user c hash attempts req body later guess found open' stored five
        (bad, wrong') asked early =
      fifth_locked (run_logins attempts db) c hash (user.failed_login_count + length attempts) req
        body later guess
        (run_logins-IsOpen c hash attempts user.failed_login_count db (omega (arith, five)) wrong'
          (user, found, open', stored, refl))
        (omega (arith, five)) (bad, tt) asked early
