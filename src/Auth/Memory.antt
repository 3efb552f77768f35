-- ===== src/Auth/Memory.antt =====
-- A client that keeps the rows of each table in a list, in the place of Prisma.
use projx.Auth.Rows.{
  VerificationTokenRow, fill_verification, fill_token, RefreshTokenRow, UserRow, fill_user, patch,
}
use projx.Auth.Store.{Client, Db, IsLawfulClient, IsLawful, Delegate}
use projx.Base.Text.{Str}
use projx.Base.{
  ℕ, ◌≤◌, ◌<◌, ◌≡◌, refl, sym, ap, inl, inr, not, Option, none, some, List, [], ◌∷◌, ◌++◌, arith,
  eq_cases, ◌==◌, nat_eq, list_eq, option_eq, length, filter, find, length-append,
}

module _ {R D : Type 0} (key : R → Str) (fill : D → Str → ℕ → R) where
  -- A key that is longer than all the others.
  unfoldable pub fresh_key : List R → Str
  fresh_key [] = 0 ∷ []
  fresh_key (r ∷ rows) = key r ++ fresh_key rows

  abbrev update_rows : Str → (R → R) → List R → Option R → Option (R × List R)
  update_rows id f rows none = none
  update_rows id f rows (some r) = some (f r, patch (λ x. key x == id) f rows)

  -- Ordered lists of rows are not asked for here.
  unfoldable pub delegate : Delegate (List R) R D
  unfolding fresh_key
  delegate = record {
    rows = λ rows. rows;
    find_first = λ p rows. find p rows;
    count = λ rows. length rows;
    find_many = λ p by key' rows. filter p rows;
    create = λ new rows. (fill new (fresh_key rows) 0, rows ++ fill new (fresh_key rows) 0 ∷ []);
    update_many = λ p f rows. (length (filter p rows), patch p f rows);
    update = λ id f rows. update_rows id f rows (find (λ x. key x == id) rows);
    delete_many = λ p rows. (length (filter p rows), filter (λ r. not (p r)) rows);
  }

  module _ (filled : (new : D) (id : Str) (now : ℕ) → key (fill new id now) ≡ id) where
    fresh_key_longer : (n : ℕ) (prefix : List R) → 0 < length (fresh_key prefix)
    unfolding fresh_key
    fresh_key_longer n [] = omega arith
    fresh_key_longer n (r ∷ prefix) =
        rw (length-append (key r) (fresh_key prefix)) (omega (arith, fresh_key_longer n prefix))

    fresh_key_absent :
        (rows : List R) (id : Str)
        → length (fresh_key rows) ≤ length id
        → find (λ r. key r == id) rows ≡ none
    unfolding fresh_key
    fresh_key_absent [] id h = refl
    fresh_key_absent (r ∷ rows) id h =
        let bound = rw (length-append (key r) (fresh_key rows)) at h in
        elim (eq_cases (key r) id) [
          | inl (_, same) ↦ absurd (omega (arith, bound, ap length same, fresh_key_longer 0 rows))
          | inr (test, _) ↦ rw (test) (fresh_key_absent rows id (omega (arith, bound)))
        ]

    delegate-IsLawful : IsLawful delegate key fill
    unfolding delegate
    delegate-IsLawful = record {
      rows-find_first = λ p t. refl;
      rows-count = λ t. refl;
      rows-create = λ new t. refl;
      create-fill = λ new t. (0, ap (λ id. fill new id 0) (sym (filled new (fresh_key t) 0)));
      create_fresh = λ new t.
          fresh_key_absent t (key (fill new (fresh_key t) 0))
            (rw (filled new (fresh_key t) 0) (omega arith));
      rows-update_many = λ p f t. refl;
      count-update_many = λ p f t. refl;
      update_missing = λ id f t h. rw (h) refl;
      update_found = λ id f t r h. (patch (λ x. key x == id) f t, rw (h) refl, refl);
      rows-delete_many = λ p t. refl;
      count-delete_many = λ p t. refl;
    }

abbrev pub MemoryDb : Type 0
MemoryDb = Db (List UserRow) (List RefreshTokenRow) (List VerificationTokenRow)

unfoldable pub memory_client :
    Client (List UserRow) (List RefreshTokenRow) (List VerificationTokenRow)
unfolding delegate
memory_client = record {
  user = delegate (λ r. r.id) fill_user;
  refresh_token = delegate (λ r. r.id) fill_token;
  verification_token = delegate (λ r. r.id) fill_verification;
}

-- The laws of a client can hold.
pub memory_client-IsLawfulClient : IsLawfulClient memory_client
unfolding memory_client
memory_client-IsLawfulClient = record {
  users = delegate-IsLawful (λ r. r.id) fill_user (λ new id now. refl);
  refresh_tokens = delegate-IsLawful (λ r. r.id) fill_token (λ new id now. refl);
  verification_tokens = delegate-IsLawful (λ r. r.id) fill_verification (λ new id now. refl);
}
