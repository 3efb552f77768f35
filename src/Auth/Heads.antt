-- ===== src/Auth/Heads.antt =====
-- The tokens of a session that may still be exchanged, in
-- features/auth/express/prisma/files/src/modules/auth/routes.ts.
pub mod Rotate
pub mod Refresh
pub mod History
use projx.Auth.Refresh.{is_unused, in_session}
use projx.Auth.Rows.{patch, RefreshTokenRow}
use projx.Base.Text.{Str}
use projx.Base.{
  refl, ap, suc, ◌++◌, ℕ, ◌≤◌, ◌<◌, ◌≡◌, inl, inr, Bool, true, false, ◌&&◌, some, none-ne-some,
  some-injective, List, [], ◌∷◌, arith, Bool-cases, nat_eq, list_eq, option_eq, length, filter,
  find,
}

abbrev pub is_head : Str → RefreshTokenRow → Bool
is_head sid row = in_session sid row && is_unused row

abbrev pub heads : Str → List RefreshTokenRow → ℕ
heads sid rows = length (filter (is_head sid) rows)

pub filter-some :
    {A : Type 0} (p q : A → Bool) (rows : List A) (r : A)
    → find q rows ≡ some r
    → p r ≡ true
    → 0 < length (filter p rows)
filter-some p q [] r h k = absurd (none-ne-some r h)
filter-some p q (x ∷ rows) r h k = elim (Bool-cases (p x)) [
  | inl here ↦ rw (here) (omega arith)
  | inr there ↦ elim (Bool-cases (q x)) [
    | inl hit ↦ absurd (cc (some-injective x r (rw (hit) at h), k, there))
    | inr miss ↦ rw (there) (filter-some p q rows r (rw (miss) at h) k)
  ]
]

module _ (sid : Str) where
  -- A change that makes no token usable.
  pub heads-patch :
      (p : RefreshTokenRow → Bool) (f : RefreshTokenRow → RefreshTokenRow)
      (rows : List RefreshTokenRow)
      → ((r : RefreshTokenRow) → is_head sid r ≡ false → is_head sid (f r) ≡ false)
      → heads sid (patch p f rows) ≤ heads sid rows
  heads-patch p f [] keeps = omega arith
  heads-patch p f (r ∷ rows) keeps =
      let rest = heads-patch p f rows keeps in
      elim (Bool-cases (is_head sid r)) [
        | inl old ↦ elim (Bool-cases (p r)) [
          | inl hit ↦ elim (Bool-cases (is_head sid (f r))) [
            | inl new ↦ rw (old, hit, new) (omega (arith, rest))
            | inr new ↦ rw (old, hit, new) (omega (arith, rest))
          ]
          | inr miss ↦ rw (miss, old) (omega (arith, rest))
        ]
        | inr old ↦ elim (Bool-cases (p r)) [
          | inl hit ↦ rw (old, hit, keeps r old) rest
          | inr miss ↦ rw (miss, old) rest
        ]
      ]

  -- A change that makes every token it touches useless, and touches one that was usable.
  pub heads-claim :
      (p q : RefreshTokenRow → Bool) (f : RefreshTokenRow → RefreshTokenRow)
      (rows : List RefreshTokenRow) (row : RefreshTokenRow)
      → ((r : RefreshTokenRow) → is_head sid (f r) ≡ false)
      → find q rows ≡ some row
      → p row ≡ true
      → is_head sid row ≡ true
      → heads sid (patch p f rows) < heads sid rows
  heads-claim p q f [] row stops found chosen head = absurd (none-ne-some row found)
  heads-claim p q f (r ∷ rows) row stops found chosen head =
      let rest = heads-patch p f rows (λ x _. stops x) in
      elim (Bool-cases (q r)) [
        | inl hit ↦
            let same = some-injective r row (rw (hit) at found) in
            let chosen' = rw (← same) at chosen in
            let head' = rw (← same) at head in rw (chosen', head', stops r) (omega (arith, rest))
        | inr miss ↦
            let later = heads-claim p q f rows row stops (rw (miss) at found) chosen head in
            elim (Bool-cases (p r)) [
              | inl picked ↦ elim (Bool-cases (is_head sid r)) [
                | inl old ↦ rw (picked, old, stops r) (omega (arith, later))
                | inr old ↦ rw (picked, old, stops r) later
              ]
              | inr left ↦ elim (Bool-cases (is_head sid r)) [
                | inl old ↦ rw (left, old) (omega (arith, later))
                | inr old ↦ rw (left, old) later
              ]
            ]
      ]

  pub heads-append :
      (rows : List RefreshTokenRow) (row : RefreshTokenRow)
      → heads sid (rows ++ row ∷ []) ≤ suc (heads sid rows)
  heads-append [] row = elim (Bool-cases (is_head sid row)) [
    | inl new ↦ rw (new) (omega arith)
    | inr old ↦ rw (old) (omega arith)
  ]
  heads-append (r ∷ rows) row =
      let rest = heads-append rows row in
      elim (Bool-cases (is_head sid r)) [
        | inl new ↦ rw (new) (omega (arith, rest))
        | inr old ↦ rw (old) rest
      ]

  pub heads-append_other :
      (rows : List RefreshTokenRow) (row : RefreshTokenRow)
      → is_head sid row ≡ false
      → heads sid (rows ++ row ∷ []) ≡ heads sid rows
  heads-append_other [] row other = rw (other) refl
  heads-append_other (r ∷ rows) row other =
      let rest = heads-append_other rows row other in
      elim (Bool-cases (is_head sid r)) [
        | inl new ↦ rw (new) (ap suc rest)
        | inr old ↦ rw (old) rest
      ]

  pub heads-filter :
      (p : RefreshTokenRow → Bool) (rows : List RefreshTokenRow)
      → heads sid (filter p rows) ≤ heads sid rows
  heads-filter p [] = omega arith
  heads-filter p (r ∷ rows) =
      let rest = heads-filter p rows in
      elim (Bool-cases (p r)) [
        | inl kept ↦ elim (Bool-cases (is_head sid r)) [
          | inl new ↦ rw (kept, new) (omega (arith, rest))
          | inr old ↦ rw (kept, old) rest
        ]
        | inr gone ↦ elim (Bool-cases (is_head sid r)) [
          | inl new ↦ rw (gone, new) (omega (arith, rest))
          | inr old ↦ rw (gone, old) rest
        ]
      ]
