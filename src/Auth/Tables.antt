-- ===== src/Auth/Tables.antt =====
-- Lists of rows, and what the laws of a delegate say of its table.
use projx.Base.Text.{Str}
use projx.Auth.Rows.{patch}
use projx.Auth.Store.{Delegate, IsLawful}
use projx.Base.{
  ℕ, ◌≡◌, refl, sym, ap, ◌∙◌, inl, inr, Bool, true, false, Option, none, some, none-ne-some,
  some-injective, List, [], ◌∷◌, if◌then◌else◌, Bool-cases, Option-cases, ◌==◌, nat_eq, list_eq,
  option_eq, filter, find, All, All-append,
}

module _ {A : Type 0} where
  pub All-patch :
      (P Q : A → Type 0) (p : A → Bool) (f : A → A) (rows : List A)
      → ((r : A) → P r → p r ≡ true → Q (f r))
      → ((r : A) → P r → p r ≡ false → Q r)
      → All P rows
      → All Q (patch p f rows)
  All-patch P Q p f [] hit miss h = h
  All-patch P Q p f (r ∷ rows) hit miss (h, hs) = elim (Bool-cases (p r)) [
    | inl hit' ↦ rw (hit') (hit r h hit', All-patch P Q p f rows hit miss hs)
    | inr miss' ↦ rw (miss') (miss r h miss', All-patch P Q p f rows hit miss hs)
  ]

  pub All-weaken :
      (P Q : A → Type 0) (rows : List A) → ((r : A) → P r → Q r) → All P rows → All Q rows
  All-weaken P Q [] weaker h = h
  All-weaken P Q (r ∷ rows) weaker (h, hs) = (weaker r h, All-weaken P Q rows weaker hs)

  pub All-any : (rows : List A) → All (λ r. Unit {0}) rows
  All-any [] = tt
  All-any (r ∷ rows) = (tt, All-any rows)

  pub All-filter :
      (P : A → Type 0) (p : A → Bool) (rows : List A) → All P rows → All P (filter p rows)
  All-filter P p [] h = h
  All-filter P p (r ∷ rows) (h, hs) = elim (Bool-cases (p r)) [
    | inl hit' ↦ rw (hit') (h, All-filter P p rows hs)
    | inr miss' ↦ rw (miss') (All-filter P p rows hs)
  ]

  pub find-none : (p : A → Bool) (rows : List A) → All (λ r. p r ≡ false) rows → find p rows ≡ none
  find-none p [] h = refl
  find-none p (r ∷ rows) (k, h) = rw (k) (find-none p rows h)

  -- What is found passes the test, and has what all rows have.
  pub find_sound : (p : A → Bool) (rows : List A) (r : A) → find p rows ≡ some r → p r ≡ true
  find_sound p [] r h = absurd (none-ne-some r h)
  find_sound p (x ∷ rows) r h = elim (Bool-cases (p x)) [
    | inl hit' ↦ rw (← some-injective x r (rw (hit') at h)) hit'
    | inr miss' ↦ find_sound p rows r (rw (miss') at h)
  ]

  pub find-All :
      (P : A → Type 0) (p : A → Bool) (rows : List A) (r : A)
      → find p rows ≡ some r
      → All P rows
      → P r
  find-All P p [] r h all' = absurd (none-ne-some r h)
  find-All P p (x ∷ rows) r h (k, ks) = elim (Bool-cases (p x)) [
    | inl hit' ↦ rw (← some-injective x r (rw (hit') at h)) k
    | inr miss' ↦ find-All P p rows r (rw (miss') at h) ks
  ]

  -- A row that passes `p` is found by any test it passes.
  pub find_other :
      (p q : A → Bool) (rows : List A) (r : A)
      → find p rows ≡ some r
      → q r ≡ true
      → (x : A) × (find q rows ≡ some x)
  find_other p q [] r h k = absurd (none-ne-some r h)
  find_other p q (x ∷ rows) r h k = elim (Bool-cases (q x)) [
    | inl hit' ↦ (x, rw (hit') refl)
    | inr miss' ↦ elim (Bool-cases (p x)) [
      | inl here ↦ absurd (cc (some-injective x r (rw (here) at h), k, miss'))
      | inr there ↦
          let (y, found) = find_other p q rows r (rw (there) at h) k in (y, rw (miss') found)
    ]
  ]

  abbrev pub patched : (A → Bool) → (A → A) → Option A → Option A
  patched p f none = none
  patched p f (some r) = some (if p r then f r else r)

  -- A change that does not touch what is looked for.
  pub find-patch :
      (p q : A → Bool) (f : A → A) (rows : List A)
      → ((r : A) → q (f r) ≡ q r)
      → find q (patch p f rows) ≡ patched p f (find q rows)
  find-patch p q f [] same = refl
  find-patch p q f (r ∷ rows) same =
      let rest = find-patch p q f rows same in
      elim (Bool-cases (p r)) [
        | inl hit' ↦ elim (Bool-cases (q r)) [
          | inl here ↦ rw (hit', same r, here) (rw (hit') refl)
          | inr there ↦ rw (hit', same r, there) rest
        ]
        | inr miss' ↦ elim (Bool-cases (q r)) [
          | inl here ↦ rw (miss', here) (rw (miss') refl)
          | inr there ↦ rw (miss', there) rest
        ]
      ]

module _ {T R D : Type 0} {d : Delegate T R D} {key : R → Str} {fill : D → Str → ℕ → R}
    (lawful : IsLawful d key fill) where
  pub rows-update :
      (id : Str) (f : R → R) (t t' : T) (r : R)
      → d.update id f t ≡ some (r, t')
      → d.rows t' ≡ patch (λ x. key x == id) f (d.rows t)
  rows-update id f t t' r h = elim (Option-cases (find (λ x. key x == id) (d.rows t))) [
    | inl missing ↦ absurd (none-ne-some _ (sym (lawful.update_missing id f t missing) ∙ h))
    | inr (x, found) ↦
        let (t'', same, rows') = lawful.update_found id f t x found in
        rw (← ap (λ u. u.1) (some-injective _ _ (sym same ∙ h))) rows'
  ]

  -- The update of a row that is there, by its key, which the change leaves.
  pub update_self :
      (id : Str) (f : R → R) (t : T) (r : R)
      → d.find_first (λ x. key x == id) t ≡ some r
      → ((x : R) → (key (f x) == id) ≡ (key x == id))
      → (t' : T) × (d.update id f t ≡ some (f r, t'))
        × (d.find_first (λ x. key x == id) t' ≡ some (f r))
  update_self id f t r found keeps =
      let here = sym (lawful.rows-find_first (λ x. key x == id) t) ∙ found in
      let (t', updated, rows) = lawful.update_found id f t r here in
      (
        t',
        updated,
        rw
            (
              lawful.rows-find_first (λ x. key x == id) t',
              rows,
              find-patch (λ x. key x == id) (λ x. key x == id) f (d.rows t) keeps,
              here,
              find_sound (λ x. key x == id) (d.rows t) r here,
            )
            refl,
      )

  -- What every row has, a row that `find_first` answers has.
  pub find_first-All :
      (P : R → Type 0) (p : R → Bool) (t : T) (r : R)
      → d.find_first p t ≡ some r
      → All P (d.rows t)
      → P r
  find_first-All P p t r h = find-All P p (d.rows t) r (sym (lawful.rows-find_first p t) ∙ h)

  pub find_first_sound : (p : R → Bool) (t : T) (r : R) → d.find_first p t ≡ some r → p r ≡ true
  find_first_sound p t r h = find_sound p (d.rows t) r (sym (lawful.rows-find_first p t) ∙ h)

  module _ (P : R → Type 0) where
    pub update_many-All :
        (p : R → Bool) (f : R → R) (t : T)
        → ((r : R) → P r → P (f r))
        → All P (d.rows t)
        → All P (d.rows (d.update_many p f t).1)
    update_many-All p f t keeps h =
        rw (lawful.rows-update_many p f t)
          (All-patch P P p f (d.rows t) (λ r k _. keeps r k) (λ r k _. k) h)

    pub update-All :
        (id : Str) (f : R → R) (t t' : T) (r : R)
        → ((x : R) → P x → P (f x))
        → d.update id f t ≡ some (r, t')
        → All P (d.rows t)
        → All P (d.rows t')
    update-All id f t t' r keeps e h =
        rw (rows-update id f t t' r e)
          (All-patch P P _ f (d.rows t) (λ x k _. keeps x k) (λ x k _. k) h)

    pub create-All :
        (new : D) (t : T)
        → ((id : Str) (now : ℕ) → P (fill new id now))
        → All P (d.rows t)
        → All P (d.rows (d.create new t).1)
    create-All new t filled h = rw (lawful.rows-create new t) (
        All-append P (d.rows t) _ h (
          rw ((lawful.create-fill new t).1)
              (filled (key (d.create new t).0) (lawful.create-fill new t).0),
          tt,
        ))

    pub delete_many-All :
        (p : R → Bool) (t : T) → All P (d.rows t) → All P (d.rows (d.delete_many p t).1)
    delete_many-All p t h = rw (lawful.rows-delete_many p t) (All-filter P _ (d.rows t) h)
