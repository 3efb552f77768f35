-- ===== src/Entities/Search.antt =====
-- Searches in the rows of an entity after some of them changed or went, for
-- express/src/modules/_base/repository.ts.
use projx.Entities.Store.{patch, Row}
use projx.Base.{
  ◌≡◌, refl, inl, inr, Bool, true, false, none, List, [], ◌∷◌, Bool-cases, nat_eq, list_eq,
  option_eq, filter, find,
}

module _ {A : Type 0} (q p : A → Bool) where
  pub find-filter_kept :
      (rows : List A) → ((r : A) → q r ≡ true → p r ≡ true) → find q (filter p rows) ≡ find q rows
  find-filter_kept [] keeps = refl
  find-filter_kept (r ∷ rows) keeps =
      let rest = find-filter_kept rows keeps in
      elim (Bool-cases (q r)) [
        | inl hit ↦ rw (hit, keeps r hit) (rw (hit) refl)
        | inr miss ↦ elim (Bool-cases (p r)) [
          | inl stays ↦ rw (miss, stays) (rw (miss) rest)
          | inr goes ↦ rw (miss, goes) rest
        ]
      ]

  pub find-filter_gone :
      (rows : List A) → ((r : A) → q r ≡ true → p r ≡ false) → find q (filter p rows) ≡ none
  find-filter_gone [] goes = refl
  find-filter_gone (r ∷ rows) goes =
      let rest = find-filter_gone rows goes in
      elim (Bool-cases (q r)) [
        | inl hit ↦ rw (goes r hit) rest
        | inr miss ↦ elim (Bool-cases (p r)) [
          | inl stays ↦ rw (stays) (rw (miss) rest)
          | inr gone ↦ rw (gone) rest
        ]
      ]

module _ {X : Type 0} (q p : Row X → Bool) (f : Row X → Row X) where
  pub find-patch_kept :
      (rows : List (Row X))
      → ((r : Row X) → p r ≡ true → q r ≡ false)
      → ((r : Row X) → p r ≡ true → q (f r) ≡ false)
      → find q (patch p f rows) ≡ find q rows
  find-patch_kept [] other after = refl
  find-patch_kept (r ∷ rows) other after =
      let rest = find-patch_kept rows other after in
      elim (Bool-cases (p r)) [
        | inl hit ↦ rw (hit, other r hit, after r hit) rest
        | inr miss ↦ elim (Bool-cases (q r)) [
          | inl here ↦ rw (miss, here) refl
          | inr there ↦ rw (miss, there) rest
        ]
      ]

  pub find-patch_gone :
      (rows : List (Row X))
      → ((r : Row X) → q r ≡ true → p r ≡ true)
      → ((r : Row X) → p r ≡ true → q (f r) ≡ false)
      → find q (patch p f rows) ≡ none
  find-patch_gone [] covers after = refl
  find-patch_gone (r ∷ rows) covers after =
      let rest = find-patch_gone rows covers after in
      elim (Bool-cases (p r)) [
        | inl hit ↦ rw (hit, after r hit) rest
        | inr miss ↦ elim (Bool-cases (q r)) [
          | inl here ↦ absurd (cc (covers r here, miss))
          | inr there ↦ rw (miss, there) rest
        ]
      ]
