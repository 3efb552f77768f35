-- ===== src/Features/Laws.antt =====
-- Where a text stands first in another, for `applyTextPatch`.
use mathlib.Core.Path.{subst}
use projx.Base.Text.{Str, index_of, starts_with}
use projx.Base.Text.Laws.{starts_with_rest}
use projx.Features.{line_start, leading_spaces, indent_at}
use projx.Base.{
  ℕ, zero, suc, ◌+◌, ◌≤◌, ◌≡◌, refl, sym, ap, ◌∙◌, inl, inr, true, false, some, none-ne-some,
  some-injective, [], ◌∷◌, ◌++◌, arith, Bool-cases, Option-cases, nat_eq, list_eq, option_eq,
  length, take, drop, length-append,
}

-- A prefix is found in the part that is long enough.
starts_with-take : (n : ℕ) (s t : Str) → length t ≤ n → starts_with (take n s) t ≡ starts_with s t
unfolding starts_with
starts_with-take n s [] h = refl
starts_with-take zero s (c ∷ t) h = absurd (omega arith)
starts_with-take (suc n) [] (c ∷ t) h = refl
starts_with-take (suc n) (x ∷ s) (c ∷ t) h = rw (starts_with-take n s t (omega arith)) refl

take-take : (n m : ℕ) (s : Str) → n ≤ m → take n (take m s) ≡ take n s
take-take zero m s h = refl
take-take (suc n) zero s h = absurd (omega arith)
take-take (suc n) (suc m) [] h = refl
take-take (suc n) (suc m) (c ∷ s) h = ap (λ r. c ∷ r) (take-take n m s (omega arith))

-- Texts with the same beginning.
pub same_take_less : (n m : ℕ) (s t : Str) → n ≤ m → take m s ≡ take m t → take n s ≡ take n t
same_take_less n m s t h same = sym (take-take n m s h) ∙ ap (take n) same ∙ take-take n m t h

starts_with_same :
    (n : ℕ) (s s' t : Str)
    → length t ≤ n
    → take n s ≡ take n s'
    → starts_with s t ≡ starts_with s' t
starts_with_same n s s' t h same =
    sym (starts_with-take n s t h) ∙ ap (λ r. starts_with r t) same ∙ starts_with-take n s' t h

index_of_first : (s t : Str) → starts_with s t ≡ true → index_of s t ≡ some 0
unfolding index_of
index_of_first [] t h = rw h refl
index_of_first (c ∷ s) t h = rw h refl

index_of_later :
    (c : ℕ) (s t : Str) (i : ℕ)
    → starts_with (c ∷ s) t ≡ false
    → index_of s t ≡ some i
    → index_of (c ∷ s) t ≡ some (suc i)
unfolding index_of
index_of_later c s t i other found = rw (other, found) (ap some (omega arith))

module _ (t : Str) where
  -- The place of a text where it stands first.
  data FirstAt : ℕ → Str → Type 0 where
    here : {s : Str} → starts_with s t ≡ true → FirstAt 0 s
    later :
        {c : ℕ} {s : Str} {i : ℕ}
        → starts_with (c ∷ s) t ≡ false
        → FirstAt i s
        → FirstAt (suc i) (c ∷ s)

  found-FirstAt : (s : Str) (i : ℕ) → index_of s t ≡ some i → FirstAt i s
  unfolding index_of
  found-FirstAt [] i found = elim (Bool-cases (starts_with [] t)) [
    | inl start ↦ subst (λ n. FirstAt n []) (some-injective 0 i (rw start at found)) (here start)
    | inr other ↦ absurd (none-ne-some i (rw other at found))
  ]
  found-FirstAt (c ∷ s) i found = elim (Bool-cases (starts_with (c ∷ s) t)) [
    | inl start ↦
        subst (λ n. FirstAt n (c ∷ s)) (some-injective 0 i (rw start at found)) (here start)
    | inr other ↦ elim (Option-cases (index_of s t)) [
      | inl lost ↦ absurd (none-ne-some i (rw (other, lost) at found))
      | inr (j, found') ↦
          let next : j + 1 ≡ i = some-injective (j + 1) i (rw (other, found') at found) in
          let e : suc j ≡ i = omega arith in
          subst (λ n. FirstAt n (c ∷ s)) e (later other (found-FirstAt s j found'))
    ]
  ]

  index_of-FirstAt : {s : Str} {i : ℕ} → FirstAt i s → index_of s t ≡ some i
  index_of-FirstAt (here {s} start) = index_of_first s t start
  index_of-FirstAt (later {c} {s} {i} other first) =
      index_of_later c s t i other (index_of-FirstAt first)

  same-FirstAt :
      {s : Str} {i : ℕ}
      → FirstAt i s
      → (s' : Str) → take (i + length t) s ≡ take (i + length t) s'
      → FirstAt i s'
  same-FirstAt (here {s} start) s' same =
      here (sym (starts_with_same (0 + length t) s s' t (omega arith) same) ∙ start)
  same-FirstAt (later {c} {s} {i} other first) [] same =
      let e : suc i + length t ≡ suc (i + length t) = omega arith in
      let wrong : c ∷ take (i + length t) s ≡ [] = rw e at same in absurd (cc)
  same-FirstAt (later {c} {s} {i} other first) (c' ∷ s') same =
      let e : suc i + length t ≡ suc (i + length t) = omega arith in
      let aligned : c ∷ take (i + length t) s ≡ c' ∷ take (i + length t) s' = rw e at same in
      later
        (sym (starts_with_same (suc i + length t) (c ∷ s) (c' ∷ s') t (omega arith) same) ∙ other)
        (same-FirstAt first s' (ap (drop 1) aligned))

  fits-FirstAt : {s : Str} {i : ℕ} → FirstAt i s → i + length t ≤ length s
  fits-FirstAt (here {s} start) =
      let parts : length s ≡ length (t ++ drop (length t) s) =
        ap length (starts_with_rest s t start) in
      omega (arith, length-append t (drop (length t) s))
  fits-FirstAt (later {c} {s} {i} other first) = omega (arith, fits-FirstAt first)

  pub index_of_fits : (s : Str) (i : ℕ) → index_of s t ≡ some i → i + length t ≤ length s
  index_of_fits s i found = fits-FirstAt (found-FirstAt s i found)

  -- A text that begins like another up to the end of the first occurrence has it at the same place.
  pub index_of_same :
      (s s' : Str) (i : ℕ)
      → index_of s t ≡ some i
      → take (i + length t) s ≡ take (i + length t) s'
      → index_of s' t ≡ some i
  index_of_same s s' i found same =
      index_of-FirstAt (same-FirstAt (found-FirstAt s i found) s' same)

pub indent_at_same :
    (s s' : Str) (i : ℕ) → take (suc i) s ≡ take (suc i) s' → indent_at s i ≡ indent_at s' i
unfolding indent_at
indent_at_same s s' i same =
    ap (λ r. leading_spaces (drop (line_start 0 0 r) (take i s))) same
    ∙ ap (λ r. leading_spaces (drop (line_start 0 0 (take (suc i) s')) r))
        (same_take_less i (suc i) s s' (omega arith) same)

pub take_back : (n : ℕ) (s x : Str) → n ≤ length s → take n (take n s ++ x) ≡ take n s
take_back zero s x h = refl
take_back (suc n) [] x h = absurd (omega arith)
take_back (suc n) (c ∷ s) x h = ap (λ r. c ∷ r) (take_back n s x (omega arith))
