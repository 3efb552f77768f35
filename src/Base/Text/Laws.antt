-- ===== src/Base/Text/Laws.antt =====
-- What the string tests say about concatenation.
use projx.Base.Text.{Str, starts_with, ends_with, includes, drop_end}
use projx.Base.{
  ℕ, zero, suc, ◌-◌, ◌≤◌, ◌≡◌, refl, sym, ap, ◌∙◌, inl, inr, true, [], ◌∷◌, ◌++◌, arith, Bool-cases,
  nat_eq, list_eq, option_eq, length, take, drop, length-append, drop-append, take-append,
  take-append-drop,
}

pub starts_with-append : (p s : Str) → starts_with (p ++ s) p ≡ true
unfolding starts_with
starts_with-append [] s = refl
starts_with-append (c ∷ p) s = ground (arith, starts_with-append p s)

pub starts_with_rest : (s p : Str) → starts_with s p ≡ true → s ≡ p ++ drop (length p) s
unfolding starts_with
starts_with_rest s [] h = refl
starts_with_rest [] (c ∷ p) h = cc
starts_with_rest (x ∷ s) (c ∷ p) h = ground (arith, starts_with_rest s p)

pub starts_with-weaken : (s p t : Str) → starts_with s p ≡ true → starts_with (s ++ t) p ≡ true
unfolding starts_with
starts_with-weaken s [] t h = refl
starts_with-weaken [] (c ∷ p) t h = cc
starts_with-weaken (x ∷ s) (c ∷ p) t h = ground (arith, starts_with-weaken s p t)

pub includes-append_right : (s t u : Str) → includes s u ≡ true → includes (s ++ t) u ≡ true
unfolding includes starts_with
includes-append_right [] [] [] h = refl
includes-append_right [] (x ∷ t) [] h = refl
includes-append_right [] t (c ∷ u) h = cc
includes-append_right (x ∷ s) t u h =
    ground (arith, starts_with-weaken (x ∷ s) u t, includes-append_right s t u)

pub includes-append_left : (s t u : Str) → includes t u ≡ true → includes (s ++ t) u ≡ true
unfolding includes
includes-append_left [] t u h = h
includes-append_left (x ∷ s) t u h = ground (arith, includes-append_left s t u h)

pub includes_self : (u t : Str) → includes (u ++ t) u ≡ true
unfolding includes starts_with
includes_self [] [] = refl
includes_self [] (x ∷ t) = refl
includes_self (c ∷ u) t = ground (arith, starts_with-append (c ∷ u) t)

-- A text includes whatever stands between two others in it.
pub includes-middle : (s u t : Str) → includes (s ++ (u ++ t)) u ≡ true
includes-middle s u t = includes-append_left s (u ++ t) u (includes_self u t)

length-drop : (n : ℕ) (s : Str) → length (drop n s) ≡ length s - n
length-drop zero s = omega arith
length-drop (suc n) [] = omega arith
length-drop (suc n) (x ∷ s) = omega (arith, length-drop n s)

pub ends_with-append : (s t : Str) → ends_with (s ++ t) t ≡ true
unfolding ends_with
ends_with-append s t =
    let len : length (s ++ t) - length t ≡ length s = omega (arith, length-append s t) in
    let le : length t ≤ length (s ++ t) = omega (arith, length-append s t) in
    rw (len, drop-append s t) (ground arith)

pub ends_with_rest : (s t : Str) → ends_with s t ≡ true → s ≡ take (length s - length t) s ++ t
unfolding ends_with
ends_with_rest s t h =
    let e : drop (length s - length t) s ≡ t = ground arith in
    sym (ap (λ r. take (length s - length t) s ++ r) (sym e) ∙ take-append-drop _ s)

pub drop_end-append : (s t : Str) → drop_end (length t) (s ++ t) ≡ s
drop_end-append s t =
    let len : length (s ++ t) - length t ≡ length s = omega (arith, length-append s t) in
    rw len (take-append s t)

-- Where an occurrence stands.
pub includes_parts :
    (s u : Str)
    → includes s u ≡ true
    → (before : Str) × (after : Str) × (s ≡ before ++ (u ++ after))
unfolding includes
includes_parts [] u h = ([], drop (length u) [], starts_with_rest [] u h)
includes_parts (x ∷ s) u h = elim (Bool-cases (starts_with (x ∷ s) u)) [
  | inl here ↦ ([], drop (length u) (x ∷ s), starts_with_rest (x ∷ s) u here)
  | inr later ↦
      let (before, after, e) = includes_parts s u (ground arith) in
      (x ∷ before, after, ap (λ l. x ∷ l) e)
]
