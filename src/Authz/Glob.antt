-- ===== src/Authz/Glob.antt =====
-- The patterns of `fnmatch` and the values that they mean.
use mathlib.Core.Path.{subst}
use projx.Base.Text.{Str}
use projx.Authz.{is_dot, glob_star, glob_unit, glob}
use projx.Base.{
  ℕ, ◌≡◌, refl, sym, ◌≢◌, inl, inr, Bool, true, false, ◌&&◌, [], ◌∷◌, arith, Bool-cases, eq_cases,
  ==_refl, ◌==◌, ==_iff, nat_eq, list_eq, option_eq,
}

-- A pattern and a value that it means: a star stands for any units within a line, a question mark
-- for one, and any other unit for itself.
pub data Glob : Str → Str → Type 0 where
  done : Glob [] []
  stop : {pattern_ value : Str} → Glob pattern_ value → Glob (42 ∷ pattern_) value
  more :
      {pattern_ value : Str} {c : ℕ}
      → is_dot c ≡ true
      → Glob (42 ∷ pattern_) value
      → Glob (42 ∷ pattern_) (c ∷ value)
  one_unit :
      {pattern_ value : Str} {c : ℕ}
      → is_dot c ≡ true
      → Glob pattern_ value
      → Glob (63 ∷ pattern_) (c ∷ value)
  unit :
      {pattern_ value : Str} {c : ℕ}
      → c ≢ 42
      → c ≢ 63
      → Glob pattern_ value
      → Glob (c ∷ pattern_) (c ∷ value)

star_sound :
    (pattern_ value : Str)
    → ((v : Str) → glob pattern_ v ≡ true → Glob pattern_ v)
    → glob_star (glob pattern_) value ≡ true
    → Glob (42 ∷ pattern_) value
unfolding glob_star
star_sound pattern_ [] sound h = stop (sound [] h)
star_sound pattern_ (c ∷ value) sound h = elim (Bool-cases (glob pattern_ (c ∷ value))) [
  | inl now ↦ stop (sound (c ∷ value) now)
  | inr not_now ↦ more (ground arith) (star_sound pattern_ value sound (ground arith))
]

unit_sound :
    (p : ℕ) (pattern_ value : Str)
    → p ≢ 42
    → ((v : Str) → glob pattern_ v ≡ true → Glob pattern_ v)
    → glob_unit p (glob pattern_) value ≡ true
    → Glob (p ∷ pattern_) value
unit_sound p pattern_ [] star sound h = absurd (cc)
unit_sound p pattern_ (c ∷ value) star sound h = elim (eq_cases p 63) [
  | inl (test, same) ↦
      let both : (is_dot c && glob pattern_ value) ≡ true = rw test at h in
      subst (λ q. Glob (q ∷ pattern_) (c ∷ value)) (sym same)
        (one_unit (ground arith) (sound value (ground arith)))
  | inr (test, mark) ↦
      let both : (p == c && glob pattern_ value) ≡ true = rw test at h in
      let equal : (p == c) ≡ true = ground arith in
      subst (λ q. Glob (p ∷ pattern_) (q ∷ value)) ((==_iff p c).0 equal)
        (unit star mark (sound value (ground arith)))
]

pub glob_sound : (pattern_ value : Str) → glob pattern_ value ≡ true → Glob pattern_ value
unfolding glob
glob_sound [] [] h = done
glob_sound [] (c ∷ value) h =
    let wrong : c ∷ value ≡ [] = (==_iff (c ∷ value) []).0 h in absurd (cc)
glob_sound (p ∷ pattern_) value h = elim (eq_cases p 42) [
  | inl (test, same) ↦
      subst (λ q. Glob (q ∷ pattern_) value) (sym same)
        (star_sound pattern_ value (λ v k. glob_sound pattern_ v k) (rw test at h))
  | inr (test, star) ↦
      unit_sound p pattern_ value star (λ v k. glob_sound pattern_ v k) (rw test at h)
]

star_now : (rest : Str → Bool) (value : Str) → rest value ≡ true → glob_star rest value ≡ true
unfolding glob_star
star_now rest [] h = h
star_now rest (c ∷ value) h = rw h refl

unequal : (a b : ℕ) → a ≢ b → (a == b) ≡ false
unequal a b other = elim (eq_cases a b) [
  | inl (_, same) ↦ absurd (other same)
  | inr (test, _) ↦ test
]

pub glob_complete : {pattern_ value : Str} → Glob pattern_ value → glob pattern_ value ≡ true
unfolding glob glob_star nat_eq list_eq
glob_complete done = refl
glob_complete (stop {pattern_} {value} h) = star_now (glob pattern_) value (glob_complete h)
glob_complete (more {pattern_} {value} {c} dot h) =
    let later : glob_star (glob pattern_) value ≡ true = glob_complete h in
    rw (dot, later) (ground arith)
glob_complete (one_unit {pattern_} {value} {c} dot h) = rw (dot, glob_complete h) refl
glob_complete (unit {pattern_} {value} {c} star mark h) =
    rw (unequal c 42 star, unequal c 63 mark, ==_refl c, glob_complete h) refl
