-- ===== src/Base/Sets.antt =====
-- A `Set` of JavaScript as the list of its elements in insertion order, and dictionaries.
use mathlib.Core.Path.{subst}
use mathlib.Core.List.{append-nil, append_assoc}
use projx.Base.{
  some-injective, none-ne-some, suc, ◌≤◌, ◌≡◌, refl, sym, ap, ◌∙◌, inl, inr, Bool, false, ◌&&◌,
  ◌||◌, Option, none, some, some-ne-none, List, [], ◌∷◌, ◌++◌, arith, if◌then◌else◌, Bool-cases,
  eq_cases, ==_refl, Eq, ◌==◌, contains, nat_eq, list_eq, option_eq, length, filter, length-append,
  All,
}

module _ {ℓ} {A : Type ℓ} ⦃e : Eq A⦄ where
  -- `set.add(x)` for each element.
  unfoldable pub add_all : List A → List A → List A
  add_all set [] = set
  add_all set (x ∷ xs) = add_all (if contains set x then set else set ++ x ∷ []) xs

  -- `[...new Set(xs)]`
  unfoldable pub dedup : List A → List A
  unfolding add_all
  dedup xs = add_all [] xs

  abbrev pub IsNodup : List A → Type 0
  IsNodup [] = Unit
  IsNodup (x ∷ xs) = (contains xs x ≡ false) × IsNodup xs

  pub contains-append :
      (xs ys : List A) (a : A) → contains (xs ++ ys) a ≡ (contains xs a || contains ys a)
  contains-append [] ys a = refl
  contains-append (x ∷ xs) ys a = ground (arith, contains-append xs ys a)

  pub contains-add_all :
      (set xs : List A) (a : A) → contains (add_all set xs) a ≡ (contains set a || contains xs a)
  unfolding add_all
  contains-add_all set [] a = ground arith
  contains-add_all set (x ∷ xs) a = elim (Bool-cases (contains set x)) [
    | inl old ↦ rw (old, contains-add_all set xs a) (ground arith)
    | inr new ↦
        rw (new, contains-add_all (set ++ x ∷ []) xs a, contains-append set (x ∷ []) a)
          (ground arith)
  ]

  pub contains-dedup : (xs : List A) (a : A) → contains (dedup xs) a ≡ contains xs a
  unfolding dedup
  contains-dedup xs a = contains-add_all [] xs a

  pub add_all-append : (set xs ys : List A) → add_all set (xs ++ ys) ≡ add_all (add_all set xs) ys
  unfolding add_all
  add_all-append set [] ys = refl
  add_all-append set (x ∷ xs) ys =
      add_all-append (if contains set x then set else set ++ x ∷ []) xs ys

  pub length-add_all : (set xs : List A) → length set ≤ length (add_all set xs)
  unfolding add_all
  length-add_all set [] = omega arith
  length-add_all set (x ∷ xs) =
      ground (
        arith,
        length-add_all set xs,
        length-add_all (set ++ x ∷ []) xs,
        length-append set (x ∷ []),
      )

  -- A set that does not grow has all the elements already.
  pub add_all_same : (set xs : List A) → length (add_all set xs) ≤ length set → add_all set xs ≡ set
  unfolding add_all
  add_all_same set [] h = refl
  add_all_same set (x ∷ xs) h = elim (Bool-cases (contains set x)) [
    | inl old ↦ rw old (add_all_same set xs (rw old at h))
    | inr new ↦
        let h' : length (add_all (set ++ x ∷ []) xs) ≤ length set = rw new at h in
        absurd (omega (arith, h', length-add_all (set ++ x ∷ []) xs, length-append set (x ∷ [])))
  ]

  contains-snoc : (xs : List A) (x y : A) → contains (xs ++ x ∷ []) y ≡ (contains xs y || y == x)
  contains-snoc xs x y = rw contains-append (ground arith)

  -- The elements of `ys` are new to `xs`, and none stands twice.
  abbrev IsFresh : List A → List A → Type 0
  IsFresh set [] = Unit
  IsFresh set (y ∷ ys) = (contains set y ≡ false) × IsFresh (set ++ y ∷ []) ys

  add_all-IsFresh : (set ys : List A) → IsFresh set ys → add_all set ys ≡ set ++ ys
  unfolding add_all
  add_all-IsFresh set [] h = sym (append-nil set)
  add_all-IsFresh set (y ∷ ys) (new, h) =
      rw new (add_all-IsFresh (set ++ y ∷ []) ys h ∙ append_assoc set (y ∷ []) ys)

  disjoint-IsFresh :
      (set ys : List A) → IsNodup ys → All (λ y. contains set y ≡ false) ys → IsFresh set ys
  disjoint-IsFresh set [] n h = tt
  disjoint-IsFresh set (y ∷ ys) (other, n) (new, h) =
      (new, disjoint-IsFresh (set ++ y ∷ []) ys n (still_new y ys other h))
    where
      still_new :
          (y : A) (zs : List A)
          → contains zs y ≡ false
          → All (λ z. contains set z ≡ false) zs
          → All (λ z. contains (set ++ y ∷ []) z ≡ false) zs
      still_new y [] o k = tt
      still_new y (z ∷ zs) o (k, ks) =
          (rw contains-snoc (ground arith), still_new y zs (ground arith) ks)

  none_in_nil : (ys : List A) → All (λ y. contains [] y ≡ false) ys
  none_in_nil [] = tt
  none_in_nil (y ∷ ys) = (refl, none_in_nil ys)

  -- A list without repetitions is its own set.
  pub dedup_of_IsNodup : (ys : List A) → IsNodup ys → dedup ys ≡ ys
  unfolding dedup
  dedup_of_IsNodup ys n = add_all-IsFresh [] ys (disjoint-IsFresh [] ys n (none_in_nil ys))

  pub dedup-append : (xs ys : List A) → dedup (xs ++ ys) ≡ add_all (dedup xs) ys
  unfolding dedup
  dedup-append xs ys = add_all-append [] xs ys

  pub contains-filter :
      (p : A → Bool) (xs : List A) (a : A) → contains (filter p xs) a ≡ (contains xs a && p a)
  contains-filter p [] a = refl
  contains-filter p (x ∷ xs) a = ground (arith, contains-filter p xs a)

  pub length-filter : (p : A → Bool) (xs : List A) → length (filter p xs) ≤ length xs
  length-filter p [] = omega arith
  length-filter p (x ∷ xs) = ground (arith, length-filter p xs)

  pub filter_same :
      (p : A → Bool) (xs : List A) → length xs ≤ length (filter p xs) → filter p xs ≡ xs
  filter_same p [] h = refl
  filter_same p (x ∷ xs) h = elim (Bool-cases (p x)) [
    | inl kept ↦
        let h' : suc (length xs) ≤ suc (length (filter p xs)) = rw kept at h in
        rw kept (ap (λ l. x ∷ l) (filter_same p xs (omega arith)))
    | inr lost ↦
        let h' : suc (length xs) ≤ length (filter p xs) = rw lost at h in
        absurd (omega (arith, h', length-filter p xs))
  ]

module _ {ℓ κ} {K : Type ℓ} {V : Type κ} ⦃e : Eq K⦄ where
  unfoldable pub lookup : K → List (K × V) → Option V
  lookup k [] = none
  lookup k ((j, v) ∷ d) = if k == j then some v else lookup k d

  -- `d[k] = v`
  unfoldable pub insert : K → V → List (K × V) → List (K × V)
  insert k v [] = (k, v) ∷ []
  insert k v ((j, w) ∷ d) = if k == j then (j, v) ∷ d else (j, w) ∷ insert k v d

  -- `delete d[k]`
  unfoldable pub erase : K → List (K × V) → List (K × V)
  erase k [] = []
  erase k ((j, w) ∷ d) = let rest = erase k d in if k == j then rest else (j, w) ∷ rest

  unfoldable pub keys : List (K × V) → List K
  keys [] = []
  keys ((k, v) ∷ d) = k ∷ keys d

  pub lookup-cons :
      (j k : K) (v : V) (d : List (K × V))
      → lookup j ((k, v) ∷ d) ≡ (if j == k then some v else lookup j d)
  unfolding lookup
  lookup-cons j k v d = refl

  pub lookup-nil : (j : K) → ◌≡◌ {A = Option V} (lookup j []) none
  unfolding lookup
  lookup-nil j = refl

  pub lookup-insert :
      (j k : K) (v : V) (d : List (K × V))
      → lookup j (insert k v d) ≡ (if j == k then some v else lookup j d)
  unfolding insert lookup
  lookup-insert j k v [] = refl
  lookup-insert j k v (_ ∷ d) = ground (arith, lookup-insert j k v d)

  pub lookup-erase :
      (j k : K) (d : List (K × V)) → lookup j (erase k d) ≡ (if j == k then none else lookup j d)
  unfolding erase lookup
  lookup-erase j k [] = ground arith
  lookup-erase j k (_ ∷ d) = ground (arith, lookup-erase j k d)

  -- No key stands twice.
  abbrev pub IsKeyed : List (K × V) → Type κ
  IsKeyed [] = Unit
  IsKeyed ((k, _) ∷ d) = (lookup k d ≡ none) × IsKeyed d

  pub insert-IsKeyed : (k : K) (v : V) (d : List (K × V)) → IsKeyed d → IsKeyed (insert k v d)
  unfolding insert lookup
  insert-IsKeyed k v [] _ = (refl, tt)
  insert-IsKeyed k v ((j, w) ∷ d) (fresh, u) =
      ground (arith, insert-IsKeyed k v d u, lookup-insert j k v d)

-- What holds of each entry that can be looked up holds of each entry, if no key stands twice.
pub All-lookup {ℓ κ ι} :
    {K : Type ℓ} {V : Type κ} ⦃e : Eq K⦄ (P : K × V → Type ι) (d : List (K × V))
    → IsKeyed d
    → ((k : K) (v : V) → lookup k d ≡ some v → P (k, v))
    → All P d
All-lookup P [] u h = tt
All-lookup P ((k, v) ∷ d) (fresh, u) h =
    (h k v (rw (lookup-cons, ==_refl k) refl), All-lookup P d u later)
  where
    later : (j : _) (w : _) → lookup j d ≡ some w → P (j, w)
    later j w found = elim (eq_cases j k) [
      | inl (_, same) ↦ absurd (some-ne-none w (sym (rw same at found) ∙ fresh))
      | inr (other, _) ↦ h j w (rw (lookup-cons, other) found)
    ]

-- What holds of each entry holds of one that is looked up.
pub lookup-All {ℓ κ ι} :
    {K : Type ℓ} {V : Type κ} ⦃e : Eq K⦄ (P : K × V → Type ι) (d : List (K × V)) (k : K) (v : V)
    → All P d
    → lookup k d ≡ some v
    → P (k, v)
unfolding lookup
lookup-All P [] k v h found = absurd (none-ne-some v found)
lookup-All P ((j, w) ∷ d) k v (now, later) found = elim (eq_cases k j) [
  | inl (test, same) ↦
      let here : w ≡ v = some-injective w v (rw test at found) in
      subst (λ x. P (k, x)) here (subst (λ x. P (x, w)) (sym same) now)
  | inr (test, _) ↦ lookup-All P d k v later (rw test at found)
]
