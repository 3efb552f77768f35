-- ===== src/Components/Suggest/Distance.antt =====
-- `editDistance` against the least number of insertions, deletions and replacements.
use mathlib.Core.List.{reverse, reverse-cons, reverse-reverse, append-nil, append_assoc}
use mathlib.Core.Path.{subst₂, ap₂}
use projx.Base.Text.{Str}
use projx.Components.Suggest.{cost, fill_row, fill_rows, first_row, last_or, edit_distance}
use projx.Base.{
  ℕ, suc, ◌+◌, ◌≤◌, min, ◌≡◌, refl, sym, ap, ◌∙◌, ◌≢◌, ◌⊎◌, inl, inr, List, [], ◌∷◌, ◌++◌, arith,
  nat_eq, list_eq, option_eq, length, ℕ_discrete,
}

-- `n` single-letter edits that lead from one text to the other.
pub data Edits : ℕ → Str → Str → Type 0 where
  done : Edits 0 [] []
  keep : {n : ℕ} {a b : Str} (c : ℕ) → Edits n a b → Edits n (c ∷ a) (c ∷ b)
  replace : {n : ℕ} {a b : Str} (c d : ℕ) → Edits n a b → Edits (suc n) (c ∷ a) (d ∷ b)
  delete : {n : ℕ} {a b : Str} (c : ℕ) → Edits n a b → Edits (suc n) (c ∷ a) b
  insert : {n : ℕ} {a b : Str} (d : ℕ) → Edits n a b → Edits (suc n) a (d ∷ b)

-- The distance by recursion on the two texts.
lev : Str → Str → ℕ
lev [] b = length b
lev (c ∷ a) [] = suc (length a)
lev (c ∷ a) (d ∷ b) = min (min (lev a (d ∷ b) + 1) (lev (c ∷ a) b + 1)) (lev a b + cost c d)

lev-nil : (a : Str) → lev a [] ≡ length a
unfolding lev
lev-nil [] = refl
lev-nil (c ∷ a) = refl

lev-delete : (c : ℕ) (a b : Str) → lev (c ∷ a) b ≤ suc (lev a b)
unfolding lev
lev-delete c a [] = omega (arith, lev-nil a)
lev-delete c a (d ∷ b) = omega arith

lev-insert : (d : ℕ) (a b : Str) → lev a (d ∷ b) ≤ suc (lev a b)
unfolding lev
lev-insert d [] b = omega arith
lev-insert d (c ∷ a) b = omega arith

cost-le : (c d : ℕ) → cost c d ≤ 1
unfolding cost
cost-le c d = ground arith

cost_self : (c : ℕ) → cost c c ≡ 0
unfolding cost
cost_self c = ground arith

-- No sequence of edits is shorter.
lev-le : {n : ℕ} {a b : Str} → Edits n a b → lev a b ≤ n
unfolding lev
lev-le done = omega arith
lev-le (keep {a = a} {b = b} c e) = omega (arith, lev-le e, cost_self c)
lev-le (replace {a = a} {b = b} c d e) = omega (arith, lev-le e, cost-le c d)
lev-le (delete {a = a} {b = b} c e) = omega (arith, lev-le e, lev-delete c a b)
lev-le (insert {a = a} {b = b} d e) = omega (arith, lev-le e, lev-insert d a b)

Edits-cast : {m n : ℕ} {a b : Str} → m ≡ n → Edits m a b → Edits n a b
Edits-cast p e = rw p at e

cost_differ : (c d : ℕ) → c ≢ d → cost c d ≡ 1
unfolding cost
cost_differ c d h = ground arith

Edits-match : (c d : ℕ) {n : ℕ} {a b : Str} → Edits n a b → Edits (n + cost c d) (c ∷ a) (d ∷ b)
Edits-match c d {n} e = elim (ℕ_discrete c d) [
  | yes same ↦ rw same (Edits-cast (omega (arith, cost_self d)) (keep d e))
  | no other ↦ Edits-cast (rw (cost_differ c d other) (omega arith)) (replace c d e)
]

insertions : (b : Str) → Edits (length b) [] b
insertions [] = done
insertions (d ∷ b) = insert d (insertions b)

deletions : (a : Str) → Edits (length a) a []
deletions [] = done
deletions (c ∷ a) = delete c (deletions a)

min_cases : (x y z : ℕ) → ((min (min x y) z ≡ x) ⊎ (min (min x y) z ≡ y)) ⊎ (min (min x y) z ≡ z)
min_cases x y z = omega arith

-- And one of that length exists.
lev-Edits : (a b : Str) → Edits (lev a b) a b
unfolding lev
lev-Edits [] b = insertions b
lev-Edits (c ∷ a) [] = deletions (c ∷ a)
lev-Edits (c ∷ a) (d ∷ b) =
    let del = lev-Edits a (d ∷ b) in
    let ins = lev-Edits (c ∷ a) b in
    let rep = lev-Edits a b in
    elim (min_cases (lev a (d ∷ b) + 1) (lev (c ∷ a) b + 1) (lev a b + cost c d)) [
      | inl (inl e) ↦ Edits-cast (omega (arith, e)) (delete c del)
      | inl (inr e) ↦ Edits-cast (omega (arith, e)) (insert d ins)
      | inr e ↦ Edits-cast (sym e) (Edits-match c d rep)
    ]

Edits-append :
    {m n : ℕ} {a b : Str} (a' b' : Str)
    → Edits m a b
    → Edits n a' b'
    → Edits (m + n) (a ++ a') (b ++ b')
Edits-append {n = n} a' b' done f = Edits-cast (omega arith) f
Edits-append a' b' (keep c e) f = keep c (Edits-append a' b' e f)
Edits-append a' b' (replace c d e) f =
    Edits-cast (omega arith) (replace c d (Edits-append a' b' e f))
Edits-append a' b' (delete c e) f = Edits-cast (omega arith) (delete c (Edits-append a' b' e f))
Edits-append a' b' (insert d e) f = Edits-cast (omega arith) (insert d (Edits-append a' b' e f))

Edits-snoc :
    {m n : ℕ} {a b : Str} (xs ys : Str)
    → Edits m a b
    → Edits n xs ys
    → Edits (n + m) (a ++ xs) (b ++ ys)
Edits-snoc {m} {n} xs ys e f = Edits-cast (omega arith) (Edits-append xs ys e f)

Edits-reverse : {n : ℕ} {a b : Str} → Edits n a b → Edits n (reverse a) (reverse b)
Edits-reverse done = done
Edits-reverse (keep {n = n} {a = a} {b = b} c e) =
    subst₂ (Edits n) (sym (reverse-cons c a)) (sym (reverse-cons c b))
      (Edits-cast (omega arith) (Edits-snoc (c ∷ []) (c ∷ []) (Edits-reverse e) (keep c done)))
Edits-reverse (replace {n = n} {a = a} {b = b} c d e) =
    subst₂ (Edits (suc n)) (sym (reverse-cons c a)) (sym (reverse-cons d b))
      (Edits-cast (omega arith) (Edits-snoc (c ∷ []) (d ∷ []) (Edits-reverse e) (replace c d done)))
Edits-reverse (delete {n = n} {a = a} {b = b} c e) =
    subst₂ (Edits (suc n)) (sym (reverse-cons c a)) (append-nil (reverse b))
      (Edits-cast (omega arith) (Edits-snoc (c ∷ []) [] (Edits-reverse e) (delete c done)))
Edits-reverse (insert {n = n} {a = a} {b = b} d e) =
    subst₂ (Edits (suc n)) (append-nil (reverse a)) (sym (reverse-cons d b))
      (Edits-cast (omega arith) (Edits-snoc [] (d ∷ []) (Edits-reverse e) (insert d done)))

-- A row of the matrix from the column of the prefix `rb` on, prefixes being reversed.
lev_row : Str → Str → Str → List ℕ
lev_row ra rb [] = lev ra rb ∷ []
lev_row ra rb (d ∷ b) = lev ra rb ∷ lev_row ra (d ∷ rb) b

lev_row-cons : (ra rb b : Str) → (rest : List ℕ) × (lev_row ra rb b ≡ lev ra rb ∷ rest)
unfolding lev_row
lev_row-cons ra rb [] = (_, refl)
lev_row-cons ra rb (d ∷ b) = (_, refl)

first_row-eq-lev_row : (rb b : Str) → first_row (length rb) b ≡ lev_row [] rb b
unfolding first_row lev_row lev
first_row-eq-lev_row rb [] = refl
first_row-eq-lev_row rb (d ∷ b) =
    ap (λ l. length rb ∷ l)
      (ap (λ n. first_row n b) (omega arith) ∙ first_row-eq-lev_row (d ∷ rb) b)

-- One cell, from the cells above and to the left.
fill_row-step :
    (c d : ℕ) (ra rb b : Str) (rest : List ℕ)
    → lev_row ra (d ∷ rb) b ≡ lev ra (d ∷ rb) ∷ rest
    → fill_row c (d ∷ b) (lev ra rb ∷ lev_row ra (d ∷ rb) b) (lev (c ∷ ra) rb)
      ≡ lev (c ∷ ra) (d ∷ rb) ∷ fill_row c b (lev_row ra (d ∷ rb) b) (lev (c ∷ ra) (d ∷ rb))
unfolding fill_row lev
fill_row-step c d ra rb b rest e = rw e

fill_row-eq-lev_row :
    (c : ℕ) (ra rb b : Str)
    → lev (c ∷ ra) rb ∷ fill_row c b (lev_row ra rb b) (lev (c ∷ ra) rb) ≡ lev_row (c ∷ ra) rb b
unfolding fill_row lev_row
fill_row-eq-lev_row c ra rb [] = refl
fill_row-eq-lev_row c ra rb (d ∷ b) =
    let (rest, e) = lev_row-cons ra (d ∷ rb) b in
    ap (λ l. lev (c ∷ ra) rb ∷ l)
      (fill_row-step c d ra rb b rest e ∙ fill_row-eq-lev_row c ra (d ∷ rb) b)

next_row :
    (c : ℕ) (ra b : Str)
    → (length ra + 1) ∷ fill_row c b (lev_row ra [] b) (length ra + 1) ≡ lev_row (c ∷ ra) [] b
unfolding lev
next_row c ra b =
    ap (λ n. n ∷ fill_row c b (lev_row ra [] b) n) (omega arith) ∙ fill_row-eq-lev_row c ra [] b

fill_rows-eq-lev_row :
    (a ra b : Str) → fill_rows a b (length ra) (lev_row ra [] b) ≡ lev_row (reverse a ++ ra) [] b
unfolding fill_rows
fill_rows-eq-lev_row [] ra b = refl
fill_rows-eq-lev_row (c ∷ a) ra b =
    ap₂ (λ n row. fill_rows a b n row) (omega arith) (next_row c ra b)
    ∙ (fill_rows-eq-lev_row a (c ∷ ra) b
        ∙ ap (λ l. lev_row l [] b)
            (sym (ap (λ l. l ++ ra) (reverse-cons c a) ∙ append_assoc (reverse a) (c ∷ []) ra)))

last_or-lev_row : (d : ℕ) (ra rb b : Str) → last_or d (lev_row ra rb b) ≡ lev ra (reverse b ++ rb)
unfolding last_or lev_row
last_or-lev_row d ra rb [] = refl
last_or-lev_row d ra rb (x ∷ b) =
    last_or-lev_row (lev ra rb) ra (x ∷ rb) b
    ∙ ap (lev ra)
        (sym (ap (λ l. l ++ rb) (reverse-cons x b) ∙ append_assoc (reverse b) (x ∷ []) rb))

edit_distance-eq-lev : (a b : Str) → edit_distance a b ≡ lev (reverse a) (reverse b)
unfolding edit_distance
edit_distance-eq-lev a b =
    ap (λ row. last_or 0 (fill_rows a b 0 row)) (first_row-eq-lev_row [] b)
    ∙ (ap (last_or 0) (fill_rows-eq-lev_row a [] b)
        ∙ (last_or-lev_row 0 (reverse a ++ []) [] b
            ∙ ap₂ lev (append-nil (reverse a)) (append-nil (reverse b))))

-- The matrix gives the least number of edits: there are that many that turn the first text into
-- the second, and every sequence that does so is at least as long.
pub edit_distance-IsLeast :
    (a b : Str) → Edits (edit_distance a b) a b × ((n : ℕ) → Edits n a b → edit_distance a b ≤ n)
edit_distance-IsLeast a b = (
  subst₂ (Edits (edit_distance a b)) (reverse-reverse a) (reverse-reverse b) (
      Edits-reverse
        (Edits-cast (sym (edit_distance-eq-lev a b)) (lev-Edits (reverse a) (reverse b)))),
  λ n e. rw edit_distance-eq-lev (lev-le (Edits-reverse e)),
)
