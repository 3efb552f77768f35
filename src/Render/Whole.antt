-- ===== src/Render/Whole.antt =====
-- `render` on whole templates and on branches that are not taken.
use projx.Base.Text.{Str}
use projx.Render.{
  Line, end_line, Script, then_do, join_lines, run_lines, render_lines, render, collapse_newlines,
}
use projx.Render.Blocks.{
  Nodes, empty, text, loop, choice, Branches, close, otherwise, or_if, flatten, flatten_branches,
  size, size_branches, Nests, NestsBranches, meaning, meaning_branches,
}
use projx.Render.Laws.{run_lines-meaning}
use projx.Base.{
  ℕ, zero, suc, ◌+◌, ◌≤◌, ◌≡◌, refl, ap, ◌∙◌, ◌⊎◌, inl, inr, Bool, true, false, not, ◌&&◌, Option,
  none, some, List, [], ◌∷◌, arith, nat_eq, list_eq, option_eq, length,
}

mutual
  unfolding flatten flatten_branches size size_branches

  length-flatten :
      (nodes : Nodes) (after : List Line) → length (flatten nodes after) ≡ size nodes + length after
  length-flatten empty after = omega arith
  length-flatten (text line nodes) after = omega (arith, length-flatten nodes after)
  length-flatten (loop name items body nodes) after =
      omega
        (arith, length-flatten body (end_line ∷ flatten nodes after), length-flatten nodes after)
  length-flatten (choice test body branches nodes) after = omega (
    arith,
    length-flatten body (flatten_branches branches (flatten nodes after)),
    length-flatten_branches branches (flatten nodes after),
    length-flatten nodes after,
  )

  length-flatten_branches :
      (branches : Branches) (after : List Line)
      → length (flatten_branches branches after) ≡ size_branches branches + length after
  length-flatten_branches close after = omega arith
  length-flatten_branches (otherwise body) after =
      omega (arith, length-flatten body (end_line ∷ after))
  length-flatten_branches (or_if test body branches) after = omega (
    arith,
    length-flatten body (flatten_branches branches after),
    length-flatten_branches branches after,
  )

mutual
  unfolding size size_branches Nests NestsBranches

  size-Nests : (fuel : ℕ) (nodes : Nodes) → size nodes ≤ fuel → Nests fuel nodes
  size-Nests fuel empty h = tt
  size-Nests fuel (text line nodes) h = size-Nests fuel nodes (omega arith)
  size-Nests zero (loop name items body nodes) h = absurd (omega arith)
  size-Nests (suc fuel) (loop name items body nodes) h =
      (size-Nests fuel body (omega arith), size-Nests (suc fuel) nodes (omega arith))
  size-Nests fuel (choice test body branches nodes) h = (
    size-Nests fuel body (omega arith),
    size-NestsBranches fuel branches (omega arith),
    size-Nests fuel nodes (omega arith),
  )

  size-NestsBranches :
      (fuel : ℕ) (branches : Branches) → size_branches branches ≤ fuel → NestsBranches fuel branches
  size-NestsBranches fuel close h = tt
  size-NestsBranches fuel (otherwise body) h = size-Nests fuel body (omega arith)
  size-NestsBranches fuel (or_if test body branches) h =
      (size-Nests fuel body (omega arith), size-NestsBranches fuel branches (omega arith))

-- Nothing is added to what follows, unless something throws.
abbrev IsSilent {ℓ} : {A : Type ℓ} → Option A → Option A → Type ℓ
IsSilent result after = (result ≡ none) ⊎ (result ≡ after)

chain-IsSilent {ℓ} : {A : Type ℓ} {x y z : Option A} → IsSilent x y → IsSilent y z → IsSilent x z
chain-IsSilent (inl p) _ = inl p
chain-IsSilent (inr p) (inl q) = inl (p ∙ q)
chain-IsSilent (inr p) (inr q) = inr (p ∙ q)

then_do-IsSilent {ℓ} :
    {A : Type ℓ} {after : Option A} (o : Option Bool) {f : Bool → Option A}
    → ((result : Bool) → IsSilent (f result) after)
    → IsSilent (then_do o f) after
then_do-IsSilent none silent = inl refl
then_do-IsSilent (some result) silent = silent result

show-IsSilent {ℓ κ} :
    {A : Type ℓ} {B : Type κ} {x y : Option A} (show : Option A → Option B)
    → show none ≡ none
    → IsSilent x y
    → IsSilent (show x) (show y)
show-IsSilent show failing (inl p) = inl (ap show p ∙ failing)
show-IsSilent show failing (inr p) = inr (ap show p)

and_false : (b : Bool) → (b && false) ≡ false
and_false true = refl
and_false false = refl

module _ {Env Item : Type 0} (script : Script Env Item) where
  -- A template written as lines renders to what its blocks mean: the search for the ends of blocks,
  -- the stack of open `if`s and the bound on the nesting of loops do not show, and it fails only
  -- where JavaScript does.
  pub render-meaning :
      (nodes : Nodes) (env : Env)
      → render script (flatten nodes []) env
        ≡ then_do
            (join_lines (meaning script nodes true env (some [])))
            (λ output. some (collapse_newlines 0 output))
  unfolding render render_lines run_lines
  render-meaning nodes env =
      ap (λ output. then_do (join_lines output) (λ text. some (collapse_newlines 0 text)))
        (run_lines-meaning script (length (flatten nodes [])) nodes env [] []
          (size-Nests (length (flatten nodes [])) nodes (omega (arith, length-flatten nodes []))))

  mutual
    unfolding meaning meaning_branches

    meaning_off :
        (nodes : Nodes) (env : Env) (after : Option (List Str))
        → IsSilent (meaning script nodes false env after) after
    meaning_off empty env after = inr refl
    meaning_off (text line nodes) env after = meaning_off nodes env after
    meaning_off (loop name items body nodes) env after = meaning_off nodes env after
    meaning_off (choice test body branches nodes) env after =
        then_do-IsSilent (script.condition test env) (λ result. rw (and_false result) (
          chain-IsSilent
            (meaning_off body env (
              meaning_branches script branches result false env
                (meaning script nodes false env after)))
            (chain-IsSilent
              (branches_off branches result env (meaning script nodes false env after))
              (meaning_off nodes env after))))

    branches_off :
        (branches : Branches) (matched : Bool) (env : Env) (after : Option (List Str))
        → IsSilent (meaning_branches script branches matched false env after) after
    branches_off close matched env after = inr refl
    branches_off (otherwise body) matched env after =
        rw (and_false (not matched)) (meaning_off body env after)
    branches_off (or_if test body branches) true env after =
        chain-IsSilent
          (meaning_off body env (meaning_branches script branches true false env after))
          (branches_off branches true env after)
    branches_off (or_if test body branches) false env after =
        then_do-IsSilent (script.condition test env) (λ result. rw (and_false result) (
          chain-IsSilent
            (meaning_off body env (meaning_branches script branches result false env after))
            (branches_off branches result env after)))

  -- A branch that is not taken adds nothing: where the condition of an `if` without an `else` is
  -- false, the template renders like the nodes after it, unless something in it throws.
  pub skipped_branch_silent :
      (test : Str) (body nodes : Nodes) (env : Env)
      → script.condition test env ≡ some false
      → (render script (flatten (choice test body close nodes) []) env ≡ none)
        ⊎ (render script (flatten (choice test body close nodes) []) env
            ≡ render script (flatten nodes []) env)
  unfolding meaning meaning_branches
  skipped_branch_silent test body nodes env untaken =
      let rest = meaning script nodes true env (some []) in
      let show : Option (List Str) → Option Str =
        λ output. then_do (join_lines output) (λ text. some (collapse_newlines 0 text)) in
      rw (render-meaning (choice test body close nodes) env, render-meaning nodes env, untaken)
        (show-IsSilent show refl (meaning_off body env rest))
