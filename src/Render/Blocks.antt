-- ===== src/Render/Blocks.antt =====
-- Templates with their blocks, the lines they are written as, and what they mean, without a stack
-- and without a search for the ends of blocks.
use projx.Base.Text.{Str}
use projx.Render.{
  Line, loop_line, if_line, else_if_line, else_line, end_line, text_line, Script, then_do,
  put_before, join_lines, render_items,
}
use projx.Base.{
  ℕ, zero, suc, ◌+◌, Bool, true, false, not, ◌&&◌, Option, some, List, [], ◌∷◌, if◌then◌else◌,
  nat_eq, list_eq, option_eq,
}

mutual
  pub data Nodes : Type 0 where
    empty : Nodes
    text : Str → Nodes → Nodes
    -- The variable, the iterable and the body.
    loop : Str → Str → Nodes → Nodes → Nodes
    choice : Str → Nodes → Branches → Nodes → Nodes

  -- What follows the first branch of an `if`.
  pub data Branches : Type 0 where
    close : Branches
    otherwise : Nodes → Branches
    or_if : Str → Nodes → Branches → Branches

unfoldable mutual
  -- The lines of the nodes before others.
  pub flatten : Nodes → List Line → List Line
  flatten empty after = after
  flatten (text line nodes) after = text_line line ∷ flatten nodes after
  flatten (loop name items body nodes) after =
      loop_line name items ∷ flatten body (end_line ∷ flatten nodes after)
  flatten (choice test body branches nodes) after =
      if_line test ∷ flatten body (flatten_branches branches (flatten nodes after))

  pub flatten_branches : Branches → List Line → List Line
  flatten_branches close after = end_line ∷ after
  flatten_branches (otherwise body) after = else_line ∷ flatten body (end_line ∷ after)
  flatten_branches (or_if test body branches) after =
      else_if_line test ∷ flatten body (flatten_branches branches after)

unfoldable mutual
  -- The number of lines.
  pub size : Nodes → ℕ
  size empty = 0
  size (text line nodes) = suc (size nodes)
  size (loop name items body nodes) = suc (size body + suc (size nodes))
  size (choice test body branches nodes) = suc (size body + (size_branches branches + size nodes))

  pub size_branches : Branches → ℕ
  size_branches close = 1
  size_branches (otherwise body) = suc (size body + 1)
  size_branches (or_if test body branches) = suc (size body + size_branches branches)

unfoldable mutual
  -- Loops stand in each other at most this deep.
  pub Nests : ℕ → Nodes → Type 0
  Nests fuel empty = Unit
  Nests fuel (text line nodes) = Nests fuel nodes
  Nests zero (loop name items body nodes) = ⊥
  Nests (suc fuel) (loop name items body nodes) = Nests fuel body × Nests (suc fuel) nodes
  Nests fuel (choice test body branches nodes) =
      Nests fuel body × NestsBranches fuel branches × Nests fuel nodes

  pub NestsBranches : ℕ → Branches → Type 0
  NestsBranches fuel close = Unit
  NestsBranches fuel (otherwise body) = Nests fuel body
  NestsBranches fuel (or_if test body branches) = Nests fuel body × NestsBranches fuel branches

module _ {Env Item : Type 0} (script : Script Env Item) where
  unfoldable mutual
    -- The output of nodes in an active or an inactive place, before the output of what follows.
    pub meaning : Nodes → Bool → Env → Option (List Str) → Option (List Str)
    meaning empty active env after = after
    meaning (text line nodes) active env after =
        let rest = meaning nodes active env after in
        if active
        then then_do (script.substitute line env) (λ replaced. put_before (replaced ∷ []) rest)
        else rest
    meaning (loop name items body nodes) active env after =
        let rest = meaning nodes active env after in
        if active
        then then_do (script.iterate items env) (λ found.
          then_do
            (render_items script (λ inner. join_lines (meaning body true inner (some []))) name env
              found)
            (λ out. put_before out rest))
        else rest
    meaning (choice test body branches nodes) active env after =
        then_do (script.condition test env) (λ result.
          meaning body (result && active) env
            (meaning_branches branches result active env (meaning nodes active env after)))

    -- The Boolean tells if an earlier branch was taken: then no condition is evaluated any more.
    pub meaning_branches : Branches → Bool → Bool → Env → Option (List Str) → Option (List Str)
    meaning_branches close matched active env after = after
    meaning_branches (otherwise body) matched active env after =
        meaning body (not matched && active) env after
    meaning_branches (or_if test body branches) true active env after =
        meaning body false env (meaning_branches branches true active env after)
    meaning_branches (or_if test body branches) false active env after =
        then_do (script.condition test env) (λ result.
          meaning body (result && active) env (meaning_branches branches result active env after))
