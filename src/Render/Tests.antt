-- ===== src/Render/Tests.antt =====
-- A small template with a loop, branches and a run of newlines.
use projx.Base.Text.{Str, codes, is_truthy, join}
use projx.Base.Sets.{lookup}
use projx.Render.{
  loop_line, Script, then_do, join_lines, render_items, find_block_end, run_lines, render_lines,
  render, collapse_newlines,
}
use projx.Render.Blocks.{
  Nodes, empty, text, loop, choice, close, otherwise, or_if, flatten, meaning,
}
use projx.Render.Whole.{render-meaning}
use projx.Render.Skipped.{condition-Throws}
use projx.Base.{inl, inr}
use projx.Base.{
  ◌≡◌, refl, Bool, true, false, Option, none, some, List, [], ◌∷◌, ◌++◌, nat_eq, list_eq, option_eq,
}

-- Variables hold strings; a condition is the name of a variable, one that is not bound throws, and
-- the empty string is false. Every loop is over two names, and a line is replaced if it is a
-- variable's name.
abbrev Env : Type 0
Env = List (Str × Str)

abbrev as_condition : Option Str → Option Bool
as_condition none = none
as_condition (some value) = some (is_truthy value)

abbrev or_itself : Str → Option Str → Option Str
or_itself line none = some line
or_itself line (some value) = some value

abbrev script : Script Env Str
script = record {
  bind = λ name item env. (name, item) ∷ env;
  condition = λ test env. as_condition (lookup test env);
  iterate = λ items env. some (codes "a" ∷ codes "b" ∷ []);
  substitute = λ line env. or_itself line (lookup line env);
}

abbrev env : Env
env = (codes "yes", codes "1") ∷ (codes "no", []) ∷ []

abbrev nodes : Nodes
nodes =
    choice (codes "no") (text (codes "hidden") empty)
      (or_if (codes "yes") (loop (codes "x") (codes "xs") (text (codes "x") empty) empty)
        (otherwise empty))
      (text (codes "tail") empty)

steps : Unit {0}
unfolding render render_lines run_lines render_items find_block_end collapse_newlines join flatten
    lookup list_eq nat_eq
steps = tt

render_test :
    render script (flatten nodes []) env ≡ some (codes "a" ++ 10 ∷ codes "b" ++ 10 ∷ codes "tail")
unfolding steps
render_test = refl

unmatched_test : render script (loop_line (codes "x") (codes "xs") ∷ []) env ≡ none
unfolding steps
unmatched_test = refl

newlines_test :
    collapse_newlines 0 (97 ∷ 10 ∷ 10 ∷ 10 ∷ 10 ∷ 10 ∷ 98 ∷ []) ≡ 97 ∷ 10 ∷ 10 ∷ 10 ∷ 98 ∷ []
unfolding collapse_newlines nat_eq
newlines_test = refl

no_untaken : script.condition (codes "no") env ≡ some false
unfolding lookup list_eq nat_eq
no_untaken = refl

unbound_throws : script.condition (codes "other") env ≡ none
unfolding lookup list_eq nat_eq
unbound_throws = refl

render-meaning_example :
    render script (flatten nodes []) env
    ≡ then_do
        (join_lines (meaning script nodes true env (some [])))
        (λ output. some (collapse_newlines 0 output))
render-meaning_example = render-meaning script nodes env

condition-Throws_example :
    render script
      (flatten
        (choice
          (codes "no")
          (choice (codes "other") empty close empty)
          close
          (text (codes "t") empty))
        [])
      env
    ≡ none
condition-Throws_example =
    condition-Throws script env
      (choice (codes "no") (choice (codes "other") empty close empty) close
        (text (codes "t") empty))
      (inr (inl (inl unbound_throws)))
