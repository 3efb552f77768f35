-- ===== src/Render/Laws.antt =====
-- The stack machine of `renderLines` against the meaning of a template's blocks.
use projx.Base.Text.{Str}
use projx.Render.{
  Line, Block, end_line, Script, then_do, put_before, join_lines, render_items, all_active,
  run_lines, render_lines, else_if_block,
}
use projx.Render.Blocks.{
  Nodes, empty, text, loop, choice, Branches, close, otherwise, or_if, flatten, flatten_branches,
  Nests, NestsBranches, meaning, meaning_branches,
}
use projx.Render.Ends.{body_end, body_lines, pass_body}
use projx.Base.{
  ℕ, zero, suc, ◌≡◌, refl, ap, ◌∙◌, true, false, not, ◌&&◌, Option, none, some, List, [], ◌∷◌,
  if◌then◌else◌, nat_eq, list_eq, option_eq,
}

pub render_items_same :
    {Env Item : Type 0} (script : Script Env Item) (f g : Env → Option Str) (name : Str) (env : Env)
    (items : List Item)
    → ((inner : Env) → f inner ≡ g inner)
    → render_items script f name env items ≡ render_items script g name env items
unfolding render_items
render_items_same script f g name env [] same = refl
render_items_same script f g name env (item ∷ items) same =
    rw (same (script.bind name item env), render_items_same script f g name env items same) refl

pub then_do_same :
    {A B : Type 0} (o : Option A) {f g : A → Option B}
    → ((a : A) → f a ≡ g a)
    → then_do o f ≡ then_do o g
then_do_same none same = refl
then_do_same (some a) same = same a

module _ {Env Item : Type 0} (script : Script Env Item) where
  mutual
    unfolding flatten flatten_branches meaning meaning_branches run_lines Nests NestsBranches
        render_lines

    pub run_lines-meaning :
        (fuel : ℕ) (nodes : Nodes) (env : Env) (stack : List Block) (after : List Line)
        → Nests fuel nodes
        → run_lines script (render_lines script fuel) env stack 0 (flatten nodes after)
          ≡ meaning script nodes
              (all_active stack)
              env
              (run_lines script (render_lines script fuel) env stack 0 after)
    run_lines-meaning fuel empty env stack after nests = refl
    run_lines-meaning fuel (text line nodes) env stack after nests =
        rw (run_lines-meaning fuel nodes env stack after nests) refl
    run_lines-meaning zero (loop name items body nodes) env stack after nests = absurd nests
    run_lines-meaning (suc fuel) (loop name items body nodes) env stack after (nests, nests') =
        rw
          (
            body_end body (flatten nodes after),
            body_lines body (flatten nodes after),
            pass_body script (render_lines script (suc fuel)) env stack body (flatten nodes after),
            run_lines-meaning (suc fuel) nodes env stack after nests',
          )
          (ap (λ output. if all_active stack then output else rest)
            (then_do_same (script.iterate items env) (λ found.
              ap (λ out. then_do out (λ lines. put_before lines rest))
                (render_items_same script (render_lines script (suc fuel) (flatten body []))
                  (λ inner. join_lines (meaning script body true inner (some []))) name env found
                  (λ inner. ap join_lines (run_lines-meaning fuel body inner [] [] nests))))))
      where
        rest : Option (List Str)
        rest =
            meaning script nodes (all_active stack) env
              (run_lines script (render_lines script (suc fuel)) env stack 0 after)
    run_lines-meaning fuel (choice test body branches nodes) env stack after
          (nests, nests', nests'') =
        then_do_same (script.condition test env) (λ result.
          let block : Block = record { active = result; matched = result } in
          run_lines-meaning fuel body env (block ∷ stack)
            (flatten_branches branches (flatten nodes after)) nests
          ∙ ap (meaning script body (result && all_active stack) env) (
              run_branches-meaning fuel branches env block stack (flatten nodes after) nests'
              ∙ ap (meaning_branches script branches result (all_active stack) env)
                  (run_lines-meaning fuel nodes env stack after nests'')))

    run_branches-meaning :
        (fuel : ℕ) (branches : Branches) (env : Env) (block : Block) (stack : List Block)
        (after : List Line)
        → NestsBranches fuel branches
        → run_lines script
            (render_lines script fuel)
            env
            (block ∷ stack)
            0
            (flatten_branches branches after)
          ≡ meaning_branches script branches block.matched
              (all_active stack)
              env
              (run_lines script (render_lines script fuel) env stack 0 after)
    run_branches-meaning fuel close env block stack after nests = refl
    run_branches-meaning fuel (otherwise body) env block stack after nests =
        run_lines-meaning fuel body env (record block { active = not block.matched } ∷ stack)
          (end_line ∷ after) nests
    run_branches-meaning fuel (or_if test body branches) env block stack after (nests, nests') =
        let branch : (next : Block)
            → run_lines script (render_lines script fuel) env (next ∷ stack) 0
                (flatten body (flatten_branches branches after))
              ≡ meaning script body (next.active && all_active stack) env (
                  meaning_branches script branches next.matched (all_active stack) env
                    (run_lines script (render_lines script fuel) env stack 0 after)) =
          λ next.
            run_lines-meaning fuel body env (next ∷ stack) (flatten_branches branches after) nests
            ∙ ap (meaning script body (next.active && all_active stack) env)
                (run_branches-meaning fuel branches env next stack after nests') in
        elim block.matched
          as (λ matched.
            then_do (else_if_block matched (script.condition test env)) (λ next.
              run_lines script (render_lines script fuel) env (next ∷ stack) 0
                (flatten body (flatten_branches branches after)))
            ≡ meaning_branches script (or_if test body branches) matched (all_active stack) env
                (run_lines script (render_lines script fuel) env stack 0 after)) [
                  | true ↦ branch (record { active = false; matched = true })
                  | false ↦
                      elim (script.condition test env)
                        as (λ answer.
                          then_do (else_if_block false answer) (λ next.
                            run_lines script (render_lines script fuel) env (next ∷ stack) 0
                              (flatten body (flatten_branches branches after)))
                          ≡ then_do answer (λ result.
                            meaning script body (result && all_active stack) env (
                              meaning_branches script branches result (all_active stack) env
                                (run_lines script (render_lines script fuel) env stack 0 after)))) [
                                  | none ↦ refl
                                  | some result ↦
                                      branch (record { active = result; matched = result })
                                ]
                ]
