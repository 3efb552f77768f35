-- ===== src/Render.antt =====
-- The template renderer of cli/src/utils.ts: `render`, `renderLines` and `findBlockEnd`.
--
-- A template is its list of lines, each read as the directive that the regular expressions of
-- `renderLines` find in it. What JavaScript evaluates is a parameter that can throw: the value of a
-- condition, the items of a loop (none for a value that is no array) and a line with the values of
-- its `<%= %>` parts. An error is `none`.
pub mod Blocks
pub mod Ends
pub mod Laws
pub mod Whole
pub mod Skipped
pub mod Fuel
mod Tests
use projx.Base.Text.{Str, codes, join, is_truthy}
use projx.Base.{
  ℕ, zero, suc, ◌+◌, ◌-◌, ◌*◌, ◌/◌, ◌%◌, ◌^◌, ◌≤◌, ◌<◌, min, ◌≡◌, refl, sym, ap, ◌∙◌, ◌≢◌, ◌↔◌, ◌⊎◌,
  inl, inr, ite, Bool, true, false, not, ◌&&◌, ◌||◌, Option, none, some, some-ne-none, none-ne-some,
  some-injective, List, [], ◌∷◌, ◌++◌, map, arith, leb, ltb, if◌then◌else◌, Bool-cases,
  Option-cases, eq_cases, Eq, ◌==◌, ==_iff, contains, nat_eq, list_eq, option_eq, length, take,
  drop, any, all, filter, find, length-append, drop-append, take-append, take-append-drop,
  any-append, All, Any, All-append, dec_lt, ℕ_discrete,
}

pub data Line : Type 0 where
  -- The variable and the iterable.
  loop_line : Str → Str → Line
  if_line : Str → Line
  else_if_line : Str → Line
  else_line : Line
  end_line : Line
  text_line : Str → Line

-- An `if` that is open.
pub record Block : Type 0 where
  pub active : Bool
  pub matched : Bool

-- The block at an `else if`, by what its condition gives where no branch before it was taken.
abbrev pub else_if_block : Bool → Option Bool → Option Block
else_if_block true _ = some (record { active = false; matched = true })
else_if_block false none = none
else_if_block false (some result) = some (record { active = result; matched = result })

abbrev pub then_do {ℓ κ} : {A : Type ℓ} {B : Type κ} → Option A → (A → Option B) → Option B
then_do none next = none
then_do (some a) next = next a

abbrev pub put_before : List Str → Option (List Str) → Option (List Str)
put_before out none = none
put_before out (some rest) = some (out ++ rest)

abbrev pub shift : Option ℕ → Option ℕ
shift none = none
shift (some n) = some (suc n)

-- From the lines after a block's first one, the index of its last one; the number is `depth - 1`.
unfoldable pub find_block_end : ℕ → List Line → Option ℕ
find_block_end inner [] = none
find_block_end inner (loop_line _ _ ∷ lines) = shift (find_block_end (suc inner) lines)
find_block_end inner (if_line _ ∷ lines) = shift (find_block_end (suc inner) lines)
find_block_end inner (else_if_line _ ∷ lines) = shift (find_block_end inner lines)
find_block_end inner (else_line ∷ lines) = shift (find_block_end inner lines)
find_block_end zero (end_line ∷ lines) = some 0
find_block_end (suc inner) (end_line ∷ lines) = shift (find_block_end inner lines)
find_block_end inner (text_line _ ∷ lines) = shift (find_block_end inner lines)

abbrev pub all_active : List Block → Bool
all_active [] = true
all_active (block ∷ stack) = block.active && all_active stack

-- `output.join('\n')`
abbrev pub join_lines : Option (List Str) → Option Str
join_lines none = none
join_lines (some lines) = some (join (codes "\n") lines)

-- The runs of more than three newlines cut to three; the number counts those just written.
unfoldable pub collapse_newlines : ℕ → Str → Str
collapse_newlines n [] = []
collapse_newlines n (c ∷ text) =
    let same = collapse_newlines (suc n) text in
    let other = collapse_newlines 0 text in
    if c == 10 then (if ltb n 3 then c ∷ same else same) else c ∷ other

-- JavaScript's side of a rendering.
pub record Script (Env Item : Type 0) : Type 0 where
  -- `{ ...vars, [name]: item }`
  pub bind : Str → Item → Env → Env
  pub condition : Str → Env → Option Bool
  pub iterate : Str → Env → Option (List Item)
  pub substitute : Str → Env → Option Str

module _ {Env Item : Type 0} (script : Script Env Item) where
  -- The body of a loop for each item; an empty rendering is left out.
  unfoldable pub render_items : (Env → Option Str) → Str → Env → List Item → Option (List Str)
  render_items body name env [] = some []
  render_items body name env (item ∷ items) = then_do (body (script.bind name item env)) (λ sub.
      put_before (if is_truthy sub then sub ∷ [] else []) (render_items body name env items))

  -- The loop over the lines, with the number of lines to pass over.
  unfoldable pub run_lines :
      (List Line → Env → Option Str) → Env → List Block → ℕ → List Line → Option (List Str)
  run_lines body env stack skip [] = some []
  run_lines body env stack (suc skip) (_ ∷ lines) = run_lines body env stack skip lines
  run_lines body env stack zero (loop_line name items ∷ lines) =
      then_do (find_block_end 0 lines) (λ end.
        let rest = run_lines body env stack (suc end) lines in
        if all_active stack
        then then_do (script.iterate items env) (λ found.
          then_do (render_items (body (take end lines)) name env found)
            (λ out. put_before out rest))
        else rest)
  run_lines body env stack zero (if_line test ∷ lines) =
      then_do (script.condition test env) (λ result.
        run_lines body env (record { active = result; matched = result } ∷ stack) 0 lines)
  run_lines body env [] zero (else_if_line test ∷ lines) = run_lines body env [] 0 lines
  run_lines body env (block ∷ stack) zero (else_if_line test ∷ lines) =
      then_do (else_if_block block.matched (script.condition test env))
        (λ next. run_lines body env (next ∷ stack) 0 lines)
  run_lines body env [] zero (else_line ∷ lines) = run_lines body env [] 0 lines
  run_lines body env (block ∷ stack) zero (else_line ∷ lines) =
      run_lines body env (record block { active = not block.matched } ∷ stack) 0 lines
  run_lines body env [] zero (end_line ∷ lines) = run_lines body env [] 0 lines
  run_lines body env (_ ∷ stack) zero (end_line ∷ lines) = run_lines body env stack 0 lines
  run_lines body env stack zero (text_line text ∷ lines) =
      let rest = run_lines body env stack 0 lines in
      if all_active stack
      then then_do (script.substitute text env) (λ replaced. put_before (replaced ∷ []) rest)
      else rest

  -- The number bounds the nesting of loops.
  unfoldable pub render_lines : ℕ → List Line → Env → Option Str
  render_lines zero lines env = none
  render_lines (suc fuel) lines env = join_lines (run_lines (render_lines fuel) env [] 0 lines)

  unfoldable pub render : List Line → Env → Option Str
  render lines env =
      then_do (render_lines (suc (length lines)) lines env)
        (λ text. some (collapse_newlines 0 text))
