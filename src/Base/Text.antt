-- ===== src/Base/Text.antt =====
-- JavaScript strings as lists of UTF-16 code units, with the methods that the program calls.
-- The program's literals are ASCII, and `to_lower_case` changes the ASCII letters alone.
pub mod Laws
use Prim.Native.Char.{code}
use Prim.Native.String.{String}
use projx.Base.{
  ℕ, zero, suc, ◌+◌, ◌-◌, ◌*◌, ◌/◌, ◌%◌, ◌^◌, ◌≤◌, ◌<◌, min, ◌≡◌, refl, sym, ap, ◌∙◌, ◌≢◌, ◌↔◌, ◌⊎◌,
  inl, inr, ite, Bool, true, false, not, ◌&&◌, ◌||◌, Option, none, some, List, [], ◌∷◌, ◌++◌, map,
  arith, leb, ltb, if◌then◌else◌, Bool-cases, Option-cases, Eq, ◌==◌, ==_iff, contains, nat_eq,
  list_eq, option_eq, length, take, drop, any, all, filter, find, length-append, drop-append,
  take-append, take-append-drop, any-append, All, Any, All-append, dec_lt, ℕ_discrete,
}

abbrev pub Str : Type 0
Str = List ℕ

-- A literal.
abbrev pub codes : String → Str
codes String.[] = []
codes (String.◌∷◌ c s) = code c ∷ codes s

-- `s.startsWith(p)`
unfoldable pub starts_with : Str → Str → Bool
starts_with s [] = true
starts_with [] (_ ∷ _) = false
starts_with (x ∷ s) (c ∷ p) = x == c && starts_with s p

-- `s.endsWith(t)`
unfoldable pub ends_with : Str → Str → Bool
ends_with s t = leb (length t) (length s) && drop (length s - length t) s == t

-- `s.slice(0, -n)`
abbrev pub drop_end : ℕ → Str → Str
drop_end n s = take (length s - n) s

-- `s.indexOf(t)`, `none` for -1
unfoldable pub index_of : Str → Str → Option ℕ
unfolding starts_with
index_of [] t = if starts_with [] t then some 0 else none
index_of (c ∷ s) t =
    let rest = index_of s t in
    if starts_with (c ∷ s) t then some 0 else elim rest [ none ↦ none | some i ↦ some (i + 1) ]

-- `s.includes(t)`
unfoldable pub includes : Str → Str → Bool
unfolding starts_with
includes [] t = starts_with [] t
includes (c ∷ s) t = starts_with (c ∷ s) t || includes s t

-- `s.split(sep)` for a separator of one code unit; `cur` is the open part.
unfoldable pub split_from : ℕ → Str → Str → List Str
split_from sep cur [] = cur ∷ []
split_from sep cur (c ∷ s) =
    let closed = cur ∷ split_from sep [] s in
    let longer = split_from sep (cur ++ c ∷ []) s in if c == sep then closed else longer

unfoldable pub split : ℕ → Str → List Str
unfolding split_from
split sep s = split_from sep [] s

-- `parts.join(sep)`
unfoldable pub join : Str → List Str → Str
join sep [] = []
join sep (s ∷ []) = s
join sep (s ∷ (t ∷ parts)) = s ++ (sep ++ join sep (t ∷ parts))

-- The white space and line terminators of ECMAScript, as `trim` and `\s` read them.
unfoldable pub is_space : ℕ → Bool
is_space c =
    (leb 9 c && leb c 13)
    || contains (32 ∷ 160 ∷ 0x1680 ∷ 0x2028 ∷ 0x2029 ∷ 0x202f ∷ 0x205f ∷ 0x3000 ∷ 0xfeff ∷ []) c
    || (leb 0x2000 c && leb c 0x200a)

unfoldable pub trim_start : Str → Str
unfolding is_space
trim_start [] = []
trim_start (c ∷ s) = if is_space c then trim_start s else c ∷ s

unfoldable pub trim_end : Str → Str
unfolding is_space
trim_end [] = []
trim_end (c ∷ s) = let rest = trim_end s in if is_space c && rest == [] then [] else c ∷ rest

-- `s.trim()`
unfoldable pub trim : Str → Str
unfolding trim_start trim_end
trim s = trim_end (trim_start s)

unfoldable pub lower : ℕ → ℕ
lower c = if leb b'A' c && leb c b'Z' then c + 32 else c

-- `s.toLowerCase()`
unfoldable pub to_lower_case : Str → Str
unfolding lower
to_lower_case s = map lower s

unfoldable pub replace_unit : ℕ → ℕ → ℕ → ℕ
replace_unit from to c = if c == from then to else c

-- The string is not empty, as `Boolean` and `if` read it.
abbrev pub is_truthy : Str → Bool
is_truthy [] = false
is_truthy (_ ∷ _) = true

split_test :
    (split b',' (codes "a,,b") ≡ codes "a" ∷ [] ∷ codes "b" ∷ [])
    × (trim (codes "  a b ") ≡ codes "a b")
    × (ends_with (codes "abc") (codes "bc") ≡ true)
    × (includes (codes "abc") (codes "bc") ≡ true)
    × (index_of (codes "abc") (codes "bc") ≡ some 1)
    × (join (codes ", ") (codes "a" ∷ codes "b" ∷ []) ≡ codes "a, b")
    × (map (replace_unit b'-' b'_') (to_lower_case (codes "A-b")) ≡ codes "a_b")
unfolding split trim ends_with includes index_of join to_lower_case replace_unit list_eq nat_eq
split_test = (refl, refl, refl, refl, refl, refl, refl)
