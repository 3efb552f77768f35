-- ===== src/Entities/Store.antt =====
-- What express/src/modules/_base/repository.ts asks of the Prisma delegate of an entity, over an unknown
-- state, and what it relies on.
use projx.Base.Text.{Str}
use projx.Base.{
  ℕ, ◌≡◌, Bool, not, ◌&&◌, Option, none, some, List, map, if◌then◌else◌, ◌==◌, nat_eq, list_eq,
  option_eq, filter, find,
}

-- A record of the table: its key, the time of its deletion, where it has one, and its other columns.
pub record Row (X : Type 0) : Type 0 where
  pub id : Str
  pub deleted_at : Option ℕ
  pub columns : List (Str × X)

module _ (X T : Type 0) where
  -- A `where` is a test. An `update` or a `delete` of one record names its key and may ask more of it;
  -- it throws P2025 when no such record is there.
  pub record Delegate : Type 0 where
    pub rows : T → List (Row X)
    pub find_unique : Str → (Row X → Bool) → T → Option (Row X)
    pub create : List (Str × X) → T → Row X × T
    pub update : Str → (Row X → Bool) → (Row X → Row X) → T → Option (Row X × T)
    pub delete : Str → T → Option T
    pub create_many : List (List (Str × X)) → T → ℕ × T
    pub delete_many : (Row X → Bool) → T → T

abbrev pub has_id : {X : Type 0} → Str → Row X → Bool
has_id id row = row.id == id

-- `p` of the record with a key.
abbrev pub at_key : {X : Type 0} → Str → (Row X → Bool) → Row X → Bool
at_key id p row = has_id id row && p row

abbrev pub patch : {X : Type 0} → (Row X → Bool) → (Row X → Row X) → List (Row X) → List (Row X)
patch p f = map (λ row. if p row then f row else row)

pub record IsLawful {X T : Type 0} (d : Delegate X T) : Type 0 where
  pub find_unique-rows :
      (id : Str) (p : Row X → Bool) (t : T) → d.find_unique id p t ≡ find (at_key id p) (d.rows t)
  pub update_missing :
      (id : Str) (p : Row X → Bool) (f : Row X → Row X) (t : T)
      → find (at_key id p) (d.rows t) ≡ none
      → d.update id p f t ≡ none
  pub update_found :
      (id : Str) (p : Row X → Bool) (f : Row X → Row X) (t : T) (row : Row X)
      → find (at_key id p) (d.rows t) ≡ some row
      → (t' : T) × (d.update id p f t ≡ some (f row, t'))
        × (d.rows t' ≡ patch (at_key id p) f (d.rows t))
  pub delete_missing :
      (id : Str) (t : T) → find (has_id id) (d.rows t) ≡ none → d.delete id t ≡ none
  pub delete_found :
      (id : Str) (t : T) (row : Row X)
      → find (has_id id) (d.rows t) ≡ some row
      → (t' : T) × (d.delete id t ≡ some t')
        × (d.rows t' ≡ filter (λ r. not (has_id id r)) (d.rows t))
  pub rows-delete_many :
      (p : Row X → Bool) (t : T) → d.rows (d.delete_many p t) ≡ filter (λ r. not (p r)) (d.rows t)
