-- ===== src/Entities/Tests.antt =====
-- The repository of express/src/modules/_base/repository.ts on records in a list.
use projx.Base.Text.{Str, codes}
use projx.Entities.Store.{Row, Delegate, IsLawful, at_key, has_id, patch}
use projx.Entities.Repository.{
  Options, not_found, not_found_message, find_by_id, delete, bulk_delete,
}
use projx.Entities.Laws.{delete-find_by_id}
use projx.Entities.Bulk.{bulk_delete-find_by_id}
use projx.Entities.Routes.{Hooks, valid, goes, get_route, create_route, patch_route}
use projx.Entities.Hidden.{Hides, routes-Hides}
use projx.Base.{
  inl, ℕ, ◌≡◌, refl, Bool, true, not, Option, none, some, List, [], ◌∷◌, ◌++◌, map, nat_eq, list_eq,
  option_eq, length, filter, find,
}

abbrev update_rows :
    Str
    → (Row ℕ → Bool)
    → (Row ℕ → Row ℕ)
    → List (Row ℕ)
    → Option (Row ℕ)
    → Option (Row ℕ × List (Row ℕ))
update_rows id p f rows none = none
update_rows id p f rows (some row) = some (f row, patch (at_key id p) f rows)

abbrev delete_row' : Str → List (Row ℕ) → Option (Row ℕ) → Option (List (Row ℕ))
delete_row' id rows none = none
delete_row' id rows (some row) = some (filter (λ r. not (has_id id r)) rows)

abbrev new_row : List (Str × ℕ) → Row ℕ
new_row given = record { id = codes "new"; deleted_at = none; columns = given }

abbrev memory : Delegate ℕ (List (Row ℕ))
memory = record {
  rows = λ rows. rows;
  find_unique = λ id p rows. find (at_key id p) rows;
  create = λ given rows. (new_row given, rows ++ new_row given ∷ []);
  update = λ id p f rows. update_rows id p f rows (find (at_key id p) rows);
  delete = λ id rows. delete_row' id rows (find (has_id id) rows);
  create_many = λ items rows. (length items, rows ++ map new_row items);
  delete_many = λ p rows. filter (λ r. not (p r)) rows;
}

memory-IsLawful : IsLawful memory
memory-IsLawful = record {
  find_unique-rows = λ id p t. refl;
  update_missing = λ id p f t h. rw (h) refl;
  update_found = λ id p f t row h. (patch (at_key id p) f t, rw (h) refl, refl);
  delete_missing = λ id t h. rw (h) refl;
  delete_found = λ id t row h. (filter (λ r. not (has_id id r)) t, rw (h) refl, refl);
  rows-delete_many = λ p t. refl;
}

abbrev options : Options
options = record {
  model_name = codes "Item";
  soft_delete = true;
  hidden_fields = codes "secret" ∷ codes "deleted_at" ∷ [];
}

abbrev hooks : Hooks ℕ
hooks = record {
  before_create = λ given. some given;
  before_update = λ given. goes given;
  before_delete = λ id. true;
  after_create = λ row. record row { id = none };
  after_update = some (λ before row. record row { id = before.id });
}

abbrev item : Str → Row ℕ
item id = record {
  id = id;
  deleted_at = none;
  columns = (codes "size", 3) ∷ (codes "secret", 7) ∷ [];
}

abbrev items : List (Row ℕ)
items = item (codes "a") ∷ item (codes "b") ∷ []

delete-find_by_id_example :
    find_by_id options memory (codes "a") (delete options memory 5 (codes "a") items).1
    ≡ not_found (not_found_message (codes "Item") (codes "a"))
unfolding list_eq nat_eq
delete-find_by_id_example =
    delete-find_by_id options memory-IsLawful 5 (codes "a") (codes "a") items

bulk_delete-find_by_id_example :
    find_by_id options memory
      (codes "b")
      (bulk_delete options memory 5 (codes "a" ∷ codes "b" ∷ codes "a" ∷ []) items)
    ≡ not_found (not_found_message (codes "Item") (codes "b"))
unfolding list_eq nat_eq
bulk_delete-find_by_id_example =
    bulk_delete-find_by_id options memory-IsLawful 5 (codes "a" ∷ codes "b" ∷ codes "a" ∷ [])
      (codes "b") items

routes-Hides_example :
    Hides options (get_route options hooks memory (codes "a") items).0
    × Hides options (create_route options hooks memory (valid ((codes "secret", 1) ∷ [])) items).0
    × Hides options
        (patch_route options hooks memory (codes "a") (valid ((codes "secret", 1) ∷ [])) items).0
unfolding list_eq nat_eq
routes-Hides_example =
    routes-Hides options hooks memory (codes "a") (valid ((codes "secret", 1) ∷ [])) items
      (λ row h. (inl refl, h.1, h.2)) (λ before row h. (inl refl, h.1, h.2))
