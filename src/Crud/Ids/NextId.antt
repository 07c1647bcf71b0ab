-- ===== src/Crud/Ids/NextId.antt =====
-- Which id `get_next_id` of src/request_handler_crud.cc finds, and what it does to the table.
use ucla_cs130_googolplex.Prelude.{
  ℕ, ◌≤◌, ◌<◌, Bytes, equal, equal_iff, Bool-cases, Option-cases, true, false, List, [], ◌∷◌, none,
  some, ◌≡◌, refl, inl, inr, arith,
}
use ucla_cs130_googolplex.Std.Dict.{find, assign, All-assign, All-find}
use ucla_cs130_googolplex.Crud.Ids.{Table, member, ids, insert_to_map, lowest_from, get_next_id}
use ucla_cs130_googolplex.Crud.Ids.Sorted.{Rising}
use ucla_cs130_googolplex.Crud.Ids.Lowest.{le-lowest_from, lowest_from_free, lowest_from_taken}
use ucla_cs130_googolplex.Crud.Ids.Tables.{
  AllRising, Adds, ids-assign, ids_of_find, insert_to_map-Adds, insert_to_map-AllRising,
}

-- The id that `get_next_id` returns is positive and was free, every lower positive id was taken, and
-- the table that it leaves has that id more for the key, and is in order.
pub record IsNextId (key : Bytes) (table : Table) (id : ℕ) (table' : Table) : Type 0 where
  pub positive : 1 ≤ id
  pub free : member id (ids key table) ≡ false
  pub lowest : (m : ℕ) → 1 ≤ m → m < id → member m (ids key table) ≡ true
  pub adds : Adds key id table table'
  pub in_order : AllRising table'

get_next_id_known :
    (key : Bytes) (values : List ℕ) (table : Table)
    → find key table ≡ some values
    → get_next_id key table
      ≡ (lowest_from 1 values, (insert_to_map key (lowest_from 1 values) table).1)
unfolding get_next_id
get_next_id_known key values table e = rw (get_next_id, e)

get_next_id_new :
    (key : Bytes) (table : Table)
    → find key table ≡ none
    → get_next_id key table ≡ (1, assign key (1 ∷ []) table)
unfolding get_next_id
get_next_id_new key table e = rw (get_next_id, e)

pub ids_of_none : (key : Bytes) (table : Table) → find key table ≡ none → ids key table ≡ []
unfolding ids
ids_of_none key table e = rw (ids, e)

pub assign-Adds :
    (key : Bytes) (id : ℕ) (table : Table)
    → find key table ≡ none
    → Adds key id table (assign key (id ∷ []) table)
assign-Adds key id table e j m =
    rw (ids-assign key j (id ∷ []) table) (elim (Bool-cases (equal key j)) [
      | inl same ↦ rw same (
          rw (← (equal_iff key j).0 same)
            (rw (ids_of_none key table e) (unfold member in ground arith)))
      | inr other ↦ rw other refl
    ])

-- Where the lists of ids are strictly rising, get_next_id gives the lowest positive id that is free
-- for the key, adds that id to the list of the key and changes no other list, and keeps the lists
-- strictly rising.
pub get_next_id-IsNextId :
    (key : Bytes) (table : Table)
    → AllRising table
    → IsNextId key table (get_next_id key table).0 (get_next_id key table).1
get_next_id-IsNextId key table h = elim (Option-cases (find key table)) [
  | inl e ↦ rw (get_next_id_new key table e) (record {
    positive = omega arith;
    free = rw (ids_of_none key table e) (unfold member in refl);
    lowest = λ m le lt. absurd (omega arith);
    adds = assign-Adds key 1 table e;
    in_order = All-assign (λ entry. Rising entry.1) key (1 ∷ []) table (tt, tt) h;
  })
  | inr (values, e) ↦
      let rising = All-find (λ entry. Rising entry.1) key table e h in
      rw (get_next_id_known key values table e) (record {
        positive = le-lowest_from 1 values;
        free = rw (ids_of_find key values table e) (lowest_from_free 1 values rising);
        lowest =
            λ m le lt. rw (ids_of_find key values table e) (lowest_from_taken 1 m values le lt);
        adds =
            insert_to_map-Adds key (lowest_from 1 values) values table e
              (lowest_from_free 1 values rising);
        in_order = insert_to_map-AllRising key (lowest_from 1 values) table h;
      })
]
