-- ===== src/Crud/Ids/Tables.antt =====
-- What `insert_to_map` of src/request_handler_crud.cc does to the table.
use ucla_cs130_googolplex.Prelude.{
  ℕ, Bytes, All, equal, equal_iff, ◌==◌, if◌then◌else◌, Bool-cases, ◌&&◌, Option-cases, true, false,
  ◌||◌, List, [], ◌∷◌, ◌++◌, some, ◌≡◌, refl, inl, inr, arith,
}
use ucla_cs130_googolplex.Std.Dict.{find, assign, find-assign, All-assign, All-find}
use ucla_cs130_googolplex.Crud.Ids.{Table, member, sort, ids, insert_to_map}
use ucla_cs130_googolplex.Crud.Ids.Sorted.{Rising, member-sort, member-append, sort-Rising}

-- Every list of the table is in rising order.
abbrev pub AllRising : Table → Type 0
AllRising = All (λ entry. Rising entry.1)

-- What `get_next_id` and `insert_to_map` do to the ids of a key.
abbrev pub Adds : Bytes → ℕ → Table → Table → Type 0
Adds key id table table' =
    ((j : Bytes) (m : ℕ)
      → member m (ids j table') ≡ ((equal key j && id == m) || member m (ids j table)))

pub ids-assign :
    (k j : Bytes) (values : List ℕ) (table : Table)
    → ids j (assign k values table) ≡ (if equal k j then values else ids j table)
unfolding ids
ids-assign k j values table = ground (arith, find-assign k j values table)

pub ids_of_find :
    (key : Bytes) (values : List ℕ) (table : Table)
    → find key table ≡ some values
    → ids key table ≡ values
unfolding ids
ids_of_find key values table e = rw (ids, e)

pub insert_to_map_free :
    (key : Bytes) (id : ℕ) (values : List ℕ) (table : Table)
    → find key table ≡ some values
    → member id values ≡ false
    → insert_to_map key id table ≡ (true, assign key (sort (values ++ id ∷ [])) table)
unfolding insert_to_map
insert_to_map_free key id values table e free = rw (insert_to_map, e) (rw free)

pub insert_to_map_taken :
    (key : Bytes) (id : ℕ) (values : List ℕ) (table : Table)
    → find key table ≡ some values
    → member id values ≡ true
    → insert_to_map key id table ≡ (false, table)
unfolding insert_to_map
insert_to_map_taken key id values table e taken = rw (insert_to_map, e) (rw taken)

pub insert_to_map-Adds :
    (key : Bytes) (id : ℕ) (values : List ℕ) (table : Table)
    → find key table ≡ some values
    → member id values ≡ false
    → Adds key id table (insert_to_map key id table).1
insert_to_map-Adds key id values table e free j m =
    rw (insert_to_map_free key id values table e free) (
      rw (ids-assign key j (sort (values ++ id ∷ [])) table) (elim (Bool-cases (equal key j)) [
        | inl same ↦ rw same (
            rw (member-sort m (values ++ id ∷ [])) (
              rw (member-append m values (id ∷ [])) (
                rw (← (equal_iff key j).0 same)
                  (rw (ids_of_find key values table e) (unfold member in ground arith)))))
        | inr other ↦ rw other refl
      ]))

pub insert_to_map-AllRising :
    (key : Bytes) (id : ℕ) (table : Table)
    → AllRising table
    → AllRising (insert_to_map key id table).1
insert_to_map-AllRising key id table h = elim (Option-cases (find key table)) [
  | inl e ↦ unfold insert_to_map in rw (insert_to_map, e) h
  | inr (values, e) ↦ elim (Bool-cases (member id values)) [
    | inl taken ↦ rw (insert_to_map_taken key id values table e taken) h
    | inr free ↦ rw (insert_to_map_free key id values table e free) (
        All-assign (λ entry. Rising entry.1) key _ table
          (sort-Rising id values free (All-find (λ entry. Rising entry.1) key table e h)) h)
  ]
]
