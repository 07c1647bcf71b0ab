-- ===== src/Crud/Ids.antt =====
-- `file_to_id_` of src/request_handler_crud.cc, with `get_next_id` and `insert_to_map`.
--
-- The ids are an `int` each. The code puts in positive ones and those that a text of digits spells, so
-- they are natural numbers here; the counter of `get_next_id` stays below the largest `int` while a
-- list holds fewer ids than that.
pub mod Lowest
pub mod Tables
pub mod NextId
pub mod Sorted
use ucla_cs130_googolplex.Prelude.{
  ℕ, ◌+◌, Bytes, leb, ◌==◌, if◌then◌else◌, Bool, true, false, ◌||◌, List, [], ◌∷◌, ◌++◌, none, some,
}
use ucla_cs130_googolplex.Prelude.Int.{ℤ, pos, negsuc}
use ucla_cs130_googolplex.Std.Dict.{Dict, find, contains, assign}

abbrev pub Table : Type 0
Table = Dict (List ℕ)

-- `std::find(...) != end()`
unfoldable pub member : ℕ → List ℕ → Bool
member n [] = false
member n (x ∷ xs) = x == n || member n xs

unfoldable pub insert_sorted : ℕ → List ℕ → List ℕ
insert_sorted n [] = n ∷ []
insert_sorted n (x ∷ xs) = if leb n x then n ∷ x ∷ xs else x ∷ insert_sorted n xs

-- `std::sort`
unfoldable pub sort : List ℕ → List ℕ
unfolding insert_sorted
sort [] = []
sort (x ∷ xs) = insert_sorted x (sort xs)

-- `file_to_id_[key]` as a value: a key that is missing is given an empty list.
unfoldable pub ids : Bytes → Table → List ℕ
unfolding find
ids key table = elim (find key table) [ none ↦ [] | some values ↦ values ]

-- `insert_to_map`: its result and the table that it leaves.
unfoldable pub insert_to_map : Bytes → ℕ → Table → Bool × Table
unfolding find
insert_to_map key id table = elim (find key table) [
  | none ↦ (false, table)
  | some id_names ↦
      if member id id_names
      then (false, table)
      else (true, assign key (sort (id_names ++ id ∷ [])) table)
]

-- The loop of `get_next_id`.
unfoldable pub lowest_from : ℕ → List ℕ → ℕ
lowest_from lowest [] = lowest
lowest_from lowest (x ∷ xs) = lowest_from (if x == lowest then lowest + 1 else lowest) xs

-- `get_next_id`: the id and the table that it leaves.
unfoldable pub get_next_id : Bytes → Table → ℕ × Table
unfolding find
get_next_id key table = elim (find key table) [
  | none ↦ (1, assign key (1 ∷ []) table)
  | some values ↦ let lowest = lowest_from 1 values in (lowest, (insert_to_map key lowest table).1)
]

-- `ids.erase(std::remove(ids.begin(), ids.end(), value), ids.end())`
unfoldable pub erase_id : ℤ → List ℕ → List ℕ
erase_id (pos n) [] = []
erase_id (pos n) (x ∷ xs) = if x == n then erase_id (pos n) xs else x ∷ erase_id (pos n) xs
erase_id (negsuc n) xs = xs

-- The table behind `file_to_id_[key]`.
unfoldable pub with_key : Bytes → Table → Table
with_key key table = if contains key table then table else assign key [] table
