-- ===== src/Crud/Known.antt =====
-- The sets of ids that the sorted lists of src/request_handler_crud.cc stand for, and what the operations on
-- the lists do to them.
use ucla_cs130_googolplex.Prelude.{
  ℕ, ◌≤◌, ◌<◌, Bytes, equal, equal_iff, ◌==◌, if◌then◌else◌, Bool, true, false, ◌&&◌, ◌||◌,
  Bool-cases, Option-cases, [], none, some, ◌≡◌, ◌⊎◌, refl, sym, ap, ◌∙◌, List, inl, inr, arith,
}
use ucla_cs130_googolplex.Prelude.Int.{ℤ, pos, negsuc}
use ucla_cs130_googolplex.Std.Dict.{find, contains, assign}
use ucla_cs130_googolplex.Http.{Verb, get, post, put, delete, options, other}
use ucla_cs130_googolplex.Std.Number.{value, stoi}
use ucla_cs130_googolplex.Crud.{id_of, id_name_of, entity_of}
use ucla_cs130_googolplex.Crud.Ids.{
  Table, member, ids, insert_to_map, get_next_id, erase_id, with_key,
}
use ucla_cs130_googolplex.Crud.Ids.Tables.{
  AllRising, ids_of_find, ids-assign, insert_to_map-Adds, insert_to_map_taken,
}
use ucla_cs130_googolplex.Crud.Ids.NextId.{get_next_id-IsNextId, ids_of_none}
use ucla_cs130_googolplex.Crud.Removal.{erase-Removes}

-- The abstract store: which ids an entity has.
abbrev pub Known : Type 0
Known = Bytes → ℕ → Bool

-- What a table stands for; the order of the ids, and an entity without ids, do not show.
abbrev pub known : Table → Known
known table key id = member id (ids key table)

abbrev pub SameKnown : Known → Known → Type 0
SameKnown k k' = (key : Bytes) (id : ℕ) → k' key id ≡ k key id

abbrev pub AddsTo : Bytes → ℕ → Known → Known → Type 0
AddsTo key id k k' = (j : Bytes) (m : ℕ) → k' j m ≡ ((equal key j && id == m) || k j m)

abbrev pub RemovesFrom : Bytes → ℕ → Known → Known → Type 0
RemovesFrom key id k k' =
    (j : Bytes) (m : ℕ) → k' j m ≡ (if equal key j && m == id then false else k j m)

-- The lowest positive id that is free for the key is added.
pub record Creates (key : Bytes) (k k' : Known) : Type 0 where
  pub id : ℕ
  pub positive : 1 ≤ id
  pub free : k key id ≡ false
  pub lowest : (m : ℕ) → 1 ≤ m → m < id → k key m ≡ true
  pub adds : AddsTo key id k k'

-- The id that the suffix ends in is there for its entity, which had it or gets it.
pub record Sets (suffix : Bytes) (k k' : Known) : Type 0 where
  pub id : ℕ
  pub spelled : id_of (stoi (id_name_of suffix)) ≡ some id
  pub adds : AddsTo (entity_of suffix) id k k'

-- The id that the suffix ends in is gone from its entity; no entity has a negative one.
pub data Removes (suffix : Bytes) (k k' : Known) : Type 0 where
  gone :
      (id : ℕ)
      → stoi (id_name_of suffix) ≡ value (pos id)
      → RemovesFrom (entity_of suffix) id k k'
      → Removes suffix k k'
  negative :
      (n : ℕ) → stoi (id_name_of suffix) ≡ value (negsuc n) → SameKnown k k' → Removes suffix k k'

-- What a request of each method with the suffix does to the abstract store, where it succeeds and where
-- it does not. A POST or a PUT that fails to write its file may have taken the id.
abbrev pub Effect : Verb → Bool → Bytes → Known → Known → Type 0
Effect post true suffix k k' = Creates suffix k k'
Effect post false suffix k k' = SameKnown k k' ⊎ Creates suffix k k'
Effect put true suffix k k' = Sets suffix k k'
Effect put false suffix k k' = SameKnown k k' ⊎ Sets suffix k k'
Effect delete true suffix k k' = Removes suffix k k'
Effect delete false suffix k k' = SameKnown k k'
Effect get done suffix k k' = SameKnown k k'
Effect options done suffix k k' = SameKnown k k'
Effect other done suffix k k' = SameKnown k k'

pub unchanged :
    (verb : Verb) (suffix : Bytes) (k k' : Known) → SameKnown k k' → Effect verb false suffix k k'
unchanged post suffix k k' h = inl h
unchanged put suffix k k' h = inl h
unchanged delete suffix k k' h = h
unchanged get suffix k k' h = h
unchanged options suffix k k' h = h
unchanged other suffix k k' h = h

pub next_id-Creates :
    (key : Bytes) (table : Table)
    → AllRising table
    → Creates key (known table) (known (get_next_id key table).1)
next_id-Creates key table h =
    let next = get_next_id-IsNextId key table h in
    record {
      id = (get_next_id key table).0;
      positive = next.positive;
      free = next.free;
      lowest = next.lowest;
      adds = next.adds;
    }

-- An id that is listed already.
taken_id-AddsTo :
    (key : Bytes) (id : ℕ) (table : Table)
    → member id (ids key table) ≡ true
    → AddsTo key id (known table) (known table)
taken_id-AddsTo key id table taken j m = elim (Bool-cases (equal key j && id == m)) [
  | inl here ↦
      let same : key ≡ j = (equal_iff key j).0 (ground arith) in
      let e : id ≡ m = ground arith in rw (here, ← same, ← e) taken
  | inr elsewhere ↦ rw elsewhere refl
]

pub known_id-AddsTo :
    (key : Bytes) (id : ℕ) (table : Table)
    → contains key table ≡ true
    → AddsTo key id (known table) (known (insert_to_map key id table).1)
unfolding contains
known_id-AddsTo key id table there = elim (Option-cases (find key table)) [
  | inl e ↦ absurd (ground arith)
  | inr (values, e) ↦ elim (Bool-cases (member id values)) [
    | inl taken ↦
        rw (insert_to_map_taken key id values table e taken)
          (taken_id-AddsTo key id table (rw (ids_of_find key values table e) taken))
    | inr free ↦ insert_to_map-Adds key id values table e free
  ]
]

pub find_of_absent :
    (key : Bytes) (table : Table) → contains key table ≡ false → find key table ≡ none
unfolding contains
find_of_absent key table h = elim (Option-cases (find key table)) [
  | inl e ↦ e
  | inr (values, e) ↦ absurd (ground arith)
]

-- The list that a key has already.
assign_same :
    (key : Bytes) (values : List ℕ) (table : Table) (j : Bytes)
    → values ≡ ids key table
    → ids j (assign key values table) ≡ ids j table
assign_same key values table j e =
    rw (ids-assign key j values table) (elim (Bool-cases (equal key j)) [
      | inl same ↦ rw same (e ∙ ap (λ i. ids i table) ((equal_iff key j).0 same))
      | inr apart ↦ rw apart refl
    ])

pub listed-SameKnown :
    (key : Bytes) (table : Table) → SameKnown (known table) (known (with_key key table))
unfolding with_key
listed-SameKnown key table = elim (Bool-cases (contains key table)) [
  | inl e ↦ rw e (λ j m. refl)
  | inr e ↦ rw e (λ j m.
      ap (member m)
        (assign_same key [] table j (sym (ids_of_none key table (find_of_absent key table e)))))
]

pub erased-Removes :
    (suffix : Bytes) (id : ℤ) (table : Table)
    → stoi (id_name_of suffix) ≡ value id
    → Removes suffix
        (known table)
        (known (assign (entity_of suffix) (erase_id id (ids (entity_of suffix) table)) table))
erased-Removes suffix (pos id) table spelled =
    gone id spelled (erase-Removes (entity_of suffix) id table)
erased-Removes suffix (negsuc id) table spelled = negative id spelled (λ j m. ap (member m) (
    assign_same (entity_of suffix) (erase_id (negsuc id) (ids (entity_of suffix) table)) table j
      (unfold erase_id in refl)))
