-- ===== src/Crud/Invariant.antt =====
-- What a request to the crud handler (src/request_handler_crud.cc) does to the lists of ids.
use ucla_cs130_googolplex.Prelude.{
  ℕ, Bytes, Bool-cases, Option-cases, false, List, [], ◌∷◌, none, some, not, ◌≡◌, refl, ◌⊎◌, inl,
  inr, arith,
}
use ucla_cs130_googolplex.Prelude.Int.{ℤ}
use ucla_cs130_googolplex.Std.Dict.{find, contains, assign, All-assign, All-find}
use ucla_cs130_googolplex.Std.Number.{Stoi, value, invalid_argument, out_of_range, stoi}
use ucla_cs130_googolplex.Http.{Http, Verb, get, post, put, delete, options, other}
use ucla_cs130_googolplex.Files.{FileSystem}
use ucla_cs130_googolplex.Handler.{Handler, check_request_url}
use ucla_cs130_googolplex.Crud.Ids.{Table, ids, insert_to_map, get_next_id, erase_id, with_key}
use ucla_cs130_googolplex.Crud.Ids.Sorted.{Rising, erase_id-Rising}
use ucla_cs130_googolplex.Crud.Ids.Tables.{AllRising, insert_to_map-AllRising}
use ucla_cs130_googolplex.Crud.Ids.NextId.{get_next_id-IsNextId}
use ucla_cs130_googolplex.Crud.{
  Store, Handled, returned, threw, handle_post_request, handle_get_request, put_known, put_new,
  handle_put_request, delete_entry, handle_delete_request, dispatch, handle_request, id_of,
  id_name_of, entity_of,
}

ids-Rising : (key : Bytes) (table : Table) → AllRising table → Rising (ids key table)
unfolding ids
ids-Rising key table h = elim (Option-cases (find key table)) [
  | inl e ↦ rw (ids, e) tt
  | inr (values, e) ↦ rw (ids, e) (All-find (λ entry. Rising entry.1) key table e h)
]

assign-AllRising :
    (key : Bytes) (values : List ℕ) (table : Table)
    → Rising values
    → AllRising table
    → AllRising (assign key values table)
assign-AllRising key values table = All-assign (λ entry. Rising entry.1) key values table

pub Stoi-cases :
    (n : Stoi) → ((id : ℤ) × (n ≡ value id)) ⊎ ((n ≡ invalid_argument) ⊎ (n ≡ out_of_range))
Stoi-cases (value id) = inl (id, refl)
Stoi-cases invalid_argument = inr (inl refl)
Stoi-cases out_of_range = inr (inr refl)

-- What a request may do to the table.
pub data Change (table : Table) : Table → Type 0 where
  unchanged : Change table table
  next_id : (key : Bytes) → Change table (get_next_id key table).1
  known_id : (key : Bytes) (id : ℕ) → Change table (insert_to_map key id table).1
  first_id : (key : Bytes) (id : ℕ) → Change table (assign key (id ∷ []) table)
  listed : (key : Bytes) → Change table (with_key key table)
  erased : (key : Bytes) (id : ℤ) → Change table (assign key (erase_id id (ids key table)) table)

Change-AllRising : {table table' : Table} → Change table table' → AllRising table → AllRising table'
Change-AllRising unchanged h = h
Change-AllRising {table} (next_id key) h = (get_next_id-IsNextId key table h).in_order
Change-AllRising {table} (known_id key id) h = insert_to_map-AllRising key id table h
Change-AllRising {table} (first_id key id) h = assign-AllRising key (id ∷ []) table (tt, tt) h
Change-AllRising {table} (listed key) h =
    unfold with_key in
    elim (Bool-cases (contains key table)) [
      | inl e ↦ rw e h
      | inr e ↦ rw e (assign-AllRising key [] table tt h)
    ]
Change-AllRising {table} (erased key id) h =
    assign-AllRising key _ table (erase_id-Rising id _ (ids-Rising key table h)) h

module _ (http : Http) (files : FileSystem) where
  open http use {Request, Response}

  -- The table as the request leaves it, also where it throws.
  abbrev pub table_of : Handled http files → Table
  table_of (returned b s r) = s.table
  table_of (threw s) = s.table

  module _ (h : Handler) (suffix : Bytes) (r : Response) (s : Store http files) where
    pub delete_entry-table :
        (id : ℤ)
        → (table_of (delete_entry http files h suffix id r s) ≡ s.table)
          ⊎ (table_of (delete_entry http files h suffix id r s)
              ≡ assign (entity_of suffix) (erase_id id (ids (entity_of suffix) s.table)) s.table)
    unfolding delete_entry
    delete_entry-table id = ground arith

    pub handle_get_request-table :
        (table_of (handle_get_request http files h suffix r s) ≡ s.table)
        ⊎ (table_of (handle_get_request http files h suffix r s) ≡ with_key suffix s.table)
    unfolding handle_get_request
    handle_get_request-table = ground arith

  module _ (h : Handler) (suffix : Bytes) (r : Response) (s : Store http files) where
    pub handle_post_request-table :
        (request : Request)
        → (table_of (handle_post_request http files h suffix request r s) ≡ s.table)
          ⊎ (table_of (handle_post_request http files h suffix request r s)
              ≡ (get_next_id suffix s.table).1)
    unfolding handle_post_request
    handle_post_request-table request = ground arith

    pub put_known-table :
        (entity : Bytes) (id : ℕ) (request : Request)
        → table_of (put_known http files h suffix entity id request r s)
          ≡ (insert_to_map entity id s.table).1
    unfolding put_known
    put_known-table entity id request = ground arith

    pub put_new-table :
        (entity : Bytes) (id : ℕ) (request : Request)
        → (table_of (put_new http files h suffix entity id request r s) ≡ s.table)
          ⊎ (table_of (put_new http files h suffix entity id request r s)
              ≡ assign entity (id ∷ []) s.table)
    unfolding put_new
    put_new-table entity id request = ground arith

  module _ (h : Handler) (suffix : Bytes) (r : Response) (s : Store http files) where
    handle_put_request-table :
        (request : Request) (id : ℕ)
        → id_of (stoi (id_name_of suffix)) ≡ some id
        → (table_of (handle_put_request http files h suffix request r s) ≡ s.table)
          ⊎ ((table_of (handle_put_request http files h suffix request r s)
                ≡ table_of (put_known http files h suffix (entity_of suffix) id request r s))
              ⊎ (table_of (handle_put_request http files h suffix request r s)
                  ≡ table_of (put_new http files h suffix (entity_of suffix) id request r s)))
    unfolding handle_put_request
    handle_put_request-table request id e = ground arith

    pub handle_put_request_throws :
        (request : Request)
        → id_of (stoi (id_name_of suffix)) ≡ none
        → table_of (handle_put_request http files h suffix request r s) ≡ s.table
    unfolding handle_put_request
    handle_put_request_throws request e = ground arith

    handle_put_request-Change :
        (request : Request)
        → Change s.table (table_of (handle_put_request http files h suffix request r s))
    handle_put_request-Change request = elim (Option-cases (id_of (stoi (id_name_of suffix)))) [
      | inl e ↦ rw (handle_put_request_throws request e) unchanged
      | inr (id, e) ↦ elim (handle_put_request-table request id e) [
        | inl same ↦ rw same unchanged
        | inr (inl known) ↦ rw known (rw put_known-table (known_id (entity_of suffix) id))
        | inr (inr new) ↦ rw new (elim (put_new-table h suffix r s (entity_of suffix) id request) [
          | inl same ↦ rw same unchanged
          | inr first ↦ rw first (first_id (entity_of suffix) id)
        ])
      ]
    ]

    pub handle_delete_request-table :
        (id : ℤ)
        → stoi (id_name_of suffix) ≡ value id
        → (table_of (handle_delete_request http files h suffix r s) ≡ s.table)
          ⊎ (table_of (handle_delete_request http files h suffix r s)
              ≡ table_of (delete_entry http files h suffix id r s))
    unfolding handle_delete_request
    handle_delete_request-table id e = ground arith

    pub handle_delete_request_refuses :
        (stoi (id_name_of suffix) ≡ invalid_argument) ⊎ (stoi (id_name_of suffix) ≡ out_of_range)
        → table_of (handle_delete_request http files h suffix r s) ≡ s.table
    unfolding handle_delete_request
    handle_delete_request_refuses e = ground arith

    handle_delete_request-Change :
        Change s.table (table_of (handle_delete_request http files h suffix r s))
    handle_delete_request-Change = elim (Stoi-cases (stoi (id_name_of suffix))) [
      | inl (id, e) ↦ elim (handle_delete_request-table id e) [
        | inl same ↦ rw same unchanged
        | inr other_way ↦ rw other_way (elim (delete_entry-table h suffix r s id) [
          | inl same ↦ rw same unchanged
          | inr gone ↦ rw gone (erased (entity_of suffix) id)
        ])
      ]
      | inr e ↦ rw (handle_delete_request_refuses e) unchanged
    ]

    handle_post_request-Change :
        (request : Request)
        → Change s.table (table_of (handle_post_request http files h suffix request r s))
    handle_post_request-Change request = elim (handle_post_request-table h suffix r s request) [
      | inl same ↦ rw same unchanged
      | inr next ↦ rw next (next_id suffix)
    ]

    handle_get_request-Change :
        Change s.table (table_of (handle_get_request http files h suffix r s))
    handle_get_request-Change = elim (handle_get_request-table h suffix r s) [
      | inl same ↦ rw same unchanged
      | inr key ↦ rw key (listed suffix)
    ]

    dispatch-Change :
        (verb : Verb) (request : Request)
        → Change s.table (table_of (dispatch http files verb h suffix request r s))
    unfolding dispatch
    dispatch-Change post request = handle_post_request-Change request
    dispatch-Change get request = handle_get_request-Change
    dispatch-Change put request = handle_put_request-Change request
    dispatch-Change delete request = handle_delete_request-Change
    dispatch-Change options request = unchanged
    dispatch-Change other request = unchanged

  module _ (h : Handler) (request : Request) (r : Response) (s : Store http files) where
    -- Every request, failing or not, does one of six things to the table.
    pub handle_request-Change : Change s.table (table_of (handle_request http files h request r s))
    unfolding handle_request
    handle_request-Change =
        elim (Bool-cases (not (check_request_url h (http.target request) false).0)) [
          | inl bad ↦ rw bad unchanged
          | inr good ↦ rw good (dispatch-Change h _ r s (http.method request) request)
        ]

    -- If every list of ids is strictly rising before a request to the crud handler, then every list
    -- is so after it, whatever the request, the disk and the outcome.
    pub handle_request-AllRising :
        AllRising s.table → AllRising (table_of (handle_request http files h request r s))
    handle_request-AllRising = Change-AllRising handle_request-Change
