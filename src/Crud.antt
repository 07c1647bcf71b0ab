-- ===== src/Crud.antt =====
-- `request_handler_crud` of src/request_handler_crud.cc and include/request_handler_crud.h.
pub mod Ids
pub mod Responses
pub mod Invariant
pub mod Frame
pub mod Known
pub mod Refinement
pub mod Posting
pub mod Throwing
pub mod Removal
pub mod Putting
pub mod Lasting
use ucla_cs130_googolplex.Prelude.{
  ℕ, ◌+◌, Bytes, codes, if◌then◌else◌, Bool, true, false, ◌&&◌, not, [], ◌∷◌, ◌++◌, Option, none,
  some, map,
}
use ucla_cs130_googolplex.Prelude.Int.{ℤ, pos}
use ucla_cs130_googolplex.Std.Dict.{contains, assign}
use ucla_cs130_googolplex.Std.Number.{Stoi, value, is_digit, stoi, to_string}
use ucla_cs130_googolplex.Std.Strings.{take, drop, find_last_of}
use ucla_cs130_googolplex.Http.{Http, ok, content_type, Verb, get, post, put, delete}
use ucla_cs130_googolplex.Files.{FileSystem}
use ucla_cs130_googolplex.Handler.{
  Handler, write_to_file, read_from_file, create_dir, check_request_url,
}
use ucla_cs130_googolplex.Crud.Ids.{Table, ids, insert_to_map, get_next_id, erase_id, with_key}
use Responses.{
  prepare_created_response, prepare_unprocessable_entity_response,
  prepare_internal_server_error_response, prepare_bad_request_response, prepare_not_found_response,
  invalid_format_response,
}

-- `it == end` behind the loop over the digits
unfoldable pub all_digits : Bytes → Bool
all_digits [] = true
all_digits (c ∷ s) = is_digit c && all_digits s

abbrev is_empty : Bytes → Bool
is_empty [] = true
is_empty (_ ∷ _) = false

-- `suffix.substr(found + 1)` and `suffix.substr(0, found)`: without a slash `found` is `npos`, and
-- both are the suffix.
unfoldable pub id_name_of : Bytes → Bytes
id_name_of suffix = elim (find_last_of b'/' suffix) [
  | none ↦ suffix
  | some found ↦ drop (found + 1) suffix
]

unfoldable pub entity_of : Bytes → Bytes
entity_of suffix = elim (find_last_of b'/' suffix) [
  | none ↦ suffix
  | some found ↦ take found suffix
]

-- The id that a text of digits spells; `none` where `std::stoi` throws. A text of digits spells no
-- negative number.
unfoldable pub id_of : Stoi → Option ℕ
id_of (value (pos n)) = some n
id_of _ = none

module _ (http : Http) (files : FileSystem) where
  open http use {
    Request, Response, method, target, body, result, set, set_body, prepare_payload, join,
  }
  open files use {Disk, exists, is_directory, status_fails, remove}

  -- What the handler reaches besides its own members.
  pub record Store : Type 0 where
    pub table : Table
    pub disk : Disk

  -- A handler returns, or throws an exception that it does not catch.
  pub data Handled : Type 0 where
    returned : Bool → Store → Response → Handled
    threw : Store → Handled

  -- The end of `handle_post_request`, with the directory of the entity there.
  unfoldable pub post_entry : Handler → Bytes → Request → Response → Store → Handled
  post_entry h suffix request r s =
      let path = h.dir ++ (codes "/" ++ suffix) in
      let (id, table') = get_next_id suffix s.table in
      let (written, disk') =
        write_to_file files (path ++ (codes "/" ++ to_string id)) (body request) s.disk in
      let s' : Store = record { table = table'; disk = disk' } in
      elim written [
        | none ↦ threw s'
        | some true ↦ returned true s' (prepare_created_response http id r)
        | some false ↦ returned false s' (prepare_internal_server_error_response http r)
      ]

  unfoldable pub handle_post_request : Handler → Bytes → Request → Response → Store → Handled
  unfolding post_entry
  handle_post_request h suffix request r s =
      let path = h.dir ++ (codes "/" ++ suffix) in
      if contains suffix s.table
      then post_entry h suffix request r s
      else let (made, disk') = create_dir files path s.disk in
        let s' = record s { disk = disk' } in
        elim made [
          | none ↦ threw s'
          | some false ↦ returned false s' (prepare_unprocessable_entity_response http r)
          | some true ↦ post_entry h suffix request r s'
        ]

  unfoldable pub handle_get_request : Handler → Bytes → Response → Store → Handled
  handle_get_request h suffix r s =
      let path = h.dir ++ (codes "/" ++ suffix) in
      let missing = returned false s (prepare_not_found_response http r) in
      if status_fails path s.disk
      then threw s
      else if exists path s.disk
      then (if is_directory path s.disk
          then returned true (record s { table = with_key suffix s.table })
              (prepare_payload (
                set_body
                  (codes "["
                    ++ (join (map to_string (ids suffix s.table)) (codes ",") ++ codes "]\n"))
                  (set content_type (codes "text/plain") (result ok r))))
          else elim (read_from_file files path s.disk) [
            | none ↦ threw s
            | some (some content) ↦
                returned true s (prepare_payload (set_body content (result ok r)))
            | some none ↦ missing
          ])
      else missing

  -- The end of `handle_put_request`, from the write on.
  unfoldable pub put_file : Handler → Bytes → Request → Response → Store → Handled
  put_file h suffix request r s =
      let path = h.dir ++ (codes "/" ++ suffix) in
      let (written, disk') = write_to_file files path (body request) s.disk in
      let s' = record s { disk = disk' } in
      elim written [
        | none ↦ threw s'
        | some true ↦ returned true s' r
        | some false ↦ returned false s' (prepare_not_found_response http r)
      ]

  -- An id of an entity that is known.
  unfoldable pub put_known : Handler → Bytes → Bytes → ℕ → Request → Response → Store → Handled
  unfolding put_file
  put_known h suffix entity id request r s =
      let (added, table') = insert_to_map entity id s.table in
      let s' = record s { table = table' } in
      if added
      then put_file h suffix request (prepare_created_response http id r) s'
      else put_file h suffix request
          (prepare_payload (
            set_body (codes "Updated entry at {\"id\":" ++ (to_string id ++ codes "}\n"))
              (result ok r)))
          s'

  -- An id of an entity that is not.
  unfoldable pub put_new : Handler → Bytes → Bytes → ℕ → Request → Response → Store → Handled
  unfolding put_file
  put_new h suffix entity id request r s =
      let (made, disk') = create_dir files (h.dir ++ (codes "/" ++ entity)) s.disk in
      let s' = record s { disk = disk' } in
      elim made [
        | none ↦ threw s'
        | some false ↦ returned false s' (prepare_unprocessable_entity_response http r)
        | some true ↦
            put_file h suffix request (prepare_created_response http id r)
              (record s' { table = assign entity (id ∷ []) s.table })
      ]

  unfoldable pub handle_put_request : Handler → Bytes → Request → Response → Store → Handled
  unfolding put_known put_new
  handle_put_request h suffix request r s =
      let id_name = id_name_of suffix in
      let entity = entity_of suffix in
      if not (is_empty id_name) && all_digits id_name
      then elim (id_of (stoi id_name)) [
        | none ↦ threw s
        | some id ↦
            if contains entity s.table
            then put_known h suffix entity id request r s
            else put_new h suffix entity id request r s
      ]
      else returned false s (prepare_not_found_response http r)

  -- The file of an id that `std::stoi` reads.
  unfoldable pub delete_entry : Handler → Bytes → ℤ → Response → Store → Handled
  delete_entry h suffix id r s =
      let path = h.dir ++ (codes "/" ++ suffix) in
      let entity = entity_of suffix in
      if contains entity s.table
      then elim (remove path s.disk) [
        | some disk' ↦
            returned true
              (record {
                table = assign entity (erase_id id (ids entity s.table)) s.table;
                disk = disk';
              })
              (prepare_payload (
                set_body (codes "Successfully deleted file at /" ++ (entity ++ codes ".\n"))
                  (set content_type (codes "text/plain") (result ok r))))
        | none ↦ returned false s (prepare_internal_server_error_response http r)
      ]
      else returned false s (prepare_not_found_response http r)

  unfoldable pub handle_delete_request : Handler → Bytes → Response → Store → Handled
  unfolding delete_entry
  handle_delete_request h suffix r s =
      let path = h.dir ++ (codes "/" ++ suffix) in
      if status_fails path s.disk
      then threw s
      else if exists path s.disk
      then (if is_directory path s.disk
          then returned false s (invalid_format_response http r)
          else elim (stoi (id_name_of suffix)) [
            | value id ↦ delete_entry h suffix id r s
            | _ ↦ returned false s (invalid_format_response http r)
          ])
      else returned false s (prepare_not_found_response http r)

  unfoldable pub dispatch : Verb → Handler → Bytes → Request → Response → Store → Handled
  dispatch post h suffix request r s = handle_post_request h suffix request r s
  dispatch get h suffix request r s = handle_get_request h suffix r s
  dispatch put h suffix request r s = handle_put_request h suffix request r s
  dispatch delete h suffix request r s = handle_delete_request h suffix r s
  dispatch _ h suffix request r s = returned false s (prepare_bad_request_response http r)

  unfoldable pub handle_request : Handler → Request → Response → Store → Handled
  unfolding dispatch
  handle_request h request r s =
      let (valid, suffix) = check_request_url h (target request) false in
      if not valid
      then returned false s (prepare_bad_request_response http r)
      else dispatch (method request) h suffix request r s
