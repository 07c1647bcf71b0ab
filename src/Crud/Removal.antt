-- ===== src/Crud/Removal.antt =====
-- What a DELETE to the crud handler (src/request_handler_crud.cc) removes.
use ucla_cs130_googolplex.Prelude.{
  ℕ, Bytes, codes, ◌++◌, equal, equal_iff, ◌==◌, ◌&&◌, if◌then◌else◌, true, false, Option-cases,
  Bool-cases, some, ◌≡◌, inl, inr, refl, arith,
}
use ucla_cs130_googolplex.Prelude.Int.{pos}
use ucla_cs130_googolplex.Std.Dict.{assign}
use ucla_cs130_googolplex.Std.Number.{value, stoi}
use ucla_cs130_googolplex.Http.{Http, IsHttp, ok, content_type}
use ucla_cs130_googolplex.Files.{FileSystem}
use ucla_cs130_googolplex.Handler.{Handler}
use ucla_cs130_googolplex.Crud.Ids.{Table, ids, member, erase_id}
use ucla_cs130_googolplex.Crud.Ids.Tables.{ids-assign}
use ucla_cs130_googolplex.Crud.Ids.Sorted.{member-erase_id}
use ucla_cs130_googolplex.Crud.{
  Store, returned, handle_delete_request, delete_entry, entity_of, id_name_of,
}

-- `table'` is `table` without the id under the key.
abbrev pub Removes : Bytes → ℕ → Table → Table → Type 0
Removes key id table table' =
    (j : Bytes) (m : ℕ)
    → member m (ids j table') ≡ (if equal key j && m == id then false else member m (ids j table))

pub erase-Removes :
    (key : Bytes) (id : ℕ) (table : Table)
    → Removes key id table (assign key (erase_id (pos id) (ids key table)) table)
erase-Removes key id table j m =
    rw (ids-assign key j (erase_id (pos id) (ids key table)) table)
      (elim (Bool-cases (equal key j)) [
        | inl e ↦ rw (e, ← (equal_iff key j).0 e) (member-erase_id m id (ids key table))
        | inr e ↦ rw e refl
      ])

module _ {http : Http} (laws : IsHttp http) (files : FileSystem) (h : Handler) (suffix : Bytes)
    (s s' : Store http files) (r r' : http.Response) where
  open http use {status_of, prepare_payload, set_body, set, result}
  open files use {Disk, remove}

  abbrev without_entry : ℕ → Disk → Store http files
  without_entry id d = record {
    table = assign (entity_of suffix) (erase_id (pos id) (ids (entity_of suffix) s.table)) s.table;
    disk = d;
  }

  abbrev deleted_response : http.Response
  deleted_response = prepare_payload (
      set_body (codes "Successfully deleted file at /" ++ (entity_of suffix ++ codes ".\n"))
        (set content_type (codes "text/plain") (result ok r)))

  -- A DELETE that succeeds, of an id that std::stoi reads as a number from 0 on, replies 200, has
  -- removed the file of the suffix, and takes that id out of the list of its entity and nothing
  -- else out of the table.
  pub handle_delete_request-Removes :
      (id : ℕ)
      → stoi (id_name_of suffix) ≡ value (pos id)
      → handle_delete_request http files h suffix r s ≡ returned true s' r'
      → (status_of r' ≡ ok)
        × (remove (h.dir ++ (codes "/" ++ suffix)) s.disk ≡ some s'.disk)
        × Removes (entity_of suffix) id s.table s'.table
  unfolding handle_delete_request delete_entry
  handle_delete_request-Removes id spelled e =
      elim (Option-cases (remove (h.dir ++ (codes "/" ++ suffix)) s.disk)) [
        | inl kept ↦ absurd (ground arith)
        | inr (disk', gone) ↦
            let same : s' ≡ without_entry id disk' = ground arith in
            let reply : r' ≡ deleted_response = ground arith in
            (
              rw reply (
                  simp (
                    laws.status_of-prepare_payload, laws.status_of-set_body, laws.status_of-set,
                    laws.status_of-result,
                  )),
              rw same gone,
              rw same (erase-Removes (entity_of suffix) id s.table),
            )
      ]
