-- ===== src/Crud/Refinement.antt =====
-- The requests to the crud handler of src/request_handler_crud.cc and the sets of ids of its entities.
use ucla_cs130_googolplex.Prelude.{
  ℕ, Bytes, Bool, true, false, not, [], ◌∷◌, none, refl, sym, subst, Bool-cases, Option-cases, some,
  ◌≡◌, ◌⊎◌, inl, inr, arith,
}
use ucla_cs130_googolplex.Prelude.Int.{ℤ}
use ucla_cs130_googolplex.Std.Dict.{contains, assign}
use ucla_cs130_googolplex.Std.Number.{value, invalid_argument, out_of_range, stoi}
use ucla_cs130_googolplex.Http.{Http, Verb, get, post, put, delete, options, other}
use ucla_cs130_googolplex.Files.{FileSystem}
use ucla_cs130_googolplex.Handler.{Handler, check_request_url}
use ucla_cs130_googolplex.Crud.Ids.Tables.{AllRising}
use ucla_cs130_googolplex.Crud.Ids.NextId.{assign-Adds}
use ucla_cs130_googolplex.Crud.Invariant.{
  Stoi-cases, table_of, handle_post_request-table, handle_get_request-table,
  handle_put_request_throws,
}
use ucla_cs130_googolplex.Crud.{
  Store, Handled, returned, threw, post_entry, handle_post_request, handle_get_request, put_file,
  put_known, put_new, handle_put_request, delete_entry, handle_delete_request, dispatch,
  handle_request, id_of, id_name_of, entity_of,
}
use ucla_cs130_googolplex.Crud.Ids.{ids, get_next_id, insert_to_map, erase_id}
use ucla_cs130_googolplex.Crud.Known.{
  known, Effect, Sets, unchanged, next_id-Creates, known_id-AddsTo, find_of_absent,
  listed-SameKnown, erased-Removes,
}

module _ (http : Http) (files : FileSystem) (h : Handler) where
  open http use {Request, Response}

  -- Whether the handler returned true.
  abbrev pub succeeded : Handled http files → Bool
  succeeded (returned b s r) = b
  succeeded (threw s) = false

  module _ (suffix : Bytes) (r : Response) (s : Store http files) where
    -- What the table becomes.
    abbrev Becomes : Verb → Handled http files → Type 0
    Becomes verb o =
        Effect verb (succeeded o) suffix (known s.table) (known (table_of http files o))

    -- The same effect, from the two outcomes.
    outcome-Becomes :
        (verb : Verb) (o : Handled http files) (b : Bool)
        → succeeded o ≡ b
        → Effect verb b suffix (known s.table) (known (table_of http files o))
        → Becomes verb o
    outcome-Becomes verb o b e =
        subst (λ b. Effect verb b suffix (known s.table) (known (table_of http files o))) (sym e)

    post_table :
        (request : Request)
        → succeeded (handle_post_request http files h suffix request r s) ≡ true
        → table_of http files (handle_post_request http files h suffix request r s)
          ≡ (get_next_id suffix s.table).1
    unfolding handle_post_request post_entry
    post_table request e = ground arith

    post-Becomes :
        (request : Request)
        → AllRising s.table
        → Becomes post (handle_post_request http files h suffix request r s)
    post-Becomes request v =
        let o = handle_post_request http files h suffix request r s in
        let next = next_id-Creates suffix s.table v in
        elim (Bool-cases (succeeded o)) [
          | inl done ↦ outcome-Becomes post o true done (rw (post_table request done) next)
          | inr failed ↦
              outcome-Becomes post o false failed
                (elim (handle_post_request-table http files h suffix r s request) [
                  | inl same ↦ inl (rw same (λ j m. refl))
                  | inr taken ↦ inr (rw taken next)
                ])
        ]

    get-Becomes : Becomes get (handle_get_request http files h suffix r s)
    get-Becomes = elim (handle_get_request-table http files h suffix r s) [
      | inl same ↦ rw same (λ j m. refl)
      | inr key ↦ rw key (listed-SameKnown suffix s.table)
    ]

    -- What a PUT may make of the table.
    abbrev AfterPut : Request → ℕ → Type 0
    AfterPut request id =
        ((contains (entity_of suffix) s.table ≡ true)
          × (table_of http files (handle_put_request http files h suffix request r s)
              ≡ (insert_to_map (entity_of suffix) id s.table).1))
        ⊎ ((contains (entity_of suffix) s.table ≡ false)
            × (table_of http files (handle_put_request http files h suffix request r s)
                ≡ assign (entity_of suffix) (id ∷ []) s.table))

    put_table :
        (request : Request) (id : ℕ)
        → id_of (stoi (id_name_of suffix)) ≡ some id
        → succeeded (handle_put_request http files h suffix request r s) ≡ true
        → AfterPut request id
    unfolding handle_put_request put_known put_new put_file
    put_table request id e done = ground arith

    put_table_failed :
        (request : Request) (id : ℕ)
        → id_of (stoi (id_name_of suffix)) ≡ some id
        → (table_of http files (handle_put_request http files h suffix request r s) ≡ s.table)
          ⊎ AfterPut request id
    unfolding handle_put_request put_known put_new put_file
    put_table_failed request id e = ground arith

    put_no_id :
        (request : Request)
        → id_of (stoi (id_name_of suffix)) ≡ none
        → succeeded (handle_put_request http files h suffix request r s) ≡ false
    unfolding handle_put_request
    put_no_id request e = ground arith

    AfterPut-Sets :
        (request : Request) (id : ℕ)
        → id_of (stoi (id_name_of suffix)) ≡ some id
        → AfterPut request id
        → Sets suffix
            (known s.table)
            (known (table_of http files (handle_put_request http files h suffix request r s)))
    AfterPut-Sets request id e (inl (there, became)) = record {
      id = id;
      spelled = e;
      adds = rw became (known_id-AddsTo (entity_of suffix) id s.table there);
    }
    AfterPut-Sets request id e (inr (absent, became)) = record {
      id = id;
      spelled = e;
      adds = rw became (
          assign-Adds (entity_of suffix) id s.table
            (find_of_absent (entity_of suffix) s.table absent));
    }

    put-Becomes :
        (request : Request) → Becomes put (handle_put_request http files h suffix request r s)
    put-Becomes request =
        let o = handle_put_request http files h suffix request r s in
        elim (Option-cases (id_of (stoi (id_name_of suffix)))) [
          | inl e ↦
              outcome-Becomes put o false (put_no_id request e) (
                inl
                  (rw (handle_put_request_throws http files h suffix r s request e) (λ j m. refl)))
          | inr (id, e) ↦ elim (Bool-cases (succeeded o)) [
            | inl done ↦
                outcome-Becomes put o true done
                  (AfterPut-Sets request id e (put_table request id e done))
            | inr failed ↦
                outcome-Becomes put o false failed (elim (put_table_failed request id e) [
                  | inl same ↦ inl (rw same (λ j m. refl))
                  | inr became ↦ inr (AfterPut-Sets request id e became)
                ])
          ]
        ]

    delete_table :
        (id : ℤ)
        → stoi (id_name_of suffix) ≡ value id
        → succeeded (handle_delete_request http files h suffix r s) ≡ true
        → table_of http files (handle_delete_request http files h suffix r s)
          ≡ assign (entity_of suffix) (erase_id id (ids (entity_of suffix) s.table)) s.table
    unfolding handle_delete_request delete_entry
    delete_table id e done = ground arith

    delete_no_id :
        (stoi (id_name_of suffix) ≡ invalid_argument) ⊎ (stoi (id_name_of suffix) ≡ out_of_range)
        → succeeded (handle_delete_request http files h suffix r s) ≡ false
    unfolding handle_delete_request
    delete_no_id e = ground arith

    delete_table_failed :
        succeeded (handle_delete_request http files h suffix r s) ≡ false
        → table_of http files (handle_delete_request http files h suffix r s) ≡ s.table
    unfolding handle_delete_request delete_entry
    delete_table_failed failed = ground arith

    delete-Becomes : Becomes delete (handle_delete_request http files h suffix r s)
    delete-Becomes =
        let o = handle_delete_request http files h suffix r s in
        elim (Bool-cases (succeeded o)) [
          | inl done ↦ elim (Stoi-cases (stoi (id_name_of suffix))) [
            | inl (id, e) ↦
                outcome-Becomes delete o true done
                  (rw (delete_table id e done) (erased-Removes suffix id s.table e))
            | inr e ↦ let failed = delete_no_id e in absurd (ground arith)
          ]
          | inr failed ↦
              outcome-Becomes delete o false failed (rw (delete_table_failed failed) (λ j m. refl))
        ]

    dispatch-Becomes :
        (verb : Verb) (request : Request)
        → AllRising s.table
        → Becomes verb (dispatch http files verb h suffix request r s)
    unfolding dispatch
    dispatch-Becomes post request v = post-Becomes request v
    dispatch-Becomes get request v = get-Becomes
    dispatch-Becomes put request v = put-Becomes request
    dispatch-Becomes delete request v = delete-Becomes
    dispatch-Becomes options request v = λ j m. refl
    dispatch-Becomes other request v = λ j m. refl

  -- Where the lists of ids are strictly rising, a request to the crud handler does to the sets of
  -- ids that the lists stand for what its method says of the key that its url names: a POST that
  -- succeeds adds the lowest positive id that is free for the key; a PUT that succeeds adds the id
  -- that the key ends in to its entity, where it may be already; a DELETE that succeeds takes the
  -- id that the key ends in away from its entity and nothing else away, or nothing where that id is
  -- negative; a POST or a PUT that does not succeed does the same or nothing, and every other
  -- request leaves the sets alone.
  pub handle_request-Effect :
      (request : Request) (r : Response) (s : Store http files)
      → AllRising s.table
      → Effect
          (http.method request)
          (succeeded (handle_request http files h request r s))
          (check_request_url h (http.target request) false).1
          (known s.table)
          (known (table_of http files (handle_request http files h request r s)))
  unfolding handle_request
  handle_request-Effect request r s v =
      let (valid, suffix) = check_request_url h (http.target request) false in
      elim (Bool-cases (not valid)) [
        | inl bad ↦
            rw bad
              (unchanged (http.method request) suffix (known s.table) (known s.table) (λ j m. refl))
        | inr good ↦ rw good (dispatch-Becomes suffix r s (http.method request) request v)
      ]
