-- ===== src/Crud/Throwing.antt =====
-- When a request to the crud handler (src/request_handler_crud.cc) ends by an exception.
use ucla_cs130_googolplex.Prelude.{
  ℕ, Bytes, codes, ◌++◌, ◌⊎◌, true, false, Bool-cases, [], ◌<◌, Option-cases, none, ◌≡◌, ◌≢◌, refl,
  ap, inl, inr, arith,
}
use ucla_cs130_googolplex.Std.Dict.{contains}
use ucla_cs130_googolplex.Std.Number.{int_max, decimal, stoi, to_string}
use ucla_cs130_googolplex.Std.Number.RoundTrip.{stoi_digits}
use ucla_cs130_googolplex.Http.{Http, Verb, get, post, put, delete, options, other}
use ucla_cs130_googolplex.Files.{FileSystem, IsFault}
use ucla_cs130_googolplex.Handler.{
  Handler, check_request_url, create_dir, write_to_file, read_from_file,
}
use ucla_cs130_googolplex.Crud.Ids.{get_next_id}
use ucla_cs130_googolplex.Crud.Frame.Disks.{below_dir}
use ucla_cs130_googolplex.Crud.{
  Store, threw, post_entry, put_file, delete_entry, handle_post_request, handle_get_request,
  handle_put_request, handle_delete_request, put_known, put_new, dispatch, handle_request,
  all_digits, id_name_of, entity_of, id_of,
}
use ucla_cs130_googolplex.Crud.Posting.{all_digits-AllDigits}

-- A suffix that ends in a number above the largest int.
pub record IsTooLarge (suffix : Bytes) : Type 0 where
  pub present : id_name_of suffix ≢ []
  pub digits : all_digits (id_name_of suffix) ≡ true
  pub large : int_max < decimal 0 (id_name_of suffix)

id_of-large :
    (suffix : Bytes)
    → id_name_of suffix ≢ []
    → all_digits (id_name_of suffix) ≡ true
    → id_of (stoi (id_name_of suffix)) ≡ none
    → IsTooLarge suffix
unfolding id_of
id_of-large suffix ne digits e =
    let spelled =
      stoi_digits (id_name_of suffix) ne (all_digits-AllDigits (id_name_of suffix) digits) in
    record { present = ne; digits = digits; large = ground arith }

module _ (http : Http) (h : Handler) (request : http.Request) where
  open http use {method, target}

  -- The handler accepts the url of a PUT, and what the url names is too large.
  pub record IsThrowing : Type 0 where
    pub suffix : Bytes
    pub valid : check_request_url h (target request) false ≡ (true, suffix)
    pub by_put : method request ≡ put
    pub too_large : IsTooLarge suffix

module _ (files : FileSystem) (h : Handler) (suffix : Bytes) where
  -- The file system throws at one of the paths that a request for the suffix comes to: that of the
  -- suffix, that of its entity, and those of the ids below the suffix.
  pub data HasFault (d : files.Disk) : Type 0 where
    itself : IsFault files (below_dir h suffix) d → HasFault d
    entity : IsFault files (below_dir h (entity_of suffix)) d → HasFault d
    numbered :
        (id : ℕ) → IsFault files (below_dir h suffix ++ (codes "/" ++ to_string id)) d → HasFault d

module _ (http : Http) (files : FileSystem) (h : Handler) (request : http.Request)
    (d : files.Disk) where
  -- The handler accepts the url, and the file system throws at a path that the request comes to.
  pub record IsFaulty : Type 0 where
    pub suffix : Bytes
    pub valid : check_request_url h (http.target request) false ≡ (true, suffix)
    pub fault : HasFault files h suffix d

module _ (http : Http) (files : FileSystem) (h : Handler) (suffix : Bytes) (request : http.Request)
    (r : http.Response) where
  post_entry_threw :
      (s s' : Store http files)
      → post_entry http files h suffix request r s ≡ threw s'
      → files.status_fails
          (below_dir h suffix ++ (codes "/" ++ to_string (get_next_id suffix s.table).0))
          s'.disk
        ≡ true
  unfolding post_entry write_to_file
  post_entry_threw s s' e = ground arith

  post_threw :
      (s s' : Store http files)
      → handle_post_request http files h suffix request r s ≡ threw s'
      → HasFault files h suffix s'.disk
  unfolding handle_post_request create_dir
  post_threw s s' e =
      let (made, d') = create_dir files (below_dir h suffix) s.disk in
      elim (Bool-cases (contains suffix s.table)) [
        | inl known ↦ numbered _ (inl (post_entry_threw s s' (ground arith)))
        | inr new ↦ elim (Option-cases made) [
          | inl thrown ↦ itself (inl (ground arith))
          | inr (b, e') ↦
              numbered _ (inl (post_entry_threw (record s { disk = d' }) s' (ground arith)))
        ]
      ]

  get_threw :
      (s s' : Store http files)
      → handle_get_request http files h suffix r s ≡ threw s'
      → IsFault files (below_dir h suffix) s'.disk
  unfolding handle_get_request read_from_file
  get_threw s s' e = ground arith

  put_known_threw :
      (key : Bytes) (id : ℕ) (s s' : Store http files)
      → put_known http files h suffix key id request r s ≡ threw s'
      → files.status_fails (below_dir h suffix) s'.disk ≡ true
  unfolding put_known put_file write_to_file
  put_known_threw key id s s' e = ground arith

  put_new_threw :
      (key : Bytes) (id : ℕ) (s s' : Store http files)
      → put_new http files h suffix key id request r s ≡ threw s'
      → (files.status_fails (below_dir h key) s'.disk ≡ true)
        ⊎ (files.status_fails (below_dir h suffix) s'.disk ≡ true)
  unfolding put_new create_dir put_file write_to_file
  put_new_threw key id s s' e = ground arith

  delete_threw :
      (s s' : Store http files)
      → handle_delete_request http files h suffix r s ≡ threw s'
      → files.status_fails (below_dir h suffix) s'.disk ≡ true
  unfolding handle_delete_request delete_entry
  delete_threw s s' e = ground arith

  put_threw :
      (s s' : Store http files)
      → handle_put_request http files h suffix request r s ≡ threw s'
      → (IsTooLarge suffix × (s' ≡ s)) ⊎ HasFault files h suffix s'.disk
  unfolding handle_put_request
  put_threw s s' e = elim (Option-cases (id_of (stoi (id_name_of suffix)))) [
    | inl none_read ↦
        inl (
          id_of-large suffix (λ empty. absurd (ground arith)) (ground arith) none_read,
          ground arith,
        )
    | inr (id, read) ↦ inr (elim (Bool-cases (contains (entity_of suffix) s.table)) [
      | inl known ↦ itself (inl (put_known_threw (entity_of suffix) id s s' (ground arith)))
      | inr new ↦ elim (put_new_threw (entity_of suffix) id s s' (ground arith)) [
        | inl bad ↦ entity (inl bad)
        | inr bad ↦ itself (inl bad)
      ]
    ])
  ]

  dispatch_threw :
      (v : Verb) (s s' : Store http files)
      → dispatch http files v h suffix request r s ≡ threw s'
      → ((v ≡ put) × IsTooLarge suffix × (s' ≡ s)) ⊎ HasFault files h suffix s'.disk
  unfolding dispatch
  dispatch_threw post s s' e = inr (post_threw s s' e)
  dispatch_threw get s s' e = inr (itself (get_threw s s' e))
  dispatch_threw put s s' e = elim (put_threw s s' e) [
    | inl (large, same) ↦ inl (refl, large, same)
    | inr fault ↦ inr fault
  ]
  dispatch_threw delete s s' e = inr (itself (inl (delete_threw s s' e)))
  dispatch_threw options s s' e = absurd (ground arith)
  dispatch_threw other s s' e = absurd (ground arith)

module _ (http : Http) (files : FileSystem) (h : Handler) (request : http.Request)
    (r : http.Response) (s : Store http files) where
  open http use {method, target}

  pub handle_request_threw :
      (s' : Store http files)
      → handle_request http files h request r s ≡ threw s'
      → (IsThrowing http h request × (s' ≡ s)) ⊎ IsFaulty http files h request s'.disk
  unfolding handle_request
  handle_request_threw s' e =
      let (valid, suffix) = check_request_url h (target request) false in
      elim (Bool-cases valid) [
        | inl good ↦
            let accepted : check_request_url h (target request) false ≡ (true, suffix) =
              ap (λ b. (b, suffix)) good in
            elim (dispatch_threw http files h suffix request r (method request) s s'
              (ground arith)) [
                | inl (by_put, large, same) ↦ inl (
                  record { suffix = suffix; valid = accepted; by_put = by_put; too_large = large },
                  same,
                )
                | inr fault ↦ inr (record { suffix = suffix; valid = accepted; fault = fault })
              ]
        | inr refused ↦ absurd (ground arith)
      ]
