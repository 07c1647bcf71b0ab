-- ===== src/Session/Reply.antt =====
-- `session::generate_response` and `get_reply` of src/session.cc.
use ucla_cs130_googolplex.Prelude.{
  ℕ, zero, suc, ltb, Bool, Bytes, codes, ◌==◌, if◌then◌else◌, [], ◌∷◌, ◌++◌, Option, none, some,
}
use ucla_cs130_googolplex.Std.Dict.{Dict, find, assign}
use ucla_cs130_googolplex.Http.{Http, bad_request, access_control_allow_origin}
use ucla_cs130_googolplex.Files.{FileSystem}
use ucla_cs130_googolplex.Handler.{Handler}
use ucla_cs130_googolplex.Factory.{
  echo, static, not_found, crud, block, health, text_gen, Factory, made, stopped, raised, create,
}
use ucla_cs130_googolplex.Serve.Static.{handle_static_request}
use ucla_cs130_googolplex.Serve.Simple.{
  handle_echo_request, handle_not_found_request, handle_health_request, handle_block_request,
}
use ucla_cs130_googolplex.Crud
use ucla_cs130_googolplex.Crud.Ids.{Table}
use ucla_cs130_googolplex.TextGen
use ucla_cs130_googolplex.TextGen.Api.{Service}
use ucla_cs130_googolplex.Session.Search.{found, search_addr_binding}

abbrev pub max_length : ℕ
max_length = 1024

-- The text in front of the first zero; `none` where there is none.
unfoldable pub up_to_zero : Bytes → Option Bytes
up_to_zero [] = none
up_to_zero (c ∷ s) =
    if c == 0 then some [] else elim (up_to_zero s) [ none ↦ none | some t ↦ some (c ∷ t) ]

-- `memset(in_data_, 0, max_length)`
unfoldable pub zeros : ℕ → Bytes
zeros zero = []
zeros (suc n) = 0 ∷ zeros n

module _ (http : Http) (files : FileSystem) (service : Service) where
  open http use {Request, Response, target, parse, new_response, result, set, print_response}
  open files use {Disk}

  -- What the sessions share: the factories, and the disk.
  pub record World : Type 0 where
    pub routes : Dict Factory
    pub disk : Disk

  -- A handler that returned has the table of its factory, the disk and the response; one that threw
  -- has the table and the disk.
  pub data Handled : Type 0 where
    returned : Table → Disk → Response → Handled
    threw : Table → Disk → Handled

  -- The result itself is only logged.
  unfoldable pub of_crud : Crud.Handled http files → Handled
  of_crud (Crud.returned _ s r) = returned s.table s.disk r
  of_crud (Crud.threw s) = threw s.table s.disk

  unfoldable pub of_text_gen : Table → TextGen.Handled http files service → Handled
  of_text_gen table (TextGen.returned _ d r) = returned table d r
  of_text_gen table (TextGen.threw d) = threw table d

  unfoldable pub of_static : Table → Disk → Option (Bool × Response) → Handled
  of_static table d none = threw table d
  of_static table d (some (_, r)) = returned table d r

  unfoldable pub handle_request : Factory → Handler → Request → Response → Disk → Handled
  unfolding of_crud of_text_gen of_static
  handle_request f h request r d = elim f.kind [
    | echo ↦ returned f.file_to_id d (handle_echo_request http request r).1
    | static ↦ of_static f.file_to_id d (handle_static_request http files h request r d)
    | not_found ↦ returned f.file_to_id d (handle_not_found_request http request r).1
    | block ↦ returned f.file_to_id d (handle_block_request http request r).1
    | health ↦ returned f.file_to_id d (handle_health_request http request r).1
    | crud ↦
        of_crud
          (Crud.handle_request http files h request r (record { table = f.file_to_id; disk = d }))
    | text_gen ↦
        of_text_gen f.file_to_id
          (TextGen.handle_request http files service h f.arg.api_key request r d)
  ]

  -- What becomes of the bytes that a session reads: a response, an exception that leaves the session,
  -- the end of the process, or a read beyond the end of the buffer.
  pub data Outcome : Type 0 where
    replied : World → Response → Outcome
    threw_out : World → Outcome
    exited : Outcome
    undefined_behaviour : Outcome

  -- `response` as it is when the handler is given it.
  abbrev pub empty_response : Response
  empty_response = set access_control_allow_origin (codes "*") new_response

  -- The factory at `location` keeps the table that its handler leaves.
  unfoldable pub finish : Bytes → Factory → World → Handled → Outcome
  finish location f w (returned table d r) =
      replied
        (record { routes = assign location (record f { file_to_id = table }) w.routes; disk = d }) r
  finish location f w (threw table d) =
      threw_out
        (record { routes = assign location (record f { file_to_id = table }) w.routes; disk = d })

  -- The request is given to a handler of the factory, which is found at `location`.
  unfoldable pub serve : Bytes → Factory → Bytes → Request → World → Outcome
  unfolding handle_request create finish
  serve location f client_ip request w = elim (create files f client_ip w.disk) [
    | stopped ↦ exited
    | raised ↦ threw_out w
    | made (h, d) ↦ finish location f w (handle_request f h request empty_response d)
  ]

  -- No request, or no handler for it.
  abbrev pub refused : World → Outcome
  refused w = replied w (result bad_request empty_response)

  unfoldable pub route : Bytes → Request → World → Outcome
  unfolding serve
  route client_ip request w = elim (search_addr_binding (target request ++ codes "/") w.routes) [
    | found location ↦ elim (find location w.routes) [
      | some f ↦ serve location f client_ip request w
      | none ↦ refused w
    ]
    | _ ↦ refused w
  ]

  -- `std::string(request_data)` is the text in front of the first zero. A buffer without a zero is read
  -- beyond its end.
  unfoldable pub generate_response : Bytes → Bytes → ℕ → World → Outcome
  unfolding route up_to_zero
  generate_response client_ip request_data data_len w =
      if ltb max_length data_len then refused w else elim (up_to_zero request_data) [
        | none ↦ undefined_behaviour
        | some text ↦ elim (parse text) [
          | none ↦ refused w
          | some request ↦ route client_ip request w
        ]
      ]
