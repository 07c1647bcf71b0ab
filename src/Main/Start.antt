-- ===== src/Main/Start.antt =====
-- When `main` of src/server_main.cc starts the server, and on which port.
use ucla_cs130_googolplex.Prelude.{
  ℕ, Bytes, Bool, true, false, Option, Option-cases, [], ◌∷◌, All, none, some, ◌≡◌, ◌⊎◌, inl, inr,
  refl, sym, ◌∙◌, arith,
}
use ucla_cs130_googolplex.Prelude.Int.{ℤ, pos, negsuc}
use ucla_cs130_googolplex.Std.Dict.{Dict, find}
use ucla_cs130_googolplex.Std.Dict.Order.{InOrder-DistinctKeys}
use ucla_cs130_googolplex.Files.{FileSystem}
use ucla_cs130_googolplex.Config.Arg.{ConfigArg, valid_handler_types}
use ucla_cs130_googolplex.Config.Port.{IsPort}
use ucla_cs130_googolplex.Config.Tree.{empty}
use ucla_cs130_googolplex.Config.Locals.{State}
use ucla_cs130_googolplex.Config.Parse.{Result, initial, parse}
use ucla_cs130_googolplex.Config.Parse.Rounds.{Ends}
use ucla_cs130_googolplex.Config.Parse.Entries.{IsAddrmap}
use ucla_cs130_googolplex.Config.Parse.Invariant.{Returns, parse-Returns}
use ucla_cs130_googolplex.Config.File.{parse_file}
use ucla_cs130_googolplex.Factory.{Factory, made}
use ucla_cs130_googolplex.Server.{create_dispatcher}
use ucla_cs130_googolplex.Server.Routes.{routed, create_dispatcher-find}
use ucla_cs130_googolplex.Main.{
  is_among, check_types, endpoint_port, listening, new_server, start_with, main,
}

-- Every entry has one of the types of `config_arg`.
abbrev pub AllValidTypes : Dict ConfigArg → Type 0
AllValidTypes = All (λ e. is_among e.1.handler_type valid_handler_types ≡ true)

check_types-AllValidTypes :
    (addrmap : Dict ConfigArg) → (check_types addrmap).0 ≡ true → AllValidTypes addrmap
unfolding check_types
check_types-AllValidTypes [] h = tt
check_types-AllValidTypes ((l, arg) ∷ addrmap) h =
    (ground arith, check_types-AllValidTypes addrmap (ground arith))

-- The port that the parser found, or 65535 where it found none.
abbrev pub IsPortOf : ℤ → ℕ → Type 0
IsPortOf port p = (port ≡ pos p) ⊎ ((port ≡ negsuc 0) × (p ≡ 65535))

endpoint_port-IsPortOf : (port : ℤ) → IsPort port → IsPortOf port (endpoint_port port)
unfolding endpoint_port
endpoint_port-IsPortOf (pos n) h = inl (ground arith)
endpoint_port-IsPortOf (negsuc n) h = inr (ground arith, ground arith)

-- What the parser leaves, whether it accepts or not.
abbrev Left : Bool → State → Type 0
Left b s = IsPort s.port × IsAddrmap s.addrmap

Returns-Left : (b : Bool) (s : State) → Returns b s → Left b s
Returns-Left true s h = (h.2, h.3)
Returns-Left false s h = h

Ends-returned :
    (r : Result) (b : Bool) (s : State) → Ends Returns r → r ≡ Result.returned b s → Left b s
Ends-returned (Result.returned b' s') b s h e = let k = Returns-Left b' s' h in ground arith
Ends-returned Result.undefined_behaviour b s h e = absurd (ground arith)
Ends-returned Result.out_of_fuel b s h e = absurd (ground arith)

pub Result-cases :
    (r : Result)
    → ((b : Bool) × (s : State) × (r ≡ Result.returned b s))
      ⊎ ((r ≡ Result.undefined_behaviour) ⊎ (r ≡ Result.out_of_fuel))
Result-cases (Result.returned b s) = inl (b, s, refl)
Result-cases Result.undefined_behaviour = inr (inl refl)
Result-cases Result.out_of_fuel = inr (inr refl)

module _ (files : FileSystem) (bind : ℕ → Option ℕ) where
  open files use {Disk, read}

  pub parse_file-Left :
      (file_name : Bytes) (d : Disk) (b : Bool) (s : State)
      → parse_file files file_name empty (negsuc 0) [] d ≡ Result.returned b s
      → Left b s
  unfolding parse_file
  parse_file-Left file_name d b s e = elim (Option-cases (read file_name d)) [
    | inl no_file ↦
        Ends-returned (Result.returned false (initial empty [])) b s (refl, (tt, tt))
          (sym (rw (parse_file, no_file) refl) ∙ e)
    | inr (text, found) ↦
        Ends-returned (parse text empty []) b s (parse-Returns text empty [] (tt, tt))
          (sym (rw (parse_file, found) refl) ∙ e)
  ]

  pub start_with-listening :
      (port : ℤ) (addrmap : Dict ConfigArg) (d d' : Disk) (p : ℕ) (routes : Dict Factory)
      → start_with files bind port addrmap d ≡ listening p routes d'
      → AllValidTypes addrmap
        × (bind (endpoint_port port) ≡ some p)
        × (create_dispatcher files addrmap d ≡ made (routes, d'))
  unfolding start_with new_server
  start_with-listening port addrmap d d' p routes e =
      (check_types-AllValidTypes addrmap (ground arith), ground arith, ground arith)

  pub main-parsed :
      (argc : ℕ) (file_name : Bytes) (d d' : Disk) (p : ℕ) (routes : Dict Factory)
      → main files bind argc file_name d ≡ listening p routes d'
      → (b : Bool) × (s : State) × (parse_file files file_name empty (negsuc 0) [] d
          ≡ Result.returned b s)
        × (start_with files bind s.port s.addrmap d ≡ listening p routes d')
  unfolding main
  main-parsed argc file_name d d' p routes e =
      elim (Result-cases (parse_file files file_name empty (negsuc 0) [] d)) [
        | inl (b, s, parsed) ↦ (b, s, parsed, ground arith)
        | inr (inl undefined) ↦ absurd (ground arith)
        | inr (inr endless) ↦ absurd (ground arith)
      ]

  -- Where main comes to listen, Parse has returned, whatever it returned; the acceptor was opened
  -- for the port that it read, or for 65535 where it read none, and main listens on the port that
  -- this acceptor has; every entry that it left in the map has a valid handler type; and the server
  -- routes each of their locations to a new factory of the entry's class, and no other location.
  pub main-listening :
      (argc : ℕ) (file_name : Bytes) (d d' : Disk) (p : ℕ) (routes : Dict Factory)
      → main files bind argc file_name d ≡ listening p routes d'
      → (b : Bool) × (s : State) × (parse_file files file_name empty (negsuc 0) [] d
          ≡ Result.returned b s)
        × ((q : ℕ) × IsPortOf s.port q × (bind q ≡ some p))
        × AllValidTypes s.addrmap
        × ((l : Bytes) → find l routes ≡ routed (find l s.addrmap) none)
  main-listening argc file_name d d' p routes e =
      let (b, s, parsed, started) = main-parsed argc file_name d d' p routes e in
      let (port, entries) = parse_file-Left file_name d b s parsed in
      let (types, bound, created) = start_with-listening s.port s.addrmap d d' p routes started in
      (
        b,
        s,
        parsed,
        (endpoint_port s.port, endpoint_port-IsPortOf s.port port, bound),
        types,
        λ l.
            create_dispatcher-find files s.addrmap routes d d' l
              (InOrder-DistinctKeys s.addrmap entries.1) created,
      )

  -- Where the configuration file cannot be read and the acceptor can be opened on port 65535, main
  -- listens on the port of that acceptor, without any route.
  pub main_unreadable :
      (file_name : Bytes) (p : ℕ) (d : Disk)
      → read file_name d ≡ none
      → bind 65535 ≡ some p
      → main files bind 2 file_name d ≡ listening p [] d
  unfolding main parse_file start_with check_types new_server endpoint_port create_dispatcher
  main_unreadable file_name p d unreadable free = ground arith
