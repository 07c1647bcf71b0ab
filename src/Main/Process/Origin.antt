-- ===== src/Main/Process/Origin.antt =====
-- What holds in every state of a running server of src/server_main.cc.
use ucla_cs130_googolplex.Prelude.{
  Option, ℕ, Bytes, Bool, Bool-cases, ◌==◌, [], ◌≡◌, refl, sym, ◌∙◌, subst, inl, inr, arith,
}
use ucla_cs130_googolplex.Prelude.Int.{negsuc}
use ucla_cs130_googolplex.Http.{Http}
use ucla_cs130_googolplex.Files.{FileSystem}
use ucla_cs130_googolplex.Config.Tree.{empty}
use ucla_cs130_googolplex.Config.Locals.{State}
use ucla_cs130_googolplex.Config.Parse.{returned}
use ucla_cs130_googolplex.Config.File.{parse_file}
use ucla_cs130_googolplex.TextGen.Api
use ucla_cs130_googolplex.Server.System.{System, Reach, starts, steps}
use ucla_cs130_googolplex.Std.Dict.{Dict}
use ucla_cs130_googolplex.Config.Arg.{ConfigArg}
use ucla_cs130_googolplex.Std.Dict.Order.{InOrder-DistinctKeys}
use ucla_cs130_googolplex.Session.Entries.{IsRouted}
use ucla_cs130_googolplex.Server.System.Runs.{IsSound, Reach-IsSound}
use ucla_cs130_googolplex.Server.System.Entries.{Reach-IsRouted}
use ucla_cs130_googolplex.Main.{Startup, listening, main}
use ucla_cs130_googolplex.Main.Start.{parse_file-Left, main-parsed, start_with-listening}
use ucla_cs130_googolplex.Main.Process.{
  Signal, Process, starting, running, over, run, launched, Move, begins, calls, breaks, interrupted,
  Reached,
}

module _ (http : Http) (files : FileSystem) (service : Api.Service) (bind : ℕ → Option ℕ)
    (concurrency : ℕ) (number : Signal → ℕ) (argc : ℕ) (file_name : Bytes) (d : files.Disk) where
  -- A running server is one that was started on what the parser left.
  record Started (s : System http files service) : Type 0 where
    accepted : Bool
    state : State
    parsed : parse_file files file_name empty (negsuc 0) [] d ≡ returned accepted state
    reach : Reach http files service state.addrmap d s

  abbrev Origin : Process http files service → Type 0
  Origin starting = Unit
  Origin (running s) = Started s
  Origin (over e) = Unit

  run-Origin :
      (s : System http files service) → Started s → Origin (run http files service concurrency s)
  unfolding run
  run-Origin s h = elim (Bool-cases (concurrency == 0)) [
    | inl no_thread ↦ rw (run, no_thread) tt
    | inr threads ↦ rw (run, threads) h
  ]

  launched-Origin :
      (o : Startup files.Disk)
      → main files bind argc file_name d ≡ o
      → Origin (launched http files service concurrency o)
  unfolding launched
  launched-Origin (listening port routes d') e =
      let (b, s, parsed, started) = main-parsed files bind argc file_name d d' port routes e in
      let (_, _, created) =
        start_with-listening files bind s.port s.addrmap d d' port routes started in
      run-Origin _
        (record { accepted = b; state = s; parsed = parsed; reach = starts routes d' created })
  launched-Origin Startup.wrong_usage e = tt
  launched-Origin (Startup.invalid_handlers m) e = tt
  launched-Origin Startup.caught e = tt
  launched-Origin Startup.exited e = tt
  launched-Origin Startup.undefined_behaviour e = tt
  launched-Origin Startup.out_of_fuel e = tt

  Move-Origin :
      {p q : Process http files service}
      → Move http files service bind concurrency number argc file_name d p q
      → Origin p
      → Origin q
  Move-Origin (begins at e) h = subst Origin (sym e) (launched-Origin _ refl)
  Move-Origin (calls s t at step e) h =
      let v : Started s = subst Origin at h in
      subst Origin (sym e) (record {
        accepted = v.accepted;
        state = v.state;
        parsed = v.parsed;
        reach = steps v.reach step;
      })
  Move-Origin (breaks s before after c received o end at there phase turn ends e) h =
      subst Origin (sym e) tt
  Move-Origin (interrupted signum alive e) h = subst Origin (sym e) tt

  Reached-Origin :
      {p : Process http files service}
      → Reached http files service bind concurrency number argc file_name d p
      → Origin p
  Reached-Origin Reached.starts = tt
  Reached-Origin (Reached.moves r move) = Move-Origin move (Reached-Origin r)

  -- What holds of a server that was started on a map: its sessions and tables are sound, and every
  -- location of the map has a factory of its entry.
  pub record IsLawful (addrmap : Dict ConfigArg) (s : System http files service) : Type 0 where
    pub reach : Reach http files service addrmap d s
    pub sound : IsSound s
    pub routed : IsRouted addrmap s.world.routes

  Started-IsLawful : (s : System http files service) (v : Started s) → IsLawful v.state.addrmap s
  Started-IsLawful s v =
      let (_, entries) = parse_file-Left files bind file_name d v.accepted v.state v.parsed in
      record {
        reach = v.reach;
        sound = Reach-IsSound v.state.addrmap d v.reach;
        routed =
            Reach-IsRouted v.state.addrmap d (InOrder-DistinctKeys v.state.addrmap entries.1)
              v.reach;
      }

  -- In every state of the process in which the server runs, whatever was requested and in whatever
  -- order the callbacks ran, the server serves what the parser left, whatever it returned: each
  -- location of that map, and no other, has a factory of the class of its handler type with its
  -- entry; the lists of ids of every crud factory are strictly rising, a new session waits for the
  -- next connection, and each other session is in a state that it could reach on its own.
  pub Reached-IsLawful :
      (s : System http files service) (b : Bool) (left : State)
      → parse_file files file_name empty (negsuc 0) [] d ≡ returned b left
      → Reached http files service bind concurrency number argc file_name d (running s)
      → IsLawful left.addrmap s
  Reached-IsLawful s b left parsed reached =
      let v : Started s = Reached-Origin reached in
      let same : returned v.accepted v.state ≡ returned b left = sym v.parsed ∙ parsed in
      let e : v.state ≡ left = ground arith in
      subst (λ (l : State). IsLawful l.addrmap s) e (Started-IsLawful s v)
