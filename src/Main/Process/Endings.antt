-- ===== src/Main/Process/Endings.antt =====
-- How `main` of src/server_main.cc ends where its server does not come to run.
use ucla_cs130_googolplex.Prelude.{
  ℕ, Bytes, Bool, Bool-cases, Option, Option-cases, ◌==◌, [], none, ◌≡◌, ◌≢◌, inl, inr, refl, sym,
  ◌∙◌, ap, subst, arith,
}
use ucla_cs130_googolplex.Prelude.Int.{negsuc}
use ucla_cs130_googolplex.Std.Dict.{Dict}
use ucla_cs130_googolplex.Http.{Http}
use ucla_cs130_googolplex.Files.{FileSystem}
use ucla_cs130_googolplex.Config.Tree.{empty}
use ucla_cs130_googolplex.Config.Locals.{State}
use ucla_cs130_googolplex.Config.Parse.{Result}
use ucla_cs130_googolplex.Config.Parse.Fuel.{parse-ne-out_of_fuel}
use ucla_cs130_googolplex.Config.File.{parse_file}
use ucla_cs130_googolplex.TextGen.Api
use ucla_cs130_googolplex.Factory.{Factory, Made-cases, stopped, raised}
use ucla_cs130_googolplex.Server.{create_dispatcher}
use ucla_cs130_googolplex.Main.{Startup, check_types, endpoint_port, new_server, start_with, main}
use ucla_cs130_googolplex.Main.Start.{Result-cases, AllValidTypes}
use ucla_cs130_googolplex.Main.Served.{AllValidTypes-check_types}
use ucla_cs130_googolplex.Main.Process.{End, exits, undefined, over, run, launched}

module _ (files : FileSystem) (bind : ℕ → Option ℕ) (concurrency argc : ℕ) (file_name : Bytes)
    (d : files.Disk) where
  -- The parser returned, and left this.
  abbrev Left : State → Type 0
  Left s = (b : Bool) × (parse_file files file_name empty (negsuc 0) [] d ≡ Result.returned b s)

  -- Each end of `main` with what it comes from.
  pub data EndsBy : End → Type 0 where
    usage : argc ≢ 2 → EndsBy (exits 1)
    bad_type : (s : State) → Left s → ¬ (AllValidTypes s.addrmap) → EndsBy (exits 1)
    bad_root :
        (s : State) → Left s → create_dispatcher files s.addrmap d ≡ stopped → EndsBy (exits 1)
    no_acceptor : (s : State) → Left s → bind (endpoint_port s.port) ≡ none → EndsBy (exits 0)
    unknown_root :
        (s : State) → Left s → create_dispatcher files s.addrmap d ≡ raised → EndsBy (exits 0)
    no_threads : concurrency ≡ 0 → EndsBy (exits 0)
    no_meaning :
        parse_file files file_name empty (negsuc 0) [] d ≡ Result.undefined_behaviour
        → EndsBy undefined

  parse_file-ne-out_of_fuel : parse_file files file_name empty (negsuc 0) [] d ≢ Result.out_of_fuel
  unfolding parse_file
  parse_file-ne-out_of_fuel e = elim (Option-cases (files.read file_name d)) [
    | inl no_file ↦ absurd (ground arith)
    | inr (text, found) ↦ parse-ne-out_of_fuel text empty [] (sym (rw (parse_file, found) refl) ∙ e)
  ]

  module _ (http : Http) (service : Api.Service) where
    abbrev Launches : Startup files.Disk → Type 0
    Launches o = (e : End) → launched http files service concurrency o ≡ over e → EndsBy e

    -- What the process comes to where `main` comes to `o`.
    launched_over :
        (o o' : Startup files.Disk) (e : End)
        → o ≡ o'
        → launched http files service concurrency o ≡ over e
        → launched http files service concurrency o' ≡ over e
    launched_over o o' e same h = ap (launched http files service concurrency) (sym same) ∙ h

    listening-EndsBy :
        (port : ℕ) (routes : Dict Factory) (d' : files.Disk)
        → Launches (Startup.listening port routes d')
    unfolding launched run
    listening-EndsBy port routes d' e h = elim (Bool-cases (concurrency == 0)) [
      | inl no_thread ↦
          let same : exits 0 ≡ e = ground arith in subst EndsBy same (no_threads (ground arith))
      | inr threads ↦ absurd (ground arith)
    ]

    exited-End :
        (e : End) → launched http files service concurrency Startup.exited ≡ over e → exits 1 ≡ e
    unfolding launched
    exited-End e h = ground arith

    caught-End :
        (e : End) → launched http files service concurrency Startup.caught ≡ over e → exits 0 ≡ e
    unfolding launched
    caught-End e h = ground arith

    new_server-EndsBy : (s : State) → Left s → Launches (new_server files bind s.port s.addrmap d)
    unfolding new_server
    new_server-EndsBy s left e h = elim (Option-cases (bind (endpoint_port s.port))) [
      | inl closed ↦
          subst EndsBy (caught-End e (launched_over _ _ e (rw (new_server, closed) refl) h))
            (no_acceptor s left closed)
      | inr (port, open_) ↦ elim (Made-cases (create_dispatcher files s.addrmap d)) [
        | inl (inl halt) ↦
            subst EndsBy (exited-End e (launched_over _ _ e (rw (new_server, open_, halt) refl) h))
              (bad_root s left halt)
        | inl (inr thrown) ↦
            subst EndsBy
              (caught-End e (launched_over _ _ e (rw (new_server, open_, thrown) refl) h))
              (unknown_root s left thrown)
        | inr ((routes, d'), made_all) ↦
            listening-EndsBy port routes d' e
              (launched_over _ _ e (rw (new_server, open_, made_all) refl) h)
      ]
    ]

    start_with-EndsBy : (s : State) → Left s → Launches (start_with files bind s.port s.addrmap d)
    unfolding start_with launched
    start_with-EndsBy s left e h = elim (Bool-cases (check_types s.addrmap).0) [
      | inl valid ↦ new_server-EndsBy s left e (launched_over _ _ e (rw (start_with, valid) refl) h)
      | inr invalid ↦
          let same : exits 1 ≡ e = ground arith in
          subst EndsBy same (
            bad_type s left (λ types.
              let valid = AllValidTypes-check_types s.addrmap types in absurd (ground arith)))
    ]

    parsed-EndsBy : argc ≡ 2 → Launches (main files bind argc file_name d)
    unfolding main launched
    parsed-EndsBy two e h = elim (Result-cases (parse_file files file_name empty (negsuc 0) [] d)) [
      | inl (b, s, parsed) ↦
          start_with-EndsBy s (b, parsed) e (launched_over _ _ e (rw (two, main, parsed) refl) h)
      | inr (inl undefined_file) ↦
          let same : undefined ≡ e = ground arith in subst EndsBy same (no_meaning undefined_file)
      | inr (inr endless) ↦ absurd (parse_file-ne-out_of_fuel endless)
    ]

    -- Where the process is over as soon as main has come to an end, its status is 1 only where the
    -- number of arguments is not two, or on what the parser left, whatever it returned, not every
    -- handler type is valid or a factory stops the process; its status is 0 only where on what the
    -- parser left the acceptor cannot be opened or a factory throws, or where there are no threads;
    -- and otherwise the behaviour of the parser is undefined: reading the configuration file does
    -- not go on for ever.
    pub launched-EndsBy :
        (e : End)
        → launched http files service concurrency (main files bind argc file_name d) ≡ over e
        → EndsBy e
    unfolding main launched
    launched-EndsBy e h = elim (Bool-cases (argc == 2)) [
      | inl two ↦ parsed-EndsBy (ground arith) e h
      | inr other ↦
          let same : exits 1 ≡ e = ground arith in
          subst EndsBy same (usage (λ two. absurd (ground arith)))
    ]
