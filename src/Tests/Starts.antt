-- ===== src/Tests/Starts.antt =====
-- `main` at concrete configuration files.
use ucla_cs130_googolplex.Prelude.{
  ℕ, Bytes, codes, equal, Bool, some, inl, inr, arith, [], ◌∷◌, none, All, List, ◌≡◌, refl,
}
use ucla_cs130_googolplex.Prelude.Int.{negsuc}
use ucla_cs130_googolplex.Std.Dict.{Dict, contains, find, insert}
use ucla_cs130_googolplex.Config.Arg.{default_arg}
use ucla_cs130_googolplex.Config.Locals.{State}
use ucla_cs130_googolplex.Config.Tree.{empty}
use ucla_cs130_googolplex.Config.Parse.{Result, parse}
use ucla_cs130_googolplex.Config.Token.{parse_token}
use ucla_cs130_googolplex.Config.Port.{safeport_stoi}
use ucla_cs130_googolplex.Config.Stack.{emplace_back, back_tokens, push_token, open_block, plug}
use ucla_cs130_googolplex.Std.Number.{stoi}
use ucla_cs130_googolplex.Config.File.{parse_file}
use ucla_cs130_googolplex.Factory.{Factory}
use ucla_cs130_googolplex.Server.{kind_of}
use ucla_cs130_googolplex.Server.Routes.{factory_of, routed}
use ucla_cs130_googolplex.Main.{listening, main}
use ucla_cs130_googolplex.Main.Start.{AllValidTypes, IsPortOf, main-listening, main_unreadable}
use ucla_cs130_googolplex.Config.Tree.{to_string}
use ucla_cs130_googolplex.Config.Token.{ends_token}
use ucla_cs130_googolplex.Config.Listing.{
  Site, bare, rooted, stored, keyed, listing, site_at, IsSite,
}
use ucla_cs130_googolplex.Main.{is_among}
use ucla_cs130_googolplex.Main.Served.{main_served}
use ucla_cs130_googolplex.Main.Process.{over, exits, launched}
use ucla_cs130_googolplex.Main.Process.Endings.{EndsBy, launched-EndsBy}
use ucla_cs130_googolplex.Tests.Messages.{test_http}
use ucla_cs130_googolplex.Tests.Services.{test_service}
use ucla_cs130_googolplex.Tests.Disks.{file, folder, test_files}

abbrev with_config : test_files.Disk
with_config = (codes "c", file (codes "listen 80; location / EchoHandler { }")) ∷ []

abbrev echo_routes : Dict Factory
echo_routes =
    (
      codes "/",
      factory_of (record default_arg { handler_type = codes "EchoHandler"; location = codes "/" }),
    )
    ∷ []

starts_echo : main test_files some 2 (codes "c") with_config ≡ listening 80 echo_routes with_config
unfolding main find equal parse parse_token emplace_back back_tokens push_token safeport_stoi stoi
    open_block plug insert
starts_echo = refl

main-listening_example :
    (b : Bool) × (s : State) × (parse_file test_files (codes "c") empty (negsuc 0) [] with_config
      ≡ Result.returned b s)
    × ((q : ℕ) × IsPortOf s.port q × (some q ≡ some 80))
    × AllValidTypes s.addrmap
    × ((l : Bytes) → find l echo_routes ≡ routed (find l s.addrmap) none)
main-listening_example =
    main-listening test_files some 2 (codes "c") with_config with_config 80 echo_routes starts_echo

main_unreadable_example : main test_files some 2 (codes "c") [] ≡ listening 65535 [] []
unfolding find
main_unreadable_example = main_unreadable test_files some (codes "c") 65535 [] refl refl

-- A part of config/default.config.
abbrev sites : List Site
sites =
    record {
      location = codes "/text";
      handler_type = codes "TextGenHandler";
      content = keyed (codes "../text_gen") (codes "c97c");
    }
    ∷ record {
      location = codes "/api";
      handler_type = codes "CrudHandler";
      content = stored (codes "../crud_data");
    }
    ∷ record { location = codes "/echo"; handler_type = codes "EchoHandler"; content = bare }
    ∷ record {
      location = codes "/static1";
      handler_type = codes "StaticHandler";
      content = rooted (codes "../static/static1");
    }
    ∷ []

sites_print :
    to_string (listing (codes "80") sites) 0
    ≡ codes
        "listen 80;\nlocation /static1 StaticHandler {\n  root ../static/static1;\n}\nlocation /echo EchoHandler {\n}\nlocation /api CrudHandler {\n  data_path ../crud_data;\n}\nlocation /text TextGenHandler {\n  root ../text_gen;\n  api-key c97c;\n}\n"
unfolding to_string listing
sites_print = refl

abbrev with_listing : test_files.Disk
with_listing =
    (codes "c", file (to_string (listing (codes "80") sites) 0))
    ∷ (codes "../crud_data", folder)
    ∷ []

sites-IsSite : All IsSite sites
unfolding ends_token equal
sites-IsSite = (
  (
    ((refl, refl), (refl, (refl, (refl, (refl, tt))))),
    refl,
    (
      (refl, refl),
      (
        refl,
        (
          refl,
          (
            refl,
            (refl, (refl, (refl, (refl, (refl, (refl, (refl, (refl, (refl, (refl, tt)))))))))),
          ),
        ),
      ),
    ),
    (
      (
        (refl, refl),
        (refl, (refl, (refl, (refl, (refl, (refl, (refl, (refl, (refl, (refl, tt)))))))))),
      ),
      ((refl, refl), (refl, (refl, (refl, tt)))),
    ),
  ),
  (
    (
      ((refl, refl), (refl, (refl, (refl, tt)))),
      refl,
      (
        (refl, refl),
        (refl, (refl, (refl, (refl, (refl, (refl, (refl, (refl, (refl, (refl, tt)))))))))),
      ),
      (
        (refl, refl),
        (refl, (refl, (refl, (refl, (refl, (refl, (refl, (refl, (refl, (refl, (refl, tt))))))))))),
      ),
    ),
    (
      (
        ((refl, refl), (refl, (refl, (refl, (refl, tt))))),
        refl,
        (
          (refl, refl),
          (refl, (refl, (refl, (refl, (refl, (refl, (refl, (refl, (refl, (refl, tt)))))))))),
        ),
        tt,
      ),
      (
        (
          ((refl, refl), (refl, (refl, (refl, (refl, (refl, (refl, (refl, tt)))))))),
          refl,
          (
            (refl, refl),
            (
              refl,
              (
                refl,
                (refl, (refl, (refl, (refl, (refl, (refl, (refl, (refl, (refl, (refl, tt)))))))))),
              ),
            ),
          ),
          (
            (refl, refl),
            (
              refl,
              (
                refl,
                (
                  refl,
                  (
                    refl,
                    (
                      refl,
                      (
                        refl,
                        (
                          refl,
                          (
                            refl,
                            (refl, (refl, (refl, (refl, (refl, (refl, (refl, (refl, tt)))))))),
                          ),
                        ),
                      ),
                    ),
                  ),
                ),
              ),
            ),
          ),
        ),
        tt,
      ),
    ),
  ),
)

main_served_example :
    (routes : Dict Factory) × (main test_files some 2 (codes "c") with_listing
      ≡ listening 80 routes with_listing)
    × ((l : Bytes) → find l routes ≡ routed (site_at l sites) none)
unfolding find equal contains kind_of ends_token is_among safeport_stoi stoi
main_served_example =
    main_served test_files some (codes "c") (codes "80") 80 80 sites with_listing refl
      ((refl, refl), (refl, tt)) refl sites-IsSite (refl, (refl, (refl, (refl, tt))))
      (
        inl (λ e. absurd (ground arith)),
        (
          inr (record { status = refl; here = refl; folder = refl }),
          (inl (λ e. absurd (ground arith)), (inl (λ e. absurd (ground arith)), tt)),
        ),
      )
      refl

-- A handler type that there is not.
abbrev with_bad_type : test_files.Disk
with_bad_type = (codes "c", file (codes "listen 80; location / Handler { }")) ∷ []

ends_on_bad_type :
    launched test_http test_files test_service 1 (main test_files some 2 (codes "c") with_bad_type)
    ≡ over (exits 1)
unfolding main find equal parse parse_token emplace_back back_tokens push_token safeport_stoi stoi
    open_block plug insert launched is_among
ends_on_bad_type = refl

launched-EndsBy_example : EndsBy test_files some 1 2 (codes "c") with_bad_type (exits 1)
launched-EndsBy_example =
    launched-EndsBy test_files some 1 2 (codes "c") with_bad_type test_http test_service (exits 1)
      ends_on_bad_type
