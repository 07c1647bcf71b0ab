-- ===== src/Tests/Services.antt =====
-- A service for the tests: its only answer is one text, in two pieces, and JSON is that text.
use ucla_cs130_googolplex.Prelude.{Bytes, codes, [], ◌∷◌, true, some}
use ucla_cs130_googolplex.TextGen.Api.{Service}

abbrev pub test_service : Service
test_service = record {
  easy_init = true;
  easy_perform = λ t. codes "on" ∷ codes "ce" ∷ [];
  Json = Bytes;
  text = λ t. t;
  object = λ fields. codes "{}";
  dump = λ j. some j;
  parse_json = λ t. some t;
  output_of = λ j. some j;
}
