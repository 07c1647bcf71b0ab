-- ===== src/TextGen/Api.antt =====
-- curl, the third-party api behind it that generates texts, and the JSON library, as an interface.
use ucla_cs130_googolplex.Prelude.{Bytes, Bool, List, Option}

-- What the options of an easy handle ask for: a form with one part, and one header field.
pub record Transfer : Type 0 where
  pub url : Bytes
  pub part_name : Bytes
  pub part_data : Bytes
  pub header : Bytes

pub record Service : Type 1 where
  -- whether `curl_easy_init` gives a handle
  pub easy_init : Bool
  -- the pieces that `curl_easy_perform` hands to the write function, in their order. An error of the
  -- transfer is not looked at, and leaves what came before it.
  pub easy_perform : Transfer → List Bytes
  pub Json : Type 0
  -- a string, and an object that is filled key by key
  pub text : Bytes → Json
  pub object : List (Bytes × Json) → Json
  -- `dump(4)` and `json::parse`; `none` where they throw
  pub dump : Json → Option Bytes
  pub parse_json : Bytes → Option Json
  -- `std::string output = j["output"]`; `none` where it throws
  pub output_of : Json → Option Bytes
