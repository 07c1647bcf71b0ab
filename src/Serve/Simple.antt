-- ===== src/Serve/Simple.antt =====
-- src/request_handler_echo.cc, request_handler_not_found.cc, request_handler_health.cc and
-- request_handler_block.cc
use ucla_cs130_googolplex.Prelude.{
  ℕ, suc, ◌+◌, ◌-◌, ◌^◌, Bytes, codes, Bool, true, ◌++◌, none, some,
}
use ucla_cs130_googolplex.Prelude.Int.{ℤ, pos, negsuc}
use ucla_cs130_googolplex.Std.Number.{value, stoi, int_to_string}
use ucla_cs130_googolplex.Std.Strings.{drop, find_last_of}
use ucla_cs130_googolplex.Http.{Http, ok, not_found, content_type}
use ucla_cs130_googolplex.Handler.{not_found_msg}

-- What `sleep` takes: an `unsigned int` of 32 bits.
unfoldable pub seconds : ℤ → ℕ
seconds (pos n) = n
seconds (negsuc n) = 2 ^ 32 - suc n

-- Behind the last slash of the target; 1 where `std::stoi` throws.
unfoldable pub block_time : Bytes → ℤ
block_time target =
    let text : Bytes = elim (find_last_of b'/' target) [
      | none ↦ target
      | some at ↦ drop (at + 1) target
    ] in
    elim (stoi text) [ value n ↦ n | _ ↦ pos 1 ]

module _ (http : Http) where
  open http use {Request, Response, target, print_request, result, set, set_body, prepare_payload}

  unfoldable pub handle_echo_request : Request → Response → Bool × Response
  handle_echo_request request r = (
    true,
    prepare_payload
        (set content_type (codes "text/plain") (set_body (print_request request) (result ok r))),
  )

  unfoldable pub handle_not_found_request : Request → Response → Bool × Response
  handle_not_found_request request r = (
    true,
    prepare_payload
        (set_body not_found_msg (result not_found (set content_type (codes "text/html") r))),
  )

  unfoldable pub handle_health_request : Request → Response → Bool × Response
  handle_health_request request r = (
    true,
    prepare_payload (set content_type (codes "text/plain") (set_body (codes "OK") (result ok r))),
  )

  -- The result, the response, and the seconds that the thread slept.
  unfoldable pub handle_block_request : Request → Response → Bool × Response × ℕ
  unfolding block_time seconds
  handle_block_request request r =
      let time = block_time (target request) in
      (
        true,
        prepare_payload (
            set content_type (codes "text/plain")
              (set_body (codes "Sleep " ++ (int_to_string time ++ codes "s!\n")) (result ok r))),
        seconds time,
      )
