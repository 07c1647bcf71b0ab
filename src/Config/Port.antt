-- ===== src/Config/Port.antt =====
-- `safeportSTOI` of src/config_parser.cc.
use ucla_cs130_googolplex.Prelude.{ℕ, ◌≤◌, Bytes, leb, if◌then◌else◌, ◌||◌, ◌≡◌, arith}
use ucla_cs130_googolplex.Prelude.Int.{ℤ, pos, negsuc, ltb_ℤ}
use ucla_cs130_googolplex.Std.Number.{
  Stoi, value, invalid_argument, out_of_range, stoi, to_string, int_max,
}
use ucla_cs130_googolplex.Std.Number.RoundTrip.{stoi-to_string}

-- The value of `result` behind the `try`: it starts as -1, and a `catch` leaves it.
after_try : Stoi → ℤ
after_try (value n) = n
after_try invalid_argument = negsuc 0
after_try out_of_range = negsuc 0

check_range : ℤ → ℤ
check_range n = if ltb_ℤ n (pos 0) || ltb_ℤ (pos 65535) n then negsuc 0 else n

unfoldable pub safeport_stoi : Bytes → ℤ
unfolding after_try check_range
safeport_stoi s = check_range (after_try (stoi s))

-- A port, or -1 for none.
abbrev pub IsPort : ℤ → Type 0
IsPort (pos n) = n ≤ 65535
IsPort (negsuc n) = n ≡ 0

check_range-IsPort : (n : ℤ) → IsPort (check_range n)
unfolding check_range
check_range-IsPort (pos n) = ground arith
check_range-IsPort (negsuc n) = ground arith

-- Whatever the text, the port is -1 or a number from 0 to 65535.
pub safeport_stoi-IsPort : (s : Bytes) → IsPort (safeport_stoi s)
unfolding safeport_stoi
safeport_stoi-IsPort s = check_range-IsPort (after_try (stoi s))

-- Every port is read back from its decimal print, and every larger int is refused.
pub safeport_stoi-to_string :
    (n : ℕ) → n ≤ int_max → safeport_stoi (to_string n) ≡ (if leb n 65535 then pos n else negsuc 0)
unfolding safeport_stoi
safeport_stoi-to_string n h = rw (stoi-to_string n h) (ground arith)
