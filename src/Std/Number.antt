-- ===== src/Std/Number.antt =====
-- `std::stoi` and `std::to_string`, for an `int` of 32 bits.
pub mod RoundTrip
use ucla_cs130_googolplex.Prelude.{
  ℕ, zero, suc, ◌+◌, ◌-◌, ◌*◌, ◌/◌, ◌%◌, Bytes, codes, ltb, leb, ◌==◌, if◌then◌else◌, Bool, true,
  false, ◌&&◌, ◌||◌, [], ◌∷◌, ◌≡◌, refl,
}
use ucla_cs130_googolplex.Prelude.Int.{ℤ, pos, negsuc, sub_ℕ}

abbrev pub int_max : ℕ
int_max = 2147483647

-- The result of `std::stoi`: a value, or one of the two exceptions that it throws.
pub data Stoi : Type 0 where
  value : ℤ → Stoi
  invalid_argument out_of_range : Stoi

-- `std::isdigit`
unfoldable pub is_digit : ℕ → Bool
is_digit c = leb b'0' c && leb c b'9'

is_space : ℕ → Bool
is_space c = c == b' ' || leb 9 c && leb c 13

skip_space : Bytes → Bytes
skip_space [] = []
skip_space (c ∷ s) = if is_space c then skip_space s else c ∷ s

pub leading_digits : Bytes → Bytes
leading_digits [] = []
leading_digits (c ∷ s) = if is_digit c then c ∷ leading_digits s else []

-- The number that the digits `s` spell behind `n`.
unfoldable pub decimal : ℕ → Bytes → ℕ
decimal n [] = n
decimal n (c ∷ s) = decimal (n * 10 + (c - b'0')) s

in_int : Bool → ℕ → Stoi
in_int false n = if leb n int_max then value (pos n) else out_of_range
in_int true n = if leb n (int_max + 1) then value (sub_ℕ 0 n) else out_of_range

convert : Bool → Bytes → Stoi
convert negative [] = invalid_argument
convert negative (c ∷ s) = in_int negative (decimal 0 (c ∷ s))

signed : Bytes → Stoi
signed [] = convert false []
signed (c ∷ s) =
    if c == b'-'
    then convert true (leading_digits s)
    else if c == b'+'
    then convert false (leading_digits s)
    else convert false (leading_digits (c ∷ s))

unfoldable pub stoi : Bytes → Stoi
unfolding signed convert in_int leading_digits decimal skip_space is_space is_digit
stoi s = signed (skip_space s)

-- The digits of `n` in front of `out`; `to_string` gives enough fuel.
digits_onto : ℕ → ℕ → Bytes → Bytes
digits_onto zero n out = out
digits_onto (suc fuel) n out =
    let out' = (b'0' + n % 10) ∷ out in
    let longer = digits_onto fuel (n / 10) out' in if ltb n 10 then out' else longer

unfoldable pub to_string : ℕ → Bytes
unfolding digits_onto
to_string n = digits_onto (suc n) n []

unfoldable pub int_to_string : ℤ → Bytes
unfolding to_string
int_to_string (pos n) = to_string n
int_to_string (negsuc n) = b'-' ∷ to_string (suc n)

to_string_test : int_to_string (negsuc 1049) ≡ codes "-1050"
unfolding int_to_string
to_string_test = refl

stoi_tests :
    (stoi (codes " -12x") ≡ value (negsuc 11))
    × (stoi (codes "x1") ≡ invalid_argument)
    × (stoi (codes "2147483647") ≡ value (pos 2147483647))
    × (stoi (codes "2147483648") ≡ out_of_range)
unfolding stoi
stoi_tests = (refl, refl, refl, refl)
