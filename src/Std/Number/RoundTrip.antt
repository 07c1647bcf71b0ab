-- ===== src/Std/Number/RoundTrip.antt =====
-- What `stoi` reads of the prints of `to_string`, and of texts of digits.
use mathlib.Core.List.{cons-ne-nil}
use ucla_cs130_googolplex.Prelude.{
  ℕ, zero, suc, ◌+◌, ◌%◌, ◌/◌, ◌≤◌, ◌<◌, Bytes, All, [], ◌∷◌, ◌≡◌, ◌≢◌, refl, arith, if◌then◌else◌,
  leb, ltb, Bool-cases, inl, inr, true,
}
use ucla_cs130_googolplex.Prelude.Int.{pos}
use ucla_cs130_googolplex.Std.Number.{
  value, out_of_range, int_max, is_digit, leading_digits, decimal, stoi, digits_onto, to_string,
}

abbrev pub AllDigits : Bytes → Type 0
AllDigits = All (λ c. is_digit c ≡ true)

leading_digits_all : (s : Bytes) → AllDigits s → leading_digits s ≡ s
unfolding leading_digits
leading_digits_all [] h = refl
leading_digits_all (c ∷ s) (d, h) = rw d (rw (leading_digits_all s h))

-- On digits alone `stoi` throws only for a value past `int_max`.
pub stoi_digits :
    (s : Bytes)
    → s ≢ []
    → AllDigits s
    → stoi s ≡ (if leb (decimal 0 s) int_max then value (pos (decimal 0 s)) else out_of_range)
unfolding stoi
stoi_digits [] ne h = absurd (ne refl)
stoi_digits (c ∷ s) ne (d, h) = ground (arith, leading_digits_all s h)

is_digit_last : (n : ℕ) → is_digit (b'0' + n % 10) ≡ true
unfolding is_digit
is_digit_last n = ground arith

digits_onto-AllDigits :
    (fuel n : ℕ) (out : Bytes) → AllDigits out → AllDigits (digits_onto fuel n out)
unfolding digits_onto
digits_onto-AllDigits zero n out h = h
digits_onto-AllDigits (suc fuel) n out h = elim (Bool-cases (ltb n 10)) [
  | inl last ↦ rw last (is_digit_last n, h)
  | inr more ↦ rw more (digits_onto-AllDigits fuel (n / 10) _ (is_digit_last n, h))
]

digits_onto-ne-nil : (fuel n : ℕ) (out : Bytes) → out ≢ [] → digits_onto fuel n out ≢ []
unfolding digits_onto
digits_onto-ne-nil zero n out h = h
digits_onto-ne-nil (suc fuel) n out h =
    ground (arith, digits_onto-ne-nil fuel (n / 10) ((b'0' + n % 10) ∷ out) (cons-ne-nil _ _))

decimal-digits_onto :
    (fuel n : ℕ) (out : Bytes) → n < fuel → decimal 0 (digits_onto fuel n out) ≡ decimal n out
unfolding digits_onto decimal
decimal-digits_onto zero n out h = elim h [ ]
decimal-digits_onto (suc fuel) n out h =
    ground (arith, decimal-digits_onto fuel (n / 10) ((b'0' + n % 10) ∷ out))

pub to_string-AllDigits : (n : ℕ) → AllDigits (to_string n)
unfolding to_string
to_string-AllDigits n = digits_onto-AllDigits (suc n) n [] tt

pub to_string-ne-nil : (n : ℕ) → to_string n ≢ []
unfolding to_string
to_string-ne-nil n =
    ground (arith, digits_onto-ne-nil n (n / 10) ((b'0' + n % 10) ∷ []) (cons-ne-nil _ _))

pub decimal-to_string : (n : ℕ) → decimal 0 (to_string n) ≡ n
unfolding to_string decimal
decimal-to_string n = decimal-digits_onto (suc n) n [] (omega arith)

-- Every `int` that is not negative is read back from its print.
pub stoi-to_string : (n : ℕ) → n ≤ int_max → stoi (to_string n) ≡ value (pos n)
stoi-to_string n h = ground (
  arith,
  stoi_digits (to_string n) (to_string-ne-nil n) (to_string-AllDigits n),
  decimal-to_string n,
)
