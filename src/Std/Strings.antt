-- ===== src/Std/Strings.antt =====
-- The members of `std::string` that the program calls. `npos` is `none`.
pub mod LastOf
pub mod Prefix
use mathlib.Core.Option
use ucla_cs130_googolplex.Prelude.{
  ℕ, zero, suc, Bytes, ◌==◌, if◌then◌else◌, Bool, true, false, ◌&&◌, [], ◌∷◌, Option, none, some,
}

-- `s.substr(0, n)`
unfoldable pub take : ℕ → Bytes → Bytes
take zero s = []
take (suc n) [] = []
take (suc n) (c ∷ s) = c ∷ take n s

-- `s.substr(n)`, for `n` at most the length
unfoldable pub drop : ℕ → Bytes → Bytes
drop zero s = s
drop (suc n) [] = []
drop (suc n) (c ∷ s) = drop n s

-- `s.c_str()` as a C function reads it: up to the first zero
unfoldable pub c_str : Bytes → Bytes
c_str [] = []
c_str (c ∷ s) = if c == 0 then [] else c ∷ c_str s

-- `s.find_last_of(c)`
unfoldable pub find_last_of : ℕ → Bytes → Option ℕ
find_last_of c [] = none
find_last_of c (x ∷ s) = elim (find_last_of c s) [
  | some i ↦ some (suc i)
  | none ↦ if x == c then some 0 else none
]

unfoldable pub starts_with : Bytes → Bytes → Bool
starts_with [] s = true
starts_with (p ∷ ps) [] = false
starts_with (p ∷ ps) (c ∷ s) = p == c && starts_with ps s

-- `s.find(p)`: the first place where `p` stands in `s`
unfoldable pub find : Bytes → Bytes → Option ℕ
unfolding starts_with
find p [] = if starts_with p [] then some 0 else none
find p (c ∷ s) = if starts_with p (c ∷ s) then some 0 else Option.map suc (find p s)

-- `while (!s.empty() && s.back() == c) s.pop_back();`
unfoldable pub pop_back_while : ℕ → Bytes → Bytes
pop_back_while c [] = []
pop_back_while c (x ∷ s) = elim (pop_back_while c s) [
  | [] ↦ if x == c then [] else x ∷ []
  | y ∷ r ↦ x ∷ y ∷ r
]
