-- ===== src/Crud/Ids/Lowest.antt =====
-- Where the loop of `get_next_id` of src/request_handler_crud.cc stops.
use ucla_cs130_googolplex.Prelude.{
  ℕ, ◌+◌, ◌≤◌, ◌<◌, Bool-cases, ltb, true, false, List, [], ◌∷◌, ◌≡◌, refl, inl, inr, arith,
}
use ucla_cs130_googolplex.Crud.Ids.{member, lowest_from}
use ucla_cs130_googolplex.Crud.Ids.Sorted.{
  AllAbove, AllAbove-weaken, Rising, not-member_of_AllAbove,
}

pub le-lowest_from : (n : ℕ) (xs : List ℕ) → n ≤ lowest_from n xs
unfolding lowest_from
le-lowest_from n [] = omega arith
le-lowest_from n (x ∷ xs) = ground (arith, le-lowest_from n xs, le-lowest_from (n + 1) xs)

lowest_from_above : (n : ℕ) (xs : List ℕ) → AllAbove n xs → lowest_from n xs ≡ n
unfolding lowest_from
lowest_from_above n [] h = refl
lowest_from_above n (x ∷ xs) (p, h) = ground (arith, lowest_from_above n xs h)

pub lowest_from_free : (n : ℕ) (xs : List ℕ) → Rising xs → member (lowest_from n xs) xs ≡ false
unfolding lowest_from member
lowest_from_free n [] h = refl
lowest_from_free n (x ∷ xs) (above, h) = elim (Bool-cases (ltb n x)) [
  | inl e ↦
      let same = lowest_from_above n xs (AllAbove-weaken n x xs (ground arith) above) in
      ground (arith, same, not-member_of_AllAbove n x xs (ground arith) above)
  | inr e ↦ ground (
    arith,
    lowest_from_free n xs h,
    lowest_from_free (n + 1) xs h,
    le-lowest_from n xs,
    le-lowest_from (n + 1) xs,
  )
]

-- Every id from `n` up to the result is taken.
pub lowest_from_taken : (n m : ℕ) (xs : List ℕ) → n ≤ m → m < lowest_from n xs → member m xs ≡ true
unfolding lowest_from member
lowest_from_taken n m [] le lt = absurd (omega arith)
lowest_from_taken n m (x ∷ xs) le lt =
    ground (arith, lowest_from_taken n m xs, lowest_from_taken (n + 1) m xs)
