-- ===== src/Crud/Ids/Sorted.antt =====
-- The order of the lists of ids in src/request_handler_crud.cc.
use ucla_cs130_googolplex.Prelude.{
  ℕ, ◌<◌, ◌≤◌, All, leb, ◌==◌, if◌then◌else◌, Bool-cases, false, ◌||◌, List, [], ◌∷◌, ◌++◌, ◌≡◌,
  refl, arith, inl, inr,
}
use ucla_cs130_googolplex.Prelude.Int.{ℤ, pos, negsuc}
use ucla_cs130_googolplex.Crud.Ids.{member, insert_sorted, sort, erase_id}

abbrev pub AllAbove : ℕ → List ℕ → Type 0
AllAbove n = All (λ x. n < x)

abbrev pub Rising : List ℕ → Type 0
Rising [] = Unit
Rising (x ∷ xs) = AllAbove x xs × Rising xs

pub AllAbove-weaken : (m n : ℕ) (xs : List ℕ) → m ≤ n → AllAbove n xs → AllAbove m xs
AllAbove-weaken m n [] le h = tt
AllAbove-weaken m n (x ∷ xs) le (p, h) = (omega arith, AllAbove-weaken m n xs le h)

pub not-member_of_AllAbove : (m n : ℕ) (xs : List ℕ) → m ≤ n → AllAbove n xs → member m xs ≡ false
unfolding member
not-member_of_AllAbove m n [] le h = refl
not-member_of_AllAbove m n (x ∷ xs) le (p, h) = ground (arith, not-member_of_AllAbove m n xs le h)

pub member-insert_sorted :
    (m n : ℕ) (xs : List ℕ) → member m (insert_sorted n xs) ≡ (n == m || member m xs)
unfolding member insert_sorted
member-insert_sorted m n [] = refl
member-insert_sorted m n (x ∷ xs) = ground (arith, member-insert_sorted m n xs)

pub member-sort : (m : ℕ) (xs : List ℕ) → member m (sort xs) ≡ member m xs
unfolding member sort
member-sort m [] = refl
member-sort m (x ∷ xs) = rw (member-insert_sorted m x (sort xs)) (rw (member-sort m xs))

pub member-append : (m : ℕ) (xs ys : List ℕ) → member m (xs ++ ys) ≡ (member m xs || member m ys)
unfolding member
member-append m [] ys = refl
member-append m (x ∷ xs) ys = ground (arith, member-append m xs ys)

AllAbove-insert_sorted :
    (m n : ℕ) (xs : List ℕ) → m < n → AllAbove m xs → AllAbove m (insert_sorted n xs)
unfolding insert_sorted
AllAbove-insert_sorted m n [] lt h = (lt, tt)
AllAbove-insert_sorted m n (x ∷ xs) lt (p, h) = elim (Bool-cases (leb n x)) [
  | inl e ↦ rw e (lt, (p, h))
  | inr e ↦ rw e (p, AllAbove-insert_sorted m n xs lt h)
]

insert_sorted-Rising :
    (n : ℕ) (xs : List ℕ) → member n xs ≡ false → Rising xs → Rising (insert_sorted n xs)
unfolding insert_sorted member
insert_sorted-Rising n [] absent h = (tt, tt)
insert_sorted-Rising n (x ∷ xs) absent (above, h) = elim (Bool-cases (leb n x)) [
  | inl e ↦ rw e ((ground arith, AllAbove-weaken n x xs (ground arith) above), (above, h))
  | inr e ↦ rw e (
    AllAbove-insert_sorted x n xs (ground arith) above,
    insert_sorted-Rising n xs (ground arith) h,
  )
]

-- A new id at the end of a rising list is sorted into it.
pub sort-Rising :
    (n : ℕ) (xs : List ℕ) → member n xs ≡ false → Rising xs → Rising (sort (xs ++ n ∷ []))
unfolding sort member
sort-Rising n [] absent h = (tt, tt)
sort-Rising n (x ∷ xs) absent (above, h) =
    insert_sorted-Rising x (sort (xs ++ n ∷ []))
      (rw (member-sort x (xs ++ n ∷ [])) (
        ground
          (arith, member-append x xs (n ∷ []), not-member_of_AllAbove x x xs (omega arith) above)))
      (sort-Rising n xs (ground arith) h)

AllAbove-erase_id : (m n : ℕ) (xs : List ℕ) → AllAbove m xs → AllAbove m (erase_id (pos n) xs)
unfolding erase_id
AllAbove-erase_id m n [] h = tt
AllAbove-erase_id m n (x ∷ xs) (p, h) = elim (Bool-cases (x == n)) [
  | inl e ↦ rw e (AllAbove-erase_id m n xs h)
  | inr e ↦ rw e (p, AllAbove-erase_id m n xs h)
]

pub erase_id-Rising : (value : ℤ) (xs : List ℕ) → Rising xs → Rising (erase_id value xs)
unfolding erase_id
erase_id-Rising (negsuc n) xs h = h
erase_id-Rising (pos n) [] h = tt
erase_id-Rising (pos n) (x ∷ xs) (above, h) = elim (Bool-cases (x == n)) [
  | inl e ↦ rw e (erase_id-Rising (pos n) xs h)
  | inr e ↦ rw e (AllAbove-erase_id x n xs above, erase_id-Rising (pos n) xs h)
]

pub member-erase_id :
    (m n : ℕ) (xs : List ℕ)
    → member m (erase_id (pos n) xs) ≡ (if m == n then false else member m xs)
unfolding erase_id member
member-erase_id m n [] = ground arith
member-erase_id m n (x ∷ xs) = ground (arith, member-erase_id m n xs)
