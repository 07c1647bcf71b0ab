-- ===== src/Std/Strings/Prefix.antt =====
-- Prefixes by `find` and `substr`, and the bytes that `pop_back` takes off.
use ucla_cs130_googolplex.Prelude.{
  ℕ, Bytes, length, ◌==◌, Bool-cases, true, [], ◌∷◌, ◌++◌, some, ◌≡◌, ◌≢◌, inl, inr, refl, ap,
  arith, List-cases,
}
use ucla_cs130_googolplex.Std.Strings.{take, drop, starts_with, find, pop_back_while}

pub starts_with-append : (p s : Bytes) → starts_with p (p ++ s) ≡ true
unfolding starts_with
starts_with-append [] s = refl
starts_with-append (c ∷ p) s = ground (arith, starts_with-append p s)

pub starts_with_sound : (p s : Bytes) → starts_with p s ≡ true → (r : Bytes) × (s ≡ p ++ r)
unfolding starts_with
starts_with_sound [] s h = (s, refl)
starts_with_sound (c ∷ p) [] h = cc h
starts_with_sound (c ∷ p) (x ∷ s) h =
    let (r, e) = starts_with_sound p s (ground arith) in (r, ground arith)

pub find-append : (p s : Bytes) → find p (p ++ s) ≡ some 0
unfolding find
find-append [] [] = refl
find-append [] (c ∷ s) = refl
find-append (c ∷ p) s = ground (arith, starts_with-append (c ∷ p) s)

-- `find` gives 0 for a prefix alone.
pub find_zero_sound : (p s : Bytes) → find p s ≡ some 0 → (r : Bytes) × (s ≡ p ++ r)
find_zero_sound p s h = starts_with_sound p s (first p s h)
  where
    first : (p s : Bytes) → find p s ≡ some 0 → starts_with p s ≡ true
    first p [] h = unfold find in ground arith
    first p (c ∷ s) h = unfold find in ground arith

pub drop-append : (p s : Bytes) → drop (length p) (p ++ s) ≡ s
unfolding drop
drop-append [] s = refl
drop-append (c ∷ p) s = drop-append p s

pub take-append : (p s : Bytes) → take (length p) (p ++ s) ≡ p
unfolding take
take-append [] s = refl
take-append (c ∷ p) s = ap (◌∷◌ c) (take-append p s)

module _ (c : ℕ) where
  -- The last byte is not `c`.
  abbrev pub EndsOther : Bytes → Type 0
  EndsOther [] = Unit
  EndsOther (x ∷ []) = x ≢ c
  EndsOther (x ∷ y ∷ s) = EndsOther (y ∷ s)

  pub pop_back_while-EndsOther : (s : Bytes) → EndsOther (pop_back_while c s)
  unfolding pop_back_while
  pop_back_while-EndsOther [] = tt
  pop_back_while-EndsOther (x ∷ s) =
      let ih = pop_back_while-EndsOther s in
      elim (List-cases (pop_back_while c s)) [
        | inl e ↦ elim (Bool-cases (x == c)) [
          | inl t ↦ rw (pop_back_while, e) (rw t tt)
          | inr f ↦ rw (pop_back_while, e) (rw f λ p. ground arith)
        ]
        | inr (y, r, e) ↦ rw (pop_back_while, e) (rw e at ih)
      ]

  pub pop_back_while_of_EndsOther : (s : Bytes) → EndsOther s → pop_back_while c s ≡ s
  unfolding pop_back_while
  pop_back_while_of_EndsOther [] h = refl
  pop_back_while_of_EndsOther (x ∷ []) h = ground arith
  pop_back_while_of_EndsOther (x ∷ y ∷ s) h =
      rw (pop_back_while, pop_back_while_of_EndsOther (y ∷ s) h)
