-- ===== src/Std/Dict/Order.antt =====
-- The order of the keys in a `std::map<std::string, V>`.
use ucla_cs130_googolplex.Prelude.{
  Bytes, equal, equal_iff, true, false, Bool-cases, [], ◌∷◌, All, ◌≡◌, inl, inr, refl, arith, subst,
}
use ucla_cs130_googolplex.Std.Dict.{Dict, less, contains, find, assign, All-assign}

less_irrefl : (s : Bytes) → less s s ≡ false
unfolding less
less_irrefl [] = refl
less_irrefl (c ∷ s) = ground (arith, less_irrefl s)

less_trans : (s t u : Bytes) → less s t ≡ true → less t u ≡ true → less s u ≡ true
unfolding less
less_trans [] [] u h k = cc
less_trans [] (d ∷ t) [] h k = cc
less_trans [] (d ∷ t) (e ∷ u) h k = refl
less_trans (c ∷ s) [] u h k = cc
less_trans (c ∷ s) (d ∷ t) [] h k = cc
less_trans (c ∷ s) (d ∷ t) (e ∷ u) h k = ground (arith, less_trans s t u)

less_total : (s t : Bytes) → equal s t ≡ false → less s t ≡ false → less t s ≡ true
unfolding less equal
less_total [] [] h k = cc
less_total [] (d ∷ t) h k = cc
less_total (c ∷ s) [] h k = refl
less_total (c ∷ s) (d ∷ t) h k = ground (arith, less_total s t)

-- No key stands twice.
abbrev pub DistinctKeys {ℓ} : {V : Type ℓ} → Dict V → Type 0
DistinctKeys [] = Unit
DistinctKeys ((k, v) ∷ m) = (contains k m ≡ false) × DistinctKeys m

module _ {ℓ} {V : Type ℓ} where
  abbrev AllAfter : Bytes → Dict V → Type 0
  AllAfter k = All (λ e. less k e.0 ≡ true)

  -- The keys strictly rise, which `assign` and `insert` rely on.
  abbrev pub InOrder : Dict V → Type 0
  InOrder [] = Unit
  InOrder ((k, v) ∷ m) = AllAfter k m × InOrder m

  AllAfter-trans : (j k : Bytes) (m : Dict V) → less j k ≡ true → AllAfter k m → AllAfter j m
  AllAfter-trans j k [] h a = tt
  AllAfter-trans j k ((i, v) ∷ m) h (b, a) = (less_trans j k i h b, AllAfter-trans j k m h a)

  pub InOrder-assign : (k : Bytes) (v : V) (m : Dict V) → InOrder m → InOrder (assign k v m)
  unfolding assign
  InOrder-assign k v [] h = (tt, tt)
  InOrder-assign k v ((j, w) ∷ m) (a, h) = elim (Bool-cases (equal j k)) [
    | inl same ↦ rw same (subst (λ i. AllAfter i m) ((equal_iff j k).0 same) a, h)
    | inr other ↦ elim (Bool-cases (less k j)) [
      | inl before ↦ rw (other, before) ((before, AllAfter-trans k j m before a), (a, h))
      | inr after ↦
          let later = less_total k j (ground (arith, equal_iff k j, equal_iff j k)) after in
          rw (other, after)
            (All-assign (λ e. less j e.0 ≡ true) k v m later a, InOrder-assign k v m h)
    ]
  ]

  AllAfter-absent : (k : Bytes) (m : Dict V) → AllAfter k m → contains k m ≡ false
  unfolding contains find
  AllAfter-absent k [] a = refl
  AllAfter-absent k ((j, v) ∷ m) (b, a) =
      ground (arith, equal_iff j k, less_irrefl k, AllAfter-absent k m a)

  pub InOrder-DistinctKeys : (m : Dict V) → InOrder m → DistinctKeys m
  InOrder-DistinctKeys [] h = tt
  InOrder-DistinctKeys ((k, v) ∷ m) (a, h) = (AllAfter-absent k m a, InOrder-DistinctKeys m h)
