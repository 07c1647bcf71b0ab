-- ===== src/Std/Strings/LastOf.antt =====
-- `find_last_of` splits a string at the last byte that is `c`.
use ucla_cs130_googolplex.Prelude.{
  ℕ, suc, Bytes, ◌==◌, ==_iff, Bool-cases, [], ◌∷◌, ◌++◌, none, some, ◌≡◌, ◌≢◌, ◌⊎◌, inl, inr, refl,
  ap, arith, length, ◌<◌,
}
use ucla_cs130_googolplex.Std.Strings.{take, find_last_of}

module _ (c : ℕ) where
  -- `s` is `q`, then `c`, then something.
  abbrev pub SplitsAt : Bytes → Bytes → Type 0
  SplitsAt q s = (r : Bytes) × (s ≡ q ++ c ∷ r)

  abbrev pub NoSplit : Bytes → Type 0
  NoSplit s = (q : Bytes) → ¬ SplitsAt q s

  -- The part in front of place `i` is split off, and it is the longest such part.
  abbrev pub LastSplit : ℕ → Bytes → Type 0
  LastSplit i s =
      SplitsAt (take i s) s
      × ((q : Bytes) → SplitsAt q s → (q ≡ take i s) ⊎ SplitsAt q (take i s))
      × (length (take i s) ≡ i)
      × (i < length s)

  pub NoSplit-nil : NoSplit []
  NoSplit-nil [] (r, e) = cc e
  NoSplit-nil (y ∷ q) (r, e) = cc e

  SplitsAt-tail : (x : ℕ) (s : Bytes) (y : ℕ) (q : Bytes) → SplitsAt (y ∷ q) (x ∷ s) → SplitsAt q s
  SplitsAt-tail x s y q (r, e) = (r, ground (arith))

  SplitsAt-cons : (x : ℕ) (s : Bytes) (q : Bytes) → SplitsAt q s → SplitsAt (x ∷ q) (x ∷ s)
  SplitsAt-cons x s q (r, e) = (r, ap (◌∷◌ x) e)

  NoSplit-cons : (x : ℕ) (s : Bytes) → NoSplit s → x ≢ c → NoSplit (x ∷ s)
  NoSplit-cons x s h ne [] (r, e) = ne (ground arith)
  NoSplit-cons x s h ne (y ∷ q) p = h q (SplitsAt-tail x s y q p)

  LastSplit-zero : (x : ℕ) (s : Bytes) → NoSplit s → x ≡ c → LastSplit 0 (x ∷ s)
  unfolding take
  LastSplit-zero x s h e = ((s, ap (λ t. t ∷ s) e), only, refl, omega arith)
    where
      only : (q : Bytes) → SplitsAt q (x ∷ s) → (q ≡ []) ⊎ SplitsAt q []
      only [] p = inl refl
      only (y ∷ q) p = absurd (h q (SplitsAt-tail x s y q p))

  LastSplit-suc : (x : ℕ) (s : Bytes) (i : ℕ) → LastSplit i s → LastSplit (suc i) (x ∷ s)
  unfolding take
  LastSplit-suc x s i (here, longest, len, inside) =
      (SplitsAt-cons x s (take i s) here, longest', ap suc len, omega arith)
    where
      longest' : (q : Bytes) → SplitsAt q (x ∷ s) → (q ≡ x ∷ take i s) ⊎ SplitsAt q (x ∷ take i s)
      longest' [] (r, e) = inr (take i s, ground arith)
      longest' (y ∷ q) (r, e) = elim (longest q (SplitsAt-tail x s y q (r, e))) [
        | inl same ↦ inl (ground arith)
        | inr (r', e') ↦ inr (r', ground arith)
      ]

  pub find_last_of-cases :
      (s : Bytes)
      → ((find_last_of c s ≡ none) × NoSplit s)
        ⊎ ((i : ℕ) × (find_last_of c s ≡ some i) × LastSplit i s)
  unfolding find_last_of
  find_last_of-cases [] = inl (refl, NoSplit-nil)
  find_last_of-cases (x ∷ s) = elim (find_last_of-cases s) [
    | inl (e, h) ↦ elim (Bool-cases (x == c)) [
      | inl t ↦ inr (0, rw (e, find_last_of) (rw t), LastSplit-zero x s h ((==_iff x c).0 t))
      | inr f ↦ inl (rw (e, find_last_of) (rw f), NoSplit-cons x s h (λ p. ground arith))
    ]
    | inr (i, e, h) ↦ inr (suc i, rw e, LastSplit-suc x s i h)
  ]
