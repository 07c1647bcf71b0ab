-- ===== src/Std/Dict.antt =====
-- `std::map<std::string, V>` as an association list in the order of its keys.
pub mod Order
use ucla_cs130_googolplex.Prelude.{
  Bytes, equal, equal_iff, equal_refl, ◌==◌, ltb, if◌then◌else◌, Bool, true, false, ◌||◌, ◌&&◌,
  List, [], ◌∷◌, Option, none, some, ◌≡◌, refl, arith, All, Bool-cases, inl, inr, subst,
}

abbrev pub Dict {ℓ} : Type ℓ → Type ℓ
Dict V = List (Bytes × V)

-- `std::less<std::string>`: the order of the bytes, and a prefix comes first.
unfoldable pub less : Bytes → Bytes → Bool
less [] [] = false
less [] (y ∷ ys) = true
less (x ∷ xs) [] = false
less (x ∷ xs) (y ∷ ys) = ltb x y || (x == y && less xs ys)

module _ {ℓ} {V : Type ℓ} where
  -- `m.find(k)`; `none` is `m.end()`.
  unfoldable pub find : Bytes → Dict V → Option V
  find k [] = none
  find k ((j, v) ∷ m) = if equal j k then some v else find k m

  -- `m.find(k) != m.end()` and `m.count(k) > 0`
  unfoldable pub contains : Bytes → Dict V → Bool
  unfolding find
  contains k m = elim (find k m) [ none ↦ false | some v ↦ true ]

  -- `m[k] = v`
  unfoldable pub assign : Bytes → V → Dict V → Dict V
  assign k v [] = (k, v) ∷ []
  assign k v ((j, w) ∷ m) =
      if equal j k
      then (k, v) ∷ m
      else if less k j
      then (k, v) ∷ (j, w) ∷ m
      else (j, w) ∷ assign k v m

  -- `m.insert({k, v})` keeps the value of a key that is there.
  unfoldable pub insert : Bytes → V → Dict V → Dict V
  unfolding contains assign
  insert k v m = if contains k m then m else assign k v m

  pub insert_absent :
      (k : Bytes) (v : V) (m : Dict V) → find k m ≡ none → insert k v m ≡ assign k v m
  unfolding insert
  insert_absent k v m e = rw (contains, e) refl

  pub find-assign :
      (k j : Bytes) (v : V) (m : Dict V)
      → find j (assign k v m) ≡ (if equal k j then some v else find j m)
  unfolding find assign
  find-assign k j v [] = refl
  find-assign k j v ((i, w) ∷ m) =
      ground (arith, equal_iff k j, equal_iff i k, equal_iff i j, find-assign k j v m)

  pub find-assign_self : (k : Bytes) (v : V) (m : Dict V) → find k (assign k v m) ≡ some v
  find-assign_self k v m = ground (arith, find-assign k k v m, equal_refl k)

  pub assign-assign : (k : Bytes) (v w : V) (m : Dict V) → assign k v (assign k w m) ≡ assign k v m
  unfolding assign
  assign-assign k v w [] = ground (arith, equal_refl k)
  assign-assign k v w ((j, u) ∷ m) = ground (arith, equal_refl k, assign-assign k v w m)

  -- What holds of the new binding and of the old ones holds of all.
  pub All-assign {κ} :
      (P : Bytes × V → Type κ) (k : Bytes) (v : V) (m : Dict V)
      → P (k, v)
      → All P m
      → All P (assign k v m)
  unfolding assign
  All-assign P k v [] p h = (p, tt)
  All-assign P k v ((j, w) ∷ m) p (q, h) = ground (arith, All-assign P k v m p h)

  pub All-find {κ} :
      (P : Bytes × V → Type κ) (k : Bytes) (m : Dict V) {v : V}
      → find k m ≡ some v
      → All P m
      → P (k, v)
  unfolding find
  All-find P k [] e h = ground arith
  All-find P k ((j, w) ∷ m) e (q, h) = elim (Bool-cases (equal j k)) [
    | inl same ↦ subst P (ground (arith, equal_iff j k)) q
    | inr other ↦ All-find P k m (ground arith) h
  ]

  pub contains-assign :
      (k j : Bytes) (v : V) (m : Dict V) → contains j (assign k v m) ≡ (equal k j || contains j m)
  unfolding contains
  contains-assign k j v m = ground (arith, find-assign k j v m)
