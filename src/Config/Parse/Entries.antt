-- ===== src/Config/Parse/Entries.antt =====
-- The entries of `addrmap` and their locations, in src/config_parser.cc.
use ucla_cs130_googolplex.Prelude.{Bytes, All, Option-cases, Bool-cases, inl, inr, ◌≡◌, refl, arith}
use ucla_cs130_googolplex.Std.Dict.{Dict, find, contains, assign, insert, All-assign}
use ucla_cs130_googolplex.Std.Dict.Order.{InOrder, InOrder-assign}
use ucla_cs130_googolplex.Std.Vector.{Vector, push_back}
use ucla_cs130_googolplex.Config.Arg.{ConfigArg}
use ucla_cs130_googolplex.Config.Bindings.{set_root, set_api_key, set_empty, bind_empty}

-- Every entry stands at its own location.
abbrev pub AtLocation : Bytes × ConfigArg → Type 0
AtLocation entry = entry.1.location ≡ entry.0

abbrev pub AllAtLocation : Dict ConfigArg → Type 0
AllAtLocation = All AtLocation

-- Every entry stands at its own location, and the locations rise, as in a `std::map`.
abbrev pub IsAddrmap : Dict ConfigArg → Type 0
IsAddrmap m = AllAtLocation m × InOrder m

module _ (k : Bytes) (a : ConfigArg) (m : Dict ConfigArg) (e : a.location ≡ k)
    (h : IsAddrmap m) where
  assign-IsAddrmap : IsAddrmap (assign k a m)
  assign-IsAddrmap = (All-assign AtLocation k a m e h.0, InOrder-assign k a m h.1)

  insert-IsAddrmap : IsAddrmap (insert k a m)
  unfolding insert
  insert-IsAddrmap = elim (Bool-cases (contains k m)) [
    | inl there ↦ rw there h
    | inr absent ↦ rw absent assign-IsAddrmap
  ]

module _ (location config_type token : Bytes) (m : Dict ConfigArg) (h : IsAddrmap m) where
  pub set_root-IsAddrmap : IsAddrmap (set_root location config_type token m)
  unfolding set_root
  set_root-IsAddrmap = elim (Option-cases (find location m)) [
    | inl e ↦ rw (set_root, e) (insert-IsAddrmap location _ m refl h)
    | inr (arg, e) ↦ rw (set_root, e) (assign-IsAddrmap location _ m refl h)
  ]

  pub set_api_key-IsAddrmap : IsAddrmap (set_api_key location config_type token m)
  unfolding set_api_key
  set_api_key-IsAddrmap = elim (Option-cases (find location m)) [
    | inl e ↦ rw (set_api_key, e) (insert-IsAddrmap location _ m refl h)
    | inr (arg, e) ↦ rw (set_api_key, e) (assign-IsAddrmap location _ m refl h)
  ]

set_empty-IsAddrmap :
    (location config_type : Bytes) (m : Dict ConfigArg)
    → IsAddrmap m
    → IsAddrmap (set_empty location config_type m)
unfolding set_empty
set_empty-IsAddrmap location config_type m h = elim (Option-cases (find location m)) [
  | inl e ↦ rw (set_empty, e) (insert-IsAddrmap location _ m refl h)
  | inr (arg, e) ↦ rw (set_empty, e) (assign-IsAddrmap location _ m refl h)
]

pub bind_empty-IsAddrmap :
    (tokens : Vector Bytes) (m : Dict ConfigArg) → IsAddrmap m → IsAddrmap (bind_empty tokens m)
unfolding bind_empty
bind_empty-IsAddrmap (push_back (push_back (push_back _ word) location) config_type) m h =
    ground (arith, set_empty-IsAddrmap location config_type m h)
bind_empty-IsAddrmap _ m h = h
