-- ===== src/Session/Search/Same.antt =====
-- `search_addr_binding` of src/session.cc looks at the locations alone.
use ucla_cs130_googolplex.Prelude.{ℕ, zero, suc, Bytes, length, Option-cases, ◌≡◌, refl, inl, inr}
use ucla_cs130_googolplex.Std.Dict.{Dict, contains}
use ucla_cs130_googolplex.Std.Strings.{take, find_last_of}
use ucla_cs130_googolplex.Session.Search.{root_location, search_from, search_addr_binding}

module _ {ℓ} {V : Type ℓ} (routes routes' : Dict V)
    (same : (l : Bytes) → contains l routes' ≡ contains l routes) where
  search_from_same :
      (fuel : ℕ) (url : Bytes) → search_from fuel url routes' ≡ search_from fuel url routes
  unfolding search_from
  search_from_same zero url = refl
  search_from_same (suc fuel) url = elim (Option-cases (find_last_of b'/' url)) [
    | inl e ↦ rw (search_from, e) refl
    | inr (zero, e) ↦ rw (search_from, e) (rw (same root_location) refl)
    | inr (suc k, e) ↦
        rw (search_from, e)
          (rw (same (take (suc k) url), search_from_same fuel (take (suc k) url)) refl)
  ]

  pub search_addr_binding_same :
      (url : Bytes) → search_addr_binding url routes' ≡ search_addr_binding url routes
  unfolding search_addr_binding
  search_addr_binding_same url = search_from_same (suc (length url)) url
