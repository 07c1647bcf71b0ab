-- ===== src/Session/Search.antt =====
-- `session::search_addr_binding` of src/session.cc.
pub mod Longest
pub mod Same
use ucla_cs130_googolplex.Prelude.{ℕ, zero, suc, Bytes, codes, length, if◌then◌else◌, none, some}
use ucla_cs130_googolplex.Std.Dict.{Dict, contains}
use ucla_cs130_googolplex.Std.Strings.{take, find_last_of}

pub data Search : Type 0 where
  found : Bytes → Search
  not_found : Search
  out_of_fuel : Search

abbrev pub root_location : Bytes
root_location = codes "/"

-- The function calls itself on a shorter url.
unfoldable pub search_from {ℓ} : {V : Type ℓ} → ℕ → Bytes → Dict V → Search
search_from zero url routes = out_of_fuel
search_from (suc fuel) url routes = elim (find_last_of b'/' url) [
  | none ↦ not_found
  | some pos ↦ elim pos [
    | zero ↦ if contains root_location routes then found root_location else not_found
    | suc k ↦
        let sub_url = take (suc k) url in
        let shorter = search_from fuel sub_url routes in
        if contains sub_url routes then found sub_url else shorter
  ]
]

unfoldable pub search_addr_binding {ℓ} : {V : Type ℓ} → Bytes → Dict V → Search
unfolding search_from
search_addr_binding url routes = search_from (suc (length url)) url routes
