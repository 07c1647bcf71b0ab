-- ===== src/Std/Vector.antt =====
-- `std::vector` from its back, where the program reads and writes it.
use ucla_cs130_googolplex.Prelude.{List, [], ◌∷◌, ◌++◌}

pub data Vector {ℓ} (A : Type ℓ) : Type ℓ where
  nothing : Vector A
  push_back : Vector A → A → Vector A

-- The elements from the front.
abbrev pub to_list {ℓ} : {A : Type ℓ} → Vector A → List A
to_list nothing = []
to_list (push_back v x) = to_list v ++ x ∷ []
