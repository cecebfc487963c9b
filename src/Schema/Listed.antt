-- ===== src/Schema/Listed.antt =====
-- A map from byte strings as a list, for examples of the hash table of third_party.
use bee_c.Base.{refl, Option, none, some, List, [], ◌∷◌, ℕ, if◌then◌else◌}
use bee_c.Request.Auth.{same_bytes}
use bee_c.Schema.Store.{Assoc, Finds}

-- A map as the list of what was put into it, the last one first.
abbrev pub Puts : Type 0 → Type 0
Puts V = List (List ℕ × V)

abbrev find_put : {V : Type 0} → List ℕ → Puts V → Option V
find_put k [] = none
find_put k ((k', v) ∷ puts) = let rest = find_put k puts in if same_bytes k k' then some v else rest

abbrev pub listed : (V : Type 0) → Assoc (Puts V) V
listed V = record { new = []; put = λ k v t. (k, v) ∷ t; find = find_put }

pub listed-Finds : (V : Type 0) → Finds (listed V)
listed-Finds V = record { find-new = λ k. refl; find-put = λ k k' v t. refl }
