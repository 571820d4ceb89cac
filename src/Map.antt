-- ===== src/Map.antt =====
-- Go's `map[string]V`: an association list with one entry for each key. What `range` leaves open,
-- the order of the entries, is chosen by the environment (`RangeOrder`).
pub mod Laws
use mathlib.Core.List.{Perm}
use distributed_locking.Base.{◌≡◌, String, List, [], ◌∷◌, Option, none, some, ◌==◌, if◌then◌else◌}

abbrev pub Map {ℓ} : Type ℓ → Type ℓ
Map V = List (String × V)

module _ {ℓ} {V : Type ℓ} where
  -- `v, ok := m[k]`
  unfoldable pub lookup : String → Map V → Option V
  lookup key [] = none
  lookup key ((read, value) ∷ rest) = if read == key then some value else lookup key rest

  -- `m[k] = v`
  unfoldable pub insert : String → V → Map V → Map V
  insert key value [] = (key, value) ∷ []
  insert key value ((read, held) ∷ rest) =
      if read == key then (key, value) ∷ rest else (read, held) ∷ insert key value rest

  -- `delete(m, k)`
  unfoldable pub remove : String → Map V → Map V
  remove key [] = []
  remove key ((read, value) ∷ rest) = if read == key then rest else (read, value) ∷ remove key rest

  -- the values, one for each entry
  unfoldable pub values : Map V → List V
  values [] = []
  values ((key, value) ∷ rest) = value ∷ values rest

  -- no key twice: nothing behind an entry has its key
  abbrev pub IsMap : Map V → Type ℓ
  IsMap [] = Unit
  IsMap ((key, value) ∷ rest) = (lookup key rest ≡ none) × IsMap rest

-- The order in which one `range` statement visits the entries of a map.
pub record RangeOrder {ℓ} (V : Type ℓ) : Type ℓ where
  pub arrange : List V → List V
  pub arrange-perm : (l : List V) → Perm (arrange l) l
