-- ===== src/Runner/Main/Closing.antt =====
-- Which networks `main` leaves behind.
use distributed_locking.Base.{
  ◌≡◌, String, Bool, true, false, not, Option, none, some, List, [], ◌∷◌, ◌⊎◌, inl, inr,
  if◌then◌else◌,
}
use distributed_locking.Effects.{Log, World, create_network, remove_network}
use distributed_locking.Runner.Main.{Exit, done}

-- the networks that were created, and those that were removed, the last one first
unfoldable pub opened : World → Log → List String
opened w [] = []
opened w (create_network ∷ log) = elim (w.network (create_network ∷ log)) [
  | none ↦ opened w log
  | some (id, name) ↦ id ∷ opened w log
]
opened w (e ∷ log) = opened w log

unfoldable pub closed : Log → List String
closed [] = []
closed (remove_network id ∷ log) = id ∷ closed log
closed (e ∷ log) = closed log

abbrev pub is_done : Exit → Bool
is_done done = true
is_done exit = false

abbrev ids_of : Option String → List String
ids_of none = []
ids_of (some id) = id ∷ []

abbrev opened_by : Exit ⊎ (Option String × String) → List String → List String
opened_by (inl exit) ids = ids
opened_by (inr (id, name)) ids = ids_of id

abbrev is_failure : Exit ⊎ (Option String × String) → Bool
is_failure (inl exit) = not (is_done exit)
is_failure (inr network) = true

module _ (w : World) where
  -- every network that was created is removed before a return, and none before an exit
  abbrev pub IsClosed : Exit → Log → Type 0
  IsClosed exit log = closed log ≡ (if is_done exit then opened w log else [])
