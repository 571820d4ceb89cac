-- ===== src/Map/Laws.antt =====
-- The laws of `lookup` on `insert` and `remove`, in the form that `simp` and `ground` take.
use distributed_locking.Base.{
  ◌≡◌, refl, String, [], ◌∷◌, none, some, inl, inr, arith, Bool-cases, eq_iff, ◌==◌, if◌then◌else◌,
}
use distributed_locking.Map.{Map, lookup, insert, remove, IsMap}

module _ {ℓ} {V : Type ℓ} where
  pub lookup-insert :
      (key read : String) (value : V) (rest : Map V)
      → lookup read (insert key value rest) ≡ (if key == read then some value else lookup read rest)
  unfolding lookup insert
  lookup-insert key read value [] = refl
  lookup-insert key read value ((head, held) ∷ rest) =
      ground (
        arith,
        eq_iff key read,
        eq_iff head key,
        eq_iff head read,
        lookup-insert key read value rest,
      )

  pub lookup-remove :
      (key read : String) (rest : Map V)
      → IsMap rest
      → lookup read (remove key rest) ≡ (if key == read then none else lookup read rest)
  unfolding lookup remove
  lookup-remove key read [] h = ground arith
  lookup-remove key read ((head, held) ∷ rest) h =
      ground
        (arith, eq_iff key read, eq_iff head key, eq_iff head read, lookup-remove key read rest h.1)

  pub insert-IsMap :
      (key : String) (value : V) (rest : Map V) → IsMap rest → IsMap (insert key value rest)
  unfolding lookup insert
  insert-IsMap key value [] h = (refl, tt)
  insert-IsMap key value ((head, held) ∷ rest) h = elim (Bool-cases (head == key)) [
    | inl same ↦ rw same (rw (← (eq_iff head key).0 same) h)
    | inr other ↦ rw other (
      ground (arith, eq_iff head key, eq_iff key head, lookup-insert key head value rest),
      insert-IsMap key value rest h.1,
    )
  ]

  pub remove-IsMap : (key : String) (rest : Map V) → IsMap rest → IsMap (remove key rest)
  unfolding lookup remove
  remove-IsMap key [] h = tt
  remove-IsMap key ((head, held) ∷ rest) h =
      ground (arith, eq_iff head key, remove-IsMap key rest h.1, lookup-remove key head rest h.1)
