-- ===== src/Sharded/Shards.antt =====
-- The shards of a valid store: each a map of locks whose keys all hash to its index.
use distributed_locking.Base.{
  ℕ, zero, suc, ◌+◌, ◌<◌, ◌≡◌, ◌≢◌, refl, sym, ◌∙◌, String, Option, none, some, List, [], ◌∷◌, ◌==◌,
  inl, inr, arith, length, get_elem?, set, ℕ_discrete, get_elem?-set_self, get_elem?-set_ne, eq_iff,
  Bool-cases,
}
use distributed_locking.Map.{Map, IsMap, lookup, insert, remove}
use distributed_locking.Lock.{Lock}
use distributed_locking.Lock.Listing.{
  find, Distinct, IsKeyed, find-arrange, find-append, Distinct-append,
}
use distributed_locking.Store.{Orders}
use distributed_locking.Sharded.Defs.{LockShard, list_shards}

-- what a reader of a key finds in its shard
abbrev pub look : Option LockShard → String → Option Lock
look none key = none
look (some shard) key = lookup key shard.locks

module _ (home : String → ℕ) where
  -- every key of the map is at home in shard `i`
  abbrev pub IsHomed : ℕ → Map Lock → Type 0
  IsHomed i [] = Unit
  IsHomed i ((k, l) ∷ m) = (home k ≡ i) × IsHomed i m

  pub record IsShard (i : ℕ) (shard : LockShard) : Type 0 where
    pub is_map : IsMap shard.locks
    pub is_keyed : IsKeyed shard.locks
    pub is_homed : IsHomed i shard.locks

  -- a run of shards, the first with index `i`
  abbrev pub AreShards : ℕ → List LockShard → Type 0
  AreShards i shards =
      (j : ℕ) (shard : LockShard) → get_elem? shards j ≡ some shard → IsShard (i + j) shard

  AreShards-tail :
      (i : ℕ) (shard : LockShard) (shards : List LockShard)
      → AreShards i (shard ∷ shards)
      → AreShards (i + 1) shards
  AreShards-tail i shard shards h j x e =
      let same : i + suc j ≡ i + 1 + j = omega arith in rw same at (h (suc j) x e)

  AreShards-head :
      (i : ℕ) (shard : LockShard) (shards : List LockShard)
      → AreShards i (shard ∷ shards)
      → IsShard i shard
  AreShards-head i shard shards h =
      let same : i + 0 ≡ i = omega arith in rw same at (h 0 shard refl)

  pub lookup-homeless :
      (i : ℕ) (k : String) (m : Map Lock) → IsHomed i m → home k ≢ i → lookup k m ≡ none
  unfolding lookup
  lookup-homeless i k [] h ne = refl
  lookup-homeless i k ((j, l) ∷ m) h ne = ground (arith, eq_iff j k, lookup-homeless i k m h.1 ne)

  pub lookup-homed :
      (i : ℕ) (k : String) (m : Map Lock) (l : Lock)
      → IsHomed i m
      → lookup k m ≡ some l
      → home k ≡ i
  unfolding lookup
  lookup-homed i k [] l h e = absurd (cc)
  lookup-homed i k ((j, x) ∷ m) l h e = ground (arith, eq_iff j k, lookup-homed i k m l h.1)

  pub insert-IsHomed :
      (i : ℕ) (k : String) (l : Lock) (m : Map Lock)
      → home k ≡ i
      → IsHomed i m
      → IsHomed i (insert k l m)
  unfolding insert
  insert-IsHomed i k l [] e h = (e, tt)
  insert-IsHomed i k l ((j, x) ∷ m) e h = elim (Bool-cases (j == k)) [
    | inl same ↦ rw same (e, h.1)
    | inr other ↦ rw other (h.0, insert-IsHomed i k l m e h.1)
  ]

  pub remove-IsHomed : (i : ℕ) (k : String) (m : Map Lock) → IsHomed i m → IsHomed i (remove k m)
  unfolding remove
  remove-IsHomed i k [] h = tt
  remove-IsHomed i k ((j, x) ∷ m) h = elim (Bool-cases (j == k)) [
    | inl same ↦ rw same h.1
    | inr other ↦ rw other (h.0, remove-IsHomed i k m h.1)
  ]

  -- the shards behind a key's own shard do not list it
  find-list_shards_behind :
      (o : Orders) (i : ℕ) (shards : List LockShard) (key : String)
      → AreShards i shards
      → home key < i
      → find key (list_shards o i shards) ≡ none
  unfolding list_shards find
  find-list_shards_behind o i [] key h lt = refl
  find-list_shards_behind o i (shard ∷ shards) key h lt =
      let head = AreShards-head i shard shards h in
      rw
        (
          find-append,
          (find-arrange (o i) shard.locks head.is_map head.is_keyed).1 key,
          lookup-homeless i key shard.locks head.is_homed (omega arith),
        )
        (find-list_shards_behind o (i + 1) shards key (AreShards-tail i shard shards h)
          (omega arith))

  -- The listing holds at a key what the key's own shard holds.
  pub find-list_shards :
      (o : Orders) (i j : ℕ) (shards : List LockShard) (key : String)
      → AreShards i shards
      → home key ≡ i + j
      → find key (list_shards o i shards) ≡ look (get_elem? shards j) key
  unfolding list_shards find
  find-list_shards o i j [] key h e = refl
  find-list_shards o i zero (shard ∷ shards) key h e =
      let head = AreShards-head i shard shards h in
      rw (find-append, (find-arrange (o i) shard.locks head.is_map head.is_keyed).1 key)
        (ground (
          arith,
          find-list_shards_behind o (i + 1) shards key (AreShards-tail i shard shards h)
              (omega arith),
        ))
  find-list_shards o i (suc j) (shard ∷ shards) key h e =
      let head = AreShards-head i shard shards h in
      rw
        (
          find-append,
          (find-arrange (o i) shard.locks head.is_map head.is_keyed).1 key,
          lookup-homeless i key shard.locks head.is_homed (omega arith),
        )
        (find-list_shards o (i + 1) j shards key (AreShards-tail i shard shards h) (omega arith))

  pub list_shards-Distinct :
      (o : Orders) (i : ℕ) (shards : List LockShard)
      → AreShards i shards
      → Distinct (list_shards o i shards)
  unfolding list_shards
  list_shards-Distinct o i [] h = tt
  list_shards-Distinct o i (shard ∷ shards) h =
      let head = AreShards-head i shard shards h in
      let tail = AreShards-tail i shard shards h in
      let (distinct, same) = find-arrange (o i) shard.locks head.is_map head.is_keyed in
      Distinct-append _ _ distinct (list_shards-Distinct o (i + 1) shards tail) (λ k l found.
        let home_k : home k ≡ i =
          lookup-homed i k shard.locks l head.is_homed (sym (same k) ∙ found) in
        find-list_shards_behind o (i + 1) shards k tail (omega arith))

  -- Writing a shard at its index keeps the others.
  pub set-AreShards :
      (i : ℕ) (shards : List LockShard) (shard : LockShard)
      → AreShards 0 shards
      → i < length shards
      → IsShard i shard
      → AreShards 0 (set shards i shard)
  set-AreShards i shards shard h lt v j x e = elim (ℕ_discrete i j) [
    | yes same ↦
        let found : get_elem? (set shards i shard) j ≡ some shard =
          rw (← same) (get_elem?-set_self shards i shard lt) in
        let is : x ≡ shard = cc (e, found) in
        let index : 0 + j ≡ i = omega arith in rw (index, is) v
    | no other ↦ h j x (sym (get_elem?-set_ne shards i j shard other) ∙ e)
  ]
