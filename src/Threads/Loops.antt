-- ===== src/Threads/Loops.antt =====
-- The loop of `list` over a map that does not change: whatever its parts, it reads the map.
use distributed_locking.Base.{
  ◌≡◌, refl, ap, String, some, List, [], ◌∷◌, ◌++◌, eq_refl, eq_iff, ◌==◌, arith, Bool-cases, inl,
  inr,
}
use distributed_locking.Map.{Map, IsMap, RangeOrder, lookup, values}
use distributed_locking.Lock.{Lock}
use distributed_locking.Lock.Listing.{find, Distinct, IsKeyed, find-arrange}
use distributed_locking.Threads.{still, keys_of}

pub still-append :
    (m : Map Lock) (now later : List String) → still m (now ++ later) ≡ still m now ++ still m later
unfolding still
still-append m [] later = refl
still-append m (key ∷ now) later = ground (arith, still-append m now later)

-- a list of what the map holds is read off at its keys
still-listed :
    (m : Map Lock) (ls : List Lock)
    → Distinct ls
    → ((key : String) (l : Lock) → find key ls ≡ some l → lookup key m ≡ some l)
    → still m (keys_of ls) ≡ ls
unfolding still find
still-listed m [] d held = refl
still-listed m (x ∷ ls) d held =
    let first : lookup x.key m ≡ some x = held x.key x (rw eq_refl refl) in
    let rest = still-listed m ls d.1 (λ key l e. elim (Bool-cases (x.key == key)) [
      | inl same ↦ absurd (ground (arith, eq_iff x.key key, d.0, e))
      | inr other ↦ held key l (rw other e)
    ]) in
    rw (first, still) (ap (λ r. x ∷ r) rest)

pub still-arrange :
    (o : RangeOrder Lock) (m : Map Lock)
    → IsMap m
    → IsKeyed m
    → still m (keys_of (o.arrange (values m))) ≡ o.arrange (values m)
still-arrange o m h d =
    let (distinct, same) = find-arrange o m h d in
    still-listed m (o.arrange (values m)) distinct (λ key l e. ground (arith, same key, e))
