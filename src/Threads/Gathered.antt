-- ===== src/Threads/Gathered.antt =====
-- What a `list` has gathered before it reads the next map: no key twice, none of a later map.
use distributed_locking.Base.{
  ℕ, suc, ◌<◌, ◌≡◌, ◌≢◌, ◌∙◌, String, Option, none, some, List, [], ◌++◌, arith, ℕ_discrete,
}
use distributed_locking.Map.{Map, RangeOrder, values}
use distributed_locking.Lock.{Lock, Time}
use distributed_locking.Lock.Listing.{find, Distinct, find-arrange, find-append, Distinct-append}
use distributed_locking.Sharded.Shards.{lookup-homeless}
use distributed_locking.Threads.{
  Layout, Write, acquire, release, Answer, listed, Memory, Pc, leaving, scanning, reading, ranging,
  gathered, returned, Advance, lock, look, put, unlock, rlock, range, read, read_last, runlock,
  all_read, conclude,
}
use distributed_locking.Threads.Steady.{IsHomeMap, AreHomeMaps, IsFresh}

-- what is gathered before map `k`: no key twice, and no key of map `k` or behind
pub record IsGathered (home : String → ℕ) (k : ℕ) (ls : List Lock) : Type 0 where
  pub distinct : Distinct ls
  pub behind : (key : String) (l : Lock) → find key ls ≡ some l → home key < k

abbrev pub IsDistinct : Answer → Type 0
IsDistinct (listed ls) = Distinct ls
IsDistinct _ = Unit

pub conclude-IsDistinct :
    (w : Write) (existing : Option Lock) (now : Time) (entries : Map Lock)
    → IsDistinct (conclude w existing now entries).1
unfolding conclude
conclude-IsDistinct (acquire key lockee force) existing now entries = ground arith
conclude-IsDistinct (release key lockee) existing now entries = ground arith

module _ (home : String → ℕ) where
  abbrev pub IsListing : Pc → Type 0
  IsListing (scanning k ls) = IsGathered home k ls
  IsListing (reading k ls) = IsGathered home k ls
  IsListing (ranging k ls got keys c) = IsGathered home k ls
  IsListing (gathered k ls) = IsGathered home (suc k) ls
  IsListing (leaving k a) = IsDistinct a
  IsListing (returned a) = IsDistinct a
  IsListing _ = Unit

  -- a key at home elsewhere is not found in a map
  pub find-other :
      (layout : Layout) (k : ℕ) (o : RangeOrder Lock) (entries : Map Lock) (key : String)
      → IsHomeMap layout home k entries
      → home key ≢ k
      → find key (o.arrange (values entries)) ≡ none
  find-other layout k o entries key v ne =
      (find-arrange o entries v.is_map v.is_keyed).1 key
      ∙ lookup-homeless home k key entries v.is_homed ne

  -- reading one more map
  gather :
      (layout : Layout) (k : ℕ) (ls : List Lock) (o : RangeOrder Lock) (entries : Map Lock)
      → IsHomeMap layout home k entries
      → IsGathered home k ls
      → IsGathered home (suc k) (ls ++ o.arrange (values entries))
  unfolding find
  gather layout k ls o entries v g =
      let (distinct, same) = find-arrange o entries v.is_map v.is_keyed in
      record {
        distinct = Distinct-append ls _ g.distinct distinct (λ key l e.
            find-other layout k o entries key v
              (λ at_k. absurd (omega (arith, g.behind key l e, at_k))));
        behind = λ key l e. elim (ℕ_discrete (home key) k) [
          | yes at_k ↦ omega (arith, at_k)
          | no other ↦
              let before : find key ls ≡ some l = ground (
                arith,
                find-append key ls (o.arrange (values entries)),
                find-other layout k o entries key v other,
                e,
              ) in
              omega (arith, g.behind key l before)
        ];
      }

  pub Advance-IsListing :
      {layout : Layout} {m : Memory} {m' : Memory} {p p' : Pc}
      → Advance layout home m p m' p'
      → AreHomeMaps layout home m
      → IsFresh layout home m.maps p
      → IsListing p
      → IsListing p'
  Advance-IsListing (lock free none_in) v f g = tt
  Advance-IsListing look v f g = tt
  Advance-IsListing (put {w} {existing} now) v f g = conclude-IsDistinct w existing now _
  Advance-IsListing unlock v f g = g
  Advance-IsListing (rlock lt free) v f g = g
  Advance-IsListing (range o) v f g = g
  Advance-IsListing (read now later) v f g = g
  Advance-IsListing {layout} {m} (read_last {k} {ls}) v (lt, o, e) g =
      rw e (gather layout k ls o (m.maps k) (v k) g)
  Advance-IsListing runlock v f g = g
  Advance-IsListing (all_read le) v f g = g.distinct

  pub nothing : (key : String) (l : Lock) → find key [] ≢ some l
  unfolding find
  nothing key l e = cc
