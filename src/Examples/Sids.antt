-- ===== src/Examples/Sids.antt =====
-- The SID store (pkg/store/store.go) on an Atomix in memory.
use fabric_adapter.Base.{
  ℕ, ◌≡◌, refl, List, [], ◌∷◌, Text, codes, keys, text_eqb, lookup, arith, All, ret,
}
use fabric_adapter.Sid.Reliable.{Memory, in_memory, memory_reliable}
use fabric_adapter.Sid.Unique.{IsAssigned}
use fabric_adapter.Sid.Series.{get_each, IsSidIn, AreUnique, get_each_unique}

-- the store after `NewAtomixStore`: no entry, and a counter at 100
abbrev fresh : Memory
fresh = record { value = 100; entries = [] }

fresh-IsAssigned : IsAssigned in_memory memory_reliable fresh
unfolding lookup
fresh-IsAssigned = record {
  counted = λ id b e. absurd (ground (arith, e));
  unique = λ i j b e f. absurd (ground (arith, e));
}

abbrev names : List Text
names = codes "leaf1" ∷ codes "leaf2" ∷ codes "leaf1" ∷ []

get_each_unique_example :
    (answers : List (Text × ℕ)) × (s' : Memory) × (get_each in_memory names fresh ≡ ret answers s')
    × (keys answers ≡ names)
    × All (IsSidIn in_memory memory_reliable s') answers
    × AreUnique in_memory memory_reliable answers
    × IsAssigned in_memory memory_reliable s'
unfolding text_eqb
get_each_unique_example =
    get_each_unique in_memory memory_reliable names fresh (refl, (refl, (refl, tt))) (omega arith)
      (omega arith) fresh-IsAssigned
