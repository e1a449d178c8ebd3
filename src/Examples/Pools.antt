-- ===== src/Examples/Pools.antt =====
-- A pool with all objects in use.
use cidl.Base.{erase, ◌≡◌, ◌∷◌, [], arith, ok, refl}
use cidl.Addr.{Ptr}
use cidl.Pool.{Arena, withdraw, Pool, Growing, tests_total, allocate_growing}
use cidl.Pool.Valid.{IsValid, withdraw-IsValid}
use cidl.Pool.Grow.{Grown, allocate_growing-Grown}
use cidl.Mem.{Mem, init_memory}
use cidl.Mem.Init.{IsInitial, init_memory-IsInitial}
use cidl.Examples.States.{heads, arena}

-- Both objects are in use.
abbrev empty_pool : Pool
empty_pool = record heads { idx = 0 }

empty_pool-IsValid : IsValid 10000 (2000 ∷ 2016 ∷ []) empty_pool
empty_pool-IsValid = record {
  counted = refl;
  distinct = λ i j h. elim h [ ];
  apart = λ i h. elim h [ ];
  below = λ i h. elim h [ ];
  lent_distinct = (refl, (refl, tt));
  lent_below = (omega arith, (omega arith, tt));
}

allocate_growing-Grown_example :
    (ptr : Ptr) × (g : Growing) × (allocate_growing tests_total 16
        (record { pool = empty_pool; arena = arena })
      ≡ ok (ptr, g))
    × Grown 16 (2000 ∷ 2016 ∷ []) (record { pool = empty_pool; arena = arena }) ptr g
allocate_growing-Grown_example =
    allocate_growing-Grown tests_total 16 (2000 ∷ 2016 ∷ [])
      (record { pool = empty_pool; arena = arena }) (omega arith) (omega arith)
      (record { valid = empty_pool-IsValid; nonempty = omega arith; used = omega arith })
      (omega arith)

-- The second object is given back.
withdraw-IsValid_example :
    (p : Pool) × (withdraw 2016 empty_pool ≡ ok (tt, p))
    × IsValid 10000 (erase 2016 (2000 ∷ 2016 ∷ [])) p
withdraw-IsValid_example = withdraw-IsValid empty_pool-IsValid 2016 refl

abbrev big_arena : Arena
big_arena = record { next = 4096; limit = 20000000; total_alloc_size = 77 }

init_memory-IsInitial_example :
    (m : Mem) × (a : Arena) × (init_memory big_arena ≡ ok (m, a)) × IsInitial m
init_memory-IsInitial_example = init_memory-IsInitial big_arena (omega arith) (omega arith)
