-- ===== src/Pool/Pop.antt =====
-- The allocate functions of mem.h while a pool that grows has a free object: no refill is made.
use cidl.Base.{ℕ, ◌-◌, ◌<◌, ◌≡◌, refl, List, ok, arith}
use cidl.Addr.{Ptr}
use cidl.Pool.{Growing, DepotCheck, allocate, allocate_growing}
use cidl.Pool.Valid.{popped-IsValid}
use cidl.Pool.Grow.{IsValidGrowing, Grown}

abbrev pub top : Growing → Ptr
top g = g.pool.slots (g.pool.idx - 1)

abbrev pub popped : Growing → Growing
popped g = record g { pool = record g.pool { idx = g.pool.idx - 1 } }

pub allocate_growing-popped :
    (check : DepotCheck) (elem : ℕ) (g : Growing)
    → 0 < g.pool.idx
    → allocate_growing check elem g ≡ ok (top g, popped g)
unfolding allocate_growing allocate
allocate_growing-popped check elem g h = ground arith

pub popped-Grown :
    (elem : ℕ) (lent : List Ptr) (g : Growing)
    → IsValidGrowing lent g
    → 0 < g.pool.idx
    → Grown elem lent g (top g) (popped g)
popped-Grown elem lent g v h = record {
  unused = v.valid.apart (g.pool.idx - 1) (omega arith);
  valid = record { valid = popped-IsValid v.valid h; nonempty = v.nonempty; used = v.used };
  keeps = omega arith;
  within = omega arith;
  limit = refl;
}
