-- ===== src/Mem/Returns.antt =====
-- The allocate and withdraw functions of mem.h and mem.c, as runs that may end the process.
use cidl.Base.{
  ℕ, ltb, leb, Ends, Ends-if, Ends-and_then, and_then, assert_failed, ◌*◌, ok, exit, Run, ◌==◌,
  null,
}
use cidl.Addr.{Ptr}
use cidl.Pool.{
  Pool, Arena, Growing, DepotCheck, tests_depot, tests_total, allocate, withdraw, grow, pop,
  allocate_growing, depot_check, malloc, count_alloc, pointer_size, refill,
}
use cidl.Mem.{
  Mem, allocate_rec_tree_node, allocate_tail_head, allocate_rec_block_entry, allocate_mem_rec_arr,
  withdraw_rec_tree_node, withdraw_tail_head, withdraw_rec_block_entry, withdraw_mem_rec_arr,
}

-- A run that does not run out of fuel.
abbrev pub Returns : {S A : Type 0} → Run S A → S → Type 0
Returns m s = Ends (λ _. Unit {0}) (m s)

abbrev Any : {S : Type 0} → S → Type 0
Any s = Unit {0}

withdraw-Returns : (ptr : Ptr) (p : Pool) → Returns (withdraw ptr) p
unfolding withdraw
withdraw-Returns ptr p = Ends-if Any (ltb p.idx p.size) _ _ tt tt

allocate-Returns : (p : Pool) → Returns allocate p
unfolding allocate
allocate-Returns p = Ends-if Any (ltb 0 p.idx) _ _ tt tt

pop-Returns : (g : Growing) → Returns pop g
pop-Returns g = Ends-and_then Any Any (allocate g.pool) _ (allocate-Returns g.pool) (λ a s _. tt)

depot_check-Returns :
    (check : DepotCheck) (depot : Ptr) (a b : Arena) → Returns (depot_check check depot a) b
depot_check-Returns tests_depot depot a b = Ends-if Any (depot == null) _ _ tt tt
depot_check-Returns tests_total depot a b =
    Ends-if Any (a.total_alloc_size == 0) _ _ tt (Ends-if Any (depot == null) _ _ tt tt)

grow-Returns : (check : DepotCheck) (elem : ℕ) (g : Growing) → Returns (grow check elem) g
unfolding grow
grow-Returns check elem g =
    let p = g.pool in
    let first = malloc (elem * p.size) (count_alloc (elem * p.size) g.arena) in
    let second = malloc (pointer_size * p.size * 2) first.1 in
    let a = count_alloc (pointer_size * p.size) second.1 in
    Ends-if Any (first.0 == null) (exit assert_failed)
      (and_then (depot_check check second.0 a a)
        λ _ b. ok (tt, record { pool = refill elem first.0 p; arena = b }))
      tt
      (Ends-and_then Any Any (depot_check check second.0 a a) _
        (depot_check-Returns check second.0 a a) (λ _ b _. tt))

allocate_growing-Returns :
    (check : DepotCheck) (elem : ℕ) (g : Growing) → Returns (allocate_growing check elem) g
unfolding allocate_growing
allocate_growing-Returns check elem g =
    Ends-if Any (leb g.pool.idx 0) _ _
      (Ends-and_then Any Any (grow check elem g) _ (grow-Returns check elem g)
        (λ a s _. pop-Returns s))
      (pop-Returns g)

module _ (m : Mem) where
  pub allocate_rec_tree_node-Returns : Returns allocate_rec_tree_node m
  unfolding allocate_rec_tree_node
  allocate_rec_tree_node-Returns =
      Ends-and_then Any Any (allocate m.rec_tree_nodes) _ (allocate-Returns m.rec_tree_nodes)
        (λ a t _. tt)

  pub allocate_tail_head-Returns : Returns allocate_tail_head m
  unfolding allocate_tail_head
  allocate_tail_head-Returns =
      let g : Growing = record { pool = m.tail_heads; arena = m.arena } in
      Ends-and_then Any Any (allocate_growing tests_total 16 g) _
        (allocate_growing-Returns tests_total 16 g) (λ a t _. tt)

  pub allocate_rec_block_entry-Returns : Returns allocate_rec_block_entry m
  unfolding allocate_rec_block_entry
  allocate_rec_block_entry-Returns =
      let g : Growing = record { pool = m.rec_block_entries; arena = m.arena } in
      Ends-and_then Any Any (allocate_growing tests_depot 24 g) _
        (allocate_growing-Returns tests_depot 24 g) (λ a t _. tt)

  pub allocate_mem_rec_arr-Returns : Returns allocate_mem_rec_arr m
  unfolding allocate_mem_rec_arr
  allocate_mem_rec_arr-Returns =
      let g : Growing = record { pool = m.rec_arrs; arena = m.arena } in
      Ends-and_then Any Any (allocate_growing tests_depot 912 g) _
        (allocate_growing-Returns tests_depot 912 g) (λ a t _. tt)

  pub withdraw_rec_tree_node-Returns : (p : Ptr) → Returns (withdraw_rec_tree_node p) m
  unfolding withdraw_rec_tree_node
  withdraw_rec_tree_node-Returns p =
      Ends-and_then Any Any (withdraw p m.rec_tree_nodes) _ (withdraw-Returns p m.rec_tree_nodes)
        (λ a t _. tt)

  pub withdraw_tail_head-Returns : (p : Ptr) → Returns (withdraw_tail_head p) m
  unfolding withdraw_tail_head
  withdraw_tail_head-Returns p =
      Ends-and_then Any Any (withdraw p m.tail_heads) _ (withdraw-Returns p m.tail_heads)
        (λ a t _. tt)

  pub withdraw_rec_block_entry-Returns : (p : Ptr) → Returns (withdraw_rec_block_entry p) m
  unfolding withdraw_rec_block_entry
  withdraw_rec_block_entry-Returns p =
      Ends-and_then Any Any (withdraw p m.rec_block_entries) _
        (withdraw-Returns p m.rec_block_entries) (λ a t _. tt)

  pub withdraw_mem_rec_arr-Returns : (p : Ptr) → Returns (withdraw_mem_rec_arr p) m
  unfolding withdraw_mem_rec_arr
  withdraw_mem_rec_arr-Returns p =
      Ends-and_then Any Any (withdraw p m.rec_arrs) _ (withdraw-Returns p m.rec_arrs) (λ a t _. tt)
