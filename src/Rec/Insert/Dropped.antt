-- ===== src/Rec/Insert/Dropped.antt =====
-- The loop of `insertRec` that gives back all entries of a queue but its last.
use cidl.Base.{
  ◌≡◌, refl, ap, true, false, List, [], ◌∷◌, has, erase, erase_all, Distinct, ok, arith, ◌==◌,
  Bool-cases, ==→eq, inl, inr,
}
use cidl.Addr.{Ptr}
use cidl.Pool.{Pool, Growing, withdraw}
use cidl.Pool.Valid.{withdraw-IsValid, withdraw-size}
use cidl.Pool.Grow.{IsValidGrowing}
use cidl.Mem.{withdraw_mem_rec_arr, withdraw_rec_block_entry}
use cidl.Rec.{RecBlockEntry, Recs}
use cidl.Rec.View.{ptrs, addrs, arrs}
use cidl.Rec.Owned.{Within, Within-erase}
use cidl.Rec.Insert.{drop_all_but_last}

-- The last entry of a queue, and those before it.
abbrev pub last_entry : RecBlockEntry → List RecBlockEntry → RecBlockEntry
last_entry e [] = e
last_entry e (e' ∷ es) = last_entry e' es

abbrev pub dropped : RecBlockEntry → List RecBlockEntry → List RecBlockEntry
dropped e [] = []
dropped e (e' ∷ es) = e ∷ dropped e' es

-- The pools of entries and of arrays are replaced.
abbrev pub with_pools : Pool → Pool → Recs → Recs
with_pools entries arrays s = record s {
  mem = record (s.mem) { rec_block_entries = entries; rec_arrs = arrays };
}

abbrev entries_of : Recs → Growing
entries_of s = record { pool = s.mem.rec_block_entries; arena = s.mem.arena }

abbrev arrs_of : Recs → Growing
arrs_of s = record { pool = s.mem.rec_arrs; arena = s.mem.arena }

-- An object in use of a pool that grows can be given back.
withdraw-Growing :
    (ptr : Ptr) (lent : List Ptr) (g : Growing)
    → IsValidGrowing lent g
    → has ptr lent ≡ true
    → (p : Pool) × (withdraw ptr g.pool ≡ ok (tt, p))
      × IsValidGrowing (erase ptr lent) (record g { pool = p })
withdraw-Growing ptr lent g v h =
    let (p, e, w) = withdraw-IsValid v.valid ptr h in
    (
      p,
      e,
      record {
        valid = w;
        nonempty = omega (arith, v.nonempty, withdraw-size ptr g.pool p e);
        used = v.used;
      },
    )

-- Every entry but the last, and its array, have gone back to their pools.
pub drop_all_but_last-Runs :
    (e : RecBlockEntry) (es : List RecBlockEntry) (s : Recs) (ents arrays : List Ptr)
    → IsValidGrowing ents (entries_of s)
    → IsValidGrowing arrays (arrs_of s)
    → Distinct (addrs (e ∷ es))
    → Distinct (arrs (e ∷ es))
    → Within (addrs (e ∷ es)) ents
    → Within (arrs (e ∷ es)) arrays
    → (p q : Pool) × (drop_all_but_last (e ∷ es) s ≡ ok (last_entry e es ∷ [], with_pools p q s))
      × IsValidGrowing
          (erase_all (addrs (dropped e es)) ents)
          (record { pool = p; arena = s.mem.arena })
      × IsValidGrowing
          (erase_all (arrs (dropped e es)) arrays)
          (record { pool = q; arena = s.mem.arena })
unfolding drop_all_but_last withdraw_mem_rec_arr withdraw_rec_block_entry
drop_all_but_last-Runs e [] s ents arrays v w de da we wa =
    (s.mem.rec_block_entries, s.mem.rec_arrs, refl, v, w)
drop_all_but_last-Runs e (e' ∷ es) s ents arrays v w de da we wa =
    let (q, run_q, w') = withdraw-Growing e.rec_arr arrays (arrs_of s) w wa.0 in
    let (p, run_p, v') = withdraw-Growing e.addr ents (entries_of s) v we.0 in
    let (p', q', run, v'', w'') =
      drop_all_but_last-Runs e' es (with_pools p q s) (erase e.addr ents) (erase e.rec_arr arrays)
        v' w' de.1 da.1 (Within-erase e.addr (addrs (e' ∷ es)) ents we.1 de.0)
        (Within-erase e.rec_arr (arrs (e' ∷ es)) arrays wa.1 da.0) in
    (p', q', rw (run_q, run_p) run, v'', w'')

-- Where the pointers of the last entry and of those before it are.
module _ (kind : RecBlockEntry → Ptr) where
  pub has-last_entry :
      (e : RecBlockEntry) (es : List RecBlockEntry)
      → has (kind (last_entry e es)) (ptrs kind (e ∷ es)) ≡ true
  has-last_entry e [] = ground arith
  has-last_entry e (e' ∷ es) = ground (arith, has-last_entry e' es)

  pub has-dropped :
      (a : Ptr) (e : RecBlockEntry) (es : List RecBlockEntry)
      → has a (ptrs kind (dropped e es)) ≡ true
      → has a (ptrs kind (e ∷ es)) ≡ true
  has-dropped a e [] h = cc
  has-dropped a e (e' ∷ es) h = ground (arith, h, has-dropped a e' es)

  pub last_entry-kept :
      (e : RecBlockEntry) (es : List RecBlockEntry)
      → Distinct (ptrs kind (e ∷ es))
      → has (kind (last_entry e es)) (ptrs kind (dropped e es)) ≡ false
  last_entry-kept e [] d = refl
  last_entry-kept e (e' ∷ es) d =
      let inside = has-last_entry e' es in
      let rest = last_entry-kept e' es d.1 in
      elim (Bool-cases (kind e == kind (last_entry e' es))) [
        | inl same ↦ absurd (
            ground
              (arith, inside, d.0, ap (λ (a : Ptr). has a (ptrs kind (e' ∷ es))) (==→eq _ _ same)))
        | inr other ↦ ground (arith, other, rest)
      ]
