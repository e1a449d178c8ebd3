-- ===== src/Rec/Insert/Keep.antt =====
-- The invariant of the record tree after one of its nodes has been replaced.
use cidl.Base.{
  ℕ, ◌≡◌, ◌≢◌, ap, sym, ◌∙◌, subst, true, false, List, ◌∷◌, ◌==◌, if◌then◌else◌, some, arith, has,
  Bool-cases, ==→eq, ==→ne, ne→==, inl, inr,
}
use cidl.Addr.{Ptr}
use cidl.Pool.Grow.{IsValidGrowing}
use cidl.Rec.{RecBlockEntry, RecTreeNode, Recs, find_node}
use cidl.Rec.View.{addrs, arrs}
use cidl.Rec.Owned.{IsOwned, IsNode, Apart, Within-cons}

some_of : {n m : RecTreeNode} → some n ≡ some m → n ≡ m
some_of e = cc

-- With one more entry and one more array in use a node is still a node.
pub widen :
    {ents arrays : List Ptr} {n : RecTreeNode} (ent arr : Ptr)
    → IsNode ents arrays n
    → IsNode (ent ∷ ents) (arr ∷ arrays) n
widen {ents} {arrays} ent arr v = record {
  first = v.first;
  older = v.older;
  queue = v.queue;
  modified = v.modified;
  counter = v.counter;
  ents_distinct = v.ents_distinct;
  arrs_distinct = v.arrs_distinct;
  ents_used = Within-cons ent (addrs (v.first ∷ v.older)) ents v.ents_used;
  arrs_used = Within-cons arr (arrs (v.first ∷ v.older)) arrays v.arrs_used;
}

-- A node has no pointer of a kind in common with the other pages.
abbrev pub Far : (List RecBlockEntry → List Ptr) → (page : ℕ) → RecTreeNode → Recs → Type 0
Far kind page n' s =
    (q : ℕ) (m : RecTreeNode)
    → page ≢ q
    → find_node q s ≡ some m
    → (a : Ptr) → has a (kind n'.list_head) ≡ true
    → has a (kind m.list_head) ≡ false

-- The invariant after the node of one page has been replaced or added.
module _ (page : ℕ) (s t : Recs) (n' : RecTreeNode) {ents arrays ents' arrays' : List Ptr}
    (o : IsOwned ents arrays s)
    (at : (q : ℕ) → find_node q t ≡ (if page == q then some n' else find_node q s))
    (entry_pool : IsValidGrowing ents'
      (record { pool = t.mem.rec_block_entries; arena = t.mem.arena }))
    (arr_pool : IsValidGrowing arrays' (record { pool = t.mem.rec_arrs; arena = t.mem.arena }))
    (new : IsNode ents' arrays' n')
    (old : (q : ℕ) (m : RecTreeNode)
      → page ≢ q
      → find_node q s ≡ some m
      → IsNode ents arrays m
      → IsNode ents' arrays' m)
    (far : Far arrs page n' s) (far_ents : Far addrs page n' s) where
  at_page : (q : ℕ) (m : RecTreeNode) → page ≡ q → find_node q t ≡ some m → n' ≡ m
  at_page q m e f = ground (arith, at q)

  at_other : (q : ℕ) (m : RecTreeNode) → page ≢ q → find_node q t ≡ some m → find_node q s ≡ some m
  at_other q m ne f = ground (arith, at q, ne→== page q ne)

  nodes-new : (q : ℕ) (m : RecTreeNode) → find_node q t ≡ some m → IsNode ents' arrays' m
  nodes-new q m f = elim (Bool-cases (page == q)) [
    | inl same ↦ subst (IsNode ents' arrays') (at_page q m (==→eq _ _ same) f) new
    | inr other ↦
        let ne : page ≢ q = ==→ne _ _ other in
        let before = at_other q m ne f in old q m ne before (o.nodes q m before)
  ]

  Apart-new :
      (kind : List RecBlockEntry → List Ptr) → Apart kind s → Far kind page n' s → Apart kind t
  Apart-new kind away far_kind p q n m f g ne a h = elim (Bool-cases (page == p)) [
    | inl same ↦
        let e : page ≡ p = ==→eq _ _ same in
        let other : page ≢ q = λ k. ne (sym e ∙ k) in
        far_kind q m other (at_other q m other g) a
          (ap (λ (x : RecTreeNode). has a (kind x.list_head)) (at_page p n e f) ∙ h)
    | inr other ↦ elim (Bool-cases (page == q)) [
      | inl same ↦
          let e : page ≡ q = ==→eq _ _ same in
          let np : page ≢ p = ==→ne _ _ other in
          elim (Bool-cases (has a (kind m.list_head))) [
            | inr out ↦ out
            | inl hit ↦
                let clash =
                  far_kind p n np (at_other p n np f) a
                    (ap (λ (x : RecTreeNode). has a (kind x.list_head)) (at_page q m e g) ∙ hit) in
                ground (arith, clash)
          ]
      | inr other' ↦
          away p q n m (at_other p n (==→ne _ _ other) f) (at_other q m (==→ne _ _ other') g) ne a h
    ]
  ]

  pub replaced-IsOwned : IsOwned ents' arrays' t
  replaced-IsOwned = record {
    entry_pool = entry_pool;
    arr_pool = arr_pool;
    nodes = nodes-new;
    apart = Apart-new arrs o.apart far;
    ents_apart = Apart-new addrs o.ents_apart far_ents;
  }
