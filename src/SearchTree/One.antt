-- ===== src/SearchTree/One.antt =====
-- Trees with one element, as the first insertion makes them.
use cidl.Base.{◌≡◌, ap, ◌∙◌, Option, some, Ordering}
use cidl.SearchTree.{Tree, empty, node, tfind, tsearch, tdelete, join}

pub tsearch-empty :
    {A : Type 0} (cmp : A → Ordering) (x : A) (t : Tree A)
    → t ≡ empty
    → tsearch cmp x t ≡ node empty x empty
unfolding tsearch
tsearch-empty cmp x t e = ap (tsearch cmp x) e

pub tfind-one :
    {A : Type 0} (cmp : A → Ordering) (a : A) (t : Tree A)
    → t ≡ node empty a empty
    → cmp a ≡ Ordering.eq
    → tfind cmp t ≡ some a
unfolding tfind
tfind-one {A = A} cmp a t e h =
    ap (tfind cmp) e
    ∙ ap
        (λ o. elim o as (λ _. Option A) [
          | Ordering.lt ↦ tfind cmp empty
          | Ordering.eq ↦ some a
          | Ordering.gt ↦ tfind cmp empty
        ])
        h

pub tdelete-one :
    {A : Type 0} (cmp : A → Ordering) (a : A) (t : Tree A)
    → t ≡ node empty a empty
    → cmp a ≡ Ordering.eq
    → tdelete cmp t ≡ empty
unfolding tdelete join
tdelete-one {A = A} cmp a t e h =
    ap (tdelete cmp) e
    ∙ ap
        (λ o. elim o as (λ _. Tree A) [
          | Ordering.lt ↦ node empty a empty
          | Ordering.eq ↦ empty
          | Ordering.gt ↦ node empty a empty
        ])
        h
