-- ===== src/SearchTree/Walk.antt =====
-- `twalk` of the C library, which calls an action before, between and after the two subtrees of each
-- node, and once for a leaf.
use cidl.Base.{
  ℕ, ◌+◌, ◌≡◌, refl, ap, sym, ◌∙◌, Bool, true, false, ◌&&◌, if◌then◌else◌, List, [], ◌∷◌, ◌++◌, Run,
  Result, ok, exit, out_of_fuel, pure, and_then, ◌>>◌, fun_ext,
}
use cidl.SearchTree.{Tree, empty, node, elements}

-- `VISIT`
pub data Visit : Type 0 where
  preorder postorder endorder leaf : Visit

abbrev pub is_empty : {A : Type 0} → Tree A → Bool
is_empty empty = true
is_empty (node _ _ _) = false

and_then_assoc :
    {S : Type 0} (m : Result (Unit {0} × S)) (j k : Run S (Unit {0}))
    → and_then (and_then m (λ _. j)) (λ _. k) ≡ and_then m (λ _ s. and_then (j s) (λ _. k))
and_then_assoc (ok (_, s)) j k = refl
and_then_assoc (exit n) j k = refl
and_then_assoc out_of_fuel j k = refl

then_unit : {S : Type 0} (m : Run S (Unit {0})) → (m >> pure tt) ≡ m
then_unit m = fun_ext λ s. unit (m s)
  where
    unit : {S : Type 0} (r : Result (Unit {0} × S)) → and_then r (λ _ s. ok (tt, s)) ≡ r
    unit (ok (_, s)) = refl
    unit (exit n) = refl
    unit out_of_fuel = refl

module _ {S A : Type 0} where
  unfoldable pub walk : (A → Visit → ℕ → Run S (Unit {0})) → Tree A → (depth : ℕ) → Run S (Unit {0})
  walk action empty depth = pure tt
  walk action (node l a r) depth =
      let left = walk action l (depth + 1) in
      let right = walk action r (depth + 1) in
      if is_empty l && is_empty r then action a leaf depth else do
        action a preorder depth
        left
        action a postorder depth
        right
        action a endorder depth

  abbrev pub each : (A → Run S (Unit {0})) → List A → Run S (Unit {0})
  each visit [] = pure tt
  each visit (a ∷ rest) = do visit a; each visit rest

  each-append :
      (visit : A → Run S (Unit {0})) (xs ys : List A) (s : S)
      → each visit (xs ++ ys) s ≡ (each visit xs >> each visit ys) s
  each-append visit [] ys s = refl
  each-append visit (x ∷ xs) ys s =
      ap (λ k. and_then (visit x s) (λ _. k)) (fun_ext λ s'. each-append visit xs ys s')
      ∙ sym (and_then_assoc (visit x s) (each visit xs) (each visit ys))

  -- An action that visits an element at `postorder` and at `leaf`, and does nothing at the other calls,
  -- visits each element of the tree once, in order.
  pub walk-elements :
      (action : A → Visit → ℕ → Run S (Unit {0})) (visit : A → Run S (Unit {0}))
      → ((a : A) (d : ℕ) → action a preorder d ≡ pure tt)
      → ((a : A) (d : ℕ) → action a postorder d ≡ visit a)
      → ((a : A) (d : ℕ) → action a endorder d ≡ pure tt)
      → ((a : A) (d : ℕ) → action a leaf d ≡ visit a)
      → (t : Tree A) (depth : ℕ) → walk action t depth ≡ each visit (elements t)
  unfolding walk elements
  walk-elements action visit before at after alone t depth = by_tree t depth
    where
      inner :
          (xs ys : List A) (a : A)
          → (each visit xs >> (visit a >> (each visit ys >> pure tt))) ≡ each visit (xs ++ a ∷ ys)
      inner xs ys a =
          ap (λ m. each visit xs >> (visit a >> m)) (then_unit (each visit ys))
          ∙ sym (fun_ext λ s. each-append visit xs (a ∷ ys) s)

      by_tree : (t : Tree A) (d : ℕ) → walk action t d ≡ each visit (elements t)
      by_tree empty d = refl
      by_tree (node empty a empty) d = alone a d ∙ sym (then_unit (visit a))
      by_tree (node (node l b r) a t) d =
          rw (before a d, at a d, after a d, by_tree (node l b r) (d + 1), by_tree t (d + 1))
            (inner (elements (node l b r)) (elements t) a)
      by_tree (node empty a (node l b r)) d =
          rw (before a d, at a d, after a d, by_tree (node l b r) (d + 1))
            (inner [] (elements (node l b r)) a)
