-- ===== src/HashMap/Avl/Hight.antt =====
-- The stored hights, and what `avl_insert_node` does to a tree that is balanced.
use Prim.Native.Nat.{Ordering}
use fgdb.Prelude.{
  ℕ, ◌+◌, ◌≤◌, ◌<◌, ◌≡◌, refl, max, Option, none, some, arith, Bool, Ordering-cases, Bool-cases,
  inl, inr,
}
use fgdb.Prelude.Int.{pos, negsuc, sub_ℕ, eq_ℤ}
use fgdb.HashMap.Avl.{
  Avl, leaf, node, get_hight, left_of, right_of, right_move, rl_move, avl_rebalance,
  avl_insert_node, finish, with_result, insert_left, insert_right, insert_child,
}
use fgdb.HashMap.Avl.Moves.{
  eq_pos, ne_pos, pos_of_eq, pos_of_ne, eq_negsuc, negsuc_of_ne, negsuc_of_eq, IsHigh, Near,
  IsBalanced, Grown, balance_lem, avl_rebalance_even, left_move-Grown, rl_move-Grown,
  right_move-Grown, lr_move-Grown,
}

module _ {K M : Type 0} where
  -- A node that is too heavy on the right.
  rebalance_right-Grown :
      (k : K) (m : M) (l r : Avl K M) (h n : ℕ)
      → IsHigh (node k m l r h)
      → Near 2 r
      → get_hight r ≡ get_hight l + 2
      → n ≡ get_hight l + 2
      → Grown n (with_result (avl_rebalance (node k m l r h)))
  unfolding avl_rebalance
  rebalance_right-Grown k m l r h n (eh, hl, hr) near e g =
      rw
        (
          pos_of_eq (get_hight r) (get_hight l) 2 e,
          negsuc_of_ne (get_hight r) (get_hight l) 1 (omega arith),
          balance_lem l,
          balance_lem r,
        )
        (elim (Bool-cases (eq_ℤ (sub_ℕ (get_hight (right_of r)) (get_hight (left_of r))) (pos 1))) [
          | inl one ↦ rw one (left_move-Grown k m l r h n hl hr e (eq_pos _ _ 1 one) g)
          | inr other ↦
              rw other
                (elim (Bool-cases
                  (eq_ℤ (sub_ℕ (get_hight (right_of l)) (get_hight (left_of l))) (negsuc 0))) [
                    | inl one ↦
                        rw one (rl_move-Grown k m l r h n hl hr near e (eq_negsuc _ _ 0 one) g)
                    | inr none' ↦ rw none' ((eh, hl, hr), omega arith, omega arith, omega arith)
                  ])
        ])

  -- A node that is too heavy on the left, where the left child leans to one side.
  rebalance_left-Grown :
      (k : K) (m : M) (l r : Avl K M) (h n : ℕ)
      → IsHigh (node k m l r h)
      → get_hight l ≡ get_hight r + 2
      → n ≡ get_hight r + 2
      → Grown n (with_result (avl_rebalance (node k m l r h)))
  unfolding avl_rebalance
  rebalance_left-Grown k m l r h n (eh, hl, hr) e g =
      rw
        (
          negsuc_of_eq (get_hight r) (get_hight l) 1 e,
          pos_of_ne (get_hight r) (get_hight l) 2 (omega arith),
          balance_lem l,
        )
        (elim (Bool-cases
          (eq_ℤ (sub_ℕ (get_hight (right_of l)) (get_hight (left_of l))) (negsuc 0))) [
            | inl one ↦ rw one (right_move-Grown k m l r h n hl hr e (eq_negsuc _ _ 0 one) g)
            | inr other ↦
                rw other
                  (elim (Bool-cases
                    (eq_ℤ (sub_ℕ (get_hight (right_of l)) (get_hight (left_of l))) (pos 1))) [
                      | inl one ↦ rw one (lr_move-Grown k m l r h n hl hr e (eq_pos _ _ 1 one) g)
                      | inr none' ↦ rw none' ((eh, hl, hr), omega arith, omega arith, omega arith)
                    ])
          ])

  -- After the right child has grown by at most one.
  finish_right-Grown :
      (k : K) (m : M) (l r : Avl K M) (h n old : ℕ)
      → IsHigh l
      → IsHigh r
      → Near 2 r
      → get_hight l ≤ old + 1
      → old ≤ get_hight l + 1
      → old ≤ get_hight r
      → get_hight r ≤ old + 1
      → n ≡ max (get_hight l) old + 1
      → Grown n (finish (node k m l r h))
  finish_right-Grown k m l r h n old hl hr near a b c d e =
      elim (Bool-cases (eq_ℤ (sub_ℕ (get_hight r) (get_hight l)) (pos 2))) [
        | inl two ↦
            let e' = eq_pos (get_hight r) (get_hight l) 2 two in
            rebalance_right-Grown k m l r (max (get_hight l) (get_hight r) + 1) n (refl, hl, hr)
              near e' (omega (arith, e'))
        | inr even ↦
            rw
              (avl_rebalance_even k m l r (max (get_hight l) (get_hight r) + 1)
                (ne_pos (get_hight r) (get_hight l) 2 even) (omega arith))
              (
                (refl, hl, hr),
                omega arith,
                omega (arith, ne_pos (get_hight r) (get_hight l) 2 even),
                omega (arith, ne_pos (get_hight r) (get_hight l) 2 even),
              )
      ]

  finish_left-Grown :
      (k : K) (m : M) (l r : Avl K M) (h n old : ℕ)
      → IsHigh l
      → IsHigh r
      → get_hight r ≤ old + 1
      → old ≤ get_hight r + 1
      → old ≤ get_hight l
      → get_hight l ≤ old + 1
      → n ≡ max old (get_hight r) + 1
      → Grown n (finish (node k m l r h))
  finish_left-Grown k m l r h n old hl hr a b c d e =
      elim (Bool-cases (eq_ℤ (sub_ℕ (get_hight l) (get_hight r)) (pos 2))) [
        | inl two ↦
            let e' = eq_pos (get_hight l) (get_hight r) 2 two in
            rebalance_left-Grown k m l r (max (get_hight l) (get_hight r) + 1) n (refl, hl, hr) e'
              (omega (arith, e'))
        | inr even ↦
            let ne = ne_pos (get_hight l) (get_hight r) 2 even in
            rw (avl_rebalance_even k m l r (max (get_hight l) (get_hight r) + 1) (omega arith) ne)
              ((refl, hl, hr), omega arith, omega (arith, ne), omega (arith, ne))
      ]

module _ {K M : Type 0} (comp : K → K → Ordering) where
  insert_right_step :
      (k : K) (m : M) (l r : Avl K M) (h : ℕ) (o : Option (Avl K M × Bool))
      → IsHigh (node k m l r h)
      → Near 1 (node k m l r h)
      → Grown (get_hight r) o
      → Grown h (insert_right k m l h o)
  insert_right_step k m l r h none high near g = absurd g
  insert_right_step k m l r h (some (r', b)) (eh, hl, hr) near (hr', lo, hi, near') =
      finish_right-Grown k m l r' h h (get_hight r) hl hr' near' near.0 near.1 lo hi eh

  insert_left_step :
      (k : K) (m : M) (l r : Avl K M) (h : ℕ) (o : Option (Avl K M × Bool))
      → IsHigh (node k m l r h)
      → Near 1 (node k m l r h)
      → Grown (get_hight l) o
      → Grown h (insert_left k m r h o)
  insert_left_step k m l r h none high near g = absurd g
  insert_left_step k m l r h (some (l', b)) (eh, hl, hr) near (hl', lo, hi, near') =
      finish_left-Grown k m l' r h h (get_hight l) hl' hr near.1 near.0 lo hi eh

  child-Grown :
      (t : Avl K M) (key : K) (meta : M)
      → IsHigh t
      → IsBalanced t
      → Grown (get_hight t) (insert_child t (avl_insert_node comp t key meta) key meta)
  unfolding avl_insert_node
  child-Grown leaf key meta high bal = ((refl, tt, tt), omega arith, omega arith, omega arith)
  child-Grown (node k m l r h) key meta high bal = elim (Ordering-cases (comp k key)) [
    | inl e ↦
        rw (e, avl_insert_node)
          (insert_left_step k m l r h _ high bal.0 (child-Grown l key meta high.1 bal.1))
    | inr (inl e) ↦ rw (e, avl_insert_node) (high, omega arith, omega arith, omega (arith, bal.0))
    | inr (inr e) ↦
        rw (e, avl_insert_node)
          (insert_right_step k m l r h _ high bal.0 (child-Grown r key meta high.2 bal.2))
  ]

  -- Insertion into a tree that is balanced and whose stored hights are right follows no NULL
  -- pointer, yields right hights, and the tree grows by at most one level; siblings then differ by
  -- at most two at the root.
  pub avl_insert_node-Grown :
      (k : K) (m : M) (l r : Avl K M) (h : ℕ) (key : K) (meta : M)
      → IsHigh (node k m l r h)
      → IsBalanced (node k m l r h)
      → Grown h (avl_insert_node comp (node k m l r h) key meta)
  avl_insert_node-Grown k m l r h = child-Grown (node k m l r h)

  -- At a node two levels higher on the right, whose left child leans to the left and whose right
  -- child has no left child and a right child of two levels or more, avl_rebalance follows a NULL
  -- pointer.
  pub avl_rebalance_fault :
      (k : K) (m : M) (l : Avl K M) (k' : K) (m' : M) (r' : Avl K M) (h h' : ℕ)
      → h' ≡ get_hight l + 2
      → 1 < get_hight r'
      → get_hight (left_of l) ≡ get_hight (right_of l) + 1
      → avl_rebalance (node k m l (node k' m' leaf r' h') h) ≡ none
  unfolding avl_rebalance rl_move right_move
  avl_rebalance_fault k m l k' m' r' h h' e f g =
      rw
        (
          pos_of_eq h' (get_hight l) 2 e,
          negsuc_of_ne h' (get_hight l) 1 (omega arith),
          balance_lem l,
          pos_of_ne (get_hight r') 0 1 (omega arith),
          negsuc_of_eq (get_hight (right_of l)) (get_hight (left_of l)) 0 (omega arith),
        )
        refl
