-- ===== src/HashMap/Avl.antt =====
-- The AVL tree of a bucket: src/lib/hashmap/AVLNode.h and src/lib/hashmap/AVLNode.c. `leaf` is NULL.
-- The parent links, which the functions below write and do not read, are left out.
pub mod Flat
pub mod Hight
pub mod Insert
pub mod Moves
pub mod Sorted
use Prim.Native.Nat.{Ordering}
use fgdb.Prelude.{
  ℕ, ◌+◌, ◌-◌, max, Bool, true, false, Option, none, some, ◌&&◌, if◌then◌else◌, ◌==◌,
}
use fgdb.Prelude.Int.{ℤ, pos, negsuc, sub_ℕ, eq_ℤ}

module _ (K M : Type 0) where
  pub data Avl : Type 0 where
    leaf : Avl
    node : (key : K) (meta : M) (left right : Avl) (hight : ℕ) → Avl

module _ {K M : Type 0} where
  -- `avl_new_node`, where `malloc` succeeds
  unfoldable pub avl_new_node : K → M → Avl K M
  avl_new_node key meta = node key meta leaf leaf 1

  abbrev pub get_hight : Avl K M → ℕ
  get_hight leaf = 0
  get_hight (node key meta left right hight) = hight

  -- `avl_calc_hight`
  abbrev pub avl_calc_hight : Avl K M → Avl K M
  avl_calc_hight leaf = leaf
  avl_calc_hight (node key meta left right hight) =
      node key meta left right (max (get_hight left) (get_hight right) + 1)

  abbrev pub avl_calc_balance : Avl K M → ℤ
  avl_calc_balance leaf = pos 0
  avl_calc_balance (node key meta left right hight) = sub_ℕ (get_hight right) (get_hight left)

  abbrev pub left_of : Avl K M → Avl K M
  left_of leaf = leaf
  left_of (node key meta left right hight) = left

  abbrev pub right_of : Avl K M → Avl K M
  right_of leaf = leaf
  right_of (node key meta left right hight) = right

  -- `none` is the access through a NULL pointer.
  unfoldable pub right_move : Avl K M → Option (Avl K M)
  right_move (node k m (node k' m' l' r' h') r h) =
      some (avl_calc_hight (node k' m' l' (avl_calc_hight (node k m r' r h)) h'))
  right_move _ = none

  unfoldable pub left_move : Avl K M → Option (Avl K M)
  left_move (node k m l (node k' m' l' r' h') h) =
      some (avl_calc_hight (node k' m' (avl_calc_hight (node k m l l' h)) r' h'))
  left_move _ = none

  abbrev pub with_left : Avl K M → Option (Avl K M) → Option (Avl K M)
  with_left (node k m l r h) (some l') = some (node k m l' r h)
  with_left _ _ = none

  abbrev pub with_right : Avl K M → Option (Avl K M) → Option (Avl K M)
  with_right (node k m l r h) (some r') = some (node k m l r' h)
  with_right _ _ = none

  abbrev pub and_then : Option (Avl K M) → (Avl K M → Option (Avl K M)) → Option (Avl K M)
  and_then none f = none
  and_then (some t) f = f t

  unfoldable pub lr_move : Avl K M → Option (Avl K M)
  lr_move t = and_then (with_left t (left_move (left_of t))) right_move

  unfoldable pub rl_move : Avl K M → Option (Avl K M)
  rl_move t = and_then (with_right t (right_move (right_of t))) left_move

  -- The last test looks at the left child.
  unfoldable pub avl_rebalance : Avl K M → Option (Avl K M)
  avl_rebalance t =
      let balance = avl_calc_balance t in
      let left = avl_calc_balance (left_of t) in
      let right = avl_calc_balance (right_of t) in
      if eq_ℤ balance (negsuc 1) && eq_ℤ left (negsuc 0)
      then right_move t
      else if eq_ℤ balance (pos 2) && eq_ℤ right (pos 1)
      then left_move t
      else if eq_ℤ balance (negsuc 1) && eq_ℤ left (pos 1)
      then lr_move t
      else if eq_ℤ balance (pos 2) && eq_ℤ left (negsuc 0)
      then rl_move t
      else some t

  abbrev pub with_result : Option (Avl K M) → Option (Avl K M × Bool)
  with_result none = none
  with_result (some t) = some (t, true)

  -- The end of an insertion: `avl_calc_hight`, then `avl_rebalance`, and the result 1.
  abbrev pub finish : Avl K M → Option (Avl K M × Bool)
  finish t = with_result (avl_rebalance (avl_calc_hight t))

  abbrev pub insert_right : K → M → Avl K M → ℕ → Option (Avl K M × Bool) → Option (Avl K M × Bool)
  insert_right k m left hight none = none
  insert_right k m left hight (some (right, inserted)) = finish (node k m left right hight)

  abbrev pub insert_left : K → M → Avl K M → ℕ → Option (Avl K M × Bool) → Option (Avl K M × Bool)
  insert_left k m right hight none = none
  insert_left k m right hight (some (left, inserted)) = finish (node k m left right hight)

  -- `if (child) avl_insert_node(&child, new) else child = new`, for the result of the call.
  abbrev pub insert_child : Avl K M → Option (Avl K M × Bool) → K → M → Option (Avl K M × Bool)
  insert_child leaf called key meta = some (node key meta leaf leaf 1, true)
  insert_child (node k m l r h) called key meta = called

module _ {K M : Type 0} (key_comp : K → K → Ordering) where
  -- The node that is found.
  unfoldable pub avl_search : Avl K M → K → Option (K × M)
  avl_search leaf key = none
  avl_search (node k m left right hight) key = elim (key_comp k key) [
    | Ordering.eq ↦ some (k, m)
    | Ordering.gt ↦ avl_search right key
    | Ordering.lt ↦ avl_search left key
  ]

  -- The tree, and whether the result is 1; -1 comes only from the root, since the results of the
  -- inner calls are not read. A child that is NULL becomes the new node.
  unfoldable pub avl_insert_node : Avl K M → K → M → Option (Avl K M × Bool)
  avl_insert_node leaf key meta = none
  avl_insert_node (node k m left right hight) key meta = elim (key_comp k key) [
    | Ordering.gt ↦
        insert_right k m left hight (insert_child right (avl_insert_node right key meta) key meta)
    | Ordering.lt ↦
        insert_left k m right hight (insert_child left (avl_insert_node left key meta) key meta)
    | Ordering.eq ↦ some (node k m left right hight, false)
  ]
