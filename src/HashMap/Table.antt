-- ===== src/HashMap/Table.antt =====
-- The tables of trees: src/lib/hashmap/HashMap.h and src/lib/hashmap/HashMap.c. A slot of `top` is a
-- pointer without a type, which the code reads as a tree or as a table by the slot's length alone; a
-- slot that is read as what it is not, or through NULL, gives `none`. Allocations succeed.
pub mod Contents
pub mod Fits
pub mod Remake
pub mod Search
mod Tests
use Prim.Native.Nat.{Ordering}
use fgdb.Prelude.{ℕ, ◌+◌, Bool, true, false, Option, none, some, ltb, leb, ◌==◌, if◌then◌else◌}
use fgdb.HashMap.Avl.{Avl, leaf, node, avl_search, avl_insert_node, insert_child}

abbrev pub max_hash_dep : ℕ
max_hash_dep = 10024

module _ (K M : Type 0) where
  -- What a `void *` of `top` may lead to; `tree leaf` is NULL.
  pub data Node : Type 0 where
    tree : Avl K M → Node
    table : (dep : ℕ) (len_of_list : ℕ → ℕ) (top : ℕ → Node) → Node

-- An array with its slot `i` set.
abbrev pub update : {A : Type 0} → (ℕ → A) → ℕ → A → ℕ → A
update f i a j = if j == i then a else f j

module _ {K M : Type 0} where
  unfoldable pub hash_new_node : ℕ → Node K M
  hash_new_node dep = table dep (λ i. 0) (λ i. tree leaf)

  abbrev pub put_slot :
      ℕ → (ℕ → ℕ) → (ℕ → Node K M) → ℕ → Option (Node K M × Bool) → Option (Node K M × Bool)
  put_slot dep len top i none = none
  put_slot dep len top i (some (n, inserted)) = some (table dep len (update top i n), inserted)

  abbrev pub in_table :
      ℕ → (ℕ → ℕ) → (ℕ → Node K M) → ℕ → Option (Avl K M × Bool) → Option (Node K M)
  in_table dep len top i none = none
  in_table dep len top i (some (t, inserted)) =
      some (table dep (update len i (len i + 1)) (update top i (tree t)))

  abbrev pub and_then : Option (Node K M) → (Node K M → Option (Node K M)) → Option (Node K M)
  and_then none f = none
  and_then (some n) f = f n

  abbrev pub remade : ℕ → (ℕ → ℕ) → (ℕ → Node K M) → ℕ → Option (Node K M) → Option (Node K M)
  remade dep len top i none = none
  remade dep len top i (some n) = some (table dep (update len i (len i + 1)) (update top i n))

  abbrev pub with_result : Option (Node K M) → Bool → Option (Node K M × Bool)
  with_result none inserted = none
  with_result (some n) inserted = some (n, inserted)

module _ {K M : Type 0} (key_comp : K → K → Ordering) where
  -- The slot of a tree behind an insertion; `avl_insert_node` is called for a tree that is not NULL.
  abbrev pub insert_tree : Avl K M → K → M → Option (Avl K M × Bool)
  insert_tree t key meta = insert_child t (avl_insert_node key_comp t key meta) key meta

module _ {K M : Type 0} (key_comp : K → K → Ordering) (hash : K → ℕ → ℕ) where
  abbrev pub search_tree : Node K M → K → Option (Option (K × M))
  search_tree (tree t) key = some (avl_search key_comp t key)
  search_tree (table dep len top) key = none

  -- `hash_search`
  unfoldable pub hash_search : Node K M → K → Option (Option (K × M))
  hash_search (tree t) key = none
  hash_search (table dep len top) key =
      let i = hash key dep in
      let below = hash_search (top i) key in
      if ltb (len i) max_hash_dep then search_tree (top i) key else below

  abbrev pub insert_slot : ℕ → (ℕ → ℕ) → (ℕ → Node K M) → ℕ → Node K M → K → M → Option (Node K M)
  insert_slot dep len top i (tree t) key meta =
      in_table dep len top i (insert_tree key_comp t key meta)
  insert_slot dep len top i (table dep' len' top') key meta = none

  -- One node of the old tree, as `__hash_insert_avl_in_hash` puts it into a table.
  abbrev pub insert_go : Node K M → K → M → Option (Node K M)
  insert_go (tree t) key meta = none
  insert_go (table dep len top) key meta =
      insert_slot dep len top (hash key dep) (top (hash key dep)) key meta

  -- `__hash_insert_avl_in_hash`: the left subtree, the right one, the node itself.
  unfoldable pub hash_insert_avl_in_hash : Node K M → Avl K M → Option (Node K M)
  hash_insert_avl_in_hash n leaf = some n
  hash_insert_avl_in_hash n (node key meta left right hight) =
      and_then (hash_insert_avl_in_hash n left)
        (λ n₁. and_then (hash_insert_avl_in_hash n₁ right) (λ n₂. insert_go n₂ key meta))

  abbrev pub remake_slot : ℕ → (ℕ → ℕ) → (ℕ → Node K M) → ℕ → Node K M → Option (Node K M)
  remake_slot dep len top i (tree t) =
      remade dep len top i (hash_insert_avl_in_hash (hash_new_node (dep + 1)) t)
  remake_slot dep len top i (table dep' len' top') = none

  -- `__hash_remake`
  unfoldable pub hash_remake : Node K M → ℕ → Option (Node K M)
  hash_remake (tree t) i = none
  hash_remake (table dep len top) i =
      if len i == max_hash_dep then remake_slot dep len top i (top i) else some (table dep len top)

  -- Behind `avl_insert_node`: the length grows in any case, and a table is remade after a success.
  abbrev pub inserted_tree :
      ℕ → (ℕ → ℕ) → (ℕ → Node K M) → ℕ → Option (Avl K M × Bool) → Option (Node K M × Bool)
  inserted_tree dep len top i none = none
  inserted_tree dep len top i (some (t, false)) =
      some (table dep (update len i (len i + 1)) (update top i (tree t)), false)
  inserted_tree dep len top i (some (t, true)) =
      with_result (hash_remake (table dep (update len i (len i + 1)) (update top i (tree t))) i)
        true

  abbrev pub insert_here :
      ℕ → (ℕ → ℕ) → (ℕ → Node K M) → ℕ → Node K M → K → M → Option (Node K M × Bool)
  insert_here dep len top i (tree t) key meta =
      inserted_tree dep len top i (insert_tree key_comp t key meta)
  insert_here dep len top i (table dep' len' top') key meta = none

  -- `hash_insert`: the table behind it, and whether the result is 1.
  unfoldable pub hash_insert : Node K M → K → M → Option (Node K M × Bool)
  hash_insert (tree t) key meta = none
  hash_insert (table dep len top) key meta =
      let i = hash key dep in
      let below = put_slot dep len top i (hash_insert (top i) key meta) in
      if leb max_hash_dep (len i) then below else insert_here dep len top i (top i) key meta
