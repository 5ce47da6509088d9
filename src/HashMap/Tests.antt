-- ===== src/HashMap/Tests.antt =====
-- Runs of the keys' order and of the trees on concrete data.
use Prim.Native.Nat.{compare, Ordering}
use fgdb.Prelude.{ℕ, ◌<◌, ◌≡◌, refl, none, some, [], ◌∷◌, true, arith}
use fgdb.HashMap.Key.{key_comp, hash, max_hash_node}
use fgdb.HashMap.Key.Order.{Key, comp_keys, comp_keys-KeyOrder, hash-lt}
use fgdb.HashMap.Avl.{Avl, leaf, node, avl_search, avl_insert_node, left_move, avl_rebalance}
use fgdb.HashMap.Avl.Moves.{Grown}
use fgdb.HashMap.Avl.Hight.{avl_insert_node-Grown, avl_rebalance_fault}
use fgdb.HashMap.Avl.Sorted.{insert, or_else, hit}
use fgdb.HashMap.Avl.Insert.{Holds, avl_insert_node-Holds, avl_search-avl_insert_node}

abbrev key_of : (b : ℕ) → Key
key_of b = record {
  str = record { size = 1; ptr = some (b ∷ []) };
  ok = record { fits = omega arith; holds = omega arith };
}

abbrev a : Key
a = key_of 97

abbrev b : Key
b = key_of 98

abbrev c : Key
c = key_of 99

-- The same bytes in a larger block.
abbrev b' : Key
b' = record {
  str = record { size = 1; ptr = some (98 ∷ 7 ∷ []) };
  ok = record { fits = omega arith; holds = omega arith };
}

abbrev chain : Avl Key ℕ
chain = node a 1 leaf (node b 2 leaf leaf 1) 2

comp_keys_abc :
    (comp_keys a b ≡ Ordering.gt) × (comp_keys b c ≡ Ordering.gt) × (comp_keys b b' ≡ Ordering.eq)
unfolding comp_keys key_comp
comp_keys_abc = (refl, refl, refl)

hash-lt_example : hash a.str 0 < max_hash_node
hash-lt_example = hash-lt a.str 0

avl_insert_node-Holds_example :
    Holds (insert comp_keys (c, 3) ((a, 1) ∷ (b, 2) ∷ [])) (avl_insert_node comp_keys chain c 3)
avl_insert_node-Holds_example =
    avl_insert_node-Holds comp_keys comp_keys-KeyOrder chain c 3 ((comp_keys_abc.0, tt), (tt, tt))

abbrev grown_chain : Avl Key ℕ
grown_chain = node b 2 (node a 1 leaf leaf 1) (node c 3 leaf leaf 1) 2

-- The third key turns the chain.
chain_turns : avl_insert_node comp_keys chain c 3 ≡ some (grown_chain, true)
unfolding avl_insert_node comp_keys key_comp avl_rebalance left_move
chain_turns = refl

chain_finds : avl_search comp_keys chain b' ≡ some (b, 2)
unfolding avl_search comp_keys key_comp
chain_finds = refl

avl_search-avl_insert_node_example :
    avl_search comp_keys grown_chain c
    ≡ or_else (avl_search comp_keys chain c) (hit comp_keys (c, 3) c)
avl_search-avl_insert_node_example =
    avl_search-avl_insert_node comp_keys comp_keys-KeyOrder chain grown_chain c 3 true c
      ((comp_keys_abc.0, tt), (tt, tt)) chain_turns

avl_insert_node-Grown_example : Grown 2 (avl_insert_node comp_keys chain c 3)
avl_insert_node-Grown_example =
    avl_insert_node-Grown comp_keys a 1 leaf (node b 2 leaf leaf 1) 2 c 3 (refl, tt, (refl, tt, tt))
      ((omega arith, omega arith), tt, ((omega arith, omega arith), tt, tt))

abbrev heavy : Avl ℕ ℕ
heavy =
    node 8 0 (node 5 0 (node 3 0 leaf leaf 1) leaf 2)
      (node 10 0 leaf
        (node 20 0 (node 15 0 (node 12 0 leaf leaf 1) leaf 2) (node 25 0 leaf leaf 1) 3) 4)
      5

avl_rebalance_fault_example : avl_rebalance heavy ≡ none
avl_rebalance_fault_example =
    avl_rebalance_fault compare 8 0 (node 5 0 (node 3 0 leaf leaf 1) leaf 2) 10 0
      (node 20 0 (node 15 0 (node 12 0 leaf leaf 1) leaf 2) (node 25 0 leaf leaf 1) 3) 5 4 refl
      (omega arith) refl
