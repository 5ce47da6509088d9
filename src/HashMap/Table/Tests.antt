-- ===== src/HashMap/Table/Tests.antt =====
-- Runs of the tables with the program's keys.
use fgdb.Prelude.{
  ℕ, ◌≡◌, refl, none, some, true, false, inl, inr, arith, [], ◌∷◌, same_or_not, ==_of_ne, ==_refl,
  ◌<◌,
}
use fgdb.HashMap.Key.{hash, key_comp, hash_factor, hash_from}
use fgdb.HashMap.Key.Order.{Key, comp_keys, comp_keys-KeyOrder, hash_of_comp_keys}
use fgdb.HashMap.Avl.{Avl, leaf, node, avl_insert_node}
use fgdb.HashMap.Avl.Sorted.{hit}
use fgdb.HashMap.Table.{
  Node, tree, table, update, hash_insert, hash_search, insert_tree, hash_remake, hash_new_node,
  hash_insert_avl_in_hash, max_hash_dep,
}
use fgdb.HashMap.Table.Contents.{Respects, IsOrdered}
use fgdb.HashMap.Table.Fits.{Fits, Spread, counts}
use fgdb.HashMap.Table.Search.{or_found, hash_search-hash_insert, hash_insert_fault}

abbrev a : Key
a = record {
  str = record { size = 1; ptr = some (97 ∷ []) };
  ok = record { fits = omega arith; holds = omega arith };
}

abbrev hash_key : Key → ℕ → ℕ
hash_key key dep = hash key.str dep

hash_key-Respects : Respects comp_keys hash_key
hash_key-Respects k k' dep e = hash_of_comp_keys k k' dep e

-- Every slot is NULL and counts what one tree may hold.
abbrev full : ℕ → ℕ
full i = 10023

abbrev nulls : ℕ → Node Key ℕ
nulls i = tree leaf

abbrev a_tree : Avl Key ℕ
a_tree = node a 5 leaf leaf 1

-- Behind the insertion of `a` its slot holds a table, in which `a` is alone.
abbrev inner_len : ℕ → ℕ
inner_len = update (λ i. 0) 5529 1

abbrev inner_top : ℕ → Node Key ℕ
inner_top = update (λ i. tree leaf) 5529 (tree a_tree)

abbrev behind_len : ℕ → ℕ
behind_len = update (update full 8633 10024) 8633 10025

abbrev behind_top : ℕ → Node Key ℕ
behind_top = update (update nulls 8633 (tree a_tree)) 8633 (table 1 inner_len inner_top)

hash_insert_full :
    hash_insert comp_keys hash_key (table 0 full nulls) a 5
    ≡ some (table 0 behind_len behind_top, true)
unfolding hash_insert hash_remake hash_insert_avl_in_hash hash_new_node hash hash_from hash_factor
hash_insert_full = refl

nulls-Fits : Fits comp_keys hash_key (table 0 full nulls)
unfolding Fits
nulls-Fits i = (omega arith, tt)

-- The tree of `a` has one entry.
nulls-Spread : Spread comp_keys hash_key (table 0 full nulls) a 5
unfolding Spread counts
nulls-Spread = (few, tt)
  where
    few : (i : ℕ) → counts comp_keys hash_key 1 i a_tree < max_hash_dep
    few i = elim (same_or_not (hash_key a 1) i) [
      | inl e ↦ rw (e, ==_refl i) (omega arith)
      | inr ne ↦ rw (==_of_ne (hash_key a 1) i ne) (omega arith)
    ]

nulls-IsOrdered : IsOrdered comp_keys hash_key (table 0 full nulls)
unfolding IsOrdered
nulls-IsOrdered i = tt

hash_search-hash_insert_example :
    Fits comp_keys hash_key (table 0 behind_len behind_top)
    × (hash_search comp_keys hash_key (table 0 behind_len behind_top) a
        ≡ or_found (hash_search comp_keys hash_key (table 0 full nulls) a) (hit comp_keys (a, 5) a))
hash_search-hash_insert_example =
    hash_search-hash_insert comp_keys hash_key comp_keys-KeyOrder hash_key-Respects 0 0 full
      behind_len nulls behind_top a 5 a nulls-IsOrdered nulls-Fits nulls-Spread hash_insert_full

abbrev trees : ℕ → Node Key ℕ
trees i = tree a_tree

refused : insert_tree comp_keys a_tree a 6 ≡ some (a_tree, false)
unfolding avl_insert_node comp_keys key_comp
refused = refl

hash_insert_fault_example :
    (n : Node Key ℕ) × ((hash_insert comp_keys hash_key (table 0 full trees) a 6 ≡ some (n, false))
      × (hash_search comp_keys hash_key n a ≡ none))
hash_insert_fault_example =
    hash_insert_fault comp_keys hash_key 0 full trees a_tree a_tree a 6 refl refl refused
