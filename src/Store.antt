-- ===== src/Store.antt =====
-- The interface of the operations to the hash map and the pages, and src/memory/hashmap.c.
use fgdb.Prelude.{ℕ, Option, none, some}
use fgdb.Str.{Str}

-- `S` is the state of the hash map, of the pages and of the `key_meta_t` blocks, `H` a pointer to such
-- a block and `P` a pointer to a page's header.
pub record Store (S H P : Type 0) : Type 0 where
  -- The `meta` of the node that `hash_search` finds.
  pub hash_search : S → Str → Option H
  -- `none` is any result but 1.
  pub hash_insert : S → Str → H → Option S
  pub hash_delete : S → Str → Option S
  -- A new block with the same page and `header_key_id`.
  pub copy_meta : S → H → H × S
  -- A new block, and `page_value_set` for it; `none` for NULL.
  pub page_value_set : S → Str → Option (H × P × S)
  pub page_value_get : S → H → Str × S
  pub page_value_unset : S → H → Option (Str × P × S)
  pub update_lsn : S → P → ℕ → S

-- What `hashmap_insert_key` returns: 0, or -1 with an error.
pub data Inserted (S : Type 0) : Type 0 where
  inserted : S → Inserted S
  key_found : Inserted S
  internal_error : Inserted S

-- What `hashmap_delete_key` returns; `assert_failed` is its assertion.
pub data Deleted (S H : Type 0) : Type 0 where
  deleted : H → S → Deleted S H
  not_found : Deleted S H
  assert_failed : Deleted S H

module _ {S H P : Type 0} (store : Store S H P) where
  open store use {hash_search, hash_insert, hash_delete, copy_meta}

  unfoldable pub hashmap_lookup_key : S → Str → Option H
  hashmap_lookup_key s key = hash_search s key

  unfoldable pub hashmap_insert_key : S → H → Str → Inserted S
  hashmap_insert_key s key_meta key = elim (hash_search s key) [
    | some found ↦ key_found
    | none ↦ elim (hash_insert s key key_meta) [ some s' ↦ inserted s' | none ↦ internal_error ]
  ]

  unfoldable pub hashmap_delete_key : S → Str → Deleted S H
  hashmap_delete_key s key = elim (hash_search s key) [
    | none ↦ not_found
    | some key_meta ↦
        let (rv, s') = copy_meta s key_meta in
        elim (hash_delete s' key) [ some s'' ↦ deleted rv s'' | none ↦ assert_failed ]
  ]
