-- ===== src/HashMap/Table/Search.antt =====
-- `hash_insert` and `hash_search` on tables whose lengths tell trees from tables.
use Prim.Native.Nat.{Ordering}
use fgdb.Prelude.{
  ℕ, ◌+◌, ◌≡◌, refl, sym, ap, ◌∙◌, subst, Option, none, some, Bool, true, false, Bool-cases, inl,
  inr, arith, leb, ltb, lt→ltb, ltb_of_le, leb_of_lt,
}
use fgdb.HashMap.Key.Order.{KeyOrder}
use fgdb.HashMap.Avl.{Avl}
use fgdb.HashMap.Avl.Sorted.{hit, or_else}
use fgdb.HashMap.Table.{
  Node, tree, table, update, insert_tree, hash_insert, hash_remake, hash_search, insert_here,
  inserted_tree, max_hash_dep,
}
use fgdb.HashMap.Table.Contents.{
  Respects, look, IsOrdered, Adds, update_self, update-Adds, insert_tree-Adds,
}
use fgdb.HashMap.Table.Fits.{
  SlotFits, Fits, Spread, hash_insert-Fits, put_slot-some, with_result-some,
}
use fgdb.HashMap.Table.Remake.{hash_remake-Keeps}

module _ {K M : Type 0} (comp : K → K → Ordering) (hash : K → ℕ → ℕ) (order : KeyOrder comp)
    (respects : Respects comp hash) where
  -- Behind `avl_insert_node`, whatever it returned.
  inserted_tree-Adds :
      (dep : ℕ) (len : ℕ → ℕ) (top : ℕ → Node K M) (t : Avl K M) (key : K) (meta : M)
      (o : Option (Avl K M × Bool)) (n' : Node K M) (b : Bool)
      → IsOrdered comp hash (table dep len top)
      → top (hash key dep) ≡ tree t
      → insert_tree comp t key meta ≡ o
      → inserted_tree comp hash dep len top (hash key dep) o ≡ some (n', b)
      → Adds comp hash order respects (table dep len top) n' key meta
  unfolding IsOrdered
  inserted_tree-Adds dep len top t key meta none n' b ok is called e = absurd cc
  inserted_tree-Adds dep len top t key meta (some (t', b')) n' b ok is called e =
      let sorted : IsOrdered comp hash (tree t) =
        subst (λ s. IsOrdered comp hash s) is (ok (hash key dep)) in
      let adds = insert_tree-Adds comp hash order respects t t' key meta b' sorted called in
      behind b'
        (λ len'.
          update-Adds comp hash order respects dep len len' top (tree t') key meta ok (rw is adds))
        e
    where
      behind :
          (b' : Bool)
          → ((len' : ℕ → ℕ)
              → Adds comp hash order respects
                  (table dep len top)
                  (table dep len' (update top (hash key dep) (tree t')))
                  key
                  meta)
          → inserted_tree comp hash dep len top (hash key dep) (some (t', b')) ≡ some (n', b)
          → Adds comp hash order respects (table dep len top) n' key meta
      behind false adds e =
          let is : table dep (update len (hash key dep) (len (hash key dep) + 1))
                (update top (hash key dep) (tree t'))
              ≡ n' =
            ground arith in
          rw (← is) (adds _)
      behind true adds e =
          let grown : Node K M =
            table dep (update len (hash key dep) (len (hash key dep) + 1))
              (update top (hash key dep) (tree t')) in
          let remade : hash_remake comp hash grown (hash key dep) ≡ some n' =
            with_result-some _ true n' b e in
          let step = adds (update len (hash key dep) (len (hash key dep) + 1)) in
          let keeps =
            hash_remake-Keeps comp hash order respects grown n' (hash key dep) step.ordered
              remade in
          record { ordered = keeps.ordered; leads = λ k. keeps.leads k ∙ step.leads k }

  -- Where hash_insert follows no NULL pointer, the table behind it leads every key to what it led
  -- to before, and else the key inserted to the new entry.
  pub hash_insert-Adds :
      (n n' : Node K M) (key : K) (meta : M) (b : Bool)
      → IsOrdered comp hash n
      → hash_insert comp hash n key meta ≡ some (n', b)
      → Adds comp hash order respects n n' key meta
  unfolding hash_insert IsOrdered
  hash_insert-Adds (tree t) n' key meta b ok e = absurd cc
  hash_insert-Adds (table dep len top) n' key meta b ok e =
      elim (Bool-cases (leb max_hash_dep (len (hash key dep)))) [
        | inl deep ↦
            let (n, (below, result)) =
              put_slot-some dep len top (hash key dep) _ n' b (rw deep at e) in
            rw (← result) (
              update-Adds comp hash order respects dep len len top n key meta ok
                (hash_insert-Adds (top (hash key dep)) n key meta b (ok (hash key dep)) below))
        | inr here ↦ at_slot (top (hash key dep)) refl (rw here at e)
      ]
    where
      at_slot :
          (s : Node K M)
          → top (hash key dep) ≡ s
          → insert_here comp hash dep len top (hash key dep) s key meta ≡ some (n', b)
          → Adds comp hash order respects (table dep len top) n' key meta
      at_slot (table dep' len' top') is e = absurd cc
      at_slot (tree t) is e =
          inserted_tree-Adds dep len top t key meta (insert_tree comp t key meta) n' b ok is refl e

module _ {K M : Type 0} (comp : K → K → Ordering) (hash : K → ℕ → ℕ) where
  -- The search of a table finds what the key's hashes lead to.
  abbrev pub Reads : K → Node K M → Type 0
  Reads key (tree t) = Unit
  Reads key (table dep len top) =
      hash_search comp hash (table dep len top) key ≡ some (look comp hash (table dep len top) key)

  -- On a table that fits, the search ends at a tree.
  pub hash_search-Reads : (n : Node K M) (key : K) → Fits comp hash n → Reads key n
  unfolding hash_search look Fits
  hash_search-Reads (tree t) key fits = tt
  hash_search-Reads (table dep len top) key fits =
      at_slot (top (hash key dep)) refl (fits (hash key dep)).0
        (hash_search-Reads (top (hash key dep)) key (fits (hash key dep)).1)
    where
      at_slot :
          (s : Node K M)
          → top (hash key dep) ≡ s
          → SlotFits comp hash (len (hash key dep)) s
          → Reads key (top (hash key dep))
          → hash_search comp hash (table dep len top) key
            ≡ some (look comp hash (table dep len top) key)
      at_slot (tree t) is slot below = rw (is, lt→ltb (len (hash key dep)) max_hash_dep slot) refl
      at_slot (table dep' len' top') is slot below =
          let reads : Reads key (table dep' len' top') = subst (λ s. Reads key s) is below in
          rw (is, ltb_of_le (len (hash key dep)) max_hash_dep slot) reads

module _ {K M : Type 0} (comp : K → K → Ordering) (hash : K → ℕ → ℕ) where
  -- Where a slot holds a tree and counts one less than MAX_HASH_DEP, an insertion that the tree
  -- refuses is reported as refused but counted, and hash_search of that key then reads the tree as
  -- a table.
  pub hash_insert_fault :
      (dep : ℕ) (len : ℕ → ℕ) (top : ℕ → Node K M) (t t' : Avl K M) (key : K) (meta : M)
      → top (hash key dep) ≡ tree t
      → len (hash key dep) + 1 ≡ max_hash_dep
      → insert_tree comp t key meta ≡ some (t', false)
      → (n : Node K M) × ((hash_insert comp hash (table dep len top) key meta ≡ some (n, false))
          × (hash_search comp hash n key ≡ none))
  unfolding hash_insert hash_search
  hash_insert_fault dep len top t t' key meta is full refused =
      let i = hash key dep in
      let here : leb max_hash_dep (len i) ≡ false = leb_of_lt max_hash_dep (len i) (omega arith) in
      let top' = update top i (tree t') in
      let behind = table dep (update len i (len i + 1)) top' in
      let counted : ltb (update len i (len i + 1) i) max_hash_dep ≡ false =
        rw (update_self len i (len i + 1)) (ltb_of_le (len i + 1) max_hash_dep (omega arith)) in
      (
        behind,
        (rw (here, is, refused) refl, rw counted (lost (top' i) (update_self top i (tree t')))),
      )
    where
      lost : (s : Node K M) → s ≡ tree t' → hash_search comp hash s key ≡ none
      lost (tree t) is = refl
      lost (table dep len top) is = absurd cc

-- `o`, with what was found completed by `p`.
abbrev pub or_found : {A : Type 0} → Option (Option A) → Option A → Option (Option A)
or_found none p = none
or_found (some o) p = some (or_else o p)

module _ {K M : Type 0} (comp : K → K → Ordering) (hash : K → ℕ → ℕ) where
  -- For an order of keys that the hashes respect, on a table of sorted trees whose lengths tell
  -- trees from tables, where fewer than MAX_HASH_DEP entries of the key's tree have one hash at
  -- the next depth: if hash_insert returns 1, its table still has lengths that tell trees from
  -- tables, also where it remakes a full slot, and hash_search behind it finds what it found
  -- before, and else the new entry by the key inserted.
  pub hash_search-hash_insert :
      (order : KeyOrder comp) (respects : Respects comp hash) (dep dep' : ℕ) (len len' : ℕ → ℕ)
      (top top' : ℕ → Node K M) (key : K) (meta : M) (k : K)
      → IsOrdered comp hash (table dep len top)
      → Fits comp hash (table dep len top)
      → Spread comp hash (table dep len top) key meta
      → hash_insert comp hash (table dep len top) key meta ≡ some (table dep' len' top', true)
      → Fits comp hash (table dep' len' top')
        × (hash_search comp hash (table dep' len' top') k
            ≡ or_found (hash_search comp hash (table dep len top) k) (hit comp (key, meta) k))
  hash_search-hash_insert order respects dep dep' len len' top top' key meta k ok fits spread e =
      let adds =
        hash_insert-Adds comp hash order respects (table dep len top) (table dep' len' top') key
          meta true ok e in
      let fits' =
        (hash_insert-Fits comp hash (table dep len top) (table dep' len' top') key meta fits spread
          e).0 in
      let before = hash_search-Reads comp hash (table dep len top) k fits in
      let behind = hash_search-Reads comp hash (table dep' len' top') k fits' in
      (
        fits',
        behind
            ∙ ap some (adds.leads k)
            ∙ ap (λ o. or_found o (hit comp (key, meta) k)) (sym before),
      )
