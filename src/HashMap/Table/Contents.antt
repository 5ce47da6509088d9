-- ===== src/HashMap/Table/Contents.antt =====
-- The entries that a table leads a key to, whatever the lengths of its slots say.
use Prim.Native.Nat.{Ordering}
use fgdb.Prelude.{
  ℕ, ◌≡◌, ◌≢◌, refl, sym, ap, ◌∙◌, Option, none, some, Bool, inl, inr, Ordering-cases, arith,
  ==_refl, ==_of_ne, same_or_not,
}
use fgdb.HashMap.Key.Order.{KeyOrder}
use fgdb.HashMap.Avl.{Avl, leaf, node, avl_search}
use fgdb.HashMap.Avl.Flat.{flat}
use fgdb.HashMap.Avl.Sorted.{IsSorted, insert, hit, or_else, or_else-none, insert-IsSorted}
use fgdb.HashMap.Avl.Insert.{avl_insert_node-Holds, avl_search-avl_insert_node}
use fgdb.HashMap.Table.{Node, tree, table, update, insert_tree}

pub update_self : {A : Type 0} (f : ℕ → A) (i : ℕ) (a : A) → update f i a i ≡ a
update_self f i a = rw (==_refl i) refl

pub update_ne : {A : Type 0} (f : ℕ → A) (i j : ℕ) (a : A) → j ≢ i → update f i a j ≡ f j
update_ne f i j a h = rw (==_of_ne j i h) refl

-- What the tables rely on: keys that compare as equal have the same hash at every depth.
abbrev pub Respects : {K : Type 0} → (K → K → Ordering) → (K → ℕ → ℕ) → Type 0
Respects {K} comp hash = (a b : K) (dep : ℕ) → comp a b ≡ Ordering.eq → hash a dep ≡ hash b dep

module _ {K M : Type 0} (comp : K → K → Ordering) (hash : K → ℕ → ℕ) where
  -- The entry of a key, found by way of its hashes.
  unfoldable pub look : Node K M → K → Option (K × M)
  look (tree t) key = avl_search comp t key
  look (table dep len top) key = look (top (hash key dep)) key

  -- The entries of every tree are sorted.
  unfoldable pub IsOrdered : Node K M → Type 0
  IsOrdered (tree t) = IsSorted comp (flat t)
  IsOrdered (table dep len top) = (i : ℕ) → IsOrdered (top i)

module _ {K M : Type 0} (comp : K → K → Ordering) (order : KeyOrder comp) where
  avl_search-one :
      (key : K) (meta : M) (k : K)
      → avl_search comp (node key meta leaf leaf 1) k
        ≡ or_else (avl_search comp leaf k) (hit comp (key, meta) k)
  unfolding avl_search
  avl_search-one key meta k = elim (Ordering-cases (comp key k)) [
    | inl e ↦ rw (e, avl_search, hit) refl
    | inr (inl e) ↦ rw (e, avl_search, hit) refl
    | inr (inr e) ↦ rw (e, avl_search, hit) refl
  ]

  -- An insertion into a slot's tree, NULL or not.
  pub insert_tree_lem :
      (t t' : Avl K M) (key : K) (meta : M) (b : Bool)
      → IsSorted comp (flat t)
      → insert_tree comp t key meta ≡ some (t', b)
      → IsSorted comp (flat t')
        × ((k : K) → avl_search comp t' k ≡ or_else (avl_search comp t k) (hit comp (key, meta) k))
  insert_tree_lem leaf t' key meta b h e =
      let is : node key meta leaf leaf 1 ≡ t' = ground arith in
      (rw (← is) (tt, tt), λ k. rw (← is) (avl_search-one key meta k))
  insert_tree_lem (node k m l r hight) t' key meta b h e =
      let t : Avl K M = node k m l r hight in
      let holds = avl_insert_node-Holds comp order t key meta h in
      let is : flat t' ≡ insert comp (key, meta) (flat t) = rw e at holds in
      (
        rw is (insert-IsSorted comp order (key, meta) (flat t) h),
        λ k'. avl_search-avl_insert_node comp order t t' key meta b k' h e,
      )

module _ {K M : Type 0} (comp : K → K → Ordering) (hash : K → ℕ → ℕ) (order : KeyOrder comp)
    (respects : Respects comp hash) where
  -- `n'` leads to what `n` leads to, and else to the new entry by its key.
  pub record Adds (n n' : Node K M) (key : K) (meta : M) : Type 0 where
    pub ordered : IsOrdered comp hash n'
    pub leads :
        (k : K) → look comp hash n' k ≡ or_else (look comp hash n k) (hit comp (key, meta) k)

  hit_ne :
      (key : K) (meta : M) (k : K) (dep : ℕ)
      → hash k dep ≢ hash key dep
      → hit comp (key, meta) k ≡ none
  hit_ne key meta k dep ne = elim (Ordering-cases (comp key k)) [
    | inl e ↦ rw (e, hit) refl
    | inr (inl e) ↦ absurd (ne (sym (respects key k dep e)))
    | inr (inr e) ↦ rw (e, hit) refl
  ]

  -- A table with the slot of the key's hash replaced.
  pub update-Adds :
      (dep : ℕ) (len len' : ℕ → ℕ) (top : ℕ → Node K M) (n : Node K M) (key : K) (meta : M)
      → IsOrdered comp hash (table dep len top)
      → Adds (top (hash key dep)) n key meta
      → Adds (table dep len top) (table dep len' (update top (hash key dep) n)) key meta
  unfolding look IsOrdered
  update-Adds dep len len' top n key meta ok adds = record {
    ordered = λ j. elim (same_or_not j (hash key dep)) [
      | inl e ↦ rw (e, update_self top (hash key dep) n) adds.ordered
      | inr ne ↦ rw (update_ne top (hash key dep) j n ne) (ok j)
    ];
    leads = λ k. elim (same_or_not (hash k dep) (hash key dep)) [
      | inl e ↦
          let at : update top (hash key dep) n (hash k dep) ≡ n =
            rw e (update_self top (hash key dep) n) in
          ap (λ m. look comp hash m k) at
          ∙ adds.leads k
          ∙ ap (λ i. or_else (look comp hash (top i) k) (hit comp (key, meta) k)) (sym e)
      | inr ne ↦
          ap (λ m. look comp hash m k) (update_ne top (hash key dep) (hash k dep) n ne)
          ∙ sym (
              ap (λ o. or_else (look comp hash (top (hash k dep)) k) o) (hit_ne key meta k dep ne)
              ∙ or_else-none (look comp hash (top (hash k dep)) k))
    ];
  }

  -- A tree in a slot, with an entry inserted.
  pub insert_tree-Adds :
      (t t' : Avl K M) (key : K) (meta : M) (b : Bool)
      → IsOrdered comp hash (tree t)
      → insert_tree comp t key meta ≡ some (t', b)
      → Adds (tree t) (tree t') key meta
  unfolding look IsOrdered
  insert_tree-Adds t t' key meta b h e =
      let (ordered, leads) = insert_tree_lem comp order t t' key meta b h e in
      record { ordered = ordered; leads = leads }
