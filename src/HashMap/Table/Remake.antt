-- ===== src/HashMap/Table/Remake.antt =====
-- A tree moved into a table: `__hash_insert_avl_in_hash` and `__hash_remake`.
use Prim.Native.Nat.{Ordering}
use fgdb.Prelude.{
  ℕ, ◌+◌, ◌≡◌, refl, sym, ap, ◌∙◌, subst, Option, none, some, Bool, Bool-cases, same_or_not, inl,
  inr, Ordering-cases, List, [], ◌∷◌, ◌==◌,
}
use fgdb.HashMap.Key.Order.{KeyOrder}
use fgdb.HashMap.Avl.{Avl, leaf, node, avl_search}
use fgdb.HashMap.Avl.Flat.{flat}
use fgdb.HashMap.Avl.Sorted.{
  IsSorted, Below, find, find-Below, find-Above, Below-trans, Above-trans, Above-same, Lt_same, hit,
  or_else, or_else-none, or_else_assoc, IsSorted-cut, find-cut_eq, find-cut_lt, find-cut_gt,
}
use fgdb.HashMap.Avl.Insert.{avl_search-find}
use fgdb.HashMap.Table.{
  Node, tree, table, update, hash_new_node, in_table, insert_slot, insert_go, and_then,
  hash_insert_avl_in_hash, remade, remake_slot, hash_remake, max_hash_dep,
}
use fgdb.HashMap.Table.Contents.{
  Respects, look, IsOrdered, Adds, update-Adds, insert_tree-Adds, update_self, update_ne,
}

module _ {K M : Type 0} (comp : K → K → Ordering) where
  -- An entry with the key, by way of every node: the left subtree, the right one, the node itself.
  unfoldable pub search_all : Avl K M → K → Option (K × M)
  search_all leaf key = none
  search_all (node k m left right hight) key =
      or_else (or_else (search_all left key) (search_all right key)) (hit comp (k, m) key)

module _ {K M : Type 0} (comp : K → K → Ordering) (order : KeyOrder comp) where
  open order use {comp_lt}

  Below-same :
      (xs : List (K × M)) (a b : K) → Below comp a xs → comp a b ≡ Ordering.eq → Below comp b xs
  Below-same [] a b h e = tt
  Below-same (x ∷ xs) a b h e = (Lt_same comp order x.0 a b h.0 e, Below-same xs a b h.1 e)

  -- Where the entries are sorted, at most one has the key.
  pub search_all-find :
      (t : Avl K M) (key : K)
      → IsSorted comp (flat t)
      → search_all comp t key ≡ find comp (flat t) key
  unfolding search_all find
  search_all-find leaf key h = refl
  search_all-find (node k m l r hight) key h =
      let (sl, bl, ar, sr) = IsSorted-cut comp (flat l) (flat r) (k, m) h in
      let left = search_all-find l key sl in
      let right = search_all-find r key sr in
      elim (Ordering-cases (comp k key)) [
        | inl e ↦
            let none_right =
              find-Above comp order (flat r) key
                (Above-trans comp order (flat r) key k (comp_lt k key e) ar) in
            rw
              (
                left,
                right,
                none_right,
                find-cut_lt comp order (flat l) (flat r) (k, m) key ar (comp_lt k key e),
                e,
                hit,
                or_else-none (find comp (flat l) key),
                or_else-none (find comp (flat l) key),
              )
              refl
        | inr (inl e) ↦
            let none_left = find-Below comp order (flat l) key (Below-same (flat l) k key bl e) in
            let none_right =
              find-Above comp order (flat r) key (Above-same comp order k key (flat r) e ar) in
            rw
              (
                left,
                right,
                none_left,
                none_right,
                find-cut_eq comp order (flat l) (flat r) (k, m) key bl e,
                e,
                hit,
              )
              refl
        | inr (inr e) ↦
            let none_left =
              find-Below comp order (flat l) key (Below-trans comp order (flat l) k key bl e) in
            rw
              (
                left,
                right,
                none_left,
                find-cut_gt comp order (flat l) (flat r) (k, m) key bl e,
                e,
                hit,
                or_else-none (find comp (flat r) key),
              )
              refl
      ]

  pub search_all-avl_search :
      (t : Avl K M) (key : K)
      → IsSorted comp (flat t)
      → search_all comp t key ≡ avl_search comp t key
  search_all-avl_search t key h = search_all-find t key h ∙ sym (avl_search-find comp order t key h)

pub some_injective : {A : Type 0} {a b : A} → some a ≡ some b → a ≡ b
some_injective e = cc

module _ {K M : Type 0} where
  pub and_then-some :
      (o : Option (Node K M)) (f : Node K M → Option (Node K M)) (n' : Node K M)
      → and_then o f ≡ some n'
      → (n : Node K M) × (o ≡ some n) × (f n ≡ some n')
  and_then-some none f n' e = absurd cc
  and_then-some (some n) f n' e = (n, refl, e)

  pub in_table-some :
      (dep : ℕ) (len : ℕ → ℕ) (top : ℕ → Node K M) (i : ℕ) (o : Option (Avl K M × Bool))
      (n' : Node K M)
      → in_table dep len top i o ≡ some n'
      → (t : Avl K M) × ((b : Bool) × ((o ≡ some (t, b))
            × (table dep (update len i (len i + 1)) (update top i (tree t)) ≡ n')))
  in_table-some dep len top i none n' e = absurd cc
  in_table-some dep len top i (some (t, b)) n' e = (t, (b, (refl, cc)))

  pub remade-some :
      (dep : ℕ) (len : ℕ → ℕ) (top : ℕ → Node K M) (i : ℕ) (o : Option (Node K M)) (n' : Node K M)
      → remade dep len top i o ≡ some n'
      → (n : Node K M) × ((o ≡ some n)
          × (table dep (update len i (len i + 1)) (update top i n) ≡ n'))
  remade-some dep len top i none n' e = absurd cc
  remade-some dep len top i (some n) n' e = (n, (refl, cc))

module _ {K M : Type 0} (comp : K → K → Ordering) (hash : K → ℕ → ℕ) (order : KeyOrder comp)
    (respects : Respects comp hash) where
  -- A node put into a table.
  insert_go-Adds :
      (n n' : Node K M) (key : K) (meta : M)
      → IsOrdered comp hash n
      → insert_go comp hash n key meta ≡ some n'
      → Adds comp hash order respects n n' key meta
  unfolding IsOrdered
  insert_go-Adds (tree t) n' key meta ok e = absurd cc
  insert_go-Adds (table dep len top) n' key meta ok e = at_slot (top (hash key dep)) refl e
    where
      at_slot :
          (s : Node K M)
          → top (hash key dep) ≡ s
          → insert_slot comp hash dep len top (hash key dep) s key meta ≡ some n'
          → Adds comp hash order respects (table dep len top) n' key meta
      at_slot (table dep' len' top') is e = absurd cc
      at_slot (tree t) is e =
          let (t', (b, (inserted, result))) = in_table-some dep len top (hash key dep) _ n' e in
          let sorted : IsOrdered comp hash (tree t) =
            subst (λ s. IsOrdered comp hash s) is (ok (hash key dep)) in
          let adds = insert_tree-Adds comp hash order respects t t' key meta b sorted inserted in
          rw (← result)
            (update-Adds comp hash order respects dep len _ top (tree t') key meta ok (rw is adds))

  -- `n'` leads to what `n` leads to, and else to the entries of a tree.
  pub record AddsAll (n n' : Node K M) (t : Avl K M) : Type 0 where
    pub ordered : IsOrdered comp hash n'
    pub leads : (k : K) → look comp hash n' k ≡ or_else (look comp hash n k) (search_all comp t k)

  hash_insert_avl_in_hash-AddsAll :
      (t : Avl K M) (n n' : Node K M)
      → IsOrdered comp hash n
      → hash_insert_avl_in_hash comp hash n t ≡ some n'
      → AddsAll n n' t
  unfolding hash_insert_avl_in_hash search_all
  hash_insert_avl_in_hash-AddsAll leaf n n' ok e =
      let is : n ≡ n' = cc in
      record {
        ordered = rw (← is) ok;
        leads = λ k. rw (← is) (sym (or_else-none (look comp hash n k)));
      }
  hash_insert_avl_in_hash-AddsAll (node key meta l r hight) n n' ok e =
      let (n₁, e₁, rest) = and_then-some (hash_insert_avl_in_hash comp hash n l) _ n' e in
      let (n₂, e₂, last) = and_then-some (hash_insert_avl_in_hash comp hash n₁ r) _ n' rest in
      let left = hash_insert_avl_in_hash-AddsAll l n n₁ ok e₁ in
      let right = hash_insert_avl_in_hash-AddsAll r n₁ n₂ left.ordered e₂ in
      let adds = insert_go-Adds n₂ n' key meta right.ordered last in
      record {
        ordered = adds.ordered;
        leads = λ k.
            rw
              (
                adds.leads k,
                right.leads k,
                left.leads k,
                or_else_assoc (look comp hash n k) (search_all comp l k) (search_all comp r k),
                or_else_assoc (look comp hash n k)
                    (or_else (search_all comp l k) (search_all comp r k)) (hit comp (key, meta) k),
              )
              refl;
      }

  -- `n'` leads every key to what `n` leads it to.
  pub record Keeps (n n' : Node K M) : Type 0 where
    pub ordered : IsOrdered comp hash n'
    pub leads : (k : K) → look comp hash n' k ≡ look comp hash n k

  -- A new table, after a tree has been moved into it, leads to the entries of the tree.
  moved-Keeps :
      (t : Avl K M) (dep : ℕ) (n' : Node K M)
      → IsOrdered comp hash (tree t)
      → hash_insert_avl_in_hash comp hash (hash_new_node dep) t ≡ some n'
      → Keeps (tree t) n'
  unfolding look IsOrdered hash_new_node avl_search
  moved-Keeps t dep n' sorted e =
      let all = hash_insert_avl_in_hash-AddsAll t (hash_new_node dep) n' (λ i. tt) e in
      record {
        ordered = all.ordered;
        leads = λ k. all.leads k ∙ search_all-avl_search comp order t k sorted;
      }

  update-Keeps :
      (dep : ℕ) (len len' : ℕ → ℕ) (top : ℕ → Node K M) (i : ℕ) (n : Node K M)
      → IsOrdered comp hash (table dep len top)
      → Keeps (top i) n
      → Keeps (table dep len top) (table dep len' (update top i n))
  unfolding look IsOrdered
  update-Keeps dep len len' top i n ok keeps = record {
    ordered = λ j. elim (same_or_not j i) [
      | inl e ↦ rw (e, update_self top i n) keeps.ordered
      | inr ne ↦ rw (update_ne top i j n ne) (ok j)
    ];
    leads = λ k. elim (same_or_not (hash k dep) i) [
      | inl e ↦
          let at : update top i n (hash k dep) ≡ n = rw e (update_self top i n) in
          ap (λ m. look comp hash m k) at
          ∙ keeps.leads k
          ∙ ap (λ j. look comp hash (top j) k) (sym e)
      | inr ne ↦ ap (λ m. look comp hash m k) (update_ne top i (hash k dep) n ne)
    ];
  }

  -- Whether the slot is full or not, a remade table leads every key to what it led to before.
  pub hash_remake-Keeps :
      (n n' : Node K M) (i : ℕ)
      → IsOrdered comp hash n
      → hash_remake comp hash n i ≡ some n'
      → Keeps n n'
  unfolding hash_remake IsOrdered
  hash_remake-Keeps (tree t) n' i ok e = absurd cc
  hash_remake-Keeps (table dep len top) n' i ok e = elim (Bool-cases (len i == max_hash_dep)) [
    | inl full ↦ at_slot (top i) refl (rw full at e)
    | inr not_full ↦
        let is : table dep len top ≡ n' = some_injective (rw not_full at e) in
        record { ordered = rw (← is) ok; leads = λ k. rw (← is) refl }
  ]
    where
      at_slot :
          (s : Node K M)
          → top i ≡ s
          → remake_slot comp hash dep len top i s ≡ some n'
          → Keeps (table dep len top) n'
      at_slot (table dep' len' top') is e = absurd cc
      at_slot (tree t) is e =
          let (n, (moved, result)) = remade-some dep len top i _ n' e in
          let sorted : IsOrdered comp hash (tree t) =
            subst (λ s. IsOrdered comp hash s) is (ok i) in
          let keeps = moved-Keeps t (dep + 1) n sorted moved in
          rw (← result) (update-Keeps dep len _ top i n ok (rw is keeps))
