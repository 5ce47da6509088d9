-- ===== src/HashMap/Table/Fits.antt =====
-- Tables whose lengths tell trees from tables, and that an insertion keeps them so, also where it
-- remakes a full slot.
use Prim.Native.Nat.{Ordering}
use fgdb.Prelude.{
  ℕ, ◌+◌, ◌≤◌, ◌<◌, ◌≡◌, ◌≢◌, refl, sym, ap, ◌∙◌, subst, Option, none, some, Bool, true, false,
  Bool-cases, inl, inr, arith, leb, ◌==◌, ==_refl, ==_of_ne, same_or_not, if◌then◌else◌,
}
use fgdb.HashMap.Avl.{Avl, leaf, node}
use fgdb.HashMap.Table.{
  Node, tree, table, update, put_slot, insert_tree, hash_insert, hash_remake, remake_slot,
  insert_here, inserted_tree, max_hash_dep, with_result, hash_new_node, hash_insert_avl_in_hash,
  insert_go, insert_slot,
}
use fgdb.HashMap.Table.Contents.{update_self, update_ne}
use fgdb.HashMap.Table.Remake.{some_injective, and_then-some, in_table-some, remade-some}

module _ {K M : Type 0} where
  pub put_slot-some :
      (dep : ℕ) (len : ℕ → ℕ) (top : ℕ → Node K M) (i : ℕ) (o : Option (Node K M × Bool))
      (n' : Node K M) (b : Bool)
      → put_slot dep len top i o ≡ some (n', b)
      → (n : Node K M) × ((o ≡ some (n, b)) × (table dep len (update top i n) ≡ n'))
  put_slot-some dep len top i none n' b e = absurd cc
  put_slot-some dep len top i (some (n, b')) n' b e = (n, (ground arith, ground arith))

  pub with_result-some :
      (o : Option (Node K M)) (b' : Bool) (n' : Node K M) (b : Bool)
      → with_result o b' ≡ some (n', b)
      → o ≡ some n'
  with_result-some none b' n' b e = absurd cc
  with_result-some (some n) b' n' b e = ground arith

-- A slot with a tree, and one with a table.
abbrev pub IsTree : {K M : Type 0} → Node K M → Type 0
IsTree (tree t) = Unit
IsTree (table dep len top) = ⊥

abbrev pub IsTable : {K M : Type 0} → Node K M → Type 0
IsTable (tree t) = ⊥
IsTable (table dep len top) = Unit

module _ {K M : Type 0} (comp : K → K → Ordering) (hash : K → ℕ → ℕ) where
  -- A slot whose length says what it is.
  abbrev pub SlotFits : ℕ → Node K M → Type 0
  SlotFits len (tree t) = len < max_hash_dep
  SlotFits len (table dep' len' top') = max_hash_dep ≤ len

  -- A table, each of whose slots is one, all the way down.
  unfoldable pub Fits : Node K M → Type 0
  Fits (tree t) = Unit
  Fits (table dep len top) = (i : ℕ) → SlotFits (len i) (top i) × Fits (top i)

  -- The entries of a tree with the hash `i` at depth `dep`.
  unfoldable pub counts : ℕ → ℕ → Avl K M → ℕ
  counts dep i leaf = 0
  counts dep i (node key meta l r hight) =
      counts dep i l + counts dep i r + (if hash key dep == i then 1 else 0)

  -- A table of trees only, with its depth and lengths.
  abbrev pub FlatTable : ℕ → (ℕ → ℕ) → Node K M → Type 0
  FlatTable dep f (tree t) = ⊥
  FlatTable dep f (table dep' len top) = (dep' ≡ dep) × ((i : ℕ) → (len i ≡ f i) × IsTree (top i))

  insert_go-FlatTable :
      (n n' : Node K M) (dep : ℕ) (f : ℕ → ℕ) (key : K) (meta : M)
      → FlatTable dep f n
      → insert_go comp hash n key meta ≡ some n'
      → FlatTable dep (λ i. f i + (if hash key dep == i then 1 else 0)) n'
  insert_go-FlatTable (tree t) n' dep f key meta ok e = absurd cc
  insert_go-FlatTable (table dep' len top) n' dep f key meta (is_dep, slots) e =
      at_slot (top (hash key dep')) e
    where
      at_slot :
          (s : Node K M)
          → insert_slot comp hash dep' len top (hash key dep') s key meta ≡ some n'
          → FlatTable dep (λ i. f i + (if hash key dep == i then 1 else 0)) n'
      at_slot (table dep₂ len₂ top₂) e = absurd cc
      at_slot (tree t) e =
          let (t', (b, (called, result))) = in_table-some dep' len top (hash key dep') _ n' e in
          let j = hash key dep' in
          rw (← result) (
            is_dep,
            λ i. elim (same_or_not i j) [
              | inl is ↦
                  let here : (hash key dep == i) ≡ true =
                    rw (is, is_dep) (==_refl (hash key dep)) in
                  rw (here, is, update_self len j (len j + 1), update_self top j (tree t'))
                    (ap (λ (m : ℕ). m + 1) ((slots j).0), tt)
              | inr ne ↦
                  let there : (hash key dep == i) ≡ false =
                    ==_of_ne (hash key dep) i (λ x. ne (sym x ∙ ap (hash key) (sym is_dep))) in
                  rw (there, update_ne len j i (len j + 1) ne, update_ne top j i (tree t') ne)
                    (omega (arith, (slots i).0), (slots i).1)
            ],
          )

  moved-FlatTable :
      (t : Avl K M) (n n' : Node K M) (dep : ℕ) (f : ℕ → ℕ)
      → FlatTable dep f n
      → hash_insert_avl_in_hash comp hash n t ≡ some n'
      → FlatTable dep (λ i. f i + counts dep i t) n'
  unfolding hash_insert_avl_in_hash counts
  moved-FlatTable leaf n n' dep f ok e = let is : n ≡ n' = cc in rw (← is) (same n ok)
    where
      same : (n : Node K M) → FlatTable dep f n → FlatTable dep (λ i. f i + 0) n
      same (tree t) ok = ok
      same (table dep' len top) (is_dep, slots) =
          (is_dep, λ i. (omega (arith, (slots i).0), (slots i).1))
  moved-FlatTable (node key meta l r hight) n n' dep f ok e =
      let (n₁, e₁, rest) = and_then-some (hash_insert_avl_in_hash comp hash n l) _ n' e in
      let (n₂, e₂, last) = and_then-some (hash_insert_avl_in_hash comp hash n₁ r) _ n' rest in
      let left = moved-FlatTable l n n₁ dep f ok e₁ in
      let right = moved-FlatTable r n₁ n₂ dep (λ i. f i + counts dep i l) left e₂ in
      sums n' (
        insert_go-FlatTable n₂ n' dep (λ i. f i + counts dep i l + counts dep i r) key meta right
          last)
    where
      sums :
          (n : Node K M)
          → FlatTable dep
              (λ i. f i + counts dep i l + counts dep i r + (if hash key dep == i then 1 else 0))
              n
          → FlatTable dep
              (λ i. f i + (counts dep i l + counts dep i r + (if hash key dep == i then 1 else 0)))
              n
      sums (tree t) ok = ok
      sums (table dep' len top) (is_dep, slots) =
          (is_dep, λ i. (omega (arith, (slots i).0), (slots i).1))

  -- A full tree that is moved into a new table, of whose entries not all have one hash there.
  moved-Fits :
      (t : Avl K M) (n : Node K M) (dep : ℕ)
      → ((i : ℕ) → counts dep i t < max_hash_dep)
      → hash_insert_avl_in_hash comp hash (hash_new_node dep) t ≡ some n
      → Fits n × IsTable n
  unfolding hash_new_node Fits
  moved-Fits t n dep few e =
      of_flat n (moved-FlatTable t (hash_new_node dep) n dep (λ i. 0) (refl, λ i. (refl, tt)) e)
    where
      slot : (s : Node K M) (m : ℕ) → IsTree s → m < max_hash_dep → SlotFits m s × Fits s
      slot (tree t) m is lt = (lt, tt)
      slot (table dep len top) m is lt = elim is [ ]

      of_flat : (n : Node K M) → FlatTable dep (λ i. 0 + counts dep i t) n → Fits n × IsTable n
      of_flat (tree t) ok = elim ok [ ]
      of_flat (table dep' len top) (is_dep, slots) =
          (λ i. slot (top i) (len i) (slots i).1 (omega (arith, (slots i).0, few i)), tt)

  -- Behind the insertion fewer than MAX_HASH_DEP entries of the key's tree have one hash at the next
  -- depth.
  abbrev pub SpreadTree : ℕ → Option (Avl K M × Bool) → Type 0
  SpreadTree dep none = Unit
  SpreadTree dep (some (t, b)) = (i : ℕ) → counts dep i t < max_hash_dep

  abbrev pub SpreadSlot : ℕ → Node K M → K → M → Type 0
  SpreadSlot dep (tree t) key meta = SpreadTree (dep + 1) (insert_tree comp t key meta)
  SpreadSlot dep (table dep' len top) key meta = Unit

  unfoldable pub Spread : Node K M → K → M → Type 0
  Spread (tree t) key meta = Unit
  Spread (table dep len top) key meta =
      SpreadSlot dep (top (hash key dep)) key meta × Spread (top (hash key dep)) key meta

  slot_table : (n : Node K M) (m : ℕ) → IsTable n → max_hash_dep ≤ m → SlotFits m n
  slot_table (tree t) m is le = elim is [ ]
  slot_table (table dep len top) m is le = le

  -- A table with slot `i` set.
  update-Fits :
      (dep : ℕ) (len len' : ℕ → ℕ) (top : ℕ → Node K M) (i : ℕ) (n : Node K M)
      → Fits (table dep len top)
      → SlotFits (len' i) n
      → Fits n
      → ((j : ℕ) → j ≢ i → len' j ≡ len j)
      → Fits (table dep len' (update top i n))
  unfolding Fits
  update-Fits dep len len' top i n fits slot fits' same j = elim (same_or_not j i) [
    | inl is ↦ rw (is, update_self top i n) (slot, fits')
    | inr ne ↦ rw (update_ne top i j n ne, same j ne) (fits j)
  ]

  -- The slot of the key behind an insertion, remade if it is full.
  remade_table :
      (dep : ℕ) (len : ℕ → ℕ) (top : ℕ → Node K M) (i : ℕ) (t' : Avl K M) (n' : Node K M)
      → Fits (table dep len top)
      → len i < max_hash_dep
      → ((j : ℕ) → counts (dep + 1) j t' < max_hash_dep)
      → hash_remake comp hash (table dep (update len i (len i + 1)) (update top i (tree t'))) i
        ≡ some n'
      → Fits n' × IsTable n'
  unfolding hash_remake Fits
  remade_table dep len top i t' n' fits lt few e =
      let len' = update len i (len i + 1) in
      let top' = update top i (tree t') in
      elim (same_or_not (len' i) max_hash_dep) [
        | inl full ↦
            let e' : remake_slot comp hash dep len' top' i (tree t') ≡ some n' =
              rw (full, update_self top i (tree t')) at e in
            let (n, (moved, result)) = remade-some dep len' top' i _ n' e' in
            let (fits', is) = moved-Fits t' n (dep + 1) few moved in
            let self : update len' i (len' i + 1) i ≡ len' i + 1 =
              update_self len' i (len' i + 1) in
            rw (← result) (
              twice (update len' i (len' i + 1)) n
                  (subst (λ (m : ℕ). SlotFits m n) (sym self)
                    (slot_table n (len' i + 1) is (omega arith)))
                  fits'
                  (λ j ne. update_ne len' i j (len' i + 1) ne ∙ update_ne len i j (len i + 1) ne),
              tt,
            )
        | inr not_full ↦
            let is : table dep len' top' ≡ n' =
              some_injective (rw (==_of_ne (len' i) max_hash_dep not_full) at e) in
            let count : len' i ≡ len i + 1 = update_self len i (len i + 1) in
            rw (← is) (
              update-Fits dep len len' top i (tree t') fits (omega arith) tt
                  (λ j ne. update_ne len i j (len i + 1) ne),
              tt,
            )
      ]
    where
      twice :
          (len₂ : ℕ → ℕ) (n : Node K M)
          → SlotFits (len₂ i) n
          → Fits n
          → ((j : ℕ) → j ≢ i → len₂ j ≡ len j)
          → Fits (table dep len₂ (update (update top i (tree t')) i n))
      twice len₂ n slot fits' same j = elim (same_or_not j i) [
        | inl is ↦ rw (is, update_self (update top i (tree t')) i n) (slot, fits')
        | inr ne ↦
            rw
              (
                update_ne (update top i (tree t')) i j n ne,
                update_ne top i j (tree t') ne,
                same j ne,
              )
              (fits j)
      ]

  pub hash_insert-Fits :
      (n n' : Node K M) (key : K) (meta : M)
      → Fits n
      → Spread n key meta
      → hash_insert comp hash n key meta ≡ some (n', true)
      → Fits n' × IsTable n'
  unfolding hash_insert Fits Spread
  hash_insert-Fits (tree t) n' key meta fits spread e = absurd cc
  hash_insert-Fits (table dep len top) n' key meta fits spread e =
      let i = hash key dep in
      elim (Bool-cases (leb max_hash_dep (len i))) [
        | inl deep ↦
            let (n, (below, result)) = put_slot-some dep len top i _ n' true (rw deep at e) in
            let (fits', is) = hash_insert-Fits (top i) n key meta (fits i).1 spread.1 below in
            let le : max_hash_dep ≤ len i = ground arith in
            rw (← result) (
              update-Fits dep len len top i n fits (slot_table n (len i) is le) fits'
                  (λ j ne. refl),
              tt,
            )
        | inr here ↦
            let lt : len i < max_hash_dep = ground arith in
            at_slot (top i) lt spread.0 (rw here at e)
      ]
    where
      by_result :
          (o : Option (Avl K M × Bool))
          → len (hash key dep) < max_hash_dep
          → SpreadTree (dep + 1) o
          → inserted_tree comp hash dep len top (hash key dep) o ≡ some (n', true)
          → Fits n' × IsTable n'
      by_result none lt few e = absurd cc
      by_result (some (t', false)) lt few e = absurd (let f : false ≡ true = cc in cc)
      by_result (some (t', true)) lt few e =
          remade_table dep len top (hash key dep) t' n' fits lt few
            (with_result-some _ true n' true e)

      at_slot :
          (s : Node K M)
          → len (hash key dep) < max_hash_dep
          → SpreadSlot dep s key meta
          → insert_here comp hash dep len top (hash key dep) s key meta ≡ some (n', true)
          → Fits n' × IsTable n'
      at_slot (table dep' len' top') lt few e = absurd cc
      at_slot (tree t) lt few e = by_result (insert_tree comp t key meta) lt few e
