-- ===== src/HashMap/Avl/Insert.antt =====
-- `avl_search` and `avl_insert_node` on a tree whose entries are sorted.
use Prim.Native.Nat.{Ordering}
use fgdb.Prelude.{
  ℕ, ◌≡◌, refl, sym, ap, ◌∙◌, Option, none, some, List, ◌∷◌, ◌++◌, Bool, Ordering-cases, inl, inr,
}
use fgdb.HashMap.Key.Order.{KeyOrder}
use fgdb.HashMap.Avl.{
  Avl, leaf, node, avl_calc_hight, avl_search, avl_insert_node, finish, with_result, insert_left,
  insert_right, insert_child, avl_rebalance,
}
use fgdb.HashMap.Avl.Flat.{flat, SameFlat, avl_rebalance-SameFlat}
use fgdb.HashMap.Avl.Sorted.{
  IsSorted, find, insert, IsSorted-cut, find-cut_gt, find-cut_lt, find-cut_eq, insert-cut_gt,
  insert-cut_lt, insert-cut_eq, or_else, hit, find-insert, insert-IsSorted,
}

module _ {K M : Type 0} where
  -- A result whose tree holds `es`.
  abbrev pub Holds : List (K × M) → Option (Avl K M × Bool) → Type 0
  Holds es none = Unit
  Holds es (some (t, inserted)) = flat t ≡ es

  with_result-Holds :
      (t : Avl K M) (es : List (K × M)) (o : Option (Avl K M))
      → flat t ≡ es
      → SameFlat t o
      → Holds es (with_result o)
  with_result-Holds t es none e h = tt
  with_result-Holds t es (some t') e h = h ∙ e

  finish-Holds :
      (k : K) (m : M) (l r : Avl K M) (hight : ℕ) (es : List (K × M))
      → flat l ++ (k, m) ∷ flat r ≡ es
      → Holds es (finish (node k m l r hight))
  finish-Holds k m l r hight es e =
      let t = avl_calc_hight (node k m l r hight) in
      with_result-Holds t es (avl_rebalance t) e (avl_rebalance-SameFlat t)

  insert_left-Holds :
      (k : K) (m : M) (r : Avl K M) (hight : ℕ) (es : List (K × M)) (o : Option (Avl K M × Bool))
      → Holds es o
      → Holds (es ++ (k, m) ∷ flat r) (insert_left k m r hight o)
  insert_left-Holds k m r hight es none h = tt
  insert_left-Holds k m r hight es (some (l, b)) h =
      finish-Holds k m l r hight _ (ap (λ xs. xs ++ (k, m) ∷ flat r) h)

  insert_right-Holds :
      (k : K) (m : M) (l : Avl K M) (hight : ℕ) (es : List (K × M)) (o : Option (Avl K M × Bool))
      → Holds es o
      → Holds (flat l ++ (k, m) ∷ es) (insert_right k m l hight o)
  insert_right-Holds k m l hight es none h = tt
  insert_right-Holds k m l hight es (some (r, b)) h =
      finish-Holds k m l r hight _ (ap (λ xs. flat l ++ (k, m) ∷ xs) h)

  insert_child-Holds :
      (comp : K → K → Ordering) (t : Avl K M) (o : Option (Avl K M × Bool)) (key : K) (meta : M)
      → Holds (insert comp (key, meta) (flat t)) o
      → Holds (insert comp (key, meta) (flat t)) (insert_child t o key meta)
  unfolding insert
  insert_child-Holds comp leaf o key meta h = refl
  insert_child-Holds comp (node k m l r hight) o key meta h = h

module _ {K M : Type 0} (comp : K → K → Ordering) (order : KeyOrder comp) where
  -- In a tree with sorted keys avl_search returns what a search through the list of all entries
  -- returns.
  pub avl_search-find :
      (t : Avl K M) (key : K)
      → IsSorted comp (flat t)
      → avl_search comp t key ≡ find comp (flat t) key
  unfolding avl_search find
  avl_search-find leaf key h = refl
  avl_search-find (node k m l r hight) key h =
      let (sl, bl, ar, sr) = IsSorted-cut comp (flat l) (flat r) (k, m) h in
      elim (Ordering-cases (comp k key)) [
        | inl e ↦
            rw (e, avl_search)
              (avl_search-find l key sl
                ∙ sym (
                    find-cut_lt comp order (flat l) (flat r) (k, m) key ar (order.comp_lt k key e)))
        | inr (inl e) ↦
            rw (e, avl_search) (sym (find-cut_eq comp order (flat l) (flat r) (k, m) key bl e))
        | inr (inr e) ↦
            rw (e, avl_search)
              (avl_search-find r key sr
                ∙ sym (find-cut_gt comp order (flat l) (flat r) (k, m) key bl e))
      ]

  -- If insertion into a tree with sorted keys follows no NULL pointer, the entries of the new tree
  -- are the old ones with the new entry in its sorted place, and the old ones if the key was
  -- there.
  pub avl_insert_node-Holds :
      (t : Avl K M) (key : K) (meta : M)
      → IsSorted comp (flat t)
      → Holds (insert comp (key, meta) (flat t)) (avl_insert_node comp t key meta)
  unfolding avl_insert_node
  avl_insert_node-Holds leaf key meta h = tt
  avl_insert_node-Holds (node k m l r hight) key meta h =
      let (sl, bl, ar, sr) = IsSorted-cut comp (flat l) (flat r) (k, m) h in
      let new : K × M = (key, meta) in
      elim (Ordering-cases (comp k key)) [
        | inl e ↦
            rw
              (
                e,
                avl_insert_node,
                insert-cut_lt comp order (flat l) (flat r) (k, m) new (order.comp_lt k key e),
              )
              (insert_left-Holds k m r hight _ _
                (insert_child-Holds comp l _ key meta (avl_insert_node-Holds l key meta sl)))
        | inr (inl e) ↦
            rw (e, avl_insert_node, insert-cut_eq comp order (flat l) (flat r) (k, m) new bl e) refl
        | inr (inr e) ↦
            rw (e, avl_insert_node, insert-cut_gt comp order (flat l) (flat r) (k, m) new bl e)
              (insert_right-Holds k m l hight _ _
                (insert_child-Holds comp r _ key meta (avl_insert_node-Holds r key meta sr)))
      ]

  -- For any comparison that is a key order, after an insertion into a tree with sorted keys a key
  -- that was found before is found with the same entry, and of the other keys exactly those that
  -- compare as equal to the new key are found, with the new entry.
  pub avl_search-avl_insert_node :
      (t t' : Avl K M) (key : K) (meta : M) (inserted : Bool) (k : K)
      → IsSorted comp (flat t)
      → avl_insert_node comp t key meta ≡ some (t', inserted)
      → avl_search comp t' k ≡ or_else (avl_search comp t k) (hit comp (key, meta) k)
  avl_search-avl_insert_node t t' key meta inserted k h is =
      let new = insert comp (key, meta) (flat t) in
      let holds = avl_insert_node-Holds t key meta h in
      let e : flat t' ≡ new = rw is at holds in
      let h' : IsSorted comp (flat t') = rw e (insert-IsSorted comp order (key, meta) (flat t) h) in
      rw (avl_search-find t' k h', avl_search-find t k h, e)
        (find-insert comp order (key, meta) (flat t) k h)
