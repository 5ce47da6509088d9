-- ===== src/HashMap/Avl/Flat.antt =====
-- The entries of a tree, in the order of the keys.
use fgdb.Prelude.{
  ◌≡◌, refl, ap, ◌∙◌, Option, none, some, List, [], ◌∷◌, ◌++◌, append_assoc, if◌then◌else◌, Bool,
  true, false,
}
use fgdb.HashMap.Avl.{
  Avl, leaf, node, avl_calc_hight, right_move, left_move, lr_move, rl_move, avl_rebalance, and_then,
  with_left, with_right,
}

module _ {K M : Type 0} where
  abbrev pub flat : Avl K M → List (K × M)
  flat leaf = []
  flat (node k m l r h) = flat l ++ (k, m) ∷ flat r

  -- A tree with the entries of `t`, where the result is one.
  abbrev pub SameFlat : Avl K M → Option (Avl K M) → Type 0
  SameFlat t none = Unit
  SameFlat t (some t') = flat t' ≡ flat t

  flat-avl_calc_hight : (t : Avl K M) → flat (avl_calc_hight t) ≡ flat t
  flat-avl_calc_hight leaf = refl
  flat-avl_calc_hight (node k m l r h) = refl

  right_move-SameFlat : (t : Avl K M) → SameFlat t (right_move t)
  unfolding right_move
  right_move-SameFlat (node k m (node k' m' l' r' h') r h) = simp append_assoc
  right_move-SameFlat leaf = tt
  right_move-SameFlat (node k m leaf r h) = tt

  left_move-SameFlat : (t : Avl K M) → SameFlat t (left_move t)
  unfolding left_move
  left_move-SameFlat (node k m l (node k' m' l' r' h') h) = simp append_assoc
  left_move-SameFlat leaf = tt
  left_move-SameFlat (node k m l leaf h) = tt

  SameFlat-trans :
      (t s : Avl K M) (o : Option (Avl K M)) → flat s ≡ flat t → SameFlat s o → SameFlat t o
  SameFlat-trans t s none e h = tt
  SameFlat-trans t s (some u) e h = h ∙ e

  lr_move-SameFlat : (t : Avl K M) → SameFlat t (lr_move t)
  unfolding lr_move
  lr_move-SameFlat leaf = tt
  lr_move-SameFlat (node k m l r h) = inner (left_move l) (left_move-SameFlat l)
    where
      inner :
          (o : Option (Avl K M))
          → SameFlat l o
          → SameFlat (node k m l r h) (and_then (with_left (node k m l r h) o) right_move)
      inner none e = tt
      inner (some l') e =
          SameFlat-trans (node k m l r h) (node k m l' r h) (right_move (node k m l' r h))
            (ap (λ xs. xs ++ (k, m) ∷ flat r) e) (right_move-SameFlat (node k m l' r h))

  rl_move-SameFlat : (t : Avl K M) → SameFlat t (rl_move t)
  unfolding rl_move
  rl_move-SameFlat leaf = tt
  rl_move-SameFlat (node k m l r h) = inner (right_move r) (right_move-SameFlat r)
    where
      inner :
          (o : Option (Avl K M))
          → SameFlat r o
          → SameFlat (node k m l r h) (and_then (with_right (node k m l r h) o) left_move)
      inner none e = tt
      inner (some r') e =
          SameFlat-trans (node k m l r h) (node k m l r' h) (left_move (node k m l r' h))
            (ap (λ xs. flat l ++ (k, m) ∷ xs) e) (left_move-SameFlat (node k m l r' h))

  -- One of five: the four moves, or the tree as it is.
  SameFlat-if :
      (t : Avl K M) (a b c d : Bool) (o p q s : Option (Avl K M))
      → SameFlat t o
      → SameFlat t p
      → SameFlat t q
      → SameFlat t s
      → SameFlat t (if a then o else if b then p else if c then q else if d then s else some t)
  SameFlat-if t true b c d o p q s ho hp hq hs = ho
  SameFlat-if t false true c d o p q s ho hp hq hs = hp
  SameFlat-if t false false true d o p q s ho hp hq hs = hq
  SameFlat-if t false false false true o p q s ho hp hq hs = hs
  SameFlat-if t false false false false o p q s ho hp hq hs = refl

  -- Whichever move avl_rebalance makes, where it makes it without following a NULL pointer the
  -- tree keeps its entries and their order.
  pub avl_rebalance-SameFlat : (t : Avl K M) → SameFlat t (avl_rebalance t)
  unfolding avl_rebalance
  avl_rebalance-SameFlat t =
      SameFlat-if t _ _ _ _ _ _ _ _ (right_move-SameFlat t) (left_move-SameFlat t)
        (lr_move-SameFlat t) (rl_move-SameFlat t)
