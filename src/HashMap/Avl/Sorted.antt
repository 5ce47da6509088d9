-- ===== src/HashMap/Avl/Sorted.antt =====
-- Sorted lists of entries: what search and insertion are in terms of the list of a tree's entries.
use Prim.Native.Nat.{Ordering}
use fgdb.Prelude.{
  ◌≡◌, refl, ◌≢◌, sym, Ordering-cases, eq_or_ne, ◌⊎◌, inl, inr, ◌∙◌, Option, none, some, List, [],
  ◌∷◌, ◌++◌, All, arith,
}
use fgdb.HashMap.Key.Order.{KeyOrder}

abbrev pub or_else : {A : Type 0} → Option A → Option A → Option A
or_else none b = b
or_else (some a) b = some a

pub or_else-none : {A : Type 0} (o : Option A) → or_else o none ≡ o
or_else-none none = refl
or_else-none (some a) = refl

pub or_else_assoc :
    {A : Type 0} (o p q : Option A) → or_else (or_else o p) q ≡ or_else o (or_else p q)
or_else_assoc none p q = refl
or_else_assoc (some a) p q = refl

module _ {K : Type 0} (comp : K → K → Ordering) where
  -- `a` is the smaller key.
  abbrev pub Lt : K → K → Type 0
  Lt a b = comp a b ≡ Ordering.gt

module _ {K : Type 0} (comp : K → K → Ordering) (order : KeyOrder comp) where
  open order use {comp_gt, comp_lt, comp_same}

  pub Lt_same : (x e key : K) → Lt comp x e → comp e key ≡ Ordering.eq → Lt comp x key
  Lt_same x e key h eq = comp_lt key x (sym (comp_same e key x eq) ∙ comp_gt x e h)

module _ {K M : Type 0} (comp : K → K → Ordering) where
  abbrev pub Below : K → List (K × M) → Type 0
  Below b = All (λ e. Lt comp e.0 b)

  abbrev pub Above : K → List (K × M) → Type 0
  Above a = All (λ e. Lt comp a e.0)

  -- Every key is smaller than all that follow it.
  abbrev pub IsSorted : List (K × M) → Type 0
  IsSorted [] = Unit
  IsSorted (e ∷ es) = Above e.0 es × IsSorted es

  -- The first entry whose key compares as equal.
  unfoldable pub find : List (K × M) → K → Option (K × M)
  find [] key = none
  find (e ∷ es) key = elim (comp e.0 key) [
    | Ordering.eq ↦ some e
    | Ordering.lt ↦ find es key
    | Ordering.gt ↦ find es key
  ]

  -- `new`, if `key` is its key.
  abbrev pub hit : K × M → K → Option (K × M)
  hit new key = elim (comp new.0 key) [
    | Ordering.eq ↦ some new
    | Ordering.lt ↦ none
    | Ordering.gt ↦ none
  ]

  -- An entry put in its place, unless there is one with its key.
  unfoldable pub insert : K × M → List (K × M) → List (K × M)
  insert new [] = new ∷ []
  insert new (e ∷ es) = elim (comp e.0 new.0) [
    | Ordering.eq ↦ e ∷ es
    | Ordering.lt ↦ new ∷ e ∷ es
    | Ordering.gt ↦ e ∷ insert new es
  ]

  -- Lemmas about a list cut at an entry.
  pub IsSorted-cut :
      (xs ys : List (K × M)) (e : K × M)
      → IsSorted (xs ++ e ∷ ys)
      → IsSorted xs × Below e.0 xs × Above e.0 ys × IsSorted ys
  IsSorted-cut [] ys e h = (tt, tt, h.0, h.1)
  IsSorted-cut (x ∷ xs) ys e h =
      let (sx, bx, ay, sy) = IsSorted-cut xs ys e h.1 in
      let (ax, lt) = All-cut xs ys e x.0 h.0 in ((ax, sx), (lt, bx), ay, sy)
    where
      All-cut :
          (xs ys : List (K × M)) (e : K × M) (a : K)
          → Above a (xs ++ e ∷ ys)
          → Above a xs × Lt comp a e.0
      All-cut [] ys e a h = (tt, h.0)
      All-cut (x ∷ xs) ys e a h = let (ax, lt) = All-cut xs ys e a h.1 in ((h.0, ax), lt)

  module _ (order : KeyOrder comp) where
    open order use {comp_refl, comp_gt, comp_lt, comp_eq, comp_trans, comp_same}

    pub Below-trans : (xs : List (K × M)) (a b : K) → Below a xs → Lt comp a b → Below b xs
    Below-trans [] a b h lt = tt
    Below-trans (x ∷ xs) a b h lt = (comp_trans x.0 a b h.0 lt, Below-trans xs a b h.1 lt)

    pub Above-trans : (xs : List (K × M)) (a b : K) → Lt comp a b → Above b xs → Above a xs
    Above-trans [] a b lt h = tt
    Above-trans (x ∷ xs) a b lt h = (comp_trans a b x.0 lt h.0, Above-trans xs a b lt h.1)

    pub find-Below : (xs : List (K × M)) (key : K) → Below key xs → find xs key ≡ none
    unfolding find
    find-Below [] key h = refl
    find-Below (x ∷ xs) key h = rw (h.0, find) (find-Below xs key h.1)

    pub find-Above : (xs : List (K × M)) (key : K) → Above key xs → find xs key ≡ none
    unfolding find
    find-Above [] key h = refl
    find-Above (x ∷ xs) key h = rw (comp_gt key x.0 h.0, find) (find-Above xs key h.1)

    -- Where the key is larger than the entry of the cut, it stands behind it.
    pub find-cut_gt :
        (xs ys : List (K × M)) (e : K × M) (key : K)
        → Below e.0 xs
        → Lt comp e.0 key
        → find (xs ++ e ∷ ys) key ≡ find ys key
    unfolding find
    find-cut_gt [] ys e key h lt = rw lt refl
    find-cut_gt (x ∷ xs) ys e key h lt =
        rw (comp_trans x.0 e.0 key h.0 lt) (find-cut_gt xs ys e key h.1 lt)

    pub find-cut_lt :
        (xs ys : List (K × M)) (e : K × M) (key : K)
        → Above e.0 ys
        → Lt comp key e.0
        → find (xs ++ e ∷ ys) key ≡ find xs key
    unfolding find
    find-cut_lt [] ys e key h lt =
        rw (comp_gt key e.0 lt) (find-Above ys key (Above-trans ys key e.0 lt h))
    find-cut_lt (x ∷ xs) ys e key h lt = ground (arith, find-cut_lt xs ys e key h lt)

    pub find-cut_eq :
        (xs ys : List (K × M)) (e : K × M) (key : K)
        → Below e.0 xs
        → comp e.0 key ≡ Ordering.eq
        → find (xs ++ e ∷ ys) key ≡ some e
    unfolding find
    find-cut_eq [] ys e key h eq = rw eq refl
    find-cut_eq (x ∷ xs) ys e key h eq =
        rw (Lt_same comp order x.0 e.0 key h.0 eq) (find-cut_eq xs ys e key h.1 eq)

    pub insert-cut_gt :
        (xs ys : List (K × M)) (e new : K × M)
        → Below e.0 xs
        → Lt comp e.0 new.0
        → insert new (xs ++ e ∷ ys) ≡ xs ++ e ∷ insert new ys
    unfolding insert
    insert-cut_gt [] ys e new h lt = rw lt refl
    insert-cut_gt (x ∷ xs) ys e new h lt =
        rw (comp_trans x.0 e.0 new.0 h.0 lt, insert-cut_gt xs ys e new h.1 lt) refl

    pub insert-cut_lt :
        (xs ys : List (K × M)) (e new : K × M)
        → Lt comp new.0 e.0
        → insert new (xs ++ e ∷ ys) ≡ insert new xs ++ e ∷ ys
    unfolding insert
    insert-cut_lt [] ys e new lt = rw (comp_gt new.0 e.0 lt) refl
    insert-cut_lt (x ∷ xs) ys e new lt = ground (arith, insert-cut_lt xs ys e new lt)

    pub insert-cut_eq :
        (xs ys : List (K × M)) (e new : K × M)
        → Below e.0 xs
        → comp e.0 new.0 ≡ Ordering.eq
        → insert new (xs ++ e ∷ ys) ≡ xs ++ e ∷ ys
    unfolding insert
    insert-cut_eq [] ys e new h eq = rw eq refl
    insert-cut_eq (x ∷ xs) ys e new h eq =
        rw (Lt_same comp order x.0 e.0 new.0 h.0 eq, insert-cut_eq xs ys e new h.1 eq) refl

    Above-insert :
        (a : K) (new : K × M) (xs : List (K × M))
        → Lt comp a new.0
        → Above a xs
        → Above a (insert new xs)
    unfolding insert
    Above-insert a new [] lt h = (lt, tt)
    Above-insert a new (x ∷ xs) lt h = ground (arith, Above-insert a new xs lt h.1)

    -- Insertion keeps a list sorted.
    pub insert-IsSorted : (new : K × M) (xs : List (K × M)) → IsSorted xs → IsSorted (insert new xs)
    unfolding insert
    insert-IsSorted new [] h = (tt, tt)
    insert-IsSorted new (x ∷ xs) h = elim (Ordering-cases (comp x.0 new.0)) [
      | inl e ↦
          rw (e, insert)
            ((comp_lt x.0 new.0 e, Above-trans xs new.0 x.0 (comp_lt x.0 new.0 e) h.0), h)
      | inr (inl e) ↦ rw (e, insert) h
      | inr (inr e) ↦ rw (e, insert) (Above-insert x.0 new xs e h.0, insert-IsSorted new xs h.1)
    ]

    pub Above-same :
        (a b : K) (xs : List (K × M)) → comp a b ≡ Ordering.eq → Above a xs → Above b xs
    Above-same a b [] e h = tt
    Above-same a b (x ∷ xs) e h = (sym (comp_same a b x.0 e) ∙ h.0, Above-same a b xs e h.1)

    find-cons :
        (e : K × M) (xs : List (K × M)) (key : K)
        → find (e ∷ xs) key ≡ or_else (hit e key) (find xs key)
    unfolding find
    find-cons e xs key = ground arith

    hit_self : (new : K × M) (key : K) → comp new.0 key ≡ Ordering.eq → hit new key ≡ some new
    hit_self new key h = rw (h, hit) refl

    hit_other : (new : K × M) (key : K) → comp new.0 key ≢ Ordering.eq → hit new key ≡ none
    hit_other new key h = ground arith

    -- Behind an insertion, what was found is found again, and otherwise the new entry by its key.
    pub find-insert :
        (new : K × M) (xs : List (K × M)) (key : K)
        → IsSorted xs
        → find (insert new xs) key ≡ or_else (find xs key) (hit new key)
    unfolding insert find
    find-insert new [] key h = find-cons new [] key ∙ or_else-none (hit new key)
    find-insert new (x ∷ xs) key h = elim (Ordering-cases (comp x.0 new.0)) [
      | inl e ↦ rw (e, insert, find-cons new (x ∷ xs) key) (before e (eq_or_ne (comp new.0 key)))
      | inr (inl e) ↦ rw (e, insert) (present e (eq_or_ne (comp new.0 key)))
      | inr (inr e) ↦
          rw
            (
              e,
              insert,
              find-cons x (insert new xs) key,
              find-insert new xs key h.1,
              find-cons x xs key,
            )
            (sym (or_else_assoc (hit x key) (find xs key) (hit new key)))
    ]
      where
        before :
            comp x.0 new.0 ≡ Ordering.lt
            → (comp new.0 key ≡ Ordering.eq) ⊎ (comp new.0 key ≢ Ordering.eq)
            → or_else (hit new key) (find (x ∷ xs) key) ≡ or_else (find (x ∷ xs) key) (hit new key)
        before e (inl same) =
            let lt = comp_lt x.0 new.0 e in
            rw
              (
                find-Above (x ∷ xs) key
                    (Above-same new.0 key (x ∷ xs) same (lt, Above-trans xs new.0 x.0 lt h.0)),
                hit_self new key same,
              )
              refl
        before e (inr other) = rw (hit_other new key other) (sym (or_else-none (find (x ∷ xs) key)))

        present :
            comp x.0 new.0 ≡ Ordering.eq
            → (comp new.0 key ≡ Ordering.eq) ⊎ (comp new.0 key ≢ Ordering.eq)
            → find (x ∷ xs) key ≡ or_else (find (x ∷ xs) key) (hit new key)
        present e (inl same) =
            rw (find-cons x xs key, hit_self x key (comp_same x.0 new.0 key e ∙ same)) refl
        present e (inr other) =
            rw (hit_other new key other) (sym (or_else-none (find (x ∷ xs) key)))
