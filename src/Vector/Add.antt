-- ===== src/Vector/Add.antt =====
-- `vector_add`: when it appends, and when it writes behind the block.
use fgdb.Prelude.{
  ℕ, ◌+◌, ◌≤◌, ◌<◌, ◌≡◌, refl, ap, ◌∙◌, Option, none, some, List, [], ◌∷◌, ◌++◌, ◌⊎◌, inl, inr,
  arith, ltb, ◌==◌, Bool-cases, true, false, lt→ltb, ==_of_ne, set, length, length-set,
}
use fgdb.Vector.{Vector, vector_init, vector_resize, grown, store_item, count_one, vector_add}
use fgdb.Vector.Contents.{contents, IsVector, Enough, take-set_next, vector_resize-contents}

module _ {A : Type 0} where
  -- The vector with an item in its next slot.
  abbrev stored : Vector A → A → Vector A
  stored v item = record v { items = set v.items v.total item; total = v.total + 1 }

  full_eq : (v : Vector A) → (v.capacity == v.total) ≡ true → v.capacity ≡ v.total
  full_eq v h = ground arith

  not_full : (v : Vector A) → IsVector v → (v.capacity == v.total) ≡ false → v.total < v.capacity
  not_full v ok h = ground (arith, ok.filled)

  -- A vector that holds `item` behind what `v` holds.
  abbrev pub Appended : Vector A → A → Option (Vector A) → Type 0
  Appended v item added =
      (v' : Vector A) × (added ≡ some v') × IsVector v' × (contents v' ≡ contents v ++ item ∷ [])

  store-Appended :
      (v : Vector A) (item : A)
      → IsVector v
      → v.total < v.capacity
      → Appended v item (count_one (store_item v v.total item))
  store-Appended v item ok h = (
    stored v item,
    rw (lt→ltb v.total (length v.items) (omega (arith, ok.allocated))),
    record {
      filled = omega arith;
      allocated = omega (arith, length-set v.items v.total item, ok.allocated);
    },
    take-set_next v.items v.total (v.total + 1) item refl (omega (arith, ok.allocated)),
  )

  Appended-eq :
      (v w : Vector A) (item : A) (added : Option (Vector A))
      → contents w ≡ contents v
      → Appended w item added
      → Appended v item added
  Appended-eq v w item added e (v', is, ok, holds) =
      (v', is, ok, holds ∙ ap (λ xs. xs ++ item ∷ []) e)

  -- On a well-formed vector with room left, or with a capacity of two or more and a realloc that
  -- succeeds, vector_add writes inside the block, appends the item and keeps the invariant.
  pub vector_add-append :
      (fresh : Option (List A)) (v : Vector A) (item : A)
      → IsVector v
      → (v.total < v.capacity) ⊎ ((2 ≤ v.capacity) × Enough fresh v (grown v.capacity))
      → Appended v item (vector_add fresh v item)
  unfolding vector_add
  vector_add-append fresh v item ok (inl room) =
      rw (==_of_ne v.capacity v.total (omega arith)) (store-Appended v item ok room)
  vector_add-append fresh v item ok (inr (two, enough)) =
      elim (Bool-cases (v.capacity == v.total)) [
        | inl full ↦
            let (ok', same, cap, tot) =
              vector_resize-contents fresh v (grown v.capacity) ok enough
                (omega (arith, ok.filled)) in
            rw full (
              Appended-eq v (vector_resize fresh v (grown v.capacity)) item _ same (
                store-Appended (vector_resize fresh v (grown v.capacity)) item ok'
                  (omega (arith, ok.filled, cap, tot, full_eq v full))))
        | inr room ↦ rw room (store-Appended v item ok (not_full v ok room))
      ]

  vector_init_one :
      (memory : List A) (capacity : ℕ)
      → vector_init memory capacity ≡ record { items = memory; capacity = 1; total = 0 }
  unfolding vector_init
  vector_init_one memory capacity = elim (Bool-cases (ltb 0 capacity)) [
    | inl e ↦ rw e refl
    | inr e ↦ rw e refl
  ]

  overflow_of_one :
      (memory : List A) (fresh fresh' : Option (List A)) (a b : A)
      → length memory ≡ 1
      → (v : Vector A) × (vector_add fresh (record { items = memory; capacity = 1; total = 0 }) a
          ≡ some v)
        × (vector_add fresh' v b ≡ none)
  unfolding vector_add vector_resize
  overflow_of_one [] fresh fresh' a b h = absurd (omega arith)
  overflow_of_one (m ∷ []) fresh none a b h =
      (record { items = a ∷ []; capacity = 1; total = 1 }, refl, refl)
  overflow_of_one (m ∷ []) fresh (some new) a b h =
      (record { items = a ∷ []; capacity = 1; total = 1 }, refl, refl)
  overflow_of_one (m ∷ m' ∷ memory) fresh fresh' a b h = absurd (omega arith)

  -- After vector_init, whatever capacity is asked for, with the block for one pointer that it
  -- allocates, the second vector_add writes outside the block that was allocated.
  pub vector_init_overflow :
      (memory : List A) (capacity : ℕ) (fresh fresh' : Option (List A)) (a b : A)
      → length memory ≡ 1
      → (v : Vector A) × (vector_add fresh (vector_init memory capacity) a ≡ some v)
        × (vector_add fresh' v b ≡ none)
  vector_init_overflow memory capacity fresh fresh' a b h =
      rw (vector_init_one memory capacity) (overflow_of_one memory fresh fresh' a b h)
