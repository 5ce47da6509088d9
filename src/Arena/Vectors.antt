-- ===== src/Arena/Vectors.antt =====
-- The vectors of the arena, a list and a block, against `Vector`, the model of
-- src/lib/vector/vector.c.
use fgdb.Prelude.{
  ℕ, ◌+◌, ◌≡◌, refl, ap, Option, none, some, List, [], ◌∷◌, ◌++◌, arith, Bool-cases, inl, inr, ltb,
  ltb→lt, ◌==◌, if◌then◌else◌, length, length-take, length-set, take, drop, suc, ◌-◌, ◌<◌, ◌/◌,
  ◌&&◌, leb_of_lt, leb_of_le,
}
use fgdb.Vector.{
  Vector, grown, store_item, count_one, vector_add, vector_resize, vector_delete, vector_shrink,
}
use fgdb.Vector.Contents.{contents, IsVector, Enough, take-set_next, vector_resize-contents}
use fgdb.Vector.Delete.{vector_delete-without}
use fgdb.Arena.{Block, add_item, delete_item, deleted_block}

module _ {A : Type 0} where
  -- The block of a vector.
  abbrev pub block_of : Vector A → Block
  block_of v = record { room = length v.items; capacity = v.capacity }

  -- A vector as the arena has it.
  abbrev pub viewed : Option (Vector A) → Option (List A × Block)
  viewed none = none
  viewed (some v) = some (contents v, block_of v)

  store_item-viewed :
      (v : Vector A) (item : A)
      → viewed (count_one (store_item v v.total item)) ≡ (
          if ltb v.total (length v.items) then some (contents v ++ item ∷ [], block_of v) else none)
  store_item-viewed v item = elim (Bool-cases (ltb v.total (length v.items))) [
    | inl lt ↦
        rw
          (
            lt,
            take-set_next v.items v.total (v.total + 1) item refl (ltb→lt v.total _ lt),
            length-set v.items v.total item,
          )
          refl
    | inr ge ↦ rw ge refl
  ]

  length-contents : (v : Vector A) → IsVector v → length (contents v) ≡ v.total
  length-contents v ok = omega (arith, length-take v.total v.items, ok.filled, ok.allocated)

  -- On a vector that is well formed, where realloc succeeds, add_item on its items and its block,
  -- by which the arena's vectors are modelled, is vector_add: both write outside the block, or
  -- both leave the same items, the same capacity and a block of the same length.
  pub add_item-vector_add :
      (fresh : Option (List A)) (v : Vector A) (item : A)
      → IsVector v
      → Enough fresh v (grown v.capacity)
      → add_item (block_of v) (contents v) item ≡ viewed (vector_add fresh v item)
  unfolding add_item vector_add
  add_item-vector_add fresh v item ok enough =
      rw (length-contents v ok) (elim (Bool-cases (v.capacity == v.total)) [
        | inl full ↦
            let (ok', same, cap, tot) =
              vector_resize-contents fresh v (grown v.capacity) ok enough
                (omega (arith, ok.filled)) in
            rw
              (
                full,
                store_item-viewed (vector_resize fresh v (grown v.capacity)) item,
                same,
                tot,
                ok'.allocated,
                cap,
              )
              refl
        | inr room ↦ rw (room, store_item-viewed v item) refl
      ])

module _ {A : Type 0} (null : A) where
  -- The capacity that vector_delete leaves, where realloc succeeds.
  capacity-vector_delete :
      (new : List A) (v : Vector A) (i : ℕ)
      → i < v.total
      → (vector_delete null (some new) v i).capacity
        ≡ (deleted_block
            (record { room = v.capacity; capacity = v.capacity })
            (v.total - 1)).capacity
  unfolding vector_delete vector_shrink vector_resize
  capacity-vector_delete new v i h =
      rw (leb_of_lt v.total i h)
        (elim (Bool-cases (ltb 0 (v.total - 1) && (v.total - 1 == v.capacity / 4))) [
          | inl quarter ↦ rw quarter refl
          | inr other ↦ rw other refl
        ])

  same_room :
      (m n : ℕ)
      → (deleted_block (record { room = m; capacity = m }) n).room
        ≡ (deleted_block (record { room = m; capacity = m }) n).capacity
  same_room m n = elim (Bool-cases (ltb 0 n && (n == m / 4))) [
    | inl quarter ↦ rw quarter refl
    | inr other ↦ rw other refl
  ]

  -- On a vector that is well formed, for an index in range and where realloc succeeds, delete_item
  -- on its items and its block leaves the items, the capacity and the length of the block that
  -- vector_delete leaves.
  pub delete_item-vector_delete :
      (fresh : Option (List A)) (v : Vector A) (i : ℕ)
      → IsVector v
      → i < v.total
      → Enough fresh v (v.capacity / 2)
      → delete_item (block_of v) (contents v) i ≡ viewed (some (vector_delete null fresh v i))
  unfolding delete_item
  delete_item-vector_delete none v i ok h enough = elim enough [ ]
  delete_item-vector_delete (some new) v i ok h enough =
      let (ok', same) = vector_delete-without null (some new) v i ok h enough in
      let cap = capacity-vector_delete new v i h in
      let room = same_room v.capacity (v.total - 1) in
      rw
        (
          length-contents v ok,
          ok.allocated,
          leb_of_le v.total v.capacity ok.filled,
          same,
          ok'.allocated,
          cap,
        )
        (ap
          (λ (m : ℕ). some (
            take i (contents v) ++ drop (suc i) (contents v),
            record {
              room = m;
              capacity =
                  (deleted_block (record { room = v.capacity; capacity = v.capacity })
                    (v.total - 1)).capacity;
            },
          ))
          room)
