-- ===== src/Vector/Delete.antt =====
-- `vector_delete` removes one item and closes the gap.
use fgdb.Prelude.{
  ℕ, true, zero, suc, ◌+◌, ◌-◌, ◌/◌, ◌≤◌, ◌<◌, ◌≡◌, refl, ◌∙◌, Option, none, some, List, [], ◌∷◌,
  ◌++◌, arith, ltb, ◌==◌, ◌&&◌, leb_of_lt, Bool-cases, inl, inr, set, length, take, drop,
  length-append, length-take, length-drop, length-set, take-append, append_assoc,
}
use fgdb.Vector.{Vector, get_or, shift_down, vector_shrink, vector_delete}
use fgdb.Vector.Contents.{
  without, contents, IsVector, Enough, take-take, take-set_le, drop-set_lt, drop-take,
  vector_resize-contents,
}

module _ {A : Type 0} (null : A) where
  shift_down-cons :
      (n i : ℕ) (x : A) (xs : List A)
      → shift_down null n (suc i) (x ∷ xs) ≡ x ∷ shift_down null n i xs
  unfolding shift_down
  shift_down-cons zero i x xs = refl
  shift_down-cons (suc n) i x xs =
      let e : suc i + 1 ≡ suc (i + 1) = omega arith in
      rw e (shift_down-cons n (i + 1) x (set xs i (get_or xs (i + 1) null)))

  shift_down_front :
      (n : ℕ) (x : A) (xs : List A)
      → n ≤ length xs
      → shift_down null n 0 (x ∷ xs) ≡ take n xs ++ drop n (x ∷ xs)
  unfolding shift_down
  shift_down_front zero x xs h = refl
  shift_down_front (suc n) x [] h = absurd (omega arith)
  shift_down_front (suc n) x (y ∷ xs) h =
      rw (shift_down-cons n 0 y (y ∷ xs), shift_down_front n y xs (omega arith))

  -- The loop moves `n` items one place down.
  shift_down_lem :
      (n i m : ℕ) (xs : List A)
      → i + n < length xs
      → m ≡ i + n
      → shift_down null n i xs ≡ take i xs ++ (take n (drop (suc i) xs) ++ drop m xs)
  shift_down_lem n i m [] h e = absurd (omega arith)
  shift_down_lem n zero m (x ∷ xs) h e =
      let e' : m ≡ n = omega arith in rw e' (shift_down_front n x xs (omega arith))
  shift_down_lem n (suc i) zero (x ∷ xs) h e = absurd (omega arith)
  shift_down_lem n (suc i) (suc m) (x ∷ xs) h e =
      rw (shift_down-cons n i x xs, shift_down_lem n i m xs (omega arith) (omega arith))

  length-shift_down : (n i : ℕ) (xs : List A) → length (shift_down null n i xs) ≡ length xs
  unfolding shift_down
  length-shift_down zero i xs = refl
  length-shift_down (suc n) i xs =
      length-shift_down n (i + 1) (set xs i (get_or xs (i + 1) null))
      ∙ length-set xs i (get_or xs (i + 1) null)

  -- The block after the loop, and with NULL in the slot that is free.
  moved : Vector A → ℕ → List A
  moved v i = set (shift_down null (v.total - 1 - i) i (set v.items i null)) (v.total - 1) null

  take-moved :
      (v : Vector A) (i : ℕ)
      → IsVector v
      → i < v.total
      → take (v.total - 1) (moved v i) ≡ without (contents v) i
  unfolding moved
  take-moved v i ok h =
      let n = v.total - 1 - i in
      let ys = set v.items i null in
      rw
        (
          take-set_le (shift_down null n i ys) (v.total - 1) (v.total - 1) null (omega arith),
          shift_down_lem n i (v.total - 1) ys
              (omega (arith, length-set v.items i null, ok.filled, ok.allocated)) (omega arith),
          take-set_le v.items i i null (omega arith),
          drop-set_lt v.items (suc i) i null (omega arith),
          take-take v.items i v.total (omega arith),
          drop-take v.items (suc i) v.total n (omega arith),
          ← append_assoc (take i v.items) (take n (drop (suc i) v.items)) (drop (v.total - 1) ys),
        )
        (take-append (v.total - 1) (take i v.items ++ take n (drop (suc i) v.items))
          (drop (v.total - 1) ys)
          (omega (
            arith,
            length-append {0} (take i v.items) (take n (drop (suc i) v.items)),
            length-take i v.items,
            length-take n (drop (suc i) v.items),
            length-drop (suc i) v.items,
            ok.filled,
            ok.allocated,
          )))

  removed : Vector A → ℕ → Vector A
  removed v i = record v { items = moved v i; total = v.total - 1 }

  removed-IsVector : (v : Vector A) (i : ℕ) → IsVector v → IsVector (removed v i)
  unfolding removed moved
  removed-IsVector v i ok = record {
    filled = omega (arith, ok.filled);
    allocated = omega (
      arith,
      ok.allocated,
      length-set v.items i null,
      length-shift_down (v.total - 1 - i) i (set v.items i null),
      length-set (shift_down null (v.total - 1 - i) i (set v.items i null)) (v.total - 1) null,
    );
  }

  quarter_le :
      (v : Vector A)
      → (ltb 0 v.total && (v.total == v.capacity / 4)) ≡ true
      → v.total ≤ v.capacity / 2
  quarter_le v h = ground arith

  Enough-same :
      (fresh : Option (List A)) (v w : Vector A) (capacity : ℕ)
      → length w.items ≡ length v.items
      → Enough fresh v capacity
      → Enough fresh w capacity
  Enough-same none v w capacity e h = h
  Enough-same (some fresh) v w capacity e h = omega arith

  vector_shrink-contents :
      (fresh : Option (List A)) (v : Vector A)
      → IsVector v
      → Enough fresh v (v.capacity / 2)
      → IsVector (vector_shrink fresh v) × (contents (vector_shrink fresh v) ≡ contents v)
  unfolding vector_shrink
  vector_shrink-contents fresh v ok enough =
      elim (Bool-cases (ltb 0 v.total && (v.total == v.capacity / 4))) [
        | inl quarter ↦
            let (ok', same, cap, tot) =
              vector_resize-contents fresh v (v.capacity / 2) ok enough (quarter_le v quarter) in
            rw quarter (ok', same)
        | inr other ↦ rw other (ok, refl)
      ]

  -- On a well-formed vector, where realloc succeeds, vector_delete of an index in range removes
  -- that item, moves those behind it one place down and keeps the invariant, also where it halves
  -- the block.
  pub vector_delete-without :
      (fresh : Option (List A)) (v : Vector A) (i : ℕ)
      → IsVector v
      → i < v.total
      → Enough fresh v (v.capacity / 2)
      → IsVector (vector_delete null fresh v i)
        × (contents (vector_delete null fresh v i) ≡ without (contents v) i)
  unfolding vector_delete removed moved
  vector_delete-without fresh v i ok h enough = rw (leb_of_lt v.total i h) (
      let (ok', same) = vector_shrink-contents fresh (removed v i) (removed-IsVector v i ok) (
        Enough-same fresh v (removed v i) (v.capacity / 2)
          (omega (arith, ok.allocated, (removed-IsVector v i ok).allocated)) enough) in
      (ok', same ∙ take-moved v i ok h))
