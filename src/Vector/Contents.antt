-- ===== src/Vector/Contents.antt =====
-- The vector as the list of its items.
use fgdb.Prelude.{
  ℕ, zero, suc, ◌+◌, ◌≤◌, ◌<◌, ◌≡◌, refl, ◌∙◌, Option, none, some, List, [], ◌∷◌, ◌++◌, arith, set,
  length, take, drop, length-append, length-take,
}
use fgdb.Vector.{Vector, vector_resize}

module _ {A : Type 0} where
  abbrev pub contents : Vector A → List A
  contents v = take v.total v.items

  pub record IsVector (v : Vector A) : Type 0 where
    pub filled : v.total ≤ v.capacity
    pub allocated : length v.items ≡ v.capacity

  -- What `realloc` returns is large enough.
  abbrev pub Enough : Option (List A) → Vector A → ℕ → Type 0
  Enough none v capacity = ⊥
  Enough (some fresh) v capacity = capacity ≤ length v.items + length fresh

  pub take-set_next :
      (xs : List A) (n k : ℕ) (a : A)
      → k ≡ n + 1
      → n < length xs
      → take k (set xs n a) ≡ take n xs ++ a ∷ []
  take-set_next [] n k a e h = absurd (omega arith)
  take-set_next (x ∷ xs) n zero a e h = absurd (omega arith)
  take-set_next (x ∷ xs) zero (suc k) a e h = let e' : k ≡ 0 = omega arith in rw e'
  take-set_next (x ∷ xs) (suc n) (suc k) a e h =
      rw (take-set_next xs n k a (omega arith) (omega arith))

  pub take-set_le : (xs : List A) (m n : ℕ) (a : A) → m ≤ n → take m (set xs n a) ≡ take m xs
  take-set_le xs zero n a h = refl
  take-set_le xs (suc m) zero a h = absurd (omega arith)
  take-set_le [] (suc m) (suc n) a h = refl
  take-set_le (x ∷ xs) (suc m) (suc n) a h = rw (take-set_le xs m n a (omega arith))

  pub drop-set_lt : (xs : List A) (m n : ℕ) (a : A) → n < m → drop m (set xs n a) ≡ drop m xs
  drop-set_lt xs zero n a h = absurd (omega arith)
  drop-set_lt [] (suc m) n a h = refl
  drop-set_lt (x ∷ xs) (suc m) zero a h = refl
  drop-set_lt (x ∷ xs) (suc m) (suc n) a h = drop-set_lt xs m n a (omega arith)

  pub drop-take : (xs : List A) (m n k : ℕ) → m + k ≡ n → drop m (take n xs) ≡ take k (drop m xs)
  drop-take xs zero n k e = let e' : n ≡ k = omega arith in rw e'
  drop-take xs (suc m) zero k e = absurd (omega arith)
  drop-take [] (suc m) (suc n) zero e = refl
  drop-take [] (suc m) (suc n) (suc k) e = refl
  drop-take (x ∷ xs) (suc m) (suc n) k e = drop-take xs m n k (omega arith)

  pub take-take : (xs : List A) (m n : ℕ) → m ≤ n → take m (take n xs) ≡ take m xs
  take-take xs zero n h = refl
  take-take xs (suc m) zero h = absurd (omega arith)
  take-take [] (suc m) (suc n) h = refl
  take-take (x ∷ xs) (suc m) (suc n) h = rw (take-take xs m n (omega arith))

  take-append_le : (xs ys : List A) (m : ℕ) → m ≤ length xs → take m (xs ++ ys) ≡ take m xs
  take-append_le xs ys zero h = refl
  take-append_le [] ys (suc m) h = absurd (omega arith)
  take-append_le (x ∷ xs) ys (suc m) h = rw (take-append_le xs ys m (omega arith))

  -- Resizing keeps the items if there is room for them.
  pub vector_resize-contents :
      (fresh : Option (List A)) (v : Vector A) (capacity : ℕ)
      → IsVector v
      → Enough fresh v capacity
      → v.total ≤ capacity
      → IsVector (vector_resize fresh v capacity)
        × (contents (vector_resize fresh v capacity) ≡ contents v)
        × ((vector_resize fresh v capacity).capacity ≡ capacity)
        × ((vector_resize fresh v capacity).total ≡ v.total)
  unfolding vector_resize
  vector_resize-contents none v capacity ok h k = absurd h
  vector_resize-contents (some fresh) v capacity ok h k = (
    record {
      filled = k;
      allocated =
          omega (arith, length-take capacity (v.items ++ fresh), length-append v.items fresh);
    },
    take-take (v.items ++ fresh) v.total capacity k
        ∙ take-append_le v.items fresh v.total (omega (arith, ok.filled, ok.allocated)),
    refl,
    refl,
  )

  -- `xs` less the item at `i`.
  abbrev pub without : List A → ℕ → List A
  without xs i = take i xs ++ drop (suc i) xs
