-- ===== src/Vector.antt =====
-- The growing array of pointers: src/lib/vector/vector.h and src/lib/vector/vector.c. `items` is the
-- allocated block, `null` the pointer NULL, and `none` as a result a write outside the block.
pub mod Add
pub mod Contents
pub mod Delete
mod Tests
use fgdb.Prelude.{
  ℕ, zero, suc, ◌+◌, ◌-◌, ◌*◌, ◌/◌, Bool, Option, none, some, List, ◌++◌, ltb, leb, ◌==◌, ◌&&◌,
  ◌||◌, if◌then◌else◌, get_elem?, set, length, take,
}

pub record Vector (A : Type 0) : Type 0 where
  pub items : List A
  pub capacity : ℕ
  pub total : ℕ

abbrev pub init_capacity : ℕ
init_capacity = 4

-- `capacity * 1.5`, converted to `size_t`.
abbrev pub grown : ℕ → ℕ
grown capacity = capacity * 3 / 2

module _ {A : Type 0} where
  abbrev pub get_or : List A → ℕ → A → A
  get_or xs i d = elim (get_elem? xs i) [ none ↦ d | some a ↦ a ]

  -- `capacity > 0 || VECTOR_INIT_CAPACITY` is a truth value, and it is always 1. `memory` is what
  -- `malloc` returns for so many pointers.
  unfoldable pub vector_init : List A → ℕ → Vector A
  vector_init memory capacity = record {
    items = memory;
    capacity = if ltb 0 capacity || ltb 0 init_capacity then 1 else 0;
    total = 0;
  }

  unfoldable pub vector_total : Vector A → ℕ
  vector_total v = v.total

  -- `realloc` fails, or keeps the slots that fit and has the new ones hold anything (`fresh`).
  unfoldable pub vector_resize : Option (List A) → Vector A → ℕ → Vector A
  vector_resize none v capacity = v
  vector_resize (some fresh) v capacity = record v {
    items = take capacity (v.items ++ fresh);
    capacity = capacity;
  }

  -- `v->items[i] = item`
  abbrev pub store_item : Vector A → ℕ → A → Option (Vector A)
  store_item v i item =
      if ltb i (length v.items) then some (record v { items = set v.items i item }) else none

  abbrev pub count_one : Option (Vector A) → Option (Vector A)
  count_one none = none
  count_one (some v) = some (record v { total = v.total + 1 })

  unfoldable pub vector_add : Option (List A) → Vector A → A → Option (Vector A)
  vector_add fresh v item =
      let v' = if v.capacity == v.total then vector_resize fresh v (grown v.capacity) else v in
      count_one (store_item v' v'.total item)

  unfoldable pub vector_set : Vector A → ℕ → A → Vector A
  vector_set v index item =
      if ltb index v.total then record v { items = set v.items index item } else v

  unfoldable pub vector_get : A → Vector A → ℕ → A
  vector_get null v index = if ltb index v.total then get_or v.items index null else null

  -- `for (i = index; i < total - 1; i++) items[i] = items[i + 1]`, `n` rounds from `i` on.
  unfoldable pub shift_down : A → ℕ → ℕ → List A → List A
  shift_down null zero i items = items
  shift_down null (suc n) i items =
      shift_down null n (i + 1) (set items i (get_or items (i + 1) null))

  -- The block may be made smaller when it is a quarter full.
  unfoldable pub vector_shrink : Option (List A) → Vector A → Vector A
  vector_shrink fresh v =
      if ltb 0 v.total && (v.total == v.capacity / 4)
      then vector_resize fresh v (v.capacity / 2)
      else v

  unfoldable pub vector_delete : A → Option (List A) → Vector A → ℕ → Vector A
  vector_delete null fresh v index =
      if leb v.total index
      then v
      else vector_shrink fresh (record v {
        items =
            set (shift_down null (v.total - 1 - index) index (set v.items index null)) (v.total - 1)
              null;
        total = v.total - 1;
      })
