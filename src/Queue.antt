-- ===== src/Queue.antt =====
-- The queue of transactions: src/transactions/queue.h and src/transactions/queue.c. The heap of
-- src/lib/heap is another project's: its calls are the record `Heap`. The mutex makes each function
-- one step; the semaphore is its number.
pub mod Order
pub mod Runs
mod Tests
use fgdb.Prelude.{
  ℕ, ◌+◌, ◌-◌, ◌≤◌, ◌≡◌, Bool, true, false, Option, none, some, List, [], ◌∷◌, All, ◌==◌,
  if◌then◌else◌,
}
use fgdb.Server.Message.{Msg}
use mathlib.Core.List.{Permᴰ}

-- `rank` is the int that the heap reads at the key's address, `&transaction->msg->cmd`.
pub record Heap (H T : Type 0) : Type 0 where
  pub rank : T → ℕ
  pub heap_insert : H → T → H
  -- `none` is the result 0.
  pub heap_delmin : H → Option (T × H)

-- What src/lib/heap/heap.h says of the calls.
pub record HeapLaws {H T : Type 0} (heap : Heap H T) : Type 0 where
  pub entries : H → List T
  pub insert_entries : (h : H) (t : T) → Permᴰ (entries (heap.heap_insert h t)) (t ∷ entries h)
  pub delmin_none : (h : H) → heap.heap_delmin h ≡ none → entries h ≡ []
  pub delmin_some :
      (h h' : H) (t : T)
      → heap.heap_delmin h ≡ some (t, h')
      → Permᴰ (entries h) (t ∷ entries h') × All (λ u. heap.rank t ≤ heap.rank u) (entries h)

-- `R` is the type of requests; a recovered transaction has no ancestor.
pub record Transaction (R : Type 0) : Type 0 where
  pub ancestor : Option R
  pub msg : Msg

-- `allocated` tells whether `malloc` succeeds.
unfoldable pub convert_request : {R : Type 0} → Bool → R → Msg → Option (Transaction R)
convert_request allocated req msg =
    if allocated then some (record { ancestor = some req; msg = msg }) else none

pub record Queue (H : Type 0) : Type 0 where
  pub heap : H
  pub ntrans : ℕ

-- `blocked` waits at the semaphore; `none` is NULL.
pub data Popped (H T : Type 0) : Type 0 where
  blocked : Popped H T
  popped : Option T → Queue H → Popped H T

-- `h` is the heap that `heap_create` makes.
unfoldable pub init_queue : {H : Type 0} → H → Queue H
init_queue h = record { heap = h; ntrans = 0 }

module _ {H T : Type 0} (heap : Heap H T) where
  unfoldable pub push_queue : Queue H → T → Queue H
  push_queue queue transaction = record {
    heap = heap.heap_insert queue.heap transaction;
    ntrans = queue.ntrans + 1;
  }

  unfoldable pub pop_heap : Queue H → Popped H T
  pop_heap queue = elim (heap.heap_delmin queue.heap) [
    | none ↦ popped none queue
    | some (t, h) ↦ popped (some t) (record queue { heap = h })
  ]

  -- `interrupted` tells whether `sem_wait` returns -1, which the code does not read.
  unfoldable pub pop_queue : Bool → Bool → Queue H → Popped H T
  pop_queue interrupted force queue =
      if force
      then pop_heap queue
      else if interrupted
      then pop_heap queue
      else if queue.ntrans == 0
      then blocked
      else pop_heap (record queue { ntrans = queue.ntrans - 1 })
