-- ===== src/Queue/Order.antt =====
-- What goes into the queue comes out of it, the smallest rank first.
use fgdb.Prelude.{
  suc, ◌-◌, ◌≤◌, ◌<◌, ◌≡◌, refl, sym, ap, ◌∙◌, false, none, some, Option-cases, List, [], ◌∷◌, All,
  length, arith, ◌==◌, Bool-cases, inl, inr,
}
use fgdb.Queue.{Heap, HeapLaws, Queue, Popped, blocked, popped, push_queue, pop_heap, pop_queue}
use mathlib.Core.List.{Permᴰ}

pub length-Permᴰ : {A : Type 0} {xs ys : List A} → Permᴰ xs ys → length xs ≡ length ys
length-Permᴰ Permᴰ.nil = refl
length-Permᴰ (Permᴰ.cons e p) = ap suc (length-Permᴰ p)
length-Permᴰ (Permᴰ.swap e e') = refl
length-Permᴰ (Permᴰ.trans p q) = length-Permᴰ p ∙ length-Permᴰ q

module _ {H T : Type 0} {heap : Heap H T} (laws : HeapLaws heap) where
  open laws use {entries, insert_entries, delmin_none, delmin_some}

  -- The semaphore counts the transactions in the heap.
  pub record IsQueue (queue : Queue H) : Type 0 where
    pub counted : queue.ntrans ≡ length (entries queue.heap)

  -- Over any heap that keeps the laws of its header, a push onto a queue whose semaphore counts
  -- its transactions keeps the count and adds the transaction to those in the heap.
  pub push_queue-IsQueue :
      (queue : Queue H) (t : T)
      → IsQueue queue
      → IsQueue (push_queue heap queue t)
        × Permᴰ (entries (push_queue heap queue t).heap) (t ∷ entries queue.heap)
  unfolding push_queue
  push_queue-IsQueue queue t ok = (
    record { counted = omega (arith, ok.counted, length-Permᴰ (insert_entries queue.heap t)) },
    insert_entries queue.heap t,
  )

  -- What a pop takes out is a transaction of the smallest rank, and the count is kept.
  abbrev pub Takes : Queue H → Popped H T → Type 0
  Takes queue blocked = entries queue.heap ≡ []
  Takes queue (popped none queue') = ⊥
  Takes queue (popped (some t) queue') =
      IsQueue queue'
      × Permᴰ (entries queue.heap) (t ∷ entries queue'.heap)
      × All (λ u. heap.rank t ≤ heap.rank u) (entries queue.heap)

  empty : (xs : List T) → length xs ≡ 0 → xs ≡ []
  empty [] e = refl
  empty (x ∷ xs) e = absurd (omega arith)

  pop_heap-Takes :
      (queue : Queue H)
      → IsQueue queue
      → 0 < queue.ntrans
      → Takes queue (pop_heap heap (record queue { ntrans = queue.ntrans - 1 }))
  unfolding pop_heap
  pop_heap-Takes queue ok h = elim (Option-cases (heap.heap_delmin queue.heap)) [
    | inl e ↦ absurd (omega (arith, ok.counted, ap (length {A = T}) (delmin_none queue.heap e)))
    | inr ((t, h'), e) ↦
        rw (e, pop_heap)
          (let (p, least) = delmin_some queue.heap h' t e in
            (record { counted = omega (arith, ok.counted, length-Permᴰ p) }, p, least))
  ]

  -- Over any heap that keeps the laws of its header, a pop without force, and without an interrupted
  -- wait, from a queue whose semaphore counts its transactions waits only if there is none and never returns NULL: it takes
  -- out a transaction of the smallest rank and leaves the others, counted.
  pub pop_queue-Takes :
      (queue : Queue H) → IsQueue queue → Takes queue (pop_queue heap false false queue)
  unfolding pop_queue
  pop_queue-Takes queue ok = elim (Bool-cases (queue.ntrans == 0)) [
    | inl none' ↦
        rw none' (
          empty (entries queue.heap)
            (let z : queue.ntrans ≡ 0 = ground arith in sym ok.counted ∙ z))
    | inr some' ↦ rw some' (pop_heap-Takes queue ok (ground arith))
  ]
