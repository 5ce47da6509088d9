-- ===== src/Queue/Runs.antt =====
-- Runs of several threads on one queue, whose pops wait for the semaphore in one step and take the
-- mutex in a later one.
use fgdb.Prelude.{
  ℕ, suc, ◌+◌, ◌≡◌, refl, ap, none, some, Option, Option-cases, inl, inr, List, [], ◌∷◌, ◌++◌, ◌≤◌,
  All, length, arith, ◌⊎◌, ◌<◌,
}
use fgdb.Queue.{Heap, HeapLaws, Queue, popped, init_queue, push_queue, pop_heap}
use fgdb.Queue.Order.{length-Permᴰ}
use mathlib.Core.List.{Permᴰ}
use mathlib.Core.List.Permᴰ as P

module _ {H T : Type 0} (heap : Heap H T) (h : H) where
  -- The queue, the number of pops between the semaphore and the mutex, how often a wait for the
  -- semaphore was interrupted, the transactions pushed and those taken out, the last one first;
  -- from a queue with the heap `h`. An interrupted pop goes on as if it had passed.
  pub data Run : Queue H → ℕ → ℕ → List T → List T → Type 0 where
    begins : Run (init_queue h) 0 0 [] []
    pushes :
        {q : Queue H} {w k : ℕ} {ins outs : List T} (t : T)
        → Run q w k ins outs
        → Run (push_queue heap q t) w k (t ∷ ins) outs
    passes :
        {q : Queue H} {w k n : ℕ} {ins outs : List T}
        → Run q w k ins outs
        → q.ntrans ≡ suc n
        → Run (record q { ntrans = n }) (suc w) k ins outs
    interrupts :
        {q : Queue H} {w k : ℕ} {ins outs : List T}
        → Run q w k ins outs
        → Run q (suc w) (suc k) ins outs
    takes :
        {q q' : Queue H} {w k : ℕ} {ins outs : List T} (t : T)
        → Run q (suc w) k ins outs
        → pop_heap heap q ≡ popped (some t) q'
        → Run q' w k ins (t ∷ outs)
    misses :
        {q q' : Queue H} {w k : ℕ} {ins outs : List T}
        → Run q (suc w) k ins outs
        → pop_heap heap q ≡ popped none q'
        → Run q' w k ins outs

module _ {H T : Type 0} {heap : Heap H T} (laws : HeapLaws heap) where
  open laws use {entries, insert_entries, delmin_none, delmin_some}

  -- The semaphore and the pops behind it count the transactions in the heap, but for one at most
  -- for each interrupted wait, and those pushed are those taken out and those in the heap.
  pub record Accounts (q : Queue H) (w k : ℕ) (ins outs : List T) : Type 0 where
    pub covered : length (entries q.heap) ≤ q.ntrans + w
    pub counted : q.ntrans + w ≤ length (entries q.heap) + k
    pub kept : Permᴰ ins (outs ++ entries q.heap)

  begins-Accounts : (h : H) → entries h ≡ [] → Accounts (init_queue h) 0 0 [] []
  unfolding init_queue
  begins-Accounts h e = record {
    covered = rw e (omega arith);
    counted = rw e (omega arith);
    kept = rw e (P.refl []);
  }

  pushes-Accounts :
      (q : Queue H) (w k : ℕ) (ins outs : List T) (t : T)
      → Accounts q w k ins outs
      → Accounts (push_queue heap q t) w k (t ∷ ins) outs
  unfolding push_queue
  pushes-Accounts q w k ins outs t ok = record {
    covered = omega (arith, ok.covered, length-Permᴰ (insert_entries q.heap t));
    counted = omega (arith, ok.counted, length-Permᴰ (insert_entries q.heap t));
    kept = Permᴰ.trans (Permᴰ.cons refl ok.kept) (
        Permᴰ.trans (P.symm (P.middle t outs (entries q.heap)))
          (P.append_left outs (P.symm (insert_entries q.heap t))));
  }

  -- What `pop_heap` took out.
  pop_heap-some :
      (q q' : Queue H) (t : T)
      → pop_heap heap q ≡ popped (some t) q'
      → (h' : H) × ((heap.heap_delmin q.heap ≡ some (t, h')) × (record q { heap = h' } ≡ q'))
  unfolding pop_heap
  pop_heap-some q q' t e = by_result (heap.heap_delmin q.heap) refl e
    where
      by_result :
          (o : Option (T × H))
          → heap.heap_delmin q.heap ≡ o
          → elim o [
            | none ↦ popped none q
            | some (u, h') ↦ popped (some u) (record q { heap = h' })
          ]
            ≡ popped (some t) q'
          → (h' : H) × ((heap.heap_delmin q.heap ≡ some (t, h')) × (record q { heap = h' } ≡ q'))
      by_result none is e = absurd cc
      by_result (some (u, h')) is e = (h', (cc, cc))

  takes-Accounts :
      (q q' : Queue H) (w k : ℕ) (ins outs : List T) (t : T)
      → Accounts q (suc w) k ins outs
      → pop_heap heap q ≡ popped (some t) q'
      → Accounts q' w k ins (t ∷ outs)
  takes-Accounts q q' w k ins outs t ok e =
      let (h', (is_min, is_q')) = pop_heap-some q q' t e in
      let p = (delmin_some q.heap h' t is_min).0 in
      rw (← is_q') (record {
        covered = omega (arith, ok.covered, length-Permᴰ p);
        counted = omega (arith, ok.counted, length-Permᴰ p);
        kept =
            Permᴰ.trans ok.kept (Permᴰ.trans (P.append_left outs p) (P.middle t outs (entries h')));
      })

  -- A pop that finds the heap empty.
  pop_heap-none :
      (q q' : Queue H) → pop_heap heap q ≡ popped none q' → (entries q.heap ≡ []) × (q ≡ q')
  unfolding pop_heap
  pop_heap-none q q' e = by_result (heap.heap_delmin q.heap) refl e
    where
      by_result :
          (o : Option (T × H))
          → heap.heap_delmin q.heap ≡ o
          → elim o [
            | none ↦ popped none q
            | some (u, h') ↦ popped (some u) (record q { heap = h' })
          ]
            ≡ popped none q'
          → (entries q.heap ≡ []) × (q ≡ q')
      by_result none is e = (delmin_none q.heap is, cc)
      by_result (some (u, h')) is e = absurd cc

  misses-Accounts :
      (q q' : Queue H) (w k : ℕ) (ins outs : List T)
      → Accounts q (suc w) k ins outs
      → pop_heap heap q ≡ popped none q'
      → Accounts q' w k ins outs
  misses-Accounts q q' w k ins outs ok e =
      let (empty, is_q') = pop_heap-none q q' e in
      let zero' : length (entries q.heap) ≡ 0 = ap (length {A = T}) empty in
      rw (← is_q')
        (record { covered = omega arith; counted = omega (arith, ok.counted); kept = ok.kept })

  Run-Accounts :
      (h : H) (q : Queue H) (w k : ℕ) (ins outs : List T)
      → entries h ≡ []
      → Run heap h q w k ins outs
      → Accounts q w k ins outs
  Run-Accounts h q w k ins outs e begins = begins-Accounts h e
  Run-Accounts h q w k ins outs e (pushes {q = q₀} {ins = ins₀} t run) =
      pushes-Accounts q₀ w k ins₀ outs t (Run-Accounts h q₀ w k ins₀ outs e run)
  Run-Accounts h q w k ins outs e (passes {q = q₀} {w = w₀} run more) =
      let ok = Run-Accounts h q₀ w₀ k ins outs e run in
      record {
        covered = omega (arith, ok.covered);
        counted = omega (arith, ok.counted);
        kept = ok.kept;
      }
  Run-Accounts h q w k ins outs e (interrupts {w = w₀} {k = k₀} run) =
      let ok = Run-Accounts h q w₀ k₀ ins outs e run in
      record {
        covered = omega (arith, ok.covered);
        counted = omega (arith, ok.counted);
        kept = ok.kept;
      }
  Run-Accounts h q w k ins outs e (takes {q = q₀} {outs = outs₀} t run is) =
      takes-Accounts q₀ q w k ins outs₀ t (Run-Accounts h q₀ (suc w) k ins outs₀ e run) is
  Run-Accounts h q w k ins outs e (misses {q = q₀} run is) =
      misses-Accounts q₀ q w k ins outs (Run-Accounts h q₀ (suc w) k ins outs e run) is

  -- In any run of pushes and pops of several threads, where waits for the semaphore may be
  -- interrupted, over a heap that keeps the laws of its header and starts empty, the semaphore and
  -- the pops that have passed it count the transactions in the heap, but for one at most for each
  -- interrupted wait; those pushed are those taken out and those in the heap; and a pop that has
  -- passed takes one of the smallest rank, or it takes NULL, the heap is empty, and a wait was
  -- interrupted.
  pub pop_heap-Run :
      (h : H) (q : Queue H) (w k : ℕ) (ins outs : List T)
      → entries h ≡ []
      → Run heap h q (suc w) k ins outs
      → Accounts q (suc w) k ins outs
        × (((t : T) × ((q' : Queue H) × ((pop_heap heap q ≡ popped (some t) q')
                  × (Run heap h q' w k ins (t ∷ outs)
                      × All (λ u. heap.rank t ≤ heap.rank u) (entries q.heap)))))
            ⊎ ((pop_heap heap q ≡ popped none q) × ((entries q.heap ≡ []) × (0 < k))))
  unfolding pop_heap
  pop_heap-Run h q w k ins outs e run =
      let ok = Run-Accounts h q (suc w) k ins outs e run in
      (
        ok,
        elim (Option-cases (heap.heap_delmin q.heap)) [
          | inl none' ↦
              let empty = delmin_none q.heap none' in
              let zero' : length (entries q.heap) ≡ 0 = ap (length {A = T}) empty in
              inr (rw (none', pop_heap) refl, (empty, omega (arith, ok.counted)))
          | inr ((t, h'), is) ↦
              let popped' : pop_heap heap q ≡ popped (some t) (record q { heap = h' }) =
                rw (is, pop_heap) refl in
              inl (
                t,
                (
                  record q { heap = h' },
                  (popped', (takes t run popped', (delmin_some q.heap h' t is).1)),
                ),
              )
        ],
      )
