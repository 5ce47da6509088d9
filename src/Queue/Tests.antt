-- ===== src/Queue/Tests.antt =====
-- A run of the queue on a heap that is a list of numbers, searched for the least one.
use fgdb.Prelude.{
  ℕ, ◌≤◌, ◌≡◌, refl, Option, none, some, List, [], ◌∷◌, All, arith, leb, if◌then◌else◌, Bool-cases,
  inl, inr, ◌⊎◌, ◌<◌,
}
use fgdb.Queue.{Heap, HeapLaws, Queue, popped, init_queue, push_queue, pop_heap}
use fgdb.Queue.Order.{IsQueue}
use fgdb.Queue.Runs.{Run, begins, pushes, passes, interrupts, Accounts, pop_heap-Run}
use mathlib.Core.List.{Permᴰ}
use mathlib.Core.List.Permᴰ as P

abbrev choose : ℕ → List ℕ → Option (ℕ × List ℕ) → Option (ℕ × List ℕ)
choose x xs none = some (x, xs)
choose x xs (some (m, rest)) = if leb x m then some (x, xs) else some (m, x ∷ rest)

abbrev delmin : List ℕ → Option (ℕ × List ℕ)
delmin [] = none
delmin (x ∷ xs) = choose x xs (delmin xs)

abbrev IsLeast : List ℕ → Option (ℕ × List ℕ) → Type 0
IsLeast xs none = xs ≡ []
IsLeast xs (some (m, rest)) = Permᴰ xs (m ∷ rest) × All (λ u. m ≤ u) xs

All-le : (x m : ℕ) (xs : List ℕ) → x ≤ m → All (λ u. m ≤ u) xs → All (λ u. x ≤ u) xs
All-le x m [] h a = tt
All-le x m (u ∷ us) h a = (omega (arith, a.0), All-le x m us h a.1)

choose-IsLeast :
    (x : ℕ) (xs : List ℕ) (o : Option (ℕ × List ℕ))
    → IsLeast xs o
    → IsLeast (x ∷ xs) (choose x xs o)
choose-IsLeast x xs none e = rw e (P.refl (x ∷ []), (omega arith, tt))
choose-IsLeast x xs (some (m, rest)) (p, a) = elim (Bool-cases (leb x m)) [
  | inl h ↦ rw h (P.refl (x ∷ xs), (omega arith, All-le x m xs (ground arith) a))
  | inr h ↦ rw h (Permᴰ.trans (Permᴰ.cons refl p) (Permᴰ.swap refl refl), (ground arith, a))
]

delmin-IsLeast : (xs : List ℕ) → IsLeast xs (delmin xs)
delmin-IsLeast [] = refl
delmin-IsLeast (x ∷ xs) = choose-IsLeast x xs (delmin xs) (delmin-IsLeast xs)

abbrev numbers : Heap (List ℕ) ℕ
numbers = record { rank = λ t. t; heap_insert = λ h t. t ∷ h; heap_delmin = delmin }

abbrev numbers-HeapLaws : HeapLaws numbers
numbers-HeapLaws = record {
  entries = λ h. h;
  insert_entries = λ h t. P.refl (t ∷ h);
  delmin_none = λ h e. let l = delmin-IsLeast h in rw e at l;
  delmin_some = λ h h' t e. let l = delmin-IsLeast h in rw e at l;
}

abbrev two : Queue (List ℕ)
two = record { heap = 5 ∷ 3 ∷ []; ntrans = 2 }

two-IsQueue : IsQueue numbers-HeapLaws two
two-IsQueue = record { counted = refl }

-- A wait is interrupted, two are pushed, and one pop has passed the semaphore.
abbrev waiting_pop : Queue (List ℕ)
waiting_pop = record { heap = 3 ∷ 5 ∷ []; ntrans = 1 }

waiting_pop-Run : Run numbers [] waiting_pop 2 1 (3 ∷ 5 ∷ []) []
unfolding push_queue init_queue
waiting_pop-Run = passes (pushes 3 (pushes 5 (interrupts begins))) refl

pop_heap-Run_example :
    Accounts numbers-HeapLaws waiting_pop 2 1 (3 ∷ 5 ∷ []) []
    × (((t : ℕ) × ((q' : Queue (List ℕ)) × ((pop_heap numbers waiting_pop ≡ popped (some t) q')
              × (Run numbers [] q' 1 1 (3 ∷ 5 ∷ []) (t ∷ []) × All (λ u. t ≤ u) (3 ∷ 5 ∷ [])))))
        ⊎ ((pop_heap numbers waiting_pop ≡ popped none waiting_pop)
            × ((waiting_pop.heap ≡ []) × (0 < 1))))
pop_heap-Run_example =
    pop_heap-Run numbers-HeapLaws [] waiting_pop 1 1 (3 ∷ 5 ∷ []) [] refl waiting_pop-Run
