-- ===== src/Arena/Manager/Alloc.antt =====
-- `headers_alloc_page`: which header it gives, and what follows where the room is too small or the
-- arena is full.
use fgdb.Prelude.{
  ℕ, zero, suc, ◌+◌, ◌-◌, ◌*◌, ◌/◌, ◌%◌, ◌^◌, ◌≤◌, ◌<◌, ◌≡◌, refl, sym, ap, ◌∙◌, subst, ◌⊎◌, inl,
  inr, Bool, true, false, Bool-cases, ◌&&◌, none, some, List, [], ◌∷◌, arith, length, get_elem?,
  All, same_or_not, ==_of_ne,
}
use fgdb.Disk.{page_size}
use fgdb.Arena.{Header, Arena, Result, returned, faulted, Calls}
use fgdb.Arena.Manager.{
  has_room, is_fragmented, Choice, found, prefered, choose, headers_alloc_page, headers_new_page,
}

-- Less than a page of freed bytes is never enough for a page to be preferred.
is_fragmented_small :
    (header : Header) (n : ℕ)
    → header.fragmentated_bytes < page_size
    → is_fragmented header n ≡ false
is_fragmented_small header n small =
    let none_whole : header.fragmentated_bytes / page_size ≡ 0 = omega arith in
    let none_times : header.fragmentated_bytes / page_size * length header.keys ≡ 0 =
      rw none_whole (omega arith) in
    rw none_times (and_false _)
  where
    and_false : (b : Bool) → (b && false) ≡ false
    and_false true = refl
    and_false false = refl

-- How the search for a page ends.
abbrev Ends : ℕ → List Header → ℕ → Result Choice → Type 0
Ends n headers base result =
    ((result ≡ faulted)
      × ((i : ℕ) × ((h : Header) × ((get_elem? headers i ≡ some h)
              × ((length h.keys ≡ 0) × (has_room h n ≡ false))))))
    ⊎ (((result ≡ returned (prefered none)) × All (λ h. has_room h n ≡ false) headers)
        ⊎ ((i : ℕ) × ((h : Header) × ((result ≡ returned (found (base + i)))
                × ((get_elem? headers i ≡ some h) × (has_room h n ≡ true))))))

Ends-behind :
    (n : ℕ) (h : Header) (headers : List Header) (base : ℕ) (result : Result Choice)
    → has_room h n ≡ false
    → Ends n headers (base + 1) result
    → Ends n (h ∷ headers) base result
Ends-behind n h headers base result full (inl (e, (i, (h', rest)))) = inl (e, (suc i, (h', rest)))
Ends-behind n h headers base result full (inr (inl (e, all))) = inr (inl (e, (full, all)))
Ends-behind n h headers base result full (inr (inr (i, (h', (e, rest))))) =
    inr (inr (suc i, (h', (e ∙ ap (λ (k : ℕ). returned (found k)) (omega arith), rest))))

choose-Ends :
    (n : ℕ) (headers : List Header) (base : ℕ)
    → All (λ h. h.fragmentated_bytes < page_size) headers
    → Ends n headers base (choose n headers base none)
unfolding choose
choose-Ends n [] base small = inr (inl (refl, tt))
choose-Ends n (h ∷ headers) base (small, smalls) = elim (Bool-cases (has_room h n)) [
  | inl room ↦
      inr (inr (0, (h, (rw room (ap (λ (k : ℕ). returned (found k)) (omega arith)), (refl, room)))))
  | inr full ↦ elim (same_or_not (length h.keys) 0) [
    | inl no_keys ↦ inl (rw (full, no_keys) refl, (0, (h, (refl, (no_keys, full)))))
    | inr keys ↦
        let skips : choose n (h ∷ headers) base none ≡ choose n headers (base + 1) none =
          rw (full, ==_of_ne (length h.keys) 0 keys, is_fragmented_small h n small) refl in
        subst (λ (r : Result Choice). Ends n (h ∷ headers) base r) (sym skips)
          (Ends-behind n h headers base _ full (choose-Ends n headers (base + 1) smalls))
  ]
]

-- The room that the test on a header promises, for a header that is not overfull.
room-has_room :
    (h : Header) (n : ℕ)
    → h.offset_bytes ≤ page_size
    → has_room h n ≡ true
    → h.offset_bytes + n ≤ page_size
room-has_room h n fits room =
    let le : n ≤ (page_size + 2 ^ 16 - h.offset_bytes) % 2 ^ 16 = ground arith in omega arith

-- And where it fails there is no such room.
no_room-has_room :
    (h : Header) (n : ℕ)
    → h.offset_bytes ≤ page_size
    → has_room h n ≡ false
    → page_size < h.offset_bytes + n
no_room-has_room h n fits room =
    let lt : (page_size + 2 ^ 16 - h.offset_bytes) % 2 ^ 16 < n = ground arith in omega arith

All-no_room :
    (n : ℕ) (hs : List Header)
    → All (λ h. h.offset_bytes ≤ page_size) hs
    → All (λ h. has_room h n ≡ false) hs
    → All (λ h. page_size < h.offset_bytes + n) hs
All-no_room n [] fits all = tt
All-no_room n (h ∷ hs) (f, fits) (r, all) = (no_room-has_room h n f r, All-no_room n hs fits all)

All-get_elem? :
    (P : Header → Type 0) (hs : List Header) (i : ℕ) (h : Header)
    → All P hs
    → get_elem? hs i ≡ some h
    → P h
All-get_elem? P [] i h all e = absurd cc
All-get_elem? P (h' ∷ hs) zero h (p, all) e = let is : h' ≡ h = cc in subst P is p
All-get_elem? P (h' ∷ hs) (suc i) h (p, all) e = All-get_elem? P hs i h all e

-- How headers_alloc_page ends: at a header that has no key and no room; with a new page; or with a
-- header that has room, and the arena as it is.
abbrev pub Allocates : Calls → Arena → ℕ → Type 0
Allocates calls a n =
    ((headers_alloc_page calls a n ≡ faulted)
      × ((p : ℕ) × ((h : Header) × ((get_elem? a.headers p ≡ some h)
              × ((length h.keys ≡ 0) × (page_size < h.offset_bytes + n))))))
    ⊎ (((headers_alloc_page calls a n ≡ headers_new_page calls a)
          × All (λ h. page_size < h.offset_bytes + n) a.headers)
        ⊎ ((p : ℕ) × ((h : Header) × ((headers_alloc_page calls a n ≡ returned (p, a))
                × ((get_elem? a.headers p ≡ some h) × (h.offset_bytes + n ≤ page_size))))))

-- Where no header counts a page of freed bytes or more, or more bytes than a page has,
-- headers_alloc_page defragmentates nothing: it divides by zero at a header without keys behind
-- whose values fewer bytes are left than the size asked for; or it does what headers_new_page
-- does, and so few are left on every page; or it gives a header that has room for the bytes asked
-- for and leaves the arena as it is.
pub headers_alloc_page-cases :
    (calls : Calls) (a : Arena) (n : ℕ)
    → All (λ h. h.fragmentated_bytes < page_size) a.headers
    → All (λ h. h.offset_bytes ≤ page_size) a.headers
    → Allocates calls a n
unfolding headers_alloc_page
headers_alloc_page-cases calls a n small fits =
    at_end (choose n a.headers 0 none) refl (choose-Ends n a.headers 0 small)
  where
    at_end :
        (r : Result Choice)
        → choose n a.headers 0 none ≡ r
        → Ends n a.headers 0 r
        → Allocates calls a n
    at_end r is (inl (e, (i, (h, (at, (no_keys, full)))))) = inl (
      rw (is, e) refl,
      (
        i,
        (
          h,
          (
            at,
            (
              no_keys,
              no_room-has_room h n
                  (All-get_elem? (λ h'. h'.offset_bytes ≤ page_size) a.headers i h fits at) full,
            ),
          ),
        ),
      ),
    )
    at_end r is (inr (inl (e, all))) = inr (inl (rw (is, e) refl, All-no_room n a.headers fits all))
    at_end r is (inr (inr (i, (h, (e, (at, room)))))) = inr (
        inr (
          i,
          (
            h,
            (
              rw (is, e) (ap (λ (k : ℕ). returned (k, a)) (omega arith)),
              (
                at,
                room-has_room h n
                    (All-get_elem? (λ h'. h'.offset_bytes ≤ page_size) a.headers i h fits at) room,
              ),
            ),
          ),
        ))
