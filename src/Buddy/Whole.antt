-- ===== src/Buddy/Whole.antt =====
-- `buddy_alloc` as a whole.
use fgdb.Prelude.{
  ℕ, zero, suc, ◌+◌, ◌*◌, ◌/◌, ◌%◌, ◌^◌, ◌≤◌, ◌<◌, ◌≡◌, refl, sym, ap, ◌∙◌, subst, inl, inr,
  Bool-cases, some, Option, List, [], ◌∷◌, ◌++◌, arith, ltb, leb, ltb→lt, leb_of_lt,
}
use native.Mathlib.Nat.{pow-le-pow_right, mul_comm, mul_assoc, add-mul, one-mul}
use fgdb.Buddy.{
  Tag, free, used, split, Buddy, kb, shifted, bsqrt, by_tag, buddy_ack_memory, buddy_alloc,
}
use fgdb.Buddy.Levels.{pow_pos, pow_suc, pow_le, bsqrt-suc}
use fgdb.Buddy.Blocks.{blocks, join, IsTree, IsTree-AllFree}
use fgdb.Buddy.Alloc.{Place, Took, Acks, take_block-Acks}
use fgdb.Buddy.Parts.{
  parts, ack_large, ack_fits, Place-left, Place-right, Room-le, split_block-Acks, parts-Acks,
}

half-pow : (h : ℕ) → 2 ^ suc h / 2 ≡ 2 ^ h
half-pow h = omega (arith, pow_suc h)

-- The number of a position's memory among those of the next level.
shift_left : (i h : ℕ) → i * 2 ^ suc h ≡ 2 * i * 2 ^ h
shift_left i h =
    ap (λ (n : ℕ). i * n) (pow_suc h)
    ∙ sym (mul_assoc i 2 (2 ^ h))
    ∙ ap (λ (n : ℕ). n * 2 ^ h) (mul_comm i 2)

shift_right : (i h : ℕ) → i * 2 ^ suc h + 2 ^ h ≡ (2 * i + 1) * 2 ^ h
shift_right i h =
    ap (λ (n : ℕ). n + 2 ^ h) (shift_left i h)
    ∙ sym (add-mul (2 * i) 1 (2 ^ h) ∙ ap (λ (n : ℕ). 2 * i * 2 ^ h + n) (one-mul (2 ^ h)))

-- The tests before the switch.
Acks-step :
    (h : ℕ) (b : Buddy) (pos d i start kbytes : ℕ)
    → Place b pos d i h
    → (kbytes ≤ 2 ^ h
        → Acks b h pos start kbytes
            (by_tag (b.tree pos) (2 ^ h / 2) kbytes pos b (parts h kbytes pos b)))
    → Acks b h pos start kbytes (buddy_ack_memory (suc h) kbytes pos b)
Acks-step h b pos d i start kbytes place cases = elim (Bool-cases (ltb (2 ^ h) kbytes)) [
  | inl large ↦
      let lt : 2 ^ h < kbytes = ltb→lt (2 ^ h) kbytes large in
      subst (λ r. Acks b h pos start kbytes r) (sym (ack_large place h kbytes lt))
        (refl, λ room. absurd (omega (arith, Room-le b.tree h pos kbytes room)))
  | inr fits ↦
      let le : kbytes ≤ 2 ^ h = ground arith in
      subst (λ r. Acks b h pos start kbytes r) (sym (ack_fits place h kbytes le)) (cases le)
]

-- A mark that is known.
Acks-tag :
    (h : ℕ) (b : Buddy) (pos start kbytes half : ℕ) (r : Option ℕ × Buddy) (tag : Tag)
    → b.tree pos ≡ tag
    → Acks b h pos start kbytes (by_tag tag half kbytes pos b r)
    → Acks b h pos start kbytes (by_tag (b.tree pos) half kbytes pos b r)
Acks-tag h b pos start kbytes half r tag e acks =
    subst (λ t. Acks b h pos start kbytes (by_tag t half kbytes pos b r)) (sym e) acks

buddy_ack_memory-Acks :
    (h : ℕ) (b : Buddy) (pos d i start kbytes : ℕ)
    → Place b pos d i h
    → start ≡ i * 2 ^ h
    → start + 2 ^ h ≤ 2 ^ 20
    → IsTree b.tree h pos
    → 1 ≤ kbytes
    → Acks b h pos start kbytes (buddy_ack_memory (suc h) kbytes pos b)
buddy_ack_memory-Acks zero b pos d i start kbytes place is_start room (inl f) some_kb =
    Acks-step zero b pos d i start kbytes place (λ le. Acks-tag zero b pos start kbytes _ _ free f (
      rw (leb_of_lt kbytes 0 some_kb)
        (take_block-Acks place start kbytes is_start room f le (omega arith))))
buddy_ack_memory-Acks zero b pos d i start kbytes place is_start room (inr u) some_kb =
    Acks-step zero b pos d i start kbytes place (λ le.
      Acks-tag zero b pos start kbytes _ _ used u
        (refl, λ room. absurd (let e : used ≡ free = sym u ∙ room.0 in cc)))
buddy_ack_memory-Acks (suc h) b pos d i start kbytes place is_start room (inl (f, (l, r))) some_kb =
    Acks-step (suc h) b pos d i start kbytes place (λ le.
      Acks-tag (suc h) b pos start kbytes _ _ free f
        (elim (Bool-cases (leb kbytes (2 ^ suc h / 2))) [
          | inl small ↦
              let le' : kbytes ≤ 2 ^ h =
                let x : kbytes ≤ 2 ^ suc h / 2 = ground arith in omega (arith, half-pow h) in
              rw small (
                split_block-Acks b h pos start kbytes
                  (buddy_ack_memory (suc h) kbytes (2 * pos + 1) b) _ (f, (l, r)) le'
                  (buddy_ack_memory-Acks h b (2 * pos + 1) (suc d) (2 * i) start kbytes
                    (Place-left b pos d i h place) (is_start ∙ shift_left i h)
                    (omega (arith, pow_suc h)) (IsTree-AllFree b.tree h (2 * pos + 1) l) some_kb))
          | inr large ↦
              let gt : 2 ^ suc h / 2 < kbytes = ground arith in
              rw large (
                take_block-Acks place start kbytes is_start room (f, (l, r)) le
                  (omega (arith, half-pow h, pow_suc h)))
        ]))
buddy_ack_memory-Acks (suc h) b pos d i start kbytes place is_start room (inr (inl (u, rest)))
      some_kb =
    Acks-step (suc h) b pos d i start kbytes place (λ le.
      Acks-tag (suc h) b pos start kbytes _ _ used u (
        refl,
        λ room. elim room [
          | inl (f, le') ↦ absurd (let e : used ≡ free = sym u ∙ f in cc)
          | inr (s, rest') ↦ absurd (let e : used ≡ split = sym u ∙ s in cc)
        ],
      ))
buddy_ack_memory-Acks (suc h) b pos d i start kbytes place is_start room (inr (inr (s, (l, r))))
      some_kb =
    Acks-step (suc h) b pos d i start kbytes place (λ le.
      Acks-tag (suc h) b pos start kbytes _ _ split s
        (elim (Bool-cases (ltb (2 ^ suc h / 2) kbytes)) [
          | inl large ↦
              let gt : 2 ^ h < kbytes =
                let x : 2 ^ suc h / 2 < kbytes = ground arith in omega (arith, half-pow h) in
              rw large (
                refl,
                λ room. elim room [
                  | inl (f, le') ↦ absurd (let e : split ≡ free = sym s ∙ f in cc)
                  | inr (s', (le', rest)) ↦ absurd (omega arith)
                ],
              )
          | inr small ↦ rw small (
              parts-Acks b h pos start kbytes (buddy_ack_memory (suc h) kbytes (2 * pos + 1) b) _ s
                l r
                (buddy_ack_memory-Acks h b (2 * pos + 1) (suc d) (2 * i) start kbytes
                  (Place-left b pos d i h place) (is_start ∙ shift_left i h)
                  (omega (arith, pow_suc h)) l some_kb)
                (buddy_ack_memory-Acks h b (2 * pos + 2) (suc d) (2 * i + 1) (start + 2 ^ h) kbytes
                  (Place-right b pos d i h place)
                  (ap (λ (n : ℕ). n + 2 ^ h) is_start ∙ shift_right i h) (omega (arith, pow_suc h))
                  r some_kb))
        ]))

-- An allocator of 2 ^ h kilobytes, a gigabyte at most.
pub record IsBuddy (b : Buddy) (h : ℕ) : Type 0 where
  pub deep : b.level ≡ suc h
  pub count : b.leaves + 1 ≡ 2 ^ b.level
  pub small : b.level ≤ 21
  pub tree : IsTree b.tree h 0

-- Blocks in the order of their offsets, none of which meets another.
abbrev pub IsApart : ℕ → ℕ → List (ℕ × ℕ) → Type 0
IsApart lo hi [] = lo ≤ hi
IsApart lo hi ((o, size) ∷ bs) = (lo ≤ o) × ((0 < size) × IsApart (o + size) hi bs)

IsApart-append :
    (lo mid hi : ℕ) (xs ys : List (ℕ × ℕ))
    → IsApart lo mid xs
    → IsApart mid hi ys
    → IsApart lo hi (xs ++ ys)
IsApart-append lo mid hi [] [] a c = omega arith
IsApart-append lo mid hi [] (y ∷ ys) a (le, rest) = (omega arith, rest)
IsApart-append lo mid hi (x ∷ xs) ys (le, (some', rest)) c =
    (le, (some', IsApart-append (x.0 + x.1) mid hi xs ys rest c))

pub blocks-IsApart :
    (t : ℕ → Tag) (h pos start : ℕ) → IsApart start (start + 2 ^ h) (blocks t h pos start)
unfolding blocks
blocks-IsApart t zero pos start = by_mark (t pos)
  where
    by_mark : (tag : Tag) → IsApart start (start + 1) (join tag (start, 1) [] [])
    by_mark free = omega arith
    by_mark used = (omega arith, (omega arith, omega arith))
    by_mark split = omega arith
blocks-IsApart t (suc h) pos start =
    by_mark (t pos) _ _ (blocks-IsApart t h (2 * pos + 1) start)
      (blocks-IsApart t h (2 * pos + 2) (start + 2 ^ h))
  where
    by_mark :
        (tag : Tag) (ls rs : List (ℕ × ℕ))
        → IsApart start (start + 2 ^ h) ls
        → IsApart (start + 2 ^ h) (start + 2 ^ h + 2 ^ h) rs
        → IsApart start (start + 2 ^ suc h) (join tag (start, 2 ^ suc h) ls rs)
    by_mark free ls rs l r = omega arith
    by_mark used ls rs l r = (omega arith, (pow_pos (suc h), omega arith))
    by_mark split ls rs l r =
        let e : start + 2 ^ h + 2 ^ h ≡ start + 2 ^ suc h = omega (arith, pow_suc h) in
        IsApart-append start (start + 2 ^ h) (start + 2 ^ suc h) ls rs l
          (subst (λ (n : ℕ). IsApart (start + 2 ^ h) n rs) e r)

pub buddy_alloc-Acks :
    (b : Buddy) (h bytes : ℕ)
    → IsBuddy b h
    → Acks b h 0 0 (shifted (bsqrt (bytes / kb % 2 ^ 32))) (buddy_alloc bytes b)
      × IsApart 0 (0 + 2 ^ h) (blocks (buddy_alloc bytes b).1.tree h 0 0)
unfolding buddy_alloc
buddy_alloc-Acks b h bytes ok =
    let place : Place b 0 0 0 h = record {
      at = record { place = refl; inside = omega arith };
      deep = omega (arith, ok.deep);
      count = ok.count;
      small = ok.small;
    } in
    let kbytes = shifted (bsqrt (bytes / kb % 2 ^ 32)) in
    let up : 2 ^ h ≤ 2 ^ 20 = pow_le h 20 (omega (arith, ok.deep, ok.small)) in
    let room : 0 + 2 ^ h ≤ 2 ^ 20 = omega arith in
    (
      subst (λ (n : ℕ). Acks b h 0 0 kbytes (buddy_ack_memory n kbytes 0 b)) (sym ok.deep)
          (buddy_ack_memory-Acks h b 0 0 0 0 kbytes place (omega arith) room ok.tree
            (pow_pos (bsqrt (bytes / kb % 2 ^ 32) % 32))),
      blocks-IsApart (buddy_alloc bytes b).1.tree h 0 0,
    )

-- On a well-formed allocator of a gigabyte at most, where the bytes asked for are a power of two,
-- at least two and at most 2 ^ 31, of kilobytes and some more, a block that buddy_alloc gives is
-- smaller than that.
pub buddy_alloc_short :
    (b b' : Buddy) (h bytes m ptr : ℕ)
    → IsBuddy b h
    → bytes / kb ≡ 2 ^ suc m
    → 0 < bytes % kb
    → m < 31
    → buddy_alloc bytes b ≡ (some ptr, b')
    → (took : Took b b' h 0 0 (2 ^ suc m) ptr) × (2 ^ took.k * kb < bytes)
buddy_alloc_short b b' h bytes m ptr ok whole rest small is =
    let log : bsqrt (2 ^ suc m) ≡ suc m =
      bsqrt-suc (2 ^ suc m) m (omega (arith, pow_suc m, pow_pos m)) (omega arith) small in
    let kbytes : shifted (bsqrt (bytes / kb % 2 ^ 32)) ≡ 2 ^ suc m =
      let up : 2 ^ suc m ≤ 2 ^ 31 = pow_le (suc m) 31 (omega arith) in
      let e : bytes / kb % 2 ^ 32 ≡ 2 ^ suc m = omega (arith, whole) in
      let mask : suc m % 32 ≡ suc m = omega arith in rw (e, log, mask) refl in
    let acks =
      subst (λ r. Acks b h 0 0 (shifted (bsqrt (bytes / kb % 2 ^ 32))) r) is
        (buddy_alloc-Acks b h bytes ok).0 in
    let took : Took b b' h 0 0 (2 ^ suc m) ptr =
      subst (λ (n : ℕ). Took b b' h 0 0 n ptr) kbytes acks in
    let le : took.k ≤ suc m = not_above took.k (suc m) took.tight in
    let size : 2 ^ took.k ≤ 2 ^ suc m = pow-le-pow_right {n = 2} (omega arith) le in
    (took, omega arith)
  where
    not_above : (k n : ℕ) → 2 ^ k < 2 * 2 ^ n → k ≤ n
    not_above k n lt = elim (Bool-cases (leb k n)) [
      | inl le ↦ ground arith
      | inr gt ↦
          let gt' : n < k = ground arith in
          let up : 2 ^ suc n ≤ 2 ^ k = pow-le-pow_right {n = 2} (omega arith) gt' in
          absurd (omega (arith, pow_suc n))
    ]
