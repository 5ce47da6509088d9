-- ===== src/Buddy.antt =====
-- The allocator of the arena's memory: src/lib/buddy/memory.c. The array `tree` is a function of the
-- position; a block is an offset in bytes from `memory`.
pub mod Levels
pub mod New
pub mod Blocks
pub mod Alloc
pub mod Parts
pub mod Whole
mod Tests
use fgdb.Prelude.{
  ℕ, zero, suc, ◌+◌, ◌-◌, ◌*◌, ◌/◌, ◌%◌, ◌^◌, Bool, true, false, ◌&&◌, Option, none, some, ltb, leb,
  ◌==◌, if◌then◌else◌,
}

pub data Tag : Type 0 where
  free used split : Tag

-- `struct buddy`
pub record Buddy : Type 0 where
  pub level : ℕ
  pub leaves : ℕ
  pub used_kb : ℕ
  pub tree : ℕ → Tag

abbrev pub kb : ℕ
kb = 1024

-- `for (; num >> rv; rv++)`, with `fuel` rounds; 32 are enough for a `uint32_t`.
unfoldable pub bit_length : ℕ → ℕ → ℕ → ℕ
bit_length zero num rv = rv
bit_length (suc fuel) num rv =
    let rest = bit_length fuel num (rv + 1) in if num / 2 ^ rv == 0 then rv else rest

-- For 0 the shift by -1 is undefined; as on x86-64, where it is a shift by 31, the result is 0.
unfoldable pub bsqrt : ℕ → ℕ
bsqrt num =
    let rv = bit_length 32 num 0 in
    if rv == 0 then 0 else if 2 ^ (rv - 1) == num then rv - 1 else rv

-- `1 << n` as a `uint32_t`; of the count the shift takes the low five bits, as on x86-64.
abbrev pub shifted : ℕ → ℕ
shifted n = 2 ^ (n % 32)

-- `buddy_new`, where `malloc` succeeds: the bytes asked of `malloc`, those of them before `memory`,
-- and the allocator. `sizeof(struct buddy)` is 16.
unfoldable pub buddy_new : ℕ → ℕ × ℕ × Buddy
buddy_new size =
    let alloc_size = shifted (bsqrt (size % 2 ^ 32)) in
    let hight = bsqrt (size % 2 ^ 32) - bsqrt 1 + 1 in
    let buddy_size = (16 + (shifted hight - 1)) % 2 ^ 32 in
    (
      (buddy_size + alloc_size * kb) % 2 ^ 32,
      buddy_size,
      record { level = hight; leaves = shifted hight - 1; used_kb = 0; tree = λ pos. free },
    )

unfoldable pub level_from_pos : ℕ → ℕ
level_from_pos pos = bsqrt ((pos + 2) % 2 ^ 32)

-- `n / Kb` of an `int` in two's complement, rounded towards 0, as a `uint32_t`.
abbrev pub int_kb : ℕ → ℕ
int_kb n = if ltb n (2 ^ 31) then n / kb else (2 ^ 32 - (2 ^ 32 - n) / kb) % 2 ^ 32

-- `(1 << (level of the tree - level)) * MIN_CHUNK / Kb`, whose product is an `int` that wraps.
abbrev pub capasity_from_pos : Buddy → ℕ → ℕ
capasity_from_pos b pos =
    int_kb (shifted ((b.level + 2 ^ 32 - level_from_pos pos) % 2 ^ 32) * kb % 2 ^ 32)

abbrev pub set_tag : Buddy → ℕ → Tag → Buddy
set_tag b pos tag = record b { tree = λ q. if q == pos then tag else b.tree q }

-- The whole block of a position.
abbrev pub take_block : ℕ → Buddy → Option ℕ × Buddy
take_block pos b =
    let capasity = capasity_from_pos b pos in
    (
      some ((pos + 1) % 2 ^ 32 % shifted (level_from_pos pos + 31) * capasity * kb % 2 ^ 32),
      record (set_tag b pos used) { used_kb = (b.used_kb + capasity) % 2 ^ 32 },
    )

-- `ptr`, and if it is NULL the result of a second call.
abbrev pub or_right : Option ℕ × Buddy → (Buddy → Option ℕ × Buddy) → Option ℕ × Buddy
or_right (none, b) f = f b
or_right (some ptr, b) f = (some ptr, b)

-- Behind the attempts to take a part of a free block.
abbrev pub split_block : ℕ → Option ℕ × Buddy → Option ℕ × Buddy
split_block pos (none, b) = take_block pos b
split_block pos (some ptr, b) = (some ptr, set_tag b pos split)

-- The switch on the mark of a position; `parts` is the result of the calls for its halves.
abbrev pub by_tag : Tag → ℕ → ℕ → ℕ → Buddy → Option ℕ × Buddy → Option ℕ × Buddy
by_tag free half kbytes pos b parts =
    if leb kbytes half then split_block pos parts else take_block pos b
by_tag split half kbytes pos b parts = if ltb half kbytes then (none, b) else parts
by_tag used half kbytes pos b parts = (none, b)

-- `_buddy_ack_memory`, to a depth of `fuel`; `none` is NULL.
unfoldable pub buddy_ack_memory : ℕ → ℕ → ℕ → Buddy → Option ℕ × Buddy
buddy_ack_memory zero kbytes pos b = (none, b)
buddy_ack_memory (suc fuel) kbytes pos b =
    let capasity = capasity_from_pos b pos in
    let parts =
      or_right (buddy_ack_memory fuel kbytes (2 * pos + 1) b)
        (λ b'. buddy_ack_memory fuel kbytes (2 * pos + 2) b') in
    if ltb b.leaves pos
    then (none, b)
    else if ltb capasity kbytes
    then (none, b)
    else by_tag (b.tree pos) (capasity / 2) kbytes pos b parts

unfoldable pub buddy_alloc : ℕ → Buddy → Option ℕ × Buddy
buddy_alloc bytes b = buddy_ack_memory b.level (shifted (bsqrt (bytes / kb % 2 ^ 32))) 0 b

abbrev pub is_free : Tag → Bool
is_free free = true
is_free used = false
is_free split = false

abbrev pub is_split : Tag → Bool
is_split split = true
is_split used = false
is_split free = false

-- `_buddy_merge`, from `parent` on.
unfoldable pub buddy_merge : ℕ → ℕ → Buddy → Buddy
buddy_merge zero parent b = b
buddy_merge (suc fuel) parent b =
    let merged = set_tag b parent free in
    let rest = buddy_merge fuel (parent / 2) merged in
    if is_split (b.tree parent)
      && (is_free (b.tree (2 * parent + 1)) && is_free (b.tree (2 * parent + 2)))
    then if parent == 0 then merged else rest
    else b

-- The loops of `buddy_free` that look for the block's position.
unfoldable pub climb : ℕ → Buddy → ℕ → ℕ
climb zero b pos = pos
climb (suc fuel) b pos =
    let rest = climb fuel b (pos / 2) in if ltb 0 pos && is_free (b.tree pos) then rest else pos

unfoldable pub descend : ℕ → Buddy → ℕ → ℕ
descend zero b pos = pos
descend (suc fuel) b pos =
    let rest = descend fuel b (pos * 2 + 1) in
    if ltb pos b.leaves && is_split (b.tree pos) then rest else pos

abbrev pub block_of : Buddy → ℕ → ℕ
block_of b pos = elim (b.tree pos) [
  | used ↦ pos
  | free ↦ climb b.level b pos
  | split ↦ descend b.level b pos
]

abbrev pub freed : Buddy → ℕ → Option Buddy
freed b pos = elim (b.tree pos) [
  | free ↦ none
  | split ↦ none
  | used ↦
      let b' = record (set_tag b pos free) {
        used_kb = (b.used_kb + (2 ^ 32 - capasity_from_pos b pos)) % 2 ^ 32;
      } in
      some (buddy_merge b.level (pos / 2) b')
]

-- `ptr` is the offset from `memory`; `none` is the failed assertion or the exit.
unfoldable pub buddy_free : ℕ → Buddy → Option Buddy
buddy_free ptr b =
    let pos = (shifted (b.level + 31) + ptr / kb + (2 ^ 64 - 1)) % 2 ^ 32 in
    if ltb pos b.leaves then freed b (block_of b pos) else none
