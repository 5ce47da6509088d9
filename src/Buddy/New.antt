-- ===== src/Buddy/New.antt =====
-- `buddy_new` makes a well-formed allocator.
use fgdb.Prelude.{ℕ, zero, suc, ◌+◌, ◌-◌, ◌*◌, ◌%◌, ◌^◌, ◌≤◌, ◌<◌, ◌≡◌, refl, arith}
use fgdb.Buddy.{Buddy, free, kb, bit_length, bsqrt, buddy_new}
use fgdb.Buddy.Levels.{pow_le, pow_pos, bsqrt-suc}
use fgdb.Buddy.Blocks.{AllFree, IsTree-AllFree}
use fgdb.Buddy.Whole.{IsBuddy}

bsqrt_one : bsqrt 1 ≡ 0
unfolding bsqrt bit_length
bsqrt_one = refl

all_free : (h pos : ℕ) → AllFree (λ q. free) h pos
all_free zero pos = refl
all_free (suc h) pos = (refl, (all_free h (2 * pos + 1), all_free h (2 * pos + 2)))

-- For a size of two kilobytes to a gigabyte, buddy_new makes a well-formed allocator of the least
-- power of two of kilobytes that is no smaller, and asks malloc for as many bytes behind those of
-- the marks.
pub buddy_new-IsBuddy :
    (size d : ℕ)
    → 2 ^ d < size
    → size ≤ 2 ^ suc d
    → d < 20
    → (total front : ℕ) × ((b : Buddy) × ((buddy_new size ≡ (total, front, b))
          × (IsBuddy b (suc d) × (front + 2 ^ suc d * kb ≡ total))))
unfolding buddy_new
buddy_new-IsBuddy size d gt le small =
    let up : 2 ^ suc d ≤ 2 ^ 20 = pow_le (suc d) 20 (omega arith) in
    let up' : 2 ^ suc (suc d) ≤ 2 ^ 21 = pow_le (suc (suc d)) 21 (omega arith) in
    let w : size % 2 ^ 32 ≡ size = omega arith in
    let log : bsqrt size ≡ suc d = bsqrt-suc size d gt le (omega arith) in
    let mask : suc d % 32 ≡ suc d = omega arith in
    let hight : suc d - 0 + 1 ≡ suc (suc d) = omega arith in
    let mask' : suc (suc d) % 32 ≡ suc (suc d) = omega arith in
    let some' : 0 < 2 ^ suc (suc d) = pow_pos (suc (suc d)) in
    let e₁ : (16 + (2 ^ suc (suc d) - 1)) % 2 ^ 32 ≡ 16 + (2 ^ suc (suc d) - 1) = omega arith in
    let e₂ : (16 + (2 ^ suc (suc d) - 1) + 2 ^ suc d * kb) % 2 ^ 32
        ≡ 16 + (2 ^ suc (suc d) - 1) + 2 ^ suc d * kb =
      omega arith in
    (
      16 + (2 ^ suc (suc d) - 1) + 2 ^ suc d * kb,
      16 + (2 ^ suc (suc d) - 1),
      (
        record {
          level = suc (suc d);
          leaves = 2 ^ suc (suc d) - 1;
          used_kb = 0;
          tree = λ pos. free;
        },
        (
          rw (w, log, bsqrt_one, mask, hight, mask', e₁, e₂) refl,
          (
            record {
              deep = refl;
              count = omega arith;
              small = omega arith;
              tree = IsTree-AllFree (λ q. free) (suc d) 0 (all_free (suc d) 0);
            },
            refl,
          ),
        ),
      ),
    )
