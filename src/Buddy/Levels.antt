-- ===== src/Buddy/Levels.antt =====
-- `bsqrt` is the logarithm rounded up, and the positions of one level have one capacity.
use fgdb.Prelude.{
  ℕ, zero, suc, ◌+◌, ◌-◌, ◌*◌, ◌/◌, ◌%◌, ◌^◌, ◌≤◌, ◌<◌, ◌≡◌, refl, arith, same_or_not, inl, inr,
  ==_of_ne, ==_refl,
}
use native.Mathlib.Nat.{pow-suc, pow-le-pow_right, one-le-pow, div-eq_of_lt, le-div_iff_mul-le}
use fgdb.Buddy.{bit_length, bsqrt, level_from_pos}

pub pow_pos : (d : ℕ) → 0 < 2 ^ d
pow_pos d = one-le-pow d 2 (omega arith)

pub pow_le : (d e : ℕ) → d ≤ e → 2 ^ d ≤ 2 ^ e
pow_le d e le = pow-le-pow_right {n = 2} (omega arith) le

pub pow_suc : (d : ℕ) → 2 ^ suc d ≡ 2 * 2 ^ d
pow_suc d = omega (arith, pow-suc 2 d)

-- The loop ends at the number of bits.
bit_length-suc :
    (fuel n rv k d : ℕ)
    → 2 ^ d ≤ n
    → n < 2 ^ suc d
    → rv + k ≡ suc d
    → k ≤ fuel
    → bit_length fuel n rv ≡ suc d
unfolding bit_length
bit_length-suc zero n rv k d ge lt e le = omega arith
bit_length-suc (suc fuel) n rv zero d ge lt e le =
    let is : rv ≡ suc d = omega arith in rw (is, div-eq_of_lt lt) refl
bit_length-suc (suc fuel) n rv (suc k) d ge lt e le =
    let small : 2 ^ rv ≤ 2 ^ d = pow-le-pow_right {n = 2} (omega arith) (omega arith) in
    let some' : 1 ≤ n / 2 ^ rv =
      (le-div_iff_mul-le {k = 2 ^ rv} {x = 1} {y = n} (pow_pos rv)).1 (omega arith) in
    rw (==_of_ne (n / 2 ^ rv) 0 (λ z. absurd (omega arith)))
      (bit_length-suc fuel n (rv + 1) k d ge lt (omega arith) (omega arith))

-- bsqrt of a number above 2 ^ d and not above twice that is d + 1.
pub bsqrt-suc : (n d : ℕ) → 2 ^ d < n → n ≤ 2 ^ suc d → d < 31 → bsqrt n ≡ suc d
unfolding bsqrt
bsqrt-suc n d gt le small = elim (same_or_not n (2 ^ suc d)) [
  | inl e ↦
      let p = pow_pos (suc d) in
      let len : bit_length 32 n 0 ≡ suc (suc d) =
        bit_length-suc 32 n 0 (suc (suc d)) (suc d) (omega arith) (omega (arith, pow_suc (suc d)))
          (omega arith) (omega arith) in
      let before : suc (suc d) - 1 ≡ suc d = omega arith in
      rw (len, ==_of_ne (suc (suc d)) 0 (λ z. absurd (omega arith)), before, e, ==_refl (2 ^ suc d))
        refl
  | inr ne ↦
      let len : bit_length 32 n 0 ≡ suc d =
        bit_length-suc 32 n 0 (suc d) d (omega arith) (omega arith) (omega arith) (omega arith) in
      let before : suc d - 1 ≡ d = omega arith in
      rw
        (
          len,
          ==_of_ne (suc d) 0 (λ z. absurd (omega arith)),
          before,
          ==_of_ne (2 ^ d) n (λ e. absurd (omega arith)),
        )
        refl
]

-- Position `pos` is number `i` of those at depth `d`.
pub record At (pos d i : ℕ) : Type 0 where
  pub place : pos + 1 ≡ 2 ^ d + i
  pub inside : i < 2 ^ d

pub level_from_pos-At : (pos d i : ℕ) → At pos d i → d < 31 → level_from_pos pos ≡ suc d
unfolding level_from_pos
level_from_pos-At pos d i at small =
    let up : 2 ^ d ≤ 2 ^ 30 = pow_le d 30 (omega arith) in
    let e : (pos + 2) % 2 ^ 32 ≡ pos + 2 = omega (arith, at.place, at.inside) in
    rw e (
      bsqrt-suc (pos + 2) d (omega (arith, at.place))
        (omega (arith, at.place, at.inside, pow_suc d)) small)

pub At-left : (pos d i : ℕ) → At pos d i → At (2 * pos + 1) (suc d) (2 * i)
At-left pos d i at = record {
  place = omega (arith, at.place, pow_suc d);
  inside = omega (arith, at.inside, pow_suc d);
}

pub At-right : (pos d i : ℕ) → At pos d i → At (2 * pos + 2) (suc d) (2 * i + 1)
At-right pos d i at = record {
  place = omega (arith, at.place, pow_suc d);
  inside = omega (arith, at.inside, pow_suc d);
}
