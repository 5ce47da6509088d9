-- ===== src/HashMap/Avl/Moves.antt =====
-- Stored hights, and what each of the four moves does to them.
use fgdb.Prelude.{
  ℕ, suc, ◌+◌, ◌≤◌, ◌≡◌, ◌≢◌, refl, max, Option, none, some, arith, Bool, true, false,
}
use fgdb.Prelude.Int.{pos, negsuc, sub_ℕ, eq_ℤ}
use fgdb.HashMap.Avl.{
  Avl, leaf, node, get_hight, left_of, right_of, avl_calc_balance, right_move, left_move, lr_move,
  rl_move, avl_rebalance, with_result,
}

pub eq_pos : (a b n : ℕ) → eq_ℤ (sub_ℕ a b) (pos n) ≡ true → a ≡ b + n
eq_pos a b n h = ground arith

pub ne_pos : (a b n : ℕ) → eq_ℤ (sub_ℕ a b) (pos n) ≡ false → a ≢ b + n
ne_pos a b n h = ground arith

pub pos_of_eq : (a b n : ℕ) → a ≡ b + n → eq_ℤ (sub_ℕ a b) (pos n) ≡ true
pos_of_eq a b n h = ground arith

pub pos_of_ne : (a b n : ℕ) → a ≢ b + n → eq_ℤ (sub_ℕ a b) (pos n) ≡ false
pos_of_ne a b n h = ground arith

pub eq_negsuc : (a b n : ℕ) → eq_ℤ (sub_ℕ a b) (negsuc n) ≡ true → b ≡ a + suc n
eq_negsuc a b n h = ground arith

pub negsuc_of_ne : (a b n : ℕ) → b ≢ a + suc n → eq_ℤ (sub_ℕ a b) (negsuc n) ≡ false
negsuc_of_ne a b n h = ground arith

pub negsuc_of_eq : (a b n : ℕ) → b ≡ a + suc n → eq_ℤ (sub_ℕ a b) (negsuc n) ≡ true
negsuc_of_eq a b n h = ground arith

module _ {K M : Type 0} where
  -- Every stored hight is the hight of its node.
  abbrev pub IsHigh : Avl K M → Type 0
  IsHigh leaf = Unit
  IsHigh (node k m l r h) = (h ≡ max (get_hight l) (get_hight r) + 1) × IsHigh l × IsHigh r

  -- Hights of siblings differ by at most `n`.
  abbrev pub Near : ℕ → Avl K M → Type 0
  Near n leaf = Unit
  Near n (node k m l r h) = (get_hight l ≤ get_hight r + n) × (get_hight r ≤ get_hight l + n)

  abbrev pub IsBalanced : Avl K M → Type 0
  IsBalanced leaf = Unit
  IsBalanced (node k m l r h) = Near 1 (node k m l r h) × IsBalanced l × IsBalanced r

  -- A result that is a tree with right hights, not lower than `h` and at most one higher, whose
  -- children differ by at most two.
  abbrev pub Grown : ℕ → Option (Avl K M × Bool) → Type 0
  Grown h none = ⊥
  Grown h (some (t, inserted)) = IsHigh t × (h ≤ get_hight t) × (get_hight t ≤ h + 1) × Near 2 t

  pub balance_lem :
      (t : Avl K M) → avl_calc_balance t ≡ sub_ℕ (get_hight (right_of t)) (get_hight (left_of t))
  balance_lem leaf = refl
  balance_lem (node k m l r h) = refl

  -- No move is made unless the hights differ by two.
  pub avl_rebalance_even :
      (k : K) (m : M) (l r : Avl K M) (h : ℕ)
      → get_hight r ≢ get_hight l + 2
      → get_hight l ≢ get_hight r + 2
      → avl_rebalance (node k m l r h) ≡ some (node k m l r h)
  unfolding avl_rebalance
  avl_rebalance_even k m l r h p q =
      rw (pos_of_ne (get_hight r) (get_hight l) 2 p, negsuc_of_ne (get_hight r) (get_hight l) 1 q)
        refl

  pub left_move-Grown :
      (k : K) (m : M) (l r : Avl K M) (h n : ℕ)
      → IsHigh l
      → IsHigh r
      → get_hight r ≡ get_hight l + 2
      → get_hight (right_of r) ≡ get_hight (left_of r) + 1
      → n ≡ get_hight l + 2
      → Grown n (with_result (left_move (node k m l r h)))
  unfolding left_move
  left_move-Grown k m l leaf h n hl hr e f g = absurd (omega arith)
  left_move-Grown k m l (node k' m' l' r' h') h n hl (er, hl', hr') e f g =
      ((refl, (refl, hl, hl'), hr'), omega arith, omega arith, omega arith)

  pub rl_move-Grown :
      (k : K) (m : M) (l r : Avl K M) (h n : ℕ)
      → IsHigh l
      → IsHigh r
      → Near 2 r
      → get_hight r ≡ get_hight l + 2
      → get_hight (left_of l) ≡ get_hight (right_of l) + 1
      → n ≡ get_hight l + 2
      → Grown n (with_result (rl_move (node k m l r h)))
  unfolding rl_move right_move left_move
  rl_move-Grown k m leaf r h n hl hr near e f g = absurd (omega arith)
  rl_move-Grown k m (node k₁ m₁ l₁ r₁ h₁) leaf h n hl hr near e f g = absurd (omega arith)
  rl_move-Grown k m (node k₁ m₁ l₁ r₁ h₁) (node k' m' leaf r' h') h n hl hr near e f g =
      absurd (omega arith)
  rl_move-Grown k m (node k₁ m₁ l₁ r₁ h₁) (node k' m' (node k₂ m₂ l₂ r₂ h₂) r' h') h n hl hr near e
        f g =
      (
        (refl, (refl, hl, hr.1.1), (refl, hr.1.2, hr.2)),
        omega (arith, hl.0, hr.0, hr.1.0),
        omega (arith, hl.0, hr.0, hr.1.0),
        omega (arith, hl.0, hr.0, hr.1.0),
      )

  pub right_move-Grown :
      (k : K) (m : M) (l r : Avl K M) (h n : ℕ)
      → IsHigh l
      → IsHigh r
      → get_hight l ≡ get_hight r + 2
      → get_hight (left_of l) ≡ get_hight (right_of l) + 1
      → n ≡ get_hight r + 2
      → Grown n (with_result (right_move (node k m l r h)))
  unfolding right_move
  right_move-Grown k m leaf r h n hl hr e f g = absurd (omega arith)
  right_move-Grown k m (node k' m' l' r' h') r h n (el, hl', hr') hr e f g =
      ((refl, hl', (refl, hr', hr)), omega arith, omega arith, omega arith)

  pub lr_move-Grown :
      (k : K) (m : M) (l r : Avl K M) (h n : ℕ)
      → IsHigh l
      → IsHigh r
      → get_hight l ≡ get_hight r + 2
      → get_hight (right_of l) ≡ get_hight (left_of l) + 1
      → n ≡ get_hight r + 2
      → Grown n (with_result (lr_move (node k m l r h)))
  unfolding lr_move right_move left_move
  lr_move-Grown k m leaf r h n hl hr e f g = absurd (omega arith)
  lr_move-Grown k m (node k' m' l' leaf h') r h n hl hr e f g = absurd (omega arith)
  lr_move-Grown k m (node k' m' l' (node k₂ m₂ l₂ r₂ h₂) h') r h n hl hr e f g = (
    (refl, (refl, hl.1, hl.2.1), (refl, hl.2.2, hr)),
    omega (arith, hl.0, hl.2.0),
    omega (arith, hl.0, hl.2.0),
    omega (arith, hl.0, hl.2.0),
  )
