-- ===== src/Buddy/Alloc.antt =====
-- `_buddy_ack_memory` on a tree: it takes one free block that is large enough, if there is one.
use fgdb.Prelude.{
  ℕ, zero, suc, ◌+◌, ◌-◌, ◌*◌, ◌%◌, ◌^◌, ◌≤◌, ◌<◌, ◌≡◌, ◌≢◌, refl, sym, ◌∙◌, subst, inl, inr,
  Option, none, some, List, [], ◌∷◌, ◌++◌, arith, ◌==◌, if◌then◌else◌, ==_refl, ==_of_ne, lt→ltb,
}
use native.Mathlib.Nat.{add-mod_left, mod-eq_of_lt, pow-le-pow_right}
use fgdb.Buddy.{
  Tag, used, Buddy, kb, shifted, int_kb, level_from_pos, capasity_from_pos, take_block,
}
use fgdb.Buddy.Levels.{At, pow_suc, pow_le, level_from_pos-At}
use fgdb.Buddy.Blocks.{
  Under, Under-le, Under-here, blocks-used, blocks, AllFree, IsTree, Room, SameUnder,
  AllFree-SameUnder, blocks-AllFree,
}

-- `pos` is number `i` at depth `d`, with `h` levels below it.
pub record Place (b : Buddy) (pos d i h : ℕ) : Type 0 where
  pub at : At pos d i
  pub deep : b.level ≡ suc (d + h)
  pub count : b.leaves + 1 ≡ 2 ^ b.level
  pub small : b.level ≤ 21

-- What one call does under `pos`, whose memory starts at `start`.
pub record Took (b b' : Buddy) (h pos start kbytes ptr : ℕ) : Type 0 where
  pub o : ℕ
  pub k : ℕ
  pub xs : List (ℕ × ℕ)
  pub ys : List (ℕ × ℕ)
  pub is_ptr : ptr ≡ o * kb
  pub enough : kbytes ≤ 2 ^ k
  pub tight : 2 ^ k < 2 * kbytes
  pub from : start ≤ o
  pub to : o + 2 ^ k ≤ start + 2 ^ h
  pub before : blocks b.tree h pos start ≡ xs ++ ys
  pub behind : blocks b'.tree h pos start ≡ xs ++ (o, 2 ^ k) ∷ ys
  pub is_tree : IsTree b'.tree h pos
  pub others : (q : ℕ) → (Under h pos q → ⊥) → b'.tree q ≡ b.tree q
  pub same_level : b'.level ≡ b.level
  pub same_leaves : b'.leaves ≡ b.leaves

abbrev pub Acks : Buddy → ℕ → ℕ → ℕ → ℕ → Option ℕ × Buddy → Type 0
Acks b h pos start kbytes (none, b') = (b' ≡ b) × (Room b.tree h pos kbytes → ⊥)
Acks b h pos start kbytes (some ptr, b') = Took b b' h pos start kbytes ptr

-- Up to a gigabyte the product does not wrap.
int_kb_small : (h : ℕ) → h ≤ 20 → int_kb (2 ^ h * kb % 2 ^ 32) ≡ 2 ^ h
int_kb_small h le =
    let up : 2 ^ h ≤ 2 ^ 20 = pow_le h 20 le in
    let w : 2 ^ h * kb % 2 ^ 32 ≡ 2 ^ h * kb = omega arith in
    rw (w, lt→ltb (2 ^ h * kb) (2 ^ 31) (omega arith)) (omega arith)

module _ {b : Buddy} {pos d i h : ℕ} (place : Place b pos d i h) where
  pub level-Place : level_from_pos pos ≡ suc d
  level-Place = level_from_pos-At pos d i place.at (omega (arith, place.deep, place.small))

  pub capasity-Place : capasity_from_pos b pos ≡ 2 ^ h
  capasity-Place =
      let e : (b.level + 2 ^ 32 - level_from_pos pos) % 2 ^ 32 % 32 ≡ h =
        omega (arith, place.deep, place.small, level-Place) in
      rw e (int_kb_small h (omega (arith, place.deep, place.small)))

  offset-Place : (pos + 1) % 2 ^ 32 % shifted (level_from_pos pos + 31) ≡ i
  offset-Place =
      let e : (level_from_pos pos + 31) % 32 ≡ d =
        omega (arith, level-Place, place.deep, place.small) in
      let up : 2 ^ d ≤ 2 ^ 20 = pow_le d 20 (omega (arith, place.deep, place.small)) in
      let w : (pos + 1) % 2 ^ 32 ≡ pos + 1 = omega (arith, place.at.place, place.at.inside) in
      rw (w, e, place.at.place) (add-mod_left (2 ^ d) i ∙ mod-eq_of_lt place.at.inside)

  pub inside-Place : pos ≤ b.leaves
  inside-Place =
      let le : 2 ^ suc d ≤ 2 ^ b.level =
        pow-le-pow_right {n = 2} (omega arith) (omega (arith, place.deep)) in
      omega (arith, place.at.place, place.at.inside, place.count, pow_suc d)

-- Nothing under a child is the position itself.
pub below_ne : (h pos c q : ℕ) → pos < c → Under h c q → q ≢ pos
below_ne h pos c q lt u e = absurd (omega (arith, Under-le h c q u))

pub not-Under : (h pos q : ℕ) → (Under h pos q → ⊥) → q ≢ pos
not-Under h pos q out e = out (subst (λ (x : ℕ). Under h pos x) (sym e) (Under-here h pos))

-- A free block that is taken as a whole.
module _ {b : Buddy} {pos d i h : ℕ} (place : Place b pos d i h) where
  marked : ℕ → Tag
  marked q = if q == pos then used else b.tree q

  marked-below : (h' c : ℕ) → pos < c → SameUnder b.tree marked h' c
  unfolding marked
  marked-below h' c lt q u = rw (==_of_ne q pos (below_ne h' pos c q lt u)) refl

  marked-IsTree : (h' : ℕ) → AllFree b.tree h' pos → IsTree marked h' pos
  unfolding marked
  marked-IsTree zero f = inr (rw (==_refl pos) refl)
  marked-IsTree (suc h') (f, (l, r)) = inr (
      inl (
        rw (==_refl pos) refl,
        (
          AllFree-SameUnder b.tree marked h' (2 * pos + 1)
              (marked-below h' (2 * pos + 1) (omega arith)) l,
          AllFree-SameUnder b.tree marked h' (2 * pos + 2)
              (marked-below h' (2 * pos + 2) (omega arith)) r,
        ),
      ))

  pub take_block-Acks :
      (start kbytes : ℕ)
      → start ≡ i * 2 ^ h
      → start + 2 ^ h ≤ 2 ^ 20
      → AllFree b.tree h pos
      → kbytes ≤ 2 ^ h
      → 2 ^ h < 2 * kbytes
      → Acks b h pos start kbytes (take_block pos b)
  unfolding marked
  take_block-Acks start kbytes is_start room all enough tight = record {
    o = start;
    k = h;
    xs = [];
    ys = [];
    is_ptr =
        rw (offset-Place place, capasity-Place place, ← is_start)
          (let w : start * kb % 2 ^ 32 ≡ start * kb = omega arith in w);
    enough = enough;
    tight = tight;
    from = omega arith;
    to = omega arith;
    before = blocks-AllFree b.tree h pos start all;
    behind = blocks-used marked h pos start (rw (==_refl pos) refl);
    is_tree = marked-IsTree h all;
    others = λ q out. rw (==_of_ne q pos (not-Under h pos q out)) refl;
    same_level = refl;
    same_leaves = refl;
  }
