-- ===== src/Buddy/Parts.antt =====
-- A part of a block taken, and `_buddy_ack_memory` as a whole.
use fgdb.Prelude.{
  ℕ, zero, suc, ◌+◌, ◌*◌, ◌/◌, ◌^◌, ◌≤◌, ◌<◌, ◌≡◌, ◌≢◌, refl, sym, ap, ◌∙◌, subst, inl, inr, Option,
  none, some, [], ◌∷◌, ◌++◌, arith, append_assoc, lt→ltb, ltb_of_le, ==_refl, ==_of_ne,
}
use fgdb.Buddy.{Tag, free, split, Buddy, set_tag, or_right, split_block, by_tag, buddy_ack_memory}
use fgdb.Buddy.Levels.{At-left, At-right, pow_suc}
use fgdb.Buddy.Blocks.{
  Under-le, Under-apart, Under-below_left, Under-below_right, blocks, AllFree, IsTree, Room,
  SameUnder, blocks-SameUnder, IsTree-SameUnder, blocks-AllFree, blocks-split, IsTree-AllFree,
}
use fgdb.Buddy.Alloc.{Place, Took, Acks, capasity-Place, inside-Place, below_ne, not-Under}

-- `b₂` is `b₁` with `pos` split.
record Splits (b₁ b₂ : Buddy) (pos : ℕ) : Type 0 where
  here : b₂.tree pos ≡ split
  others : (q : ℕ) → q ≢ pos → b₂.tree q ≡ b₁.tree q
  same_level : b₂.level ≡ b₁.level
  same_leaves : b₂.leaves ≡ b₁.leaves

Splits-set_tag : (b : Buddy) (pos : ℕ) → Splits b (set_tag b pos split) pos
Splits-set_tag b pos = record {
  here = rw (==_refl pos) refl;
  others = λ q ne. rw (==_of_ne q pos ne) refl;
  same_level = refl;
  same_leaves = refl;
}

Splits-self : (b : Buddy) (pos : ℕ) → b.tree pos ≡ split → Splits b b pos
Splits-self b pos e = record {
  here = e;
  others = λ q ne. refl;
  same_level = refl;
  same_leaves = refl;
}

module _ (b b₁ b₂ : Buddy) (h pos start kbytes ptr : ℕ) (splits : Splits b₁ b₂ pos)
    (whole : blocks b.tree (suc h) pos start
      ≡ blocks b.tree h (2 * pos + 1) start ++ blocks b.tree h (2 * pos + 2) (start + 2 ^ h)) where
  -- A block of the left half.
  Took-left :
      Took b b₁ h (2 * pos + 1) start kbytes ptr
      → IsTree b.tree h (2 * pos + 2)
      → Took b b₂ (suc h) pos start kbytes ptr
  Took-left took right =
      let same_left : SameUnder b₁.tree b₂.tree h (2 * pos + 1) =
        λ q u. splits.others q (below_ne h pos (2 * pos + 1) q (omega arith) u) in
      let same_right : SameUnder b.tree b₂.tree h (2 * pos + 2) = λ q u.
        splits.others q (below_ne h pos (2 * pos + 2) q (omega arith) u)
        ∙ took.others q
            (λ v. Under-apart h (2 * pos + 1) (2 * pos + 2) q (omega arith) (omega arith) v u) in
      let right_blocks = blocks b.tree h (2 * pos + 2) (start + 2 ^ h) in
      record {
        o = took.o;
        k = took.k;
        xs = took.xs;
        ys = took.ys ++ right_blocks;
        is_ptr = took.is_ptr;
        enough = took.enough;
        tight = took.tight;
        from = took.from;
        to = omega (arith, took.to, pow_suc h);
        before =
            whole
            ∙ ap (λ bs. bs ++ right_blocks) took.before
            ∙ append_assoc took.xs took.ys right_blocks;
        behind =
            blocks-split b₂.tree h pos start splits.here
            ∙ ap (λ bs. bs ++ blocks b₂.tree h (2 * pos + 2) (start + 2 ^ h))
                (blocks-SameUnder b₁.tree b₂.tree h (2 * pos + 1) start same_left ∙ took.behind)
            ∙ ap (λ bs. (took.xs ++ (took.o, 2 ^ took.k) ∷ took.ys) ++ bs)
                (blocks-SameUnder b.tree b₂.tree h (2 * pos + 2) (start + 2 ^ h) same_right)
            ∙ append_assoc took.xs ((took.o, 2 ^ took.k) ∷ took.ys) right_blocks;
        is_tree = inr (
            inr (
              splits.here,
              (
                IsTree-SameUnder b₁.tree b₂.tree h (2 * pos + 1) same_left took.is_tree,
                IsTree-SameUnder b.tree b₂.tree h (2 * pos + 2) same_right right,
              ),
            ));
        others = λ q out.
            splits.others q (not-Under (suc h) pos q out)
            ∙ took.others q (λ u. out (Under-below_left h pos q u));
        same_level = splits.same_level ∙ took.same_level;
        same_leaves = splits.same_leaves ∙ took.same_leaves;
      }

  -- A block of the right half.
  Took-right :
      Took b b₁ h (2 * pos + 2) (start + 2 ^ h) kbytes ptr
      → IsTree b.tree h (2 * pos + 1)
      → Took b b₂ (suc h) pos start kbytes ptr
  Took-right took left =
      let same_right : SameUnder b₁.tree b₂.tree h (2 * pos + 2) =
        λ q u. splits.others q (below_ne h pos (2 * pos + 2) q (omega arith) u) in
      let same_left : SameUnder b.tree b₂.tree h (2 * pos + 1) = λ q u.
        splits.others q (below_ne h pos (2 * pos + 1) q (omega arith) u)
        ∙ took.others q
            (λ v. Under-apart h (2 * pos + 1) (2 * pos + 2) q (omega arith) (omega arith) u v) in
      let left_blocks = blocks b.tree h (2 * pos + 1) start in
      record {
        o = took.o;
        k = took.k;
        xs = left_blocks ++ took.xs;
        ys = took.ys;
        is_ptr = took.is_ptr;
        enough = took.enough;
        tight = took.tight;
        from = omega (arith, took.from);
        to = omega (arith, took.to, pow_suc h);
        before =
            whole
            ∙ ap (λ bs. left_blocks ++ bs) took.before
            ∙ sym (append_assoc left_blocks took.xs took.ys);
        behind =
            blocks-split b₂.tree h pos start splits.here
            ∙ ap (λ bs. bs ++ blocks b₂.tree h (2 * pos + 2) (start + 2 ^ h))
                (blocks-SameUnder b.tree b₂.tree h (2 * pos + 1) start same_left)
            ∙ ap (λ bs. left_blocks ++ bs)
                (blocks-SameUnder b₁.tree b₂.tree h (2 * pos + 2) (start + 2 ^ h) same_right
                  ∙ took.behind)
            ∙ sym (append_assoc left_blocks took.xs ((took.o, 2 ^ took.k) ∷ took.ys));
        is_tree = inr (
            inr (
              splits.here,
              (
                IsTree-SameUnder b.tree b₂.tree h (2 * pos + 1) same_left left,
                IsTree-SameUnder b₁.tree b₂.tree h (2 * pos + 2) same_right took.is_tree,
              ),
            ));
        others = λ q out.
            splits.others q (not-Under (suc h) pos q out)
            ∙ took.others q (λ u. out (Under-below_right h pos q u));
        same_level = splits.same_level ∙ took.same_level;
        same_leaves = splits.same_leaves ∙ took.same_leaves;
      }

-- The calls for the two halves.
abbrev pub parts : ℕ → ℕ → ℕ → Buddy → Option ℕ × Buddy
parts fuel kbytes pos b =
    or_right (buddy_ack_memory fuel kbytes (2 * pos + 1) b)
      (λ b'. buddy_ack_memory fuel kbytes (2 * pos + 2) b')

module _ {b : Buddy} {pos d i h : ℕ} (place : Place b pos d i h) where
  pub ack_large :
      (fuel kbytes : ℕ) → 2 ^ h < kbytes → buddy_ack_memory (suc fuel) kbytes pos b ≡ (none, b)
  unfolding buddy_ack_memory
  ack_large fuel kbytes lt =
      rw
        (
          ltb_of_le b.leaves pos (inside-Place place),
          capasity-Place place,
          lt→ltb (2 ^ h) kbytes lt,
        )
        refl

  pub ack_fits :
      (fuel kbytes : ℕ)
      → kbytes ≤ 2 ^ h
      → buddy_ack_memory (suc fuel) kbytes pos b
        ≡ by_tag (b.tree pos) (2 ^ h / 2) kbytes pos b (parts fuel kbytes pos b)
  unfolding buddy_ack_memory
  ack_fits fuel kbytes le =
      rw
        (
          ltb_of_le b.leaves pos (inside-Place place),
          capasity-Place place,
          ltb_of_le (2 ^ h) kbytes le,
        )
        refl

pub Place-left :
    (b : Buddy) (pos d i h : ℕ) → Place b pos d i (suc h) → Place b (2 * pos + 1) (suc d) (2 * i) h
Place-left b pos d i h place = record {
  at = At-left pos d i place.at;
  deep = omega (arith, place.deep);
  count = place.count;
  small = place.small;
}

pub Place-right :
    (b : Buddy) (pos d i h : ℕ)
    → Place b pos d i (suc h)
    → Place b (2 * pos + 2) (suc d) (2 * i + 1) h
Place-right b pos d i h place = record {
  at = At-right pos d i place.at;
  deep = omega (arith, place.deep);
  count = place.count;
  small = place.small;
}

pub Room-le : (t : ℕ → Tag) (h pos kbytes : ℕ) → Room t h pos kbytes → kbytes ≤ 2 ^ h
Room-le t zero pos kbytes (f, le) = le
Room-le t (suc h) pos kbytes (inl (f, le)) = le
Room-le t (suc h) pos kbytes (inr (s, (le, rest))) = omega (arith, pow_suc h)

Room-AllFree :
    (t : ℕ → Tag) (h pos kbytes : ℕ) → AllFree t h pos → kbytes ≤ 2 ^ h → Room t h pos kbytes
Room-AllFree t zero pos kbytes f le = (f, le)
Room-AllFree t (suc h) pos kbytes (f, rest) le = inl (f, le)

-- A block that is free, of which a part is taken.
pub split_block-Acks :
    (b : Buddy) (h pos start kbytes : ℕ) (r : Option ℕ × Buddy) (f : Buddy → Option ℕ × Buddy)
    → AllFree b.tree (suc h) pos
    → kbytes ≤ 2 ^ h
    → Acks b h (2 * pos + 1) start kbytes r
    → Acks b (suc h) pos start kbytes (split_block pos (or_right r f))
split_block-Acks b h pos start kbytes (none, b') f (here, (l, r)) le (same, no_room) =
    absurd (no_room (Room-AllFree b.tree h (2 * pos + 1) kbytes l le))
split_block-Acks b h pos start kbytes (some ptr, b') f (here, (l, r)) le took =
    Took-left b b' (set_tag b' pos split) h pos start kbytes ptr (Splits-set_tag b' pos)
      (blocks-AllFree b.tree (suc h) pos start (here, (l, r))
        ∙ ap (λ bs. bs ++ []) (sym (blocks-AllFree b.tree h (2 * pos + 1) start l))
        ∙ ap (λ bs. blocks b.tree h (2 * pos + 1) start ++ bs)
            (sym (blocks-AllFree b.tree h (2 * pos + 2) (start + 2 ^ h) r)))
      took (IsTree-AllFree b.tree h (2 * pos + 2) r)

-- A block that is split.
pub parts-Acks :
    (b : Buddy) (h pos start kbytes : ℕ) (r : Option ℕ × Buddy) (f : Buddy → Option ℕ × Buddy)
    → b.tree pos ≡ split
    → IsTree b.tree h (2 * pos + 1)
    → IsTree b.tree h (2 * pos + 2)
    → Acks b h (2 * pos + 1) start kbytes r
    → Acks b h (2 * pos + 2) (start + 2 ^ h) kbytes (f b)
    → Acks b (suc h) pos start kbytes (or_right r f)
parts-Acks b h pos start kbytes (some ptr, b') f here l r took right =
    Took-left b b' b' h pos start kbytes ptr
      (Splits-self b' pos
        (took.others pos (λ u. absurd (omega (arith, Under-le h (2 * pos + 1) pos u))) ∙ here))
      (blocks-split b.tree h pos start here) took r
parts-Acks b h pos start kbytes (none, b') f here l r (same, no_room) right =
    subst (λ (c : Buddy). Acks b (suc h) pos start kbytes (f c)) (sym same) (by_right (f b) right)
  where
    by_right :
        (s : Option ℕ × Buddy)
        → Acks b h (2 * pos + 2) (start + 2 ^ h) kbytes s
        → Acks b (suc h) pos start kbytes s
    by_right (none, b₁) (same₁, no_room₁) = (
      same₁,
      λ room. elim room [
        | inl (f', le) ↦ absurd (let e : split ≡ free = sym here ∙ f' in cc)
        | inr (s', (le, inl room')) ↦ no_room room'
        | inr (s', (le, inr room')) ↦ no_room₁ room'
      ],
    )
    by_right (some ptr, b₁) took =
        Took-right b b₁ b₁ h pos start kbytes ptr
          (Splits-self b₁ pos
            (took.others pos (λ u. absurd (omega (arith, Under-le h (2 * pos + 2) pos u))) ∙ here))
          (blocks-split b.tree h pos start here) took l
