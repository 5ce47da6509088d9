-- ===== src/Buddy/Tests.antt =====
-- Runs of the allocator on four kilobytes.
use fgdb.Prelude.{ℕ, ◌+◌, ◌*◌, ◌^◌, ◌<◌, ◌≡◌, refl, inl, some, arith}
use fgdb.Buddy.{
  Buddy, kb, free, used, split, bit_length, bsqrt, level_from_pos, set_tag, buddy_new,
  buddy_ack_memory, buddy_alloc, buddy_free, buddy_merge, climb, descend,
}
use fgdb.Buddy.Alloc.{Took}
use fgdb.Buddy.New.{buddy_new-IsBuddy}
use fgdb.Buddy.Whole.{IsBuddy, buddy_alloc_short}

abbrev four : Buddy
four = record { level = 3; leaves = 7; used_kb = 0; tree = λ pos. free }

buddy_new-four : buddy_new 4 ≡ (4119, 23, four)
unfolding buddy_new bsqrt bit_length
buddy_new-four = refl

four-IsBuddy : IsBuddy four 2
four-IsBuddy = record {
  deep = refl;
  count = refl;
  small = omega arith;
  tree = inl (refl, ((refl, (refl, refl)), (refl, (refl, refl))));
}

alloc_four : (buddy_alloc 2500 four).0 ≡ some 0
unfolding buddy_alloc buddy_ack_memory bsqrt bit_length level_from_pos
alloc_four = refl

abbrev behind : Buddy
behind = record (set_tag (set_tag four 1 used) 0 split) { used_kb = 2 }

alloc_behind : buddy_alloc 2500 four ≡ (some 0, behind)
unfolding buddy_alloc buddy_ack_memory bsqrt bit_length level_from_pos
alloc_behind = refl

buddy_alloc_short_example : (took : Took four behind 2 0 0 (2 ^ 1) 0) × (2 ^ took.k * kb < 2500)
buddy_alloc_short_example =
    buddy_alloc_short four behind 2 2500 0 0 four-IsBuddy refl (omega arith) (omega arith)
      alloc_behind

-- Two halves taken and given back: the right one last leaves the root split.
not_merged :
    (b₁ : Buddy) × ((b₂ : Buddy) × ((buddy_free 0 (buddy_alloc 2048 (buddy_alloc 2048 four).1).1
          ≡ some b₁)
        × ((buddy_free 2048 b₁ ≡ some b₂) × (b₂.tree 0 ≡ split))))
unfolding buddy_alloc buddy_ack_memory buddy_free buddy_merge climb descend bsqrt bit_length
    level_from_pos
not_merged = (_, (_, (refl, (refl, refl))))

-- The size that db_start asks for.
buddy_new-IsBuddy_example :
    (total front : ℕ) × ((b : Buddy) × ((buddy_new 8192 ≡ (total, front, b))
        × (IsBuddy b 13 × (front + 2 ^ 13 * kb ≡ total))))
buddy_new-IsBuddy_example = buddy_new-IsBuddy 8192 12 (omega arith) (omega arith) (omega arith)
