-- ===== src/Buddy/Blocks.antt =====
-- The blocks in use below a position, in the order of their offsets.
use fgdb.Prelude.{
  ℕ, zero, suc, ◌+◌, ◌*◌, ◌^◌, ◌≤◌, ◌<◌, ◌≡◌, refl, ◌∙◌, ◌⊎◌, inl, inr, List, [], ◌∷◌, ◌++◌, arith,
}
use fgdb.Buddy.{Tag, free, used, split}

-- Position `q` is `pos` or one of the positions below it, for `h` levels.
pub Under : ℕ → ℕ → ℕ → Type 0
Under zero pos q = q ≡ pos
Under (suc h) pos q = (q ≡ pos) ⊎ (Under h (2 * pos + 1) q ⊎ Under h (2 * pos + 2) q)

pub Under-le : (h pos q : ℕ) → Under h pos q → pos ≤ q
unfolding Under
Under-le zero pos q e = omega arith
Under-le (suc h) pos q (inl e) = omega arith
Under-le (suc h) pos q (inr (inl u)) = omega (arith, Under-le h (2 * pos + 1) q u)
Under-le (suc h) pos q (inr (inr u)) = omega (arith, Under-le h (2 * pos + 2) q u)

pub Under-here : (h pos : ℕ) → Under h pos pos
unfolding Under
Under-here zero pos = refl
Under-here (suc h) pos = inl refl

pub Under-below_left : (h pos q : ℕ) → Under h (2 * pos + 1) q → Under (suc h) pos q
unfolding Under
Under-below_left h pos q u = inr (inl u)

pub Under-below_right : (h pos q : ℕ) → Under h (2 * pos + 2) q → Under (suc h) pos q
unfolding Under
Under-below_right h pos q u = inr (inr u)

-- Nothing is under two positions of one level.
pub Under-apart : (h a b q : ℕ) → a < b → b ≤ 2 * a → Under h a q → Under h b q → ⊥
unfolding Under
Under-apart zero a b q lt le e e' = absurd (omega arith)
Under-apart (suc h) a b q lt le (inl e) u = absurd (omega (arith, Under-le (suc h) b q u))
Under-apart (suc h) a b q lt le (inr (inl u)) (inl e) =
    absurd (omega (arith, Under-le h (2 * a + 1) q u))
Under-apart (suc h) a b q lt le (inr (inr u)) (inl e) =
    absurd (omega (arith, Under-le h (2 * a + 2) q u))
Under-apart (suc h) a b q lt le (inr (inl u)) (inr (inl v)) =
    Under-apart h (2 * a + 1) (2 * b + 1) q (omega arith) (omega arith) u v
Under-apart (suc h) a b q lt le (inr (inl u)) (inr (inr v)) =
    Under-apart h (2 * a + 1) (2 * b + 2) q (omega arith) (omega arith) u v
Under-apart (suc h) a b q lt le (inr (inr u)) (inr (inl v)) =
    Under-apart h (2 * a + 2) (2 * b + 1) q (omega arith) (omega arith) u v
Under-apart (suc h) a b q lt le (inr (inr u)) (inr (inr v)) =
    Under-apart h (2 * a + 2) (2 * b + 2) q (omega arith) (omega arith) u v

abbrev pub join : Tag → ℕ × ℕ → List (ℕ × ℕ) → List (ℕ × ℕ) → List (ℕ × ℕ)
join free block left right = []
join used block left right = block ∷ []
join split block left right = left ++ right

-- Offset and size, in kilobytes, of the blocks in use under `pos`, whose memory starts at `start`.
unfoldable pub blocks : (ℕ → Tag) → ℕ → ℕ → ℕ → List (ℕ × ℕ)
blocks t zero pos start = join (t pos) (start, 1) [] []
blocks t (suc h) pos start =
    join (t pos) (start, 2 ^ suc h) (blocks t h (2 * pos + 1) start)
      (blocks t h (2 * pos + 2) (start + 2 ^ h))

abbrev pub AllFree : (ℕ → Tag) → ℕ → ℕ → Type 0
AllFree t zero pos = t pos ≡ free
AllFree t (suc h) pos = (t pos ≡ free) × (AllFree t h (2 * pos + 1) × AllFree t h (2 * pos + 2))

-- Nothing is marked under a block that is free or in use, and the lowest blocks are not split.
abbrev pub IsTree : (ℕ → Tag) → ℕ → ℕ → Type 0
IsTree t zero pos = (t pos ≡ free) ⊎ (t pos ≡ used)
IsTree t (suc h) pos =
    AllFree t (suc h) pos
    ⊎ (((t pos ≡ used) × (AllFree t h (2 * pos + 1) × AllFree t h (2 * pos + 2)))
        ⊎ ((t pos ≡ split) × (IsTree t h (2 * pos + 1) × IsTree t h (2 * pos + 2))))

-- There is a free block that is large enough.
abbrev pub Room : (ℕ → Tag) → ℕ → ℕ → ℕ → Type 0
Room t zero pos kbytes = (t pos ≡ free) × (kbytes ≤ 1)
Room t (suc h) pos kbytes =
    ((t pos ≡ free) × (kbytes ≤ 2 ^ suc h))
    ⊎ ((t pos ≡ split)
        × ((kbytes ≤ 2 ^ h) × (Room t h (2 * pos + 1) kbytes ⊎ Room t h (2 * pos + 2) kbytes)))

-- Both trees have the same marks under `pos`.
abbrev pub SameUnder : (ℕ → Tag) → (ℕ → Tag) → ℕ → ℕ → Type 0
SameUnder t t' h pos = (q : ℕ) → Under h pos q → t' q ≡ t q

module _ (t t' : ℕ → Tag) where
  pub SameUnder-left : (h pos : ℕ) → SameUnder t t' (suc h) pos → SameUnder t t' h (2 * pos + 1)
  unfolding Under
  SameUnder-left h pos same q u = same q (inr (inl u))

  pub SameUnder-right : (h pos : ℕ) → SameUnder t t' (suc h) pos → SameUnder t t' h (2 * pos + 2)
  unfolding Under
  SameUnder-right h pos same q u = same q (inr (inr u))

  pub SameUnder-here : (h pos : ℕ) → SameUnder t t' h pos → t' pos ≡ t pos
  unfolding Under
  SameUnder-here zero pos same = same pos refl
  SameUnder-here (suc h) pos same = same pos (inl refl)

  pub blocks-SameUnder :
      (h pos start : ℕ) → SameUnder t t' h pos → blocks t' h pos start ≡ blocks t h pos start
  unfolding blocks
  blocks-SameUnder zero pos start same = rw (SameUnder-here zero pos same, blocks) refl
  blocks-SameUnder (suc h) pos start same =
      rw
        (
          SameUnder-here (suc h) pos same,
          blocks-SameUnder h (2 * pos + 1) start (SameUnder-left h pos same),
          blocks-SameUnder h (2 * pos + 2) (start + 2 ^ h) (SameUnder-right h pos same),
          blocks,
        )
        refl

  pub AllFree-SameUnder : (h pos : ℕ) → SameUnder t t' h pos → AllFree t h pos → AllFree t' h pos
  AllFree-SameUnder zero pos same f = SameUnder-here zero pos same ∙ f
  AllFree-SameUnder (suc h) pos same (f, (l, r)) = (
    SameUnder-here (suc h) pos same ∙ f,
    (
      AllFree-SameUnder h (2 * pos + 1) (SameUnder-left h pos same) l,
      AllFree-SameUnder h (2 * pos + 2) (SameUnder-right h pos same) r,
    ),
  )

  pub IsTree-SameUnder : (h pos : ℕ) → SameUnder t t' h pos → IsTree t h pos → IsTree t' h pos
  IsTree-SameUnder zero pos same (inl f) = inl (SameUnder-here zero pos same ∙ f)
  IsTree-SameUnder zero pos same (inr u) = inr (SameUnder-here zero pos same ∙ u)
  IsTree-SameUnder (suc h) pos same (inl f) = inl (AllFree-SameUnder (suc h) pos same f)
  IsTree-SameUnder (suc h) pos same (inr (inl (u, (l, r)))) = inr (
      inl (
        SameUnder-here (suc h) pos same ∙ u,
        (
          AllFree-SameUnder h (2 * pos + 1) (SameUnder-left h pos same) l,
          AllFree-SameUnder h (2 * pos + 2) (SameUnder-right h pos same) r,
        ),
      ))
  IsTree-SameUnder (suc h) pos same (inr (inr (s, (l, r)))) = inr (
      inr (
        SameUnder-here (suc h) pos same ∙ s,
        (
          IsTree-SameUnder h (2 * pos + 1) (SameUnder-left h pos same) l,
          IsTree-SameUnder h (2 * pos + 2) (SameUnder-right h pos same) r,
        ),
      ))

pub blocks-AllFree : (t : ℕ → Tag) (h pos start : ℕ) → AllFree t h pos → blocks t h pos start ≡ []
unfolding blocks
blocks-AllFree t zero pos start f = rw (f, blocks) refl
blocks-AllFree t (suc h) pos start (f, rest) = rw (f, blocks) refl

pub IsTree-AllFree : (t : ℕ → Tag) (h pos : ℕ) → AllFree t h pos → IsTree t h pos
IsTree-AllFree t zero pos f = inl f
IsTree-AllFree t (suc h) pos f = inl f

pub blocks-used :
    (t : ℕ → Tag) (h pos start : ℕ) → t pos ≡ used → blocks t h pos start ≡ (start, 2 ^ h) ∷ []
unfolding blocks
blocks-used t zero pos start u = rw (u, blocks) refl
blocks-used t (suc h) pos start u = rw (u, blocks) refl

pub blocks-split :
    (t : ℕ → Tag) (h pos start : ℕ)
    → t pos ≡ split
    → blocks t (suc h) pos start
      ≡ blocks t h (2 * pos + 1) start ++ blocks t h (2 * pos + 2) (start + 2 ^ h)
unfolding blocks
blocks-split t h pos start s = rw (s, blocks) refl
