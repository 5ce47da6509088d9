-- ===== src/Memory/Laws.antt =====
-- What a block holds before and behind a write.
use fgdb.Prelude.{
  ℕ, ◌+◌, ◌-◌, ◌≤◌, ◌≡◌, refl, sym, ap, ◌∙◌, subst, some, List, ◌++◌, arith, length, take, drop,
  replicate, leb_of_le, length-append, length-take, length-drop, length-replicate, take-append,
  drop-append, take-add, drop-drop,
}
use fgdb.OsFile.{File, write_bytes}
use fgdb.OsFile.Writes.{take-write_bytes, take-write_bytes_before, drop-write_bytes_behind}
use fgdb.Memory.{peek, poke, poke_read, memmove, clear}

-- The bytes stand at `p`.
pub record Holds (mem : List ℕ) (p : ℕ) (bytes : List ℕ) : Type 0 where
  pub within : p + length bytes ≤ length mem
  pub there : take (length bytes) (drop p mem) ≡ bytes

-- The `n` bytes at `p` are the same in both blocks.
abbrev pub Same : List ℕ → List ℕ → ℕ → ℕ → Type 0
Same mem mem' p n = take n (drop p mem') ≡ take n (drop p mem)

-- `mem'` is `mem` with `n` bytes at `p` written.
pub record Changes (mem mem' : List ℕ) (p n : ℕ) : Type 0 where
  pub size : length mem' ≡ length mem
  pub before : (q m : ℕ) → q + m ≤ p → Same mem mem' q m
  pub behind : (q m : ℕ) → p + n ≤ q → Same mem mem' q m

pub peek-Holds :
    (mem : List ℕ) (p n : ℕ) (bytes : List ℕ)
    → Holds mem p bytes
    → length bytes ≡ n
    → peek mem p n ≡ some bytes
unfolding peek
peek-Holds mem p n bytes h e =
    rw (← e, leb_of_le (p + length bytes) (length mem) h.within) (ap some h.there)

pub Holds-Same :
    (mem mem' : List ℕ) (p : ℕ) (bytes : List ℕ)
    → Holds mem p bytes
    → length mem' ≡ length mem
    → Same mem mem' p (length bytes)
    → Holds mem' p bytes
Holds-Same mem mem' p bytes h size same = record {
  within = omega (arith, h.within);
  there = same ∙ h.there;
}

-- Bytes in two parts.
pub Holds-append :
    (mem : List ℕ) (p : ℕ) (xs ys : List ℕ)
    → Holds mem p (xs ++ ys)
    → Holds mem p xs × Holds mem (p + length xs) ys
Holds-append mem p xs ys h =
    let len : length (xs ++ ys) ≡ length xs + length ys = length-append xs ys in
    let both : take (length xs) (drop p mem) ++ take (length ys) (drop (length xs) (drop p mem))
        ≡ xs ++ ys =
      take-add (length xs) (length ys) (length (xs ++ ys)) (drop p mem) (sym len) ∙ h.there in
    let first : length (take (length xs) (drop p mem)) ≡ length xs =
      omega (arith, length-take (length xs) (drop p mem), length-drop p mem, h.within) in
    (
      record {
        within = omega (arith, h.within);
        there =
            sym (take-append (length xs) _ (take (length ys) (drop (length xs) (drop p mem))) first)
            ∙ ap (take (length xs)) both
            ∙ take-append (length xs) xs ys refl;
      },
      record {
        within = omega (arith, h.within);
        there =
            ap (take (length ys)) (sym (drop-drop (length xs) p (p + length xs) mem (omega arith)))
            ∙ sym
                (drop-append (length xs) _ (take (length ys) (drop (length xs) (drop p mem))) first)
            ∙ ap (drop (length xs)) both
            ∙ drop-append (length xs) xs ys refl;
      },
    )

-- A write inside the block succeeds, stands there, and changes nothing else.
pub poke-Holds :
    (mem : List ℕ) (p : ℕ) (bytes : List ℕ)
    → p + length bytes ≤ length mem
    → (mem' : List ℕ) × ((poke mem p bytes ≡ some mem')
        × (Holds mem' p bytes × Changes mem mem' p (length bytes)))
unfolding poke
poke-Holds mem p bytes h =
    let f : File = record { bytes = mem; pos = p } in
    let mem' : List ℕ = take p mem ++ (bytes ++ drop (p + length bytes) mem) in
    let gap : p - length mem ≡ 0 = omega arith in
    let is : (write_bytes bytes f).bytes ≡ mem' = rw gap refl in
    (
      mem',
      (
        rw (leb_of_le (p + length bytes) (length mem) h) refl,
        (
          record {
            within = rw (length-poke mem p bytes h) h;
            there = ap (λ m. take (length bytes) (drop p m)) (sym is) ∙ take-write_bytes bytes f;
          },
          record {
            size = length-poke mem p bytes h;
            before = λ q m le.
                ap (λ x. take m (drop q x)) (sym is)
                ∙ take-write_bytes_before bytes f q m le (omega arith);
            behind = λ q m le.
                ap (λ x. take m (drop q x)) (sym is)
                ∙ ap (take m) (drop-write_bytes_behind bytes f q le);
          },
        ),
      ),
    )
  where
    length-poke :
        (mem : List ℕ) (p : ℕ) (bytes : List ℕ)
        → p + length bytes ≤ length mem
        → length (take p mem ++ (bytes ++ drop (p + length bytes) mem)) ≡ length mem
    length-poke mem p bytes h = omega (
      arith,
      length-append (take p mem) (bytes ++ drop (p + length bytes) mem),
      length-append bytes (drop (p + length bytes) mem),
      length-take p mem,
      length-drop (p + length bytes) mem,
    )

-- A move of bytes that the block holds.
pub memmove-Holds :
    (mem : List ℕ) (p q n : ℕ) (bytes : List ℕ)
    → Holds mem q bytes
    → length bytes ≡ n
    → p + n ≤ length mem
    → (mem' : List ℕ) × ((memmove mem p q n ≡ some mem')
        × (Holds mem' p bytes × Changes mem mem' p n))
unfolding memmove
memmove-Holds mem p q n bytes h e fits =
    let (mem', (moved, (there, changes))) = poke-Holds mem p bytes (omega arith) in
    (
      mem',
      (
        ap (poke_read mem p) (peek-Holds mem q n bytes h e) ∙ moved,
        (there, subst (λ (k : ℕ). Changes mem mem' p k) e changes),
      ),
    )

pub clear-Changes :
    (mem : List ℕ) (p n : ℕ)
    → p + n ≤ length mem
    → (mem' : List ℕ) × ((clear mem p n ≡ some mem') × Changes mem mem' p n)
unfolding clear
clear-Changes mem p n h =
    let e : length (replicate {A = ℕ} n 0) ≡ n = length-replicate {A = ℕ} n 0 in
    let (mem', (cleared, (there, changes))) = poke-Holds mem p (replicate n 0) (omega arith) in
    (mem', (cleared, subst (λ (k : ℕ). Changes mem mem' p k) e changes))

-- The two parts of bytes, one behind the other.
pub Holds-join :
    (mem : List ℕ) (p q : ℕ) (xs ys : List ℕ)
    → p + length xs ≡ q
    → Holds mem p xs
    → Holds mem q ys
    → Holds mem p (xs ++ ys)
Holds-join mem p q xs ys e hx hy =
    let len : length (xs ++ ys) ≡ length xs + length ys = length-append xs ys in
    record {
      within = omega (arith, hy.within);
      there =
          sym (take-add (length xs) (length ys) (length (xs ++ ys)) (drop p mem) (sym len))
          ∙ ap (λ t. t ++ take (length ys) (drop (length xs) (drop p mem))) hx.there
          ∙ ap (λ t. xs ++ take (length ys) t) (drop-drop (length xs) p q mem (omega arith))
          ∙ ap (λ t. xs ++ t) hy.there;
    }

-- Two changes within `n` bytes at `p`.
pub Changes-trans :
    (mem mem₁ mem₂ : List ℕ) (p n q m r k : ℕ)
    → p ≤ q
    → q + m ≤ p + n
    → p ≤ r
    → r + k ≤ p + n
    → Changes mem mem₁ q m
    → Changes mem₁ mem₂ r k
    → Changes mem mem₂ p n
Changes-trans mem mem₁ mem₂ p n q m r k hq hq' hr hr' c d = record {
  size = d.size ∙ c.size;
  before = λ x y le. d.before x y (omega arith) ∙ c.before x y (omega arith);
  behind = λ x y le. d.behind x y (omega arith) ∙ c.behind x y (omega arith);
}
