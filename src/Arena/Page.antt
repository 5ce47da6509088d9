-- ===== src/Arena/Page.antt =====
-- The values of a page, and what `arena_defragmentate_page` makes of them.
pub mod Moves
pub mod Defragment
use fgdb.Prelude.{
  ℕ, ◌+◌, ◌-◌, ◌%◌, ◌^◌, ◌≤◌, ◌<◌, ◌≡◌, refl, sym, ap, ◌∙◌, subst, ◌⊎◌, inl, inr, List, [], ◌∷◌,
  ◌++◌, arith, length, length-append, map, take, drop,
}
use fgdb.Prelude.Bytes.{le_bytes, length-le_bytes, of_le_bytes, of_le_bytes-le_bytes}
use fgdb.Memory.{peek, memmove}
use fgdb.Memory.Laws.{Holds, Same, Changes, peek-Holds, Holds-Same, Holds-append, memmove-Holds}
use fgdb.Arena.{HeaderKey, Result, returned, ◌>>=◌, access, read_size, move_values}

-- A `val_t` with the bytes `v`.
abbrev pub image : List ℕ → List ℕ
image v = le_bytes 2 (length v) ++ v

pub length-image : (v : List ℕ) → length (image v) ≡ length v + 2
length-image v =
    omega (arith, length-append (le_bytes 2 (length v)) v, length-le_bytes 2 (length v))

pub read_size-Holds :
    (mem : List ℕ) (p : ℕ) (v : List ℕ)
    → Holds mem p (image v)
    → length v < 2 ^ 16
    → read_size mem p ≡ returned (length v)
read_size-Holds mem p v h fits =
    let size = (Holds-append mem p (le_bytes 2 (length v)) v h).0 in
    rw (peek-Holds mem p 2 (le_bytes 2 (length v)) size (length-le_bytes 2 (length v)))
      (ap returned (of_le_bytes-le_bytes 2 (length v) fits))

module _ (mem : List ℕ) (start limit : ℕ) where
  -- The page at `start` holds the values at the offsets of the keys, one behind the other from `base`
  -- on and before `limit`, with gaps or without.
  unfoldable pub Laid : ℕ → List HeaderKey → List (List ℕ) → Type 0
  Laid base [] [] = base ≤ limit
  Laid base (k ∷ keys) (v ∷ values) =
      (base ≤ k.offset)
      × Holds mem (start + k.offset) (image v)
      × (length v < 2 ^ 16)
      × Laid (k.offset + (length v + 2)) keys values
  Laid base _ _ = ⊥

pub Laid-limit :
    (mem : List ℕ) (start limit base : ℕ) (keys : List HeaderKey) (values : List (List ℕ))
    → Laid mem start limit base keys values
    → base ≤ limit
unfolding Laid
Laid-limit mem start limit base [] [] h = h
Laid-limit mem start limit base (k ∷ keys) (v ∷ values) (le, holds, fits, rest) =
    omega (arith, Laid-limit mem start limit (k.offset + (length v + 2)) keys values rest)
Laid-limit mem start limit base [] (v ∷ values) h = elim h [ ]
Laid-limit mem start limit base (k ∷ keys) [] h = elim h [ ]

-- Where memory is the same from `base` up to `limit`, the values stand there still.
pub Laid-Same :
    (mem mem' : List ℕ) (start limit base : ℕ) (keys : List HeaderKey) (values : List (List ℕ))
    → length mem' ≡ length mem
    → ((q m : ℕ) → start + base ≤ q → q + m ≤ start + limit → Same mem mem' q m)
    → Laid mem start limit base keys values
    → Laid mem' start limit base keys values
unfolding Laid
Laid-Same mem mem' start limit base [] [] size same h = h
Laid-Same mem mem' start limit base (k ∷ keys) (v ∷ values) size same (le, holds, fits, rest) =
    let end : k.offset + (length v + 2) ≤ limit = Laid-limit mem start limit _ keys values rest in
    (
      le,
      Holds-Same mem mem' (start + k.offset) (image v) holds size (
          same (start + k.offset) (length (image v)) (omega arith) (omega (arith, length-image v))),
      fits,
      Laid-Same mem mem' start limit (k.offset + (length v + 2)) keys values size
          (λ q m from to. same q m (omega arith) to) rest,
    )
Laid-Same mem mem' start limit base [] (v ∷ values) size same h = elim h [ ]
Laid-Same mem mem' start limit base (k ∷ keys) [] size same h = elim h [ ]

-- The bytes that the values take, packed.
abbrev pub total_size : List (List ℕ) → ℕ
total_size [] = 0
total_size (v ∷ values) = (length v + 2) + total_size values

-- Packed from `offset` on, every value is moved onto its own place or onto bytes before it.
abbrev pub Apart : ℕ → List HeaderKey → List (List ℕ) → Type 0
Apart offset (k ∷ keys) (v ∷ values) =
    ((offset ≡ k.offset) ⊎ (offset + (length v + 2) ≤ k.offset))
    × Apart (offset + (length v + 2)) keys values
Apart offset _ _ = Unit

-- The keys with the offsets of packed values.
abbrev pub packed : ℕ → List HeaderKey → List (List ℕ) → List HeaderKey
packed offset (k ∷ keys) (v ∷ values) =
    record k { offset = offset } ∷ packed (offset + (length v + 2)) keys values
packed offset _ _ = []
