-- ===== src/Arena/Manager/Stored.antt =====
-- Values that stand in pages of the arena, and what `page_value_get` reads of them.
use fgdb.Prelude.{
  ℕ, zero, suc, ◌+◌, ◌^◌, ◌≤◌, ◌<◌, ◌≡◌, refl, sym, ap, ◌∙◌, some, List, [], ◌∷◌, arith, length,
  get_elem?, take, drop,
}
use fgdb.Prelude.Bytes.{le_bytes, length-le_bytes}
use fgdb.Str.{Str, contents}
use fgdb.Disk.{page_size}
use fgdb.Memory.Laws.{Holds, Holds-append}
use fgdb.Arena.{KeyMeta, HeaderKey, Header, in_memory, Arena, returned, Calls, page_start}
use fgdb.Arena.Page.{image, read_size-Holds, Laid}
use fgdb.Arena.Manager.Values.{val_at, page_value_get, heated}

-- The page of a header is in the arena and holds the values of its keys, in their order.
pub record PageOk (a : Arena) (p : ℕ) (header : Header) (values : List (List ℕ)) : Type 0 where
  pub at : get_elem? a.headers p ≡ some header
  pub in_arena : header.location ≡ in_memory
  pub laid : Laid a.pages (page_start header.arena_id) header.offset_bytes 0 header.keys values
  pub fits : header.offset_bytes ≤ page_size
  pub within : page_start header.arena_id + page_size ≤ length a.pages

-- The value that a `key_meta_t` leads to.
pub record Stored (a : Arena) (meta : KeyMeta) (v : List ℕ) : Type 0 where
  pub header : Header
  pub values : List (List ℕ)
  pub ok : PageOk a meta.page header values
  pub is_value : get_elem? values meta.header_key_id ≡ some v

pub Laid-get_elem? :
    (mem : List ℕ) (start limit base : ℕ) (keys : List HeaderKey) (values : List (List ℕ)) (i : ℕ)
    (v : List ℕ)
    → Laid mem start limit base keys values
    → get_elem? values i ≡ some v
    → (k : HeaderKey) × ((get_elem? keys i ≡ some k)
        × (Holds mem (start + k.offset) (image v) × (length v < 2 ^ 16)))
unfolding Laid
Laid-get_elem? mem start limit base [] [] i v h e = absurd cc
Laid-get_elem? mem start limit base [] (w ∷ values) i v h e = elim h [ ]
Laid-get_elem? mem start limit base (k ∷ keys) [] i v h e = elim h [ ]
Laid-get_elem? mem start limit base (k ∷ keys) (w ∷ values) zero v (le, holds, small, rest) e =
    let is : w ≡ v = cc in (k, (refl, (rw (← is) holds, rw (← is) small)))
Laid-get_elem? mem start limit base (k ∷ keys) (w ∷ values) (suc i) v (le, holds, small, rest) e =
    Laid-get_elem? mem start limit (k.offset + (length w + 2)) keys values i v rest e

-- What is read at a value's place.
pub val_at-Holds :
    (mem : List ℕ) (p : ℕ) (v : List ℕ)
    → Holds mem p (image v)
    → length v < 2 ^ 16
    → (value : Str) × ((val_at mem p ≡ returned value) × (contents value ≡ v))
val_at-Holds mem p v h small =
    let (size, bytes) = Holds-append mem p (le_bytes 2 (length v)) v h in
    let at : p + length (le_bytes 2 (length v)) ≡ p + 2 =
      omega (arith, length-le_bytes 2 (length v)) in
    (
      record { size = length v; ptr = some (drop (p + 2) mem) },
      (
        rw (read_size-Holds mem p v h small) refl,
        ap (λ (q : ℕ). take (length v) (drop q mem)) (sym at) ∙ bytes.there,
      ),
    )

-- page_value_get reads the value that the key leads to and leaves the arena as it is.
pub page_value_get-Stored :
    (calls : Calls) (a : Arena) (meta : KeyMeta) (v : List ℕ)
    → Stored a meta v
    → (value : Str) × ((page_value_get calls a meta ≡ returned (some value, a))
        × (contents value ≡ v))
unfolding page_value_get heated
page_value_get-Stored calls a meta v stored =
    let header = stored.header in
    let (k, (is_key, (holds, small))) =
      Laid-get_elem? a.pages (page_start header.arena_id) header.offset_bytes 0 header.keys
        stored.values meta.header_key_id v stored.ok.laid stored.is_value in
    let (value, (reads, is_v)) =
      val_at-Holds a.pages (page_start header.arena_id + k.offset) v holds small in
    (
      value,
      (rw (stored.ok.at, stored.ok.in_arena) (rw (stored.ok.in_arena, is_key, reads) refl), is_v),
    )
