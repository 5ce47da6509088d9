-- ===== src/Arena/Tests.antt =====
-- Runs of the arena on two pages.
use fgdb.Prelude.{
  ℕ, zero, suc, ◌≡◌, ◌≢◌, ◌<◌, ◌-◌, ◌^◌, refl, false, true, get_elem?, none, some, List, [], ◌∷◌,
  ◌++◌, inr, arith, length, replicate, length-replicate,
}
use fgdb.Prelude.Bytes.{le_bytes, of_le_bytes}
use fgdb.Str.{Str, contents}
use fgdb.Disk.{init_disk}
use fgdb.Memory.Laws.{Holds, Changes}
use fgdb.Arena.{
  add_item, delete_item, KeyMeta, HeaderKey, Header, Arena, Calls, in_memory, returned, faulted,
  arena_defragmentate_page,
}
use fgdb.Disk.{page_size}
use fgdb.Arena.Page.{image, Laid}
use fgdb.Arena.Page.Defragment.{
  packed_header, arena_defragmentate_page-Laid, arena_defragmentate_page_overlap,
}
use fgdb.Arena.Manager.{headers_alloc_page, has_room, choose, new_header}
use fgdb.Arena.Manager.Values.{page_value_set}
use fgdb.Arena.Manager.Stored.{PageOk, Stored}
use fgdb.Wal.{wrote}
use fgdb.Arena.Manager.Alloc.{Allocates, headers_alloc_page-cases}
use fgdb.Arena.Manager.Full.{page_value_set_overfull, page_value_set_second}
use fgdb.Vector.{Vector, vector_add, vector_delete}
use fgdb.Arena.Vectors.{block_of, viewed, add_item-vector_add, delete_item-vector_delete}
use fgdb.Arena.Manager.SetGet.{Reads, page_value_get-page_value_set}

abbrev ab : List ℕ
ab = 97 ∷ 98 ∷ []

abbrev zeros : List ℕ
zeros = replicate 8192 0

-- A page that holds "ab" behind `gap`.
abbrev with_ab : List ℕ → List ℕ
with_ab gap = gap ++ (2 ∷ 0 ∷ ab ++ zeros)

abbrev six : List ℕ
six = 1 ∷ 2 ∷ 3 ∷ 4 ∷ 5 ∷ 6 ∷ []

-- The only key of a page, for the `key_meta_t` 0.
abbrev key_at : ℕ → HeaderKey
key_at offset = record { offset = offset; key_meta_ptr = 0 }

abbrev header_at : ℕ → ℕ → Header
header_at offset end = record new_header {
  keys = key_at offset ∷ [];
  offset_bytes = end;
  location = in_memory;
}

with_ab-Laid : Laid (with_ab six) 0 page_size 0 (key_at 6 ∷ []) (ab ∷ [])
unfolding Laid le_bytes
with_ab-Laid =
    let len : length zeros ≡ 8192 = length-replicate {A = ℕ} 8192 0 in
    (omega arith, record { within = omega arith; there = refl }, omega arith, omega arith)

arena_defragmentate_page-Laid_example :
    (pages' : List ℕ) × ((arena_defragmentate_page 0 (header_at 6 10) (with_ab six)
        ≡ returned (packed_header (header_at 6 10) (ab ∷ []), pages'))
      × (Laid pages' 0 4 0 (key_at 0 ∷ []) (ab ∷ []) × Changes (with_ab six) pages' 0 page_size))
arena_defragmentate_page-Laid_example =
    let len : length zeros ≡ 8192 = length-replicate {A = ℕ} 8192 0 in
    arena_defragmentate_page-Laid 0 (header_at 6 10) (with_ab six) (ab ∷ []) with_ab-Laid
      (inr (omega arith), tt) (omega arith)

abbrev ten : List ℕ
ten = replicate 10 97

-- A value of ten bytes behind a gap of five.
abbrev with_ten : List ℕ
with_ten = 3 ∷ 0 ∷ 1 ∷ 2 ∷ 3 ∷ 10 ∷ 0 ∷ ten ++ zeros

with_ten-Laid : Laid with_ten 0 page_size 0 (key_at 5 ∷ []) (ten ∷ [])
unfolding Laid le_bytes
with_ten-Laid =
    let len : length zeros ≡ 8192 = length-replicate {A = ℕ} 8192 0 in
    (omega arith, record { within = omega arith; there = refl }, omega arith, omega arith)

arena_defragmentate_page_overlap_example :
    arena_defragmentate_page 0 (header_at 5 17) with_ten ≡ faulted
unfolding of_le_bytes le_bytes
arena_defragmentate_page_overlap_example =
    let len : length zeros ≡ 8192 = length-replicate {A = ℕ} 8192 0 in
    arena_defragmentate_page_overlap 0 (header_at 5 17) (key_at 5) with_ten ten refl with_ten-Laid
      (omega arith) (omega arith) (omega arith) (omega arith) (omega arith)

abbrev str : List ℕ → Str
str bytes = record { size = length bytes; ptr = some bytes }

abbrev arena : Arena
arena = record {
  allocated_pages = 2;
  uploaded_pages = 1;
  headers = header_at 0 4 ∷ [];
  headers_block = record { room = 4; capacity = 4 };
  pages = with_ab [];
  metas = λ m. record { weak_key = str (107 ∷ []); header_key_id = 0; page = 0 };
  lru = record { top = some 0; bottom = some 0 };
  links = λ p. record { lru_next = none; lru_prev = none; processing = false };
  disk = init_disk [] [];
}

abbrev calls : Calls
calls = record { writes = []; reads = []; rounds = 1 }

arena-PageOk : PageOk arena 0 (header_at 0 4) (ab ∷ [])
unfolding Laid le_bytes
arena-PageOk =
    let len : length zeros ≡ 8192 = length-replicate {A = ℕ} 8192 0 in
    record {
      at = refl;
      in_arena = refl;
      laid = (omega arith, record { within = omega arith; there = refl }, omega arith, omega arith);
      fits = omega arith;
      within = omega arith;
    }

alloc_arena : headers_alloc_page calls arena 3 ≡ returned (0, arena)
unfolding headers_alloc_page choose
alloc_arena = refl

page_value_set_second_example : page_value_set calls arena (str (99 ∷ 100 ∷ 101 ∷ [])) 1 ≡ faulted
page_value_set_second_example =
    page_value_set_second calls arena arena (str (99 ∷ 100 ∷ 101 ∷ [])) 1 0 (header_at 0 4)
      alloc_arena refl refl refl

-- An arena whose only page is new.
abbrev new_page : Header
new_page = record (header_at 0 0) { keys = [] }

abbrev arena_new : Arena
arena_new = record arena { headers = new_page ∷ [] }

new-PageOk : PageOk arena_new 0 new_page []
unfolding Laid
new-PageOk =
    let len : length zeros ≡ 8192 = length-replicate {A = ℕ} 8192 0 in
    record {
      at = refl;
      in_arena = refl;
      laid = omega arith;
      fits = omega arith;
      within = omega arith;
    }

alloc_new : headers_alloc_page calls arena_new 3 ≡ returned (0, arena_new)
unfolding headers_alloc_page choose
alloc_new = refl

arena_alone :
    (q : ℕ) (h : Header)
    → q ≢ 0
    → get_elem? arena_new.headers q ≡ some h
    → h.location ≡ in_memory
    → h.arena_id ≢ 0
arena_alone zero h ne at is e = ne refl
arena_alone (suc q) h ne at is e = absurd cc

page_value_get-page_value_set_example :
    (a' : Arena) × ((page_value_set calls arena_new (str (99 ∷ 100 ∷ 101 ∷ [])) 1
        ≡ returned (0, a'))
      × (Reads calls a' (a'.metas 1) (99 ∷ 100 ∷ 101 ∷ [])
          × ((meta : KeyMeta) (w : List ℕ) → Stored arena_new meta w → Reads calls a' meta w)))
page_value_get-page_value_set_example =
    page_value_get-page_value_set calls calls arena_new arena_new (str (99 ∷ 100 ∷ 101 ∷ [])) 1 0
      new_page [] alloc_new new-PageOk refl arena_alone (omega arith)
      (record { fits = omega arith; holds = omega arith }) (omega arith)

-- Behind "ab" an empty value.
abbrev two_keys : Header
two_keys = record (header_at 0 6) {
  keys = key_at 0 ∷ record { offset = 4; key_meta_ptr = 1 } ∷ [];
  keys_block = record { room = 4; capacity = 4 };
}

abbrev arena_two : Arena
arena_two = record arena {
  headers = two_keys ∷ [];
  metas = λ m. record { weak_key = str (107 ∷ []); header_key_id = m; page = 0 };
}

headers_alloc_page-cases_example : Allocates calls arena 4093
headers_alloc_page-cases_example =
    headers_alloc_page-cases calls arena 4093 (omega arith, tt) (omega arith, tt)

-- A value that takes all of a new page but one byte.
abbrev long : List ℕ
long = replicate 4095 9

alloc_long : headers_alloc_page calls arena_new (str long).size ≡ returned (0, arena_new)
unfolding headers_alloc_page choose
alloc_long = refl

page_value_set_overfull_example :
    (a' : Arena) × ((now : Header) × ((page_value_set calls arena_new (str long) 1
          ≡ returned (0, a'))
        × ((get_elem? a'.headers 0 ≡ some now)
            × ((Holds a'.pages 0 (image (contents (str long))))
                × ((page_size < now.offset_bytes)
                    × ((n : ℕ) → n < 2 ^ 16 - 1 → has_room now n ≡ true))))))
page_value_set_overfull_example =
    let len : length zeros ≡ 8192 = length-replicate {A = ℕ} 8192 0 in
    let len' : length long ≡ 4095 = length-replicate {A = ℕ} 4095 9 in
    page_value_set_overfull calls arena_new arena_new (str long) 1 0 new_page alloc_long refl
      (omega arith) (record { fits = omega arith; holds = omega arith }) (omega arith) (omega arith)
      (omega arith)

-- Every place of the arena is taken.
abbrev arena_taken : Arena
arena_taken = record arena { allocated_pages = 1 }

abbrev dumping : Calls
dumping = record calls { writes = wrote 4096 ∷ [] }

-- A vector as vector_init makes it, with one item.
abbrev one_item : Vector ℕ
one_item = record { items = 5 ∷ []; capacity = 1; total = 1 }

add_item-vector_add_example :
    add_item (block_of one_item) (5 ∷ []) 7 ≡ viewed (vector_add (some []) one_item 7)
add_item-vector_add_example =
    add_item-vector_add (some []) one_item 7 (record { filled = omega arith; allocated = refl })
      (omega arith)

abbrev two_items : Vector ℕ
two_items = record { items = 5 ∷ 6 ∷ []; capacity = 2; total = 2 }

delete_item-vector_delete_example :
    delete_item (block_of two_items) (5 ∷ 6 ∷ []) 0
    ≡ viewed (some (vector_delete 0 (some []) two_items 0))
delete_item-vector_delete_example =
    delete_item-vector_delete 0 (some []) two_items 0
      (record { filled = omega arith; allocated = refl }) (omega arith) (omega arith)
