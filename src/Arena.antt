-- ===== src/Arena.antt =====
-- The arena of pages: src/arena/meta.h and src/arena/arena.c. The pages are one block of memory, a
-- pointer to a header or to a `key_meta_t` is an index, and a vector is the list of its items and the
-- `Block` that they stand in.
pub mod Page
pub mod Manager
pub mod Vectors
mod Tests
use fgdb.Prelude.{
  ℕ, ◌+◌, ◌-◌, ◌*◌, ◌%◌, ◌^◌, Bool, true, false, Option, none, some, List, [], ◌∷◌, ltb, leb, ◌==◌,
  if◌then◌else◌, length, get_elem?, set, take, drop, suc, ◌/◌, ◌&&◌, ◌++◌,
}
use fgdb.Prelude.Bytes.{of_le_bytes}
use fgdb.Str.{Str}
use fgdb.Memory.{peek, memmove, clear}
use fgdb.Vector.{grown}
use fgdb.Lru.{Links, LruQueue, least_recent_page, lru_touch_page}
use fgdb.Disk.{Disk, PageHeader, PageKey, page_size, ReadResult, disk_dump_page}
use fgdb.Wal.{WriteResult, Outcome, finished, exited, waiting}

-- `key_meta_t`
pub record KeyMeta : Type 0 where
  pub weak_key : Str
  pub header_key_id : ℕ
  pub page : ℕ

-- `page_header_key_t`
pub record HeaderKey : Type 0 where
  pub offset : ℕ
  pub key_meta_ptr : ℕ

pub data PageState : Type 0 where
  dirty clean processing : PageState

pub data Location : Type 0 where
  free in_memory in_disk : Location

-- What a vector has besides its items: the pointers that its block has room for, and the capacity
-- that it takes the block to have.
pub record Block : Type 0 where
  pub room : ℕ
  pub capacity : ℕ

-- `vector_init`, whose capacity and block are always those of one pointer.
abbrev pub init_block : Block
init_block = record { room = 1; capacity = 1 }

-- The block at `vector_add` to `n` items, where `realloc` succeeds.
abbrev pub added_block : Block → ℕ → Block
added_block block n =
    if block.capacity == n
    then record { room = grown block.capacity; capacity = grown block.capacity }
    else block

-- `vector_add`; `none` is a write outside the block.
unfoldable pub add_item : {A : Type 0} → Block → List A → A → Option (List A × Block)
add_item block items item =
    if ltb (length items) (added_block block (length items)).room
    then some (items ++ item ∷ [], added_block block (length items))
    else none

-- The block at `vector_delete` that leaves `n` items, where `realloc` succeeds.
abbrev pub deleted_block : Block → ℕ → Block
deleted_block block n =
    if ltb 0 n && (n == block.capacity / 4)
    then record { room = block.capacity / 2; capacity = block.capacity / 2 }
    else block

-- `vector_delete` of an index in range; `none` is an access outside the block.
unfoldable pub delete_item : {A : Type 0} → Block → List A → ℕ → Option (List A × Block)
delete_item block items index =
    if leb (length items) block.room
    then some (take index items ++ drop (suc index) items, deleted_block block (length items - 1))
    else none

-- `page_header_t` without its links.
pub record Header : Type 0 where
  pub fragmentated_bytes : ℕ
  pub offset_bytes : ℕ
  pub keys : List HeaderKey
  pub keys_block : Block
  pub page_lsn : ℕ
  pub page_id : ℕ
  pub arena_id : ℕ
  pub state : PageState
  pub location : Location

-- `arena_t`, and what its functions reach besides: the blocks of `key_meta_t`, the queue of pages with
-- the links of the headers, and the disk.
pub record Arena : Type 0 where
  pub allocated_pages : ℕ
  pub uploaded_pages : ℕ
  pub headers : List Header
  pub headers_block : Block
  pub pages : List ℕ
  pub metas : ℕ → KeyMeta
  pub lru : LruQueue
  pub links : ℕ → Links
  pub disk : Disk

-- A call returns; it is in a loop that does not end within the results of the system calls; or it
-- reads or writes outside a block or through NULL, divides by zero or fails an assertion.
pub data Result (A : Type 0) : Type 0 where
  returned : A → Result A
  waits : Result A
  faulted : Result A

infixl 5 ◌>>=◌
abbrev pub ◌>>=◌ : {A B : Type 0} → Result A → (A → Result B) → Result B
returned a >>= k = k a
waits >>= k = waits
faulted >>= k = faulted

abbrev pub access : {A : Type 0} → Option A → Result A
access none = faulted
access (some a) = returned a

abbrev pub of_outcome : {A : Type 0} → Outcome A → Result A
of_outcome (finished a) = returned a
of_outcome exited = faulted
of_outcome waiting = waits

-- What the system calls of one operation return, and how many rounds the search of the queue is given.
pub record Calls : Type 0 where
  pub writes : List WriteResult
  pub reads : List ReadResult
  pub rounds : ℕ

abbrev pub page_start : ℕ → ℕ
page_start arena_id = arena_id * page_size

abbrev pub is_processing : Option Header → Bool
is_processing none = false
is_processing (some header) = elim header.state [
  | processing ↦ true
  | dirty ↦ false
  | clean ↦ false
]

-- The links, with what the queue reads of the headers' states.
abbrev pub linked : Arena → ℕ → Links
linked a p = record (a.links p) { processing = is_processing (get_elem? a.headers p) }

abbrev pub disk_key : (ℕ → KeyMeta) → HeaderKey → PageKey
disk_key metas k =
    let meta = metas k.key_meta_ptr in
    record { offset = k.offset; page = meta.page; key = meta.weak_key }

abbrev pub disk_keys : (ℕ → KeyMeta) → List HeaderKey → List PageKey
disk_keys metas [] = []
disk_keys metas (k ∷ keys) = disk_key metas k ∷ disk_keys metas keys

-- What the disk reads of a header.
abbrev pub disk_header : (ℕ → KeyMeta) → Header → PageHeader
disk_header metas header = record {
  offset_bytes = header.offset_bytes;
  page_lsn = header.page_lsn;
  keys = disk_keys metas header.keys;
}

-- `disk_dump_page` of a page of the arena.
unfoldable pub dump_page : List WriteResult → Arena → ℕ → ℕ → Result Arena
dump_page results a page_id arena_id = do
  header ← access (get_elem? a.headers page_id)
  bytes ← access (peek a.pages (page_start arena_id) page_size)
  disk' ← of_outcome (disk_dump_page results a.disk page_id (disk_header a.metas header) bytes)
  returned (record a { disk = disk' })

unfoldable pub arena_get_next_page : Calls → Arena → Result (ℕ × Arena)
arena_get_next_page calls a =
    if ltb a.uploaded_pages a.allocated_pages
    then returned (a.uploaded_pages, record a { uploaded_pages = a.uploaded_pages + 1 })
    else do
      (p, lru', links') ← access (least_recent_page calls.rounds a.lru (linked a))
      header ← access (get_elem? a.headers p)
      a' ←
          dump_page calls.writes (record a { lru = lru'; links = links' }) header.page_id
            header.arena_id
      returned (header.arena_id, a')

-- `lru_touch_page` of a header.
abbrev pub touched : Arena → ℕ → Arena
touched a p =
    let (lru', links') = lru_touch_page a.lru p (linked a) in
    record a { lru = lru'; links = links' }

unfoldable pub arena_page_touch : Arena → ℕ → Result Arena
arena_page_touch a page_id = do
  header ← access (get_elem? a.headers page_id)
  returned (touched a page_id)

-- `value->size`
abbrev pub read_size : List ℕ → ℕ → Result ℕ
read_size mem p = do bytes ← access (peek mem p 2); returned (of_le_bytes bytes)

-- The loop of `arena_defragmentate_page`, which reads the size again where the value was.
unfoldable pub move_values : List HeaderKey → ℕ → ℕ → List ℕ → Result (List HeaderKey × ℕ × List ℕ)
move_values [] start offset mem = returned ([], offset, mem)
move_values (k ∷ keys) start offset mem = do
  size ← read_size mem (start + k.offset)
  mem₁ ← access (memmove mem (start + offset) (start + k.offset) (size + 2))
  size₁ ← read_size mem₁ (start + k.offset)
  (keys', offset', mem₂) ← move_values keys start (offset + (size₁ + 2)) mem₁
  returned (record k { offset = offset % 2 ^ 16 } ∷ keys', offset', mem₂)

-- The header and the pages behind it; a page that is overfull has `memset` clear nearly all memory.
unfoldable pub arena_defragmentate_page : ℕ → Header → List ℕ → Result (Header × List ℕ)
arena_defragmentate_page page_id header pages = do
  (keys', offset, mem) ← move_values header.keys (page_start page_id) 0 pages
  mem' ←
      if leb (offset % 2 ^ 16) page_size
      then access (clear mem (page_start page_id + offset) (page_size - offset % 2 ^ 16))
      else faulted
  returned (
    record header {
      fragmentated_bytes = 0;
      offset_bytes = offset % 2 ^ 16;
      keys = keys';
      state = dirty;
    },
    mem',
  )
