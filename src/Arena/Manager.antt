-- ===== src/Arena/Manager.antt =====
-- The page headers and the values: src/arena/manager.c. Allocations of headers and keys succeed.
pub mod Alloc
pub mod Full
pub mod Stored
pub mod Set
pub mod SetGet
pub mod Unset
pub mod UnsetGet
pub mod Values
use fgdb.Prelude.{
  ℕ, zero, suc, ◌+◌, ◌-◌, ◌*◌, ◌/◌, ◌%◌, ◌^◌, Bool, true, false, ◌&&◌, Option, none, some, List, [],
  ◌∷◌, ◌++◌, ltb, leb, ◌==◌, if◌then◌else◌, length, get_elem?, set, drop,
}
use fgdb.Prelude.Bytes.{le_bytes}
use fgdb.Str.{Str, contents}
use fgdb.Memory.{poke}
use fgdb.Disk.{PageHeader, page_size, disk_dump_keys}
use fgdb.Wal.{WriteResult}
use fgdb.Arena.{
  KeyMeta, HeaderKey, Header, PageState, dirty, clean, processing, in_memory, in_disk, free, Arena,
  Result, returned, waits, faulted, ◌>>=◌, access, of_outcome, Calls, page_start, dump_page,
  disk_header, init_block, add_item, arena_get_next_page, touched, read_size,
  arena_defragmentate_page,
}

abbrev pub fragmentation_factor : ℕ
fragmentation_factor = 4

abbrev pub set_header : Arena → ℕ → Header → Arena
set_header a p header = record a { headers = set a.headers p header }

abbrev pub with_meta : (ℕ → KeyMeta) → ℕ → KeyMeta → ℕ → KeyMeta
with_meta metas m meta j = if j == m then meta else metas j

-- A call of `arena_defragmentate_page` for the header `p`.
unfoldable pub defragmentate : Arena → ℕ → Result Arena
defragmentate a p = do
  header ← access (get_elem? a.headers p)
  (header', pages') ← arena_defragmentate_page header.arena_id header a.pages
  returned (record a { headers = set a.headers p header'; pages = pages' })

-- One round of the loop in `snapshot`.
unfoldable pub snapshot_page : List WriteResult → Arena → ℕ → Result Arena
snapshot_page results a page_id = do
  header ← access (get_elem? a.headers page_id)
  elim header.state [
    | clean ↦ returned a
    | processing ↦ returned a
    | dirty ↦ do
      a₁ ← defragmentate a page_id
      a₂ ← dump_page results a₁ header.page_id header.arena_id
      header₂ ← access (get_elem? a₂.headers page_id)
      returned (set_header a₂ page_id (record header₂ { state = clean }))
  ]

-- The loop: `n` pages from `page_id` on, with what `write` returns for each.
unfoldable pub snapshot_pages : (ℕ → List WriteResult) → ℕ → ℕ → Arena → Result Arena
snapshot_pages results zero page_id a = returned a
snapshot_pages results (suc n) page_id a = do
  a' ← snapshot_page (results page_id) a page_id
  snapshot_pages results n (page_id + 1) a'

abbrev pub disk_headers : (ℕ → KeyMeta) → List Header → List PageHeader
disk_headers metas [] = []
disk_headers metas (header ∷ headers) = disk_header metas header ∷ disk_headers metas headers

-- `results` is what `write` returns for the pages, and `key_results` for the keys.
unfoldable pub snapshot : (ℕ → List WriteResult) → (ℕ → WriteResult) → Arena → Result Arena
snapshot results key_results a = do
  a' ← snapshot_pages results (length a.headers) 0 a
  returned
      (record a' { disk = disk_dump_keys key_results a'.disk (disk_headers a'.metas a'.headers) })

abbrev pub update_lsn : Header → ℕ → Header
update_lsn header lsn = record header { page_lsn = lsn }

abbrev pub new_header : Header
new_header = record {
  fragmentated_bytes = 0;
  offset_bytes = 0;
  keys = [];
  keys_block = init_block;
  page_lsn = 0;
  page_id = 0;
  arena_id = 0;
  state = dirty;
  location = free;
}

-- The new header is the last.
unfoldable pub headers_new_page : Calls → Arena → Result (ℕ × Arena)
headers_new_page calls a = do
  (arena_id, a') ← arena_get_next_page calls a
  let page_id = length a.headers
  let header = record new_header { location = in_memory; page_id = page_id; arena_id = arena_id }
  (headers', block) ← access (add_item a'.headers_block a'.headers header)
  returned (page_id, touched (record a' { headers = headers'; headers_block = block }) page_id)

-- The first test on a header: the room behind its values, as a `uint16_t`.
abbrev pub has_room : Header → ℕ → Bool
has_room header value_size = leb value_size ((page_size + 2 ^ 16 - header.offset_bytes) % 2 ^ 16)

-- The second test, for at least one key.
abbrev pub is_fragmented : Header → ℕ → Bool
is_fragmented header value_size =
    leb value_size ((page_size + 2 ^ 64 - header.fragmentated_bytes) % 2 ^ 64 / length header.keys)
    && leb fragmentation_factor (header.fragmentated_bytes / page_size * length header.keys)

-- What the loop over the headers ends with.
pub data Choice : Type 0 where
  found : ℕ → Choice
  prefered : Option ℕ → Choice

unfoldable pub choose : ℕ → List Header → ℕ → Option ℕ → Result Choice
choose value_size [] page_id p = returned (prefered p)
choose value_size (header ∷ headers) page_id p =
    let rest = choose value_size headers (page_id + 1) p in
    let rest' = choose value_size headers (page_id + 1) (some page_id) in
    if has_room header value_size
    then returned (found page_id)
    else if length header.keys == 0
    then faulted
    else if is_fragmented header value_size
    then rest'
    else rest

abbrev pub alloc_chosen : Calls → Arena → ℕ → Choice → Result (ℕ × Arena)
alloc_chosen calls a value_size (found p) = returned (p, a)
alloc_chosen calls a value_size (prefered none) = headers_new_page calls a
alloc_chosen calls a value_size (prefered (some p)) = do
  a' ← defragmentate a p
  header ← access (get_elem? a'.headers p)
  if leb value_size header.offset_bytes then returned (p, a') else faulted

unfoldable pub headers_alloc_page : Calls → Arena → ℕ → Result (ℕ × Arena)
headers_alloc_page calls a value_size = do
  choice ← choose value_size a.headers 0 none
  alloc_chosen calls a value_size choice

-- The header and the `key_meta_t` blocks.
unfoldable pub headers_push_key : Header → (ℕ → KeyMeta) → ℕ → ℕ → Result (Header × (ℕ → KeyMeta))
headers_push_key header metas key page_offset = do
  (keys, block) ← access (
      add_item header.keys_block header.keys
        (record { offset = page_offset % 2 ^ 16; key_meta_ptr = key }))
  returned (
    record header { keys = keys; keys_block = block },
    with_meta metas key (record (metas key) { header_key_id = (length keys - 1) % 2 ^ 16 }),
  )
