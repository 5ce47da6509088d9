-- ===== src/Arena/Manager/Values.antt =====
-- Values in pages: `page_value_set`, `page_value_get` and `page_value_unset` of src/arena/manager.c.
use fgdb.Prelude.{ℕ, suc, ◌+◌, ◌-◌, ◌%◌, ◌^◌, Option, none, some, List, [], ◌∷◌, get_elem?, drop}
use fgdb.Prelude.Bytes.{le_bytes}
use fgdb.Str.{Str, contents}
use fgdb.Memory.{poke}
use fgdb.Disk.{disk_upload_page}
use fgdb.Arena.{
  KeyMeta, HeaderKey, Header, dirty, in_memory, in_disk, free, Arena, Result, returned, ◌>>=◌,
  access, delete_item, of_outcome, Calls, page_start, arena_get_next_page, touched, read_size,
}
use fgdb.Arena.Manager.{set_header, with_meta, headers_alloc_page, headers_push_key}

-- The header is looked up by the page's place in the arena.
unfoldable pub heat_page : Calls → Arena → ℕ → Result (ℕ × Arena)
heat_page calls a page_id = do
  (arena_page_id, a₁) ← arena_get_next_page calls a
  (bytes, disk') ← of_outcome (disk_upload_page calls.reads a₁.disk page_id)
  pages' ← access (poke a₁.pages (page_start arena_page_id) bytes)
  header ← access (get_elem? a₁.headers arena_page_id)
  returned (arena_page_id, touched (record a₁ { disk = disk'; pages = pages' }) arena_page_id)

-- What `page_value_get` and `page_value_unset` do first: a page on disk is heated.
unfoldable pub heated : Calls → Arena → ℕ → Result (Header × Arena)
heated calls a p = do
  header ← access (get_elem? a.headers p)
  elim header.location [
    | in_memory ↦ returned (header, a)
    | free ↦ returned (header, a)
    | in_disk ↦ do
      (arena_id, a') ← heat_page calls a header.page_id
      header' ← access (get_elem? a'.headers p)
      let header'' = record header' { arena_id = arena_id; location = in_memory }
      returned (header'', set_header a' p header'')
  ]

-- The size at `p`, and the bytes behind it.
abbrev pub val_at : List ℕ → ℕ → Result Str
val_at mem p = do
  size ← read_size mem p
  returned (record { size = size; ptr = some (drop (p + 2) mem) })

-- The index of the header is returned.
unfoldable pub page_value_set : Calls → Arena → Str → ℕ → Result (ℕ × Arena)
page_value_set calls a value key = do
  (p, a₁) ← headers_alloc_page calls a value.size
  header ← access (get_elem? a₁.headers p)
  (header₁, metas₁) ←
      headers_push_key (record header { location = in_memory }) a₁.metas key header.offset_bytes
  let metas₂ = with_meta metas₁ key (record (metas₁ key) { page = header.page_id })
  let start = page_start header.arena_id + header.offset_bytes
  pages₁ ← access (poke a₁.pages start (le_bytes 2 value.size))
  pages₂ ← access (poke pages₁ (start + 2) (contents value))
  let header₂ = record header₁ { offset_bytes = (header.offset_bytes + (value.size + 2)) % 2 ^ 16 }
  returned (p, record (set_header a₁ p header₂) { pages = pages₂; metas = metas₂ })

-- `none` is NULL.
unfoldable pub page_value_get : Calls → Arena → KeyMeta → Result (Option Str × Arena)
page_value_get calls a key = do
  (header, a') ← heated calls a key.page
  elim header.location [
    | in_disk ↦ returned (none, a')
    | free ↦ returned (none, a')
    | in_memory ↦ elim (get_elem? header.keys key.header_key_id) [
      | none ↦ returned (none, a')
      | some k ↦ do
        value ← val_at a'.pages (page_start header.arena_id + k.offset)
        returned (some value, a')
    ]
  ]

-- `header_key_id -= 1` for the keys behind the one deleted.
unfoldable pub renumber : List HeaderKey → (ℕ → KeyMeta) → ℕ → KeyMeta
renumber [] metas = metas
renumber (k ∷ keys) metas =
    let meta = metas k.key_meta_ptr in
    renumber keys (
      with_meta metas k.key_meta_ptr
        (record meta { header_key_id = (meta.header_key_id + (2 ^ 16 - 1)) % 2 ^ 16 }))

unfoldable pub page_value_unset : Calls → Arena → KeyMeta → Result (Option (Str × ℕ) × Arena)
page_value_unset calls a key = do
  (header, a') ← heated calls a key.page
  elim header.location [
    | in_disk ↦ returned (none, a')
    | free ↦ returned (none, a')
    | in_memory ↦ do
      k ← access (get_elem? header.keys key.header_key_id)
      (keys, block) ← access (delete_item header.keys_block header.keys key.header_key_id)
      let behind = drop (suc key.header_key_id) header.keys
      value ← val_at a'.pages (page_start header.arena_id + k.offset)
      let header' = record header {
        keys = keys;
        keys_block = block;
        state = dirty;
        fragmentated_bytes = (header.fragmentated_bytes + value.size) % 2 ^ 16;
      }
      returned (
        some (value, key.page),
        record (set_header a' key.page header') { metas = renumber behind a'.metas },
      )
  ]
