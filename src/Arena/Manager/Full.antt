-- ===== src/Arena/Manager/Full.antt =====
-- A page that is filled to its end, and an arena without a place that is free.
use fgdb.Prelude.{
  ℕ, ◌+◌, ◌-◌, ◌%◌, ◌^◌, ◌≤◌, ◌<◌, ◌≡◌, refl, true, some, arith, length, get_elem?, leb_of_le,
  get_elem?-set_self,
}
use fgdb.Str.{Str, contents, IsStr}
use fgdb.Wal.Encode.{length-contents}
use fgdb.Disk.{page_size}
use fgdb.Memory.Laws.{Holds}
use fgdb.Arena.{init_block, add_item, faulted, Header, Arena, returned, Calls, page_start}
use fgdb.Arena.Page.{image}
use fgdb.Arena.Manager.{has_room, headers_alloc_page, headers_push_key}
use fgdb.Arena.Manager.Values.{page_value_set}
use fgdb.Arena.Manager.Set.{HasSlot, get_elem?-some, pushed, written}
use fgdb.Arena.Manager.SetGet.{page_value_set-written}

-- Where headers_alloc_page gives a header that has room for the bytes of a well-formed value but
-- not for its size too, and whose vector of keys has room for one more, page_value_set writes the
-- value over the end of the page, inside the arena, and the header then passes the test for room
-- for any size up to 65534.
pub page_value_set_overfull :
    (calls : Calls) (a a₁ : Arena) (value : Str) (key p : ℕ) (header : Header)
    → headers_alloc_page calls a value.size ≡ returned (p, a₁)
    → get_elem? a₁.headers p ≡ some header
    → HasSlot header
    → IsStr value
    → page_start header.arena_id + header.offset_bytes + (value.size + 2) ≤ length a₁.pages
    → header.offset_bytes + value.size ≤ page_size
    → page_size < header.offset_bytes + value.size + 2
    → (a' : Arena) × ((now : Header) × ((page_value_set calls a value key ≡ returned (p, a'))
          × ((get_elem? a'.headers p ≡ some now)
              × ((Holds a'.pages
                    (page_start header.arena_id + header.offset_bytes)
                    (image (contents value)))
                  × ((page_size < now.offset_bytes)
                      × ((n : ℕ) → n < 2 ^ 16 - 1 → has_room now n ≡ true))))))
page_value_set_overfull calls a a₁ value key p header alloc at slot str within room over =
    let v = contents value in
    let size : length v ≡ value.size = length-contents str in
    let (pages, (ends, (holds, changes))) =
      page_value_set-written calls a a₁ value key p header alloc at slot str within in
    let end : (header.offset_bytes + (length v + 2)) % 2 ^ 16
        ≡ header.offset_bytes + (value.size + 2) =
      omega arith in
    (
      written a₁ p key header v pages,
      (
        pushed header key v,
        (
          ends,
          (
            get_elem?-set_self a₁.headers p (pushed header key v)
                (get_elem?-some a₁.headers p header at),
            (holds, (rw end (omega arith), λ n small. leb_of_le n _ (rw end (omega arith)))),
          ),
        ),
      ),
    )

-- Where headers_alloc_page gives a page that has one key, in a vector as vector_init makes it,
-- page_value_set writes outside the vector's block.
pub page_value_set_second :
    (calls : Calls) (a a₁ : Arena) (value : Str) (key p : ℕ) (header : Header)
    → headers_alloc_page calls a value.size ≡ returned (p, a₁)
    → get_elem? a₁.headers p ≡ some header
    → length header.keys ≡ 1
    → header.keys_block ≡ init_block
    → page_value_set calls a value key ≡ faulted
unfolding page_value_set headers_push_key add_item
page_value_set_second calls a a₁ value key p header alloc at one first =
    rw (alloc, at, first, one) refl
