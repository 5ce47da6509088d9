-- ===== src/Arena/Page/Defragment.antt =====
-- `arena_defragmentate_page` as a whole: where it keeps the values of a page, and where it does not.
use fgdb.Prelude.{
  ℕ, ◌+◌, ◌-◌, ◌%◌, ◌^◌, ◌≤◌, ◌<◌, ◌≡◌, refl, sym, ap, ◌∙◌, subst, List, [], ◌∷◌, arith, length,
  take, drop, leb_of_le, leb_of_lt, take-append-drop, length-take, length-drop,
}
use fgdb.Prelude.Bytes.{of_le_bytes}
use fgdb.Disk.{page_size}
use fgdb.Memory.Laws.{Holds, Changes, Holds-append, memmove-Holds, clear-Changes, peek-Holds}
use fgdb.Arena.{
  HeaderKey, Header, dirty, returned, faulted, read_size, move_values, arena_defragmentate_page,
  page_start,
}
use fgdb.Arena.Page.{
  image, length-image, read_size-Holds, Laid, Laid-Same, total_size, Apart, packed,
}
use fgdb.Arena.Page.Moves.{move_values-Moved}

-- The header of a page whose values were packed.
abbrev pub packed_header : Header → List (List ℕ) → Header
packed_header header values = record header {
  fragmentated_bytes = 0;
  offset_bytes = total_size values;
  keys = packed 0 header.keys values;
  state = dirty;
}

-- Where the values of a page are laid out in the order of its keys, and each is packed onto its
-- own place or onto bytes before it, arena_defragmentate_page ends with the same values one behind
-- the other, counts them in offset_bytes and changes nothing outside the page.
pub arena_defragmentate_page-Laid :
    (arena_id : ℕ) (header : Header) (pages : List ℕ) (values : List (List ℕ))
    → Laid pages (page_start arena_id) page_size 0 header.keys values
    → Apart 0 header.keys values
    → page_start arena_id + page_size ≤ length pages
    → (pages' : List ℕ) × ((arena_defragmentate_page arena_id header pages
          ≡ returned (packed_header header values, pages'))
        × (Laid pages'
              (page_start arena_id)
              (total_size values)
              0
              (packed 0 header.keys values)
              values
            × Changes pages pages' (page_start arena_id) page_size))
unfolding arena_defragmentate_page
arena_defragmentate_page-Laid arena_id header pages values laid apart within =
    let start = page_start arena_id in
    let (mem, (is_moved, moved)) =
      move_values-Moved header.keys values pages start page_size 0 0 laid apart (omega arith)
        (omega arith) within in
    let total = total_size values in
    let zero_add : 0 + total ≡ total = omega arith in
    let ends : total ≤ page_size = omega (arith, moved.ends) in
    let laid' =
      subst (λ (n : ℕ). Laid mem start n 0 (packed 0 header.keys values) values) zero_add
        moved.laid in
    let small : total % 2 ^ 16 ≡ total = omega arith in
    let is_moved' : move_values header.keys start 0 pages
        ≡ returned (packed 0 header.keys values, total, mem) =
      is_moved ∙ ap (λ (n : ℕ). returned (packed 0 header.keys values, n, mem)) zero_add in
    let (pages', (is_cleared, cleared)) =
      clear-Changes mem (start + total) (page_size - total % 2 ^ 16)
        (omega (arith, moved.changes.size)) in
    (
      pages',
      (
        rw (is_moved', leb_of_le (total % 2 ^ 16) page_size (omega arith), is_cleared)
            (ap
              (λ (n : ℕ). returned (
                record header {
                  fragmentated_bytes = 0;
                  offset_bytes = n;
                  keys = packed 0 header.keys values;
                  state = dirty;
                },
                pages',
              ))
              small),
        (
          Laid-Same mem pages' start total 0 (packed 0 header.keys values) values cleared.size
              (λ q m from to. cleared.before q m to) laid',
          record {
            size = cleared.size ∙ moved.changes.size;
            before =
                λ q m le. cleared.before q m (omega arith) ∙ moved.changes.before q m (omega arith);
            behind =
                λ q m le. cleared.behind q m (omega arith) ∙ moved.changes.behind q m (omega arith);
          },
        ),
      ),
    )

-- The two bytes of a value's image at `d`.
abbrev pub size_at : ℕ → List ℕ → ℕ
size_at d v = of_le_bytes (take 2 (drop d (image v)))

-- What is read as the size where the image was moved `d` bytes down.
read_size-shifted :
    (mem : List ℕ) (p d : ℕ) (v : List ℕ)
    → Holds mem p (image v)
    → d ≤ length v
    → read_size mem (p + d) ≡ returned (size_at d v)
read_size-shifted mem p d v h le =
    let whole = subst (λ (x : List ℕ). Holds mem p x) (sym (take-append-drop d (image v))) h in
    let behind = (Holds-append mem p (take d (image v)) (drop d (image v)) whole).1 in
    let behind' =
      subst (λ (x : List ℕ). Holds mem (p + length (take d (image v))) x)
        (sym (take-append-drop 2 (drop d (image v)))) behind in
    let two =
      (Holds-append mem _ (take 2 (drop d (image v))) (drop 2 (drop d (image v))) behind').0 in
    let at : p + length (take d (image v)) ≡ p + d =
      omega (arith, length-take d (image v), length-image v) in
    let two' = subst (λ (q : ℕ). Holds mem q (take 2 (drop d (image v)))) at two in
    let size : length (take 2 (drop d (image v))) ≡ 2 =
      omega (arith, length-take 2 (drop d (image v)), length-drop d (image v), length-image v) in
    rw (peek-Holds mem (p + d) 2 _ two' size) refl

-- Where the only value of a page stands behind fewer free bytes than it takes itself, the move
-- overwrites the size that is read after it; if what is read so is too large for a page, and fits
-- 16 bits with two added, the memset that follows runs out of the arena.
pub arena_defragmentate_page_overlap :
    (arena_id : ℕ) (header : Header) (k : HeaderKey) (pages v : List ℕ)
    → header.keys ≡ k ∷ []
    → Laid pages (page_start arena_id) page_size 0 (k ∷ []) (v ∷ [])
    → page_start arena_id + page_size ≤ length pages
    → 0 < k.offset
    → k.offset ≤ length v
    → page_size < size_at k.offset v + 2
    → size_at k.offset v + 2 < 2 ^ 16
    → arena_defragmentate_page arena_id header pages ≡ faulted
unfolding arena_defragmentate_page move_values Laid
arena_defragmentate_page_overlap arena_id header k pages v is (le, holds, fits, end) within pos
      overlap large small =
    let start = page_start arena_id in
    let (mem, (is_moved, (moved, changes))) =
      memmove-Holds pages (start + 0) (start + k.offset) (length v + 2) (image v) holds
        (length-image v) (omega arith) in
    let moved' =
      subst (λ (q : ℕ). Holds mem q (image v)) (let e : start + 0 ≡ start = omega arith in e)
        moved in
    let no_wrap : (0 + (size_at k.offset v + 2)) % 2 ^ 16 ≡ size_at k.offset v + 2 = omega arith in
    rw
      (
        is,
        read_size-Holds pages (start + k.offset) v holds fits,
        is_moved,
        read_size-shifted mem start k.offset v moved' overlap,
        no_wrap,
        leb_of_lt (size_at k.offset v + 2) page_size large,
      )
      refl
