-- ===== src/Arena/Manager/SetGet.antt =====
-- `page_value_get` behind `page_value_set`.
use fgdb.Prelude.{
  ℕ, zero, suc, ◌+◌, ◌%◌, ◌^◌, ◌≤◌, ◌≡◌, ◌≢◌, refl, sym, ap, ◌∙◌, subst, some, List, [], ◌∷◌, ◌++◌,
  arith, length, get_elem?, set, same_or_not, inl, inr, lt→ltb,
}
use fgdb.Prelude.Bytes.{le_bytes}
use fgdb.Str.{Str, contents, IsStr}
use fgdb.Wal.Encode.{length-contents}
use fgdb.Disk.{page_size}
use fgdb.Memory.{poke}
use fgdb.Arena.{add_item, KeyMeta, Header, in_memory, Arena, returned, Calls, page_start}
use fgdb.Arena.Page.{image}
use fgdb.Memory.Laws.{Holds, Changes}
use fgdb.Arena.Manager.{headers_alloc_page, headers_push_key}
use fgdb.Arena.Manager.Values.{page_value_set, page_value_get}
use fgdb.Arena.Manager.Stored.{PageOk, Stored, page_value_get-Stored}
use fgdb.Arena.Manager.Set.{IsPushed, HasSlot, pushed, written, written-IsPushed, poke-image}

pub get_elem?-append :
    {A : Type 0} (xs ys : List A) (i : ℕ) (x : A)
    → get_elem? xs i ≡ some x
    → get_elem? (xs ++ ys) i ≡ some x
get_elem?-append [] ys i x e = absurd cc
get_elem?-append (y ∷ xs) ys zero x e = e
get_elem?-append (y ∷ xs) ys (suc i) x e = get_elem?-append xs ys i x e

pub get_elem?-length :
    {A : Type 0} (xs : List A) (y : A) → get_elem? (xs ++ y ∷ []) (length xs) ≡ some y
get_elem?-length [] y = refl
get_elem?-length (x ∷ xs) y = get_elem?-length xs y

-- No other page in memory has the place of page `p` in the arena.
abbrev pub IsAlone : Arena → ℕ → Header → Type 0
IsAlone a p header =
    (q : ℕ) (h : Header)
    → q ≢ p
    → get_elem? a.headers q ≡ some h
    → h.location ≡ in_memory
    → h.arena_id ≢ header.arena_id

-- `page_value_get` reads the bytes `v` and changes nothing.
abbrev pub Reads : Calls → Arena → KeyMeta → List ℕ → Type 0
Reads calls a meta v =
    (value : Str) × ((page_value_get calls a meta ≡ returned (some value, a))
      × (contents value ≡ v))

-- The new key's value.
Stored-new :
    (a a' : Arena) (p key : ℕ) (header : Header) (values : List (List ℕ)) (v : List ℕ)
    → IsPushed a a' p key header values v
    → Stored a' (a'.metas key) v
Stored-new a a' p key header values v is = record {
  header = is.now;
  values = values ++ v ∷ [];
  ok = subst (λ (q : ℕ). PageOk a' q is.now (values ++ v ∷ [])) (sym is.key_page) is.ok;
  is_value =
      subst (λ (i : ℕ). get_elem? (values ++ v ∷ []) i ≡ some v) (sym is.key_id)
        (get_elem?-length values v);
}

-- Where the header that headers_alloc_page gives is there and its place in memory ends before the
-- arena does, `page_value_set` ends.
pub page_value_set-written :
    (calls : Calls) (a a₁ : Arena) (value : Str) (key p : ℕ) (header : Header)
    → headers_alloc_page calls a value.size ≡ returned (p, a₁)
    → get_elem? a₁.headers p ≡ some header
    → HasSlot header
    → IsStr value
    → page_start header.arena_id + header.offset_bytes + (value.size + 2) ≤ length a₁.pages
    → (pages : List ℕ) × ((page_value_set calls a value key
          ≡ returned (p, written a₁ p key header (contents value) pages))
        × (Holds pages (page_start header.arena_id + header.offset_bytes) (image (contents value))
            × Changes a₁.pages pages
                (page_start header.arena_id + header.offset_bytes)
                (length (contents value) + 2)))
unfolding page_value_set headers_push_key add_item
page_value_set-written calls a a₁ value key p header alloc at slot str within =
    let v = contents value in
    let size : length v ≡ value.size = length-contents str in
    let start = page_start header.arena_id + header.offset_bytes in
    let (pages₁, (pages, (is_size, (is_bytes, (holds, changes))))) =
      poke-image a₁.pages start v (omega (arith, within)) in
    let is_size' : poke a₁.pages start (le_bytes 2 value.size) ≡ some pages₁ =
      subst (λ (n : ℕ). poke a₁.pages start (le_bytes 2 n) ≡ some pages₁) size is_size in
    (
      pages,
      (
        rw (alloc, at, lt→ltb (length header.keys) _ slot)
            (rw (is_size', is_bytes)
              (ap
                (λ (n : ℕ). returned (
                  p,
                  record (written a₁ p key header v pages) {
                    headers = set a₁.headers p (record (pushed header key v) {
                      offset_bytes = (header.offset_bytes + (n + 2)) % 2 ^ 16;
                    });
                  },
                ))
                (sym size))),
        (holds, changes),
      ),
    )

same_header : (h h' : Header) → some h ≡ some h' → h ≡ h'
same_header h h' e = cc

-- A value that was there before.
Stored-old :
    (a a' : Arena) (p key : ℕ) (header : Header) (values : List (List ℕ)) (v : List ℕ)
    (meta : KeyMeta) (w : List ℕ)
    → PageOk a p header values
    → IsAlone a p header
    → ((values' : List (List ℕ)) → PageOk a p header values' → IsPushed a a' p key header values' v)
    → Stored a meta w
    → Stored a' meta w
Stored-old a a' p key header values v meta w ok alone is stored = elim (same_or_not meta.page p) [
  | inl e ↦
      let at-p = subst (λ (q : ℕ). PageOk a q stored.header stored.values) e stored.ok in
      let same = same_header stored.header header (sym at-p.at ∙ ok.at) in
      let now = is stored.values (subst (λ h. PageOk a p h stored.values) same at-p) in
      record {
        header = now.now;
        values = stored.values ++ v ∷ [];
        ok = subst (λ (q : ℕ). PageOk a' q now.now (stored.values ++ v ∷ [])) (sym e) now.ok;
        is_value = get_elem?-append stored.values (v ∷ []) meta.header_key_id w stored.is_value;
      }
  | inr ne ↦ record {
    header = stored.header;
    values = stored.values;
    ok =
        (is values ok).other_pages meta.page stored.header stored.values ne
          (alone meta.page stored.header ne stored.ok.at stored.ok.in_arena) stored.ok;
    is_value = stored.is_value;
  }
]

-- Where headers_alloc_page gives a page in memory whose header is laid out, has room for the size
-- and the bytes, shares its place with no other page in memory, and has a vector of keys whose
-- block has room for one more, page_value_set of a well-formed value ends, page_value_get of the
-- key then reads the value, and of any other key what stood there before.
pub page_value_get-page_value_set :
    (calls calls' : Calls) (a a₁ : Arena) (value : Str) (key p : ℕ) (header : Header)
    (values : List (List ℕ))
    → headers_alloc_page calls a value.size ≡ returned (p, a₁)
    → PageOk a₁ p header values
    → header.page_id ≡ p
    → IsAlone a₁ p header
    → HasSlot header
    → IsStr value
    → header.offset_bytes + (value.size + 2) ≤ page_size
    → (a' : Arena) × ((page_value_set calls a value key ≡ returned (p, a'))
        × (Reads calls' a' (a'.metas key) (contents value)
            × ((meta : KeyMeta) (w : List ℕ) → Stored a₁ meta w → Reads calls' a' meta w)))
page_value_get-page_value_set calls calls' a a₁ value key p header values alloc ok own alone slot
      str room =
    let (pages, (ends, (holds, changes))) =
      page_value_set-written calls a a₁ value key p header alloc ok.at slot str
        (omega (arith, ok.within)) in
    let size : length (contents value) ≡ value.size = length-contents str in
    let is : (values' : List (List ℕ))
        → PageOk a₁ p header values'
        → IsPushed a₁ (written a₁ p key header (contents value) pages) p key header values'
            (contents value) =
      λ values' ok'.
        written-IsPushed a₁ p key header values' (contents value) pages ok' own (omega arith) holds
          changes in
    let a' = written a₁ p key header (contents value) pages in
    (
      a',
      (
        ends,
        (
          page_value_get-Stored calls' a' (a'.metas key) (contents value)
              (Stored-new a₁ a' p key header values (contents value) (is values ok)),
          λ meta w stored.
              page_value_get-Stored calls' a' meta w
                (Stored-old a₁ a' p key header values (contents value) meta w ok alone is stored),
        ),
      ),
    )
