-- ===== src/Arena/Manager/Set.antt =====
-- `page_value_set`: what it leaves in the arena.
use fgdb.Prelude.{
  ℕ, zero, suc, ◌+◌, ◌-◌, ◌*◌, ◌%◌, ◌^◌, ◌≤◌, ◌<◌, ◌≡◌, ◌≢◌, refl, sym, ap, ◌∙◌, subst, some, List,
  [], ◌∷◌, ◌++◌, arith, length, get_elem?, set, length-append, get_elem?-set_self, get_elem?-set_ne,
  ==_refl, ==_of_ne, Bool-cases, ltb, ltb→lt, inl, inr,
}
use fgdb.Prelude.Bytes.{le_bytes, length-le_bytes}
use fgdb.Disk.{page_size}
use fgdb.Memory.{poke}
use fgdb.Memory.Laws.{Holds, Changes, Holds-Same, Holds-join, Changes-trans, poke-Holds}
use fgdb.Arena.{KeyMeta, HeaderKey, Header, added_block, in_memory, Arena, page_start}
use fgdb.Arena.Page.{image, Laid, Laid-Same}
use fgdb.Arena.Manager.{with_meta}
use fgdb.Arena.Manager.Stored.{PageOk}

-- The size of a value and its bytes, written one after the other.
pub poke-image :
    (mem : List ℕ) (p : ℕ) (v : List ℕ)
    → p + (length v + 2) ≤ length mem
    → (mem₁ : List ℕ) × ((mem₂ : List ℕ) × ((poke mem p (le_bytes 2 (length v)) ≡ some mem₁)
          × ((poke mem₁ (p + 2) v ≡ some mem₂)
              × (Holds mem₂ p (image v) × Changes mem mem₂ p (length v + 2)))))
poke-image mem p v h =
    let two : length (le_bytes 2 (length v)) ≡ 2 = length-le_bytes 2 (length v) in
    let (mem₁, (is_size, (size, changes))) =
      poke-Holds mem p (le_bytes 2 (length v)) (omega arith) in
    let (mem₂, (is_bytes, (bytes, changes'))) =
      poke-Holds mem₁ (p + 2) v (omega (arith, changes.size)) in
    let kept =
      Holds-Same mem₁ mem₂ p (le_bytes 2 (length v)) size changes'.size
        (changes'.before p (length (le_bytes 2 (length v))) (omega arith)) in
    (
      mem₁,
      (
        mem₂,
        (
          is_size,
          (
            is_bytes,
            (
              Holds-join mem₂ p (p + 2) (le_bytes 2 (length v)) v (omega arith) kept bytes,
              Changes-trans mem mem₁ mem₂ p (length v + 2) p (length (le_bytes 2 (length v)))
                  (p + 2) (length v) (omega arith) (omega arith) (omega arith) (omega arith) changes
                  changes',
            ),
          ),
        ),
      ),
    )

-- A value behind the others.
Laid-push :
    (mem : List ℕ) (start limit base : ℕ) (keys : List HeaderKey) (values : List (List ℕ))
    (k : HeaderKey) (v : List ℕ)
    → Laid mem start limit base keys values
    → k.offset ≡ limit
    → Holds mem (start + limit) (image v)
    → length v < 2 ^ 16
    → Laid mem start (limit + (length v + 2)) base (keys ++ k ∷ []) (values ++ v ∷ [])
unfolding Laid
Laid-push mem start limit base [] [] k v laid e holds small = (
  omega arith,
  subst (λ (o : ℕ). Holds mem (start + o) (image v)) (sym e) holds,
  small,
  omega arith,
)
Laid-push mem start limit base [] (w ∷ values) k v laid e holds small = elim laid [ ]
Laid-push mem start limit base (k' ∷ keys) [] k v laid e holds small = elim laid [ ]
Laid-push mem start limit base (k' ∷ keys) (w ∷ values) k v (le, there, fits, rest) e holds small =
    (
      le,
      there,
      fits,
      Laid-push mem start limit (k'.offset + (length w + 2)) keys values k v rest e holds small,
    )

-- As many keys as values, and few enough for a `uint16_t` on a page.
pub length-Laid :
    (mem : List ℕ) (start limit base : ℕ) (keys : List HeaderKey) (values : List (List ℕ))
    → Laid mem start limit base keys values
    → (length keys ≡ length values) × (base + 2 * length keys ≤ limit)
unfolding Laid
length-Laid mem start limit base [] [] h = (refl, omega arith)
length-Laid mem start limit base [] (w ∷ values) h = elim h [ ]
length-Laid mem start limit base (k ∷ keys) [] h = elim h [ ]
length-Laid mem start limit base (k ∷ keys) (w ∷ values) (le, there, fits, rest) =
    let (same, few) = length-Laid mem start limit (k.offset + (length w + 2)) keys values rest in
    (ap suc same, omega arith)

-- A page that does not meet the bytes changed.
pub PageOk-other :
    (a a' : Arena) (q : ℕ) (h : Header) (values : List (List ℕ)) (arena_id offset n : ℕ)
    → PageOk a q h values
    → get_elem? a'.headers q ≡ some h
    → Changes a.pages a'.pages (page_start arena_id + offset) n
    → offset + n ≤ page_size
    → h.arena_id ≢ arena_id
    → PageOk a' q h values
PageOk-other a a' q h values arena_id offset n ok at changes inside ne = record {
  at = at;
  in_arena = ok.in_arena;
  laid =
      Laid-Same a.pages a'.pages (page_start h.arena_id) h.offset_bytes 0 h.keys values changes.size
        (λ x m from to. elim (Bool-cases (ltb h.arena_id arena_id)) [
          | inl lt ↦
              let lt' : h.arena_id < arena_id = ltb→lt h.arena_id arena_id lt in
              changes.before x m (omega (arith, ok.fits))
          | inr le ↦
              let gt : arena_id < h.arena_id = ground arith in changes.behind x m (omega arith)
        ])
        ok.laid;
  fits = ok.fits;
  within = omega (arith, ok.within, changes.size);
}

-- The arena behind `page_value_set`, whose header `p` had `header` and `values`.
pub record IsPushed (a a' : Arena) (p key : ℕ) (header : Header) (values : List (List ℕ))
    (v : List ℕ) : Type 0 where
  pub now : Header
  pub ok : PageOk a' p now (values ++ v ∷ [])
  pub key_page : (a'.metas key).page ≡ p
  pub key_id : (a'.metas key).header_key_id ≡ length values
  pub other_metas : (m : ℕ) → m ≢ key → a'.metas m ≡ a.metas m
  pub other_pages :
      (q : ℕ) (h : Header) (ws : List (List ℕ))
      → q ≢ p
      → h.arena_id ≢ header.arena_id
      → PageOk a q h ws
      → PageOk a' q h ws

with_meta_self : (metas : ℕ → KeyMeta) (m : ℕ) (meta : KeyMeta) → with_meta metas m meta m ≡ meta
with_meta_self metas m meta = rw (==_refl m) refl

pub get_elem?-some :
    {A : Type 0} (xs : List A) (i : ℕ) (x : A) → get_elem? xs i ≡ some x → i < length xs
get_elem?-some [] i x e = absurd cc
get_elem?-some (y ∷ xs) zero x e = omega arith
get_elem?-some (y ∷ xs) (suc i) x e = let h = get_elem?-some xs i x e in omega arith

-- The block of the keys has room for one more, as it is or with the capacity that it grows to.
abbrev pub HasSlot : Header → Type 0
HasSlot header = length header.keys < (added_block header.keys_block (length header.keys)).room

-- The header with a key for `v` behind its values.
abbrev pub pushed : Header → ℕ → List ℕ → Header
pushed header key v = record header {
  keys = header.keys ++ record { offset = header.offset_bytes % 2 ^ 16; key_meta_ptr = key } ∷ [];
  keys_block = added_block header.keys_block (length header.keys);
  location = in_memory;
  offset_bytes = (header.offset_bytes + (length v + 2)) % 2 ^ 16;
}

-- What `page_value_set` does to the arena when the header is chosen.
abbrev pub written : Arena → ℕ → ℕ → Header → List ℕ → List ℕ → Arena
written a p key header v pages =
    let id = length (pushed header key v).keys - 1 in
    let metas₁ = with_meta a.metas key (record (a.metas key) { header_key_id = id % 2 ^ 16 }) in
    record a {
      headers = set a.headers p (pushed header key v);
      pages = pages;
      metas = with_meta metas₁ key (record (metas₁ key) { page = header.page_id });
    }

pub written-IsPushed :
    (a : Arena) (p key : ℕ) (header : Header) (values : List (List ℕ)) (v pages : List ℕ)
    → PageOk a p header values
    → header.page_id ≡ p
    → header.offset_bytes + (length v + 2) ≤ page_size
    → Holds pages (page_start header.arena_id + header.offset_bytes) (image v)
    → Changes a.pages pages (page_start header.arena_id + header.offset_bytes) (length v + 2)
    → IsPushed a (written a p key header v pages) p key header values v
written-IsPushed a p key header values v pages ok own room holds changes =
    let here = get_elem?-some a.headers p header ok.at in
    let start = page_start header.arena_id in
    let kept =
      Laid-Same a.pages pages start header.offset_bytes 0 header.keys values changes.size
        (λ q m from to. changes.before q m to) ok.laid in
    let (same, few) = length-Laid a.pages start header.offset_bytes 0 header.keys values ok.laid in
    let wrap : header.offset_bytes % 2 ^ 16 ≡ header.offset_bytes = omega arith in
    let wrap' : (header.offset_bytes + (length v + 2)) % 2 ^ 16
        ≡ header.offset_bytes + (length v + 2) =
      omega arith in
    let id : (length (pushed header key v).keys - 1) % 2 ^ 16 ≡ length values = omega (
      arith,
      length-append {0} header.keys
          (record { offset = header.offset_bytes % 2 ^ 16; key_meta_ptr = key } ∷ []),
    ) in
    record {
      now = pushed header key v;
      ok = record {
        at = get_elem?-set_self a.headers p (pushed header key v) here;
        in_arena = refl;
        laid = rw wrap' (
            Laid-push pages start header.offset_bytes 0 header.keys values _ v kept wrap holds
              (omega arith));
        fits = rw wrap' room;
        within = omega (arith, ok.within, changes.size);
      };
      key_page = rw (==_refl key) own;
      key_id = rw (==_refl key) id;
      other_metas = λ m ne. rw (==_of_ne m key ne) refl;
      other_pages = λ q h ws ne apart okq.
          PageOk-other a (written a p key header v pages) q h ws header.arena_id header.offset_bytes
            (length v + 2) okq
            (get_elem?-set_ne a.headers (pushed header key v) (λ e. ne (sym e)) ∙ okq.at) changes
            room apart;
    }
