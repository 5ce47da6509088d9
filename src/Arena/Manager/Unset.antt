-- ===== src/Arena/Manager/Unset.antt =====
-- `page_value_unset`: the value it returns, and the values of the page's other keys.
use fgdb.Prelude.{
  ℕ, zero, suc, ◌+◌, ◌-◌, ◌%◌, ◌^◌, ◌≤◌, ◌<◌, ◌≡◌, ◌≢◌, refl, ap, ◌∙◌, subst, some, List, [], ◌∷◌,
  ◌++◌, arith, length, get_elem?, take, drop, ==_refl, ==_of_ne,
}
use fgdb.Arena.{KeyMeta, HeaderKey}
use fgdb.Arena.Page.{Laid}
use fgdb.Arena.Manager.{with_meta}
use fgdb.Arena.Manager.Values.{renumber}

-- The list without its element `i`.
abbrev pub without : {A : Type 0} → ℕ → List A → List A
without i xs = take i xs ++ drop (suc i) xs

Laid-weaken :
    (mem : List ℕ) (start limit base base' : ℕ) (keys : List HeaderKey) (values : List (List ℕ))
    → base' ≤ base
    → Laid mem start limit base keys values
    → Laid mem start limit base' keys values
unfolding Laid
Laid-weaken mem start limit base base' [] [] le h = omega arith
Laid-weaken mem start limit base base' [] (v ∷ values) le h = elim h [ ]
Laid-weaken mem start limit base base' (k ∷ keys) [] le h = elim h [ ]
Laid-weaken mem start limit base base' (k ∷ keys) (v ∷ values) le (le', holds, small, rest) =
    (omega arith, holds, small, rest)

-- A page with one key less is laid out still.
pub Laid-without :
    (mem : List ℕ) (start limit base : ℕ) (keys : List HeaderKey) (values : List (List ℕ)) (i : ℕ)
    → Laid mem start limit base keys values
    → Laid mem start limit base (without i keys) (without i values)
unfolding Laid
Laid-without mem start limit base [] [] zero h = h
Laid-without mem start limit base [] [] (suc i) h = h
Laid-without mem start limit base [] (v ∷ values) i h = elim h [ ]
Laid-without mem start limit base (k ∷ keys) [] i h = elim h [ ]
Laid-without mem start limit base (k ∷ keys) (v ∷ values) zero (le, holds, small, rest) =
    Laid-weaken mem start limit (k.offset + (length v + 2)) base keys values (omega arith) rest
Laid-without mem start limit base (k ∷ keys) (v ∷ values) (suc i) (le, holds, small, rest) =
    (le, holds, small, Laid-without mem start limit (k.offset + (length v + 2)) keys values i rest)

-- Each `key_meta_t` of the keys holds the page and the key's place, from `base` on.
abbrev pub Numbered : (ℕ → KeyMeta) → ℕ → ℕ → List HeaderKey → Type 0
Numbered metas p base [] = Unit
Numbered metas p base (k ∷ keys) =
    ((metas k.key_meta_ptr).header_key_id ≡ base)
    × ((metas k.key_meta_ptr).page ≡ p)
    × Numbered metas p (base + 1) keys

pub Numbered-get_elem? :
    (metas : ℕ → KeyMeta) (p base : ℕ) (keys : List HeaderKey) (j : ℕ) (k : HeaderKey)
    → Numbered metas p base keys
    → get_elem? keys j ≡ some k
    → ((metas k.key_meta_ptr).header_key_id ≡ base + j) × ((metas k.key_meta_ptr).page ≡ p)
Numbered-get_elem? metas p base [] j k h e = absurd cc
Numbered-get_elem? metas p base (k' ∷ keys) zero k (id, page, rest) e =
    let is : k' ≡ k = cc in (rw (← is, id) (omega arith), rw (← is) page)
Numbered-get_elem? metas p base (k' ∷ keys) (suc j) k (id, page, rest) e =
    let (id', page') = Numbered-get_elem? metas p (base + 1) keys j k rest e in (omega arith, page')

-- Numbers that `m` is not among.
Numbered-with_meta :
    (metas : ℕ → KeyMeta) (p base : ℕ) (keys : List HeaderKey) (m : ℕ) (meta : KeyMeta)
    → Numbered metas p base keys
    → (metas m).header_key_id < base
    → Numbered (with_meta metas m meta) p base keys
Numbered-with_meta metas p base [] m meta h lt = tt
Numbered-with_meta metas p base (k ∷ keys) m meta (id, page, rest) lt =
    let other : k.key_meta_ptr ≢ m = λ e.
      let e' : (metas k.key_meta_ptr).header_key_id ≡ (metas m).header_key_id =
        ap (λ (x : ℕ). (metas x).header_key_id) e in
      absurd (omega arith) in
    (
      rw (==_of_ne k.key_meta_ptr m other) id,
      rw (==_of_ne k.key_meta_ptr m other) page,
      Numbered-with_meta metas p (base + 1) keys m meta rest (omega arith),
    )

abbrev lower : KeyMeta → KeyMeta
lower meta = record meta { header_key_id = (meta.header_key_id + (2 ^ 16 - 1)) % 2 ^ 16 }

abbrev lowered : (ℕ → KeyMeta) → HeaderKey → ℕ → KeyMeta
lowered metas k = with_meta metas k.key_meta_ptr (lower (metas k.key_meta_ptr))

-- A block whose number is below those of the keys stays as it is.
pub renumber-below :
    (keys : List HeaderKey) (metas : ℕ → KeyMeta) (p base m : ℕ)
    → Numbered metas p base keys
    → (metas m).header_key_id < base
    → renumber keys metas m ≡ metas m
unfolding renumber
renumber-below [] metas p base m h lt = refl
renumber-below (k ∷ keys) metas p base m (id, page, rest) lt =
    let other : m ≢ k.key_meta_ptr = λ e.
      let e' : (metas m).header_key_id ≡ (metas k.key_meta_ptr).header_key_id =
        ap (λ (x : ℕ). (metas x).header_key_id) e in
      absurd (omega arith) in
    let metas' = lowered metas k in
    let same : metas' m ≡ metas m = rw (==_of_ne m k.key_meta_ptr other) refl in
    renumber-below keys metas' p (base + 1) m
      (Numbered-with_meta metas p (base + 1) keys k.key_meta_ptr _ rest (omega arith))
      (let lt' : (metas' m).header_key_id < base + 1 = rw same (omega arith) in lt')
    ∙ same

-- A block of one of the keys has its number lowered by one.
pub renumber-at :
    (keys : List HeaderKey) (metas : ℕ → KeyMeta) (p base j : ℕ) (k : HeaderKey)
    → Numbered metas p base keys
    → get_elem? keys j ≡ some k
    → 0 < base
    → base + j < 2 ^ 16
    → ((renumber keys metas k.key_meta_ptr).header_key_id + 1 ≡ base + j)
      × ((renumber keys metas k.key_meta_ptr).page ≡ p)
unfolding renumber
renumber-at [] metas p base j k h e pos small = absurd cc
renumber-at (k' ∷ keys) metas p base zero k (id, page, rest) e pos small =
    let is : k' ≡ k = cc in
    let metas' = lowered metas k' in
    let here : metas' k'.key_meta_ptr ≡ lower (metas k'.key_meta_ptr) =
      rw (==_refl k'.key_meta_ptr) refl in
    let below : renumber keys metas' k'.key_meta_ptr ≡ metas' k'.key_meta_ptr =
      renumber-below keys metas' p (base + 1) k'.key_meta_ptr
        (Numbered-with_meta metas p (base + 1) keys k'.key_meta_ptr _ rest (omega arith))
        (let lt : (metas' k'.key_meta_ptr).header_key_id < base + 1 = rw here (omega arith) in
          lt) in
    rw (← is, below, here) (omega arith, page)
renumber-at (k' ∷ keys) metas p base (suc j) k (id, page, rest) e pos small =
    let (id', page') = Numbered-get_elem? metas p (base + 1) keys j k rest e in
    let (id'', page'') =
      renumber-at keys (lowered metas k') p (base + 1) j k
        (Numbered-with_meta metas p (base + 1) keys k'.key_meta_ptr _ rest (omega arith)) e
        (omega arith) (omega arith) in
    (omega arith, page'')

pub Numbered-drop :
    (metas : ℕ → KeyMeta) (p n base base' : ℕ) (keys : List HeaderKey)
    → base + n ≡ base'
    → Numbered metas p base keys
    → Numbered metas p base' (drop n keys)
Numbered-drop metas p zero base base' keys e h =
    let e' : base ≡ base' = omega arith in subst (λ (b : ℕ). Numbered metas p b keys) e' h
Numbered-drop metas p (suc n) base base' [] e h = tt
Numbered-drop metas p (suc n) base base' (k ∷ keys) e (id, page, rest) =
    Numbered-drop metas p n (base + 1) base' keys (omega arith) rest

pub get_elem?-drop :
    {A : Type 0} (xs : List A) (n m k : ℕ) → n + m ≡ k → get_elem? (drop n xs) m ≡ get_elem? xs k
get_elem?-drop xs zero m k e = let e' : m ≡ k = omega arith in rw e'
get_elem?-drop [] (suc n) m k e = refl
get_elem?-drop (x ∷ xs) (suc n) m zero e = absurd (omega arith)
get_elem?-drop (x ∷ xs) (suc n) m (suc k) e = get_elem?-drop xs n m k (omega arith)

-- What stands before the element taken out, and what behind it.
pub get_elem?-without_lt :
    {A : Type 0} (xs : List A) (i j : ℕ) → j < i → get_elem? (without i xs) j ≡ get_elem? xs j
get_elem?-without_lt xs zero j lt = absurd (omega arith)
get_elem?-without_lt [] (suc i) j lt = refl
get_elem?-without_lt (x ∷ xs) (suc i) zero lt = refl
get_elem?-without_lt (x ∷ xs) (suc i) (suc j) lt = get_elem?-without_lt xs i j (omega arith)

pub get_elem?-without_gt :
    {A : Type 0} (xs : List A) (i j : ℕ) → i ≤ j → get_elem? (without i xs) j ≡ get_elem? xs (suc j)
get_elem?-without_gt [] zero j le = refl
get_elem?-without_gt (x ∷ xs) zero j le = refl
get_elem?-without_gt [] (suc i) j le = refl
get_elem?-without_gt (x ∷ xs) (suc i) zero le = absurd (omega arith)
get_elem?-without_gt (x ∷ xs) (suc i) (suc j) le = get_elem?-without_gt xs i j (omega arith)
