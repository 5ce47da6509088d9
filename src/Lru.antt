-- ===== src/Lru.antt =====
-- The order in which pages leave the arena: src/lru/lruq.h and src/lru/lruq.c. A page's header is its
-- index, and the links of all headers are a function.
pub mod Touch
mod Tests
use fgdb.Prelude.{ℕ, zero, suc, Bool, Option, none, some, ◌==◌, if◌then◌else◌}

-- `processing` is `state == PAGE_PROCESSING`.
pub record Links : Type 0 where
  pub lru_next : Option ℕ
  pub lru_prev : Option ℕ
  pub processing : Bool

abbrev pub Headers : Type 0
Headers = ℕ → Links

pub record LruQueue : Type 0 where
  pub top : Option ℕ
  pub bottom : Option ℕ

unfoldable pub new_lru_queue : LruQueue
new_lru_queue = record { top = none; bottom = none }

abbrev pub set_links : Headers → ℕ → Links → Headers
set_links hs p links q = if q == p then links else hs q

-- `q->next = p` for a header, nothing for NULL.
abbrev pub set_next : Headers → Option ℕ → Option ℕ → Headers
set_next hs none p = hs
set_next hs (some q) p = set_links hs q (record (hs q) { lru_next = p })

abbrev pub set_prev : Headers → Option ℕ → Option ℕ → Headers
set_prev hs none p = hs
set_prev hs (some q) p = set_links hs q (record (hs q) { lru_prev = p })

abbrev pub or_page : Option ℕ → ℕ → Option ℕ
or_page none p = some p
or_page (some b) p = some b

unfoldable pub lru_touch_page : LruQueue → ℕ → Headers → LruQueue × Headers
lru_touch_page q p hs =
    let hs' = set_links hs p (record (hs p) { lru_prev = q.top; lru_next = none }) in
    (record { top = some p; bottom = or_page q.bottom p }, set_next hs' q.top (some p))

-- The loop that looks for a page that is not being processed, `fuel` rounds of it; `none` is NULL
-- followed or no end within them.
unfoldable pub find_idle : ℕ → LruQueue → Headers → Option ℕ → Option ℕ
find_idle zero q hs lr = none
find_idle (suc fuel) q hs none = none
find_idle (suc fuel) q hs (some p) =
    let rest = find_idle fuel q hs (elim (hs p).lru_next [ none ↦ q.bottom | some n ↦ some n ]) in
    if (hs p).processing then rest else some p

abbrev pub is_page : Option ℕ → ℕ → Bool
is_page none p = Bool.false
is_page (some q) p = q == p

-- Takes page `lr` out.
unfoldable pub unlink : LruQueue → Headers → ℕ → LruQueue × Headers
unlink q hs lr =
    let q' = if is_page q.top lr then record q { top = none } else q in
    if is_page q.bottom lr
    then (record q' { bottom = (hs lr).lru_next }, set_prev hs (hs lr).lru_next none)
    else (
      q',
      let hs' = set_prev hs (hs lr).lru_next (hs lr).lru_prev in
          set_next hs' (hs' lr).lru_prev (hs' lr).lru_next,
    )

unfoldable pub least_recent_page : ℕ → LruQueue → Headers → Option (ℕ × LruQueue × Headers)
least_recent_page fuel q hs = elim (find_idle fuel q hs q.bottom) [
  | none ↦ none
  | some lr ↦ let (q', hs') = unlink q hs lr in some (lr, q', hs')
]
