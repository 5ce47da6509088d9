-- ===== src/Lru/Touch.antt =====
-- What `lru_touch_page` does to the links.
use fgdb.Prelude.{ℕ, ◌≡◌, refl, some, ==_refl}
use fgdb.Lru.{Headers, LruQueue, lru_touch_page}

-- A page that is touched when it is the top of the queue already becomes its own successor and
-- predecessor.
pub lru_touch_page_again :
    (q : LruQueue) (p : ℕ) (hs : Headers)
    → q.top ≡ some p
    → (((lru_touch_page q p hs).1 p).lru_next ≡ some p)
      × (((lru_touch_page q p hs).1 p).lru_prev ≡ some p)
unfolding lru_touch_page
lru_touch_page_again q p hs e = rw (e, ==_refl p) (refl, refl)
