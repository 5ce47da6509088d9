-- ===== src/Lru/Tests.antt =====
-- Runs of the queue of pages on headers without links.
use fgdb.Prelude.{◌≡◌, refl, false, some, none}
use fgdb.Lru.{Headers, LruQueue, lru_touch_page}
use fgdb.Lru.Touch.{lru_touch_page_again}

abbrev headers : Headers
headers = λ p. record { lru_next = none; lru_prev = none; processing = false }

abbrev one : LruQueue
one = record { top = some 3; bottom = some 3 }

lru_touch_page_again_example :
    (((lru_touch_page one 3 headers).1 3).lru_next ≡ some 3)
    × (((lru_touch_page one 3 headers).1 3).lru_prev ≡ some 3)
lru_touch_page_again_example = lru_touch_page_again one 3 headers refl
