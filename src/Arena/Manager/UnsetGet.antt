-- ===== src/Arena/Manager/UnsetGet.antt =====
-- `page_value_get` behind `page_value_unset`.
use fgdb.Prelude.{ℕ, suc, ◌+◌, ◌-◌, ◌%◌, ◌^◌, length, drop}
use fgdb.Str.{Str}
use fgdb.Arena.{Header, dirty, deleted_block, Arena}
use fgdb.Arena.Manager.{set_header}
use fgdb.Arena.Manager.Values.{renumber}
use fgdb.Arena.Manager.Stored.{Stored}
use fgdb.Arena.Manager.Unset.{without}

-- The page's header and the arena without the key `i`, whose value takes `n` bytes.
abbrev removed_header : Header → ℕ → ℕ → Header
removed_header header i n = record header {
  keys = without i header.keys;
  keys_block = deleted_block header.keys_block (length header.keys - 1);
  state = dirty;
  fragmentated_bytes = (header.fragmentated_bytes + n) % 2 ^ 16;
}

abbrev removed : Arena → ℕ → Header → ℕ → ℕ → Arena
removed a p header i n = record (set_header a p (removed_header header i n)) {
  metas = renumber (drop (suc i) header.keys) a.metas;
}
