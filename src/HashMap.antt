-- ===== src/HashMap.antt =====
-- The hash map with AVL buckets: src/lib/hashmap.
pub mod Key
pub mod Avl
pub mod Table
mod Tests
