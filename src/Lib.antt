-- ===== src/Lib.antt =====
-- FGDB, a key-value database: a server reads requests, a worker carries them out on a hash map and
-- an arena of pages, and every command that changes data is written to a log.
--
-- - Wal: src/wal/wal.h, src/wal/wal.c. A record is encoded by `to_binary`, appended by `write_log`
--   and read back by `recover_transaction`. What the calls of `write` return is an argument, a list
--   with one result for each call.
-- - Server: src/server. `Server.Buffer` is buffer.c, `Server.Message` is message.c, `Server.Request`
--   is request.c, where the callbacks of the event loop are step functions on a request and the
--   msgpack library, `Server.Msgpack`, is an argument.
-- - HashMap: src/lib/hashmap. `HashMap.Key` is Util.c and Hash.c, `HashMap.Avl` is AVLNode.c without
--   the removal of a node; the interface between the two is the record `KeyOrder`. `HashMap.Table` is
--   HashMap.c, where a slot is a tree or a table and the lengths are a function on all numbers.
-- - Vector: src/lib/vector/vector.c. Str: str_t of src/include/common.h, and src/util.c.
-- - Store: src/memory/hashmap.c over `Store`, the calls of the hash map and the pages, of which
--   nothing is assumed.
-- - Operations: src/operations/operations.c over that interface and Wal. `Server.Proto` is proto.c.
-- - Queue: src/transactions/queue.c over `Heap`, the calls of the heap with the laws of its header.
-- - Worker: `on_request` and `transaction_queue_worker` of src/main.c, over Queue and Operations.
-- - Lru: src/lru/lruq.c, with the links of the page headers as a function.
-- - Disk: src/arena/disk.c.
-- - Arena: src/arena/arena.c and src/arena/meta.h; `Arena.Manager` is src/arena/manager.c, whose
--   functions on values are `Arena.Manager.Values`. The pages are one block of memory, `Memory`, a
--   header or a `key_meta_t` is its index, and a vector is the list of its items
--   with the size of its block.
-- - Buddy: src/lib/buddy/memory.c. The array of marks is a function of the position; recursion is on
--   the depth, for which the number of levels is enough.
-- - OsFile: what the code uses of POSIX files, a byte sequence and an offset.
-- - Prelude: lists, bytes and numbers that the parts share.
--
-- Memory is a list of bytes and a pointer an offset or, for a block of its own, the block. Where the
-- code reads or writes outside a block or follows NULL, the result is `none` or a constructor of its
-- own. Machine integers wrap around where the code computes with them. The loops are over lists of
-- results or over numbers that count down; the search of Lru for a page that is not in use, which may
-- not end in the code either, and the loops of Buddy run on fuel.
--
-- Not modelled: the heap of src/lib/heap, a copy of another project's library; logging, sockets and
-- the event loop; deletion in the hash map, new_arena, and db_start, which
-- writes outside the block of a vector at its second page or key.
pub mod Arena
pub mod Buddy
pub mod Disk
pub mod HashMap
pub mod Lru
pub mod Memory
pub mod Operations
pub mod OsFile
pub mod Prelude
pub mod Queue
pub mod Server
pub mod Store
pub mod Str
pub mod Vector
pub mod Wal
pub mod Worker
