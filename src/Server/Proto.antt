-- ===== src/Server/Proto.antt =====
-- Replies: src/server/proto.h and src/server/proto.c. What the msgpack library makes of the items is
-- not modelled: a reply is serialized to the items that are packed.
use fgdb.Prelude.{ℕ, List, [], ◌∷◌, ◌==◌, ◌||◌, if◌then◌else◌}
use fgdb.Str.{Str, contents}
use fgdb.Server.Message.{peek, select, insert, update, delete}

-- `enum proto_reply_code_t`
abbrev pub ok_code : ℕ
ok_code = 0

abbrev pub error_code : ℕ
error_code = 1

abbrev pub fatal_code : ℕ
fatal_code = 2

-- `enum proto_reply_error_t`
abbrev pub proto_error_unknown : ℕ
proto_error_unknown = 0

abbrev pub proto_error_value_required : ℕ
proto_error_value_required = 2

-- `enum fgdb_code_t`
abbrev pub code_ok : ℕ
code_ok = 0

abbrev pub key_exists : ℕ
key_exists = 1

abbrev pub key_not_found : ℕ
key_not_found = 2

-- `word` is the union of `fatal`, `err` and `cmd`.
pub record Reply : Type 0 where
  pub code : ℕ
  pub word : ℕ
  pub val : Str

-- One call of the packer.
pub data Item : Type 0 where
  array : ℕ → Item
  int : ℕ → Item
  bin : List ℕ → Item

-- The second item of a reply with REPLY_OK, by its command.
unfoldable pub pack_ok : Reply → List Item
pack_ok reply =
    if reply.word == peek || reply.word == insert || reply.word == update
    then int code_ok ∷ []
    else if reply.word == select || reply.word == delete
    then bin (contents reply.val) ∷ []
    else []

unfoldable pub serialize_reply : Reply → List Item
serialize_reply reply =
    array 2
    ∷ int reply.code
    ∷ (if reply.code == ok_code
        then pack_ok reply
        else if reply.code == error_code
        then int reply.word ∷ []
        else if reply.code == fatal_code
        then int reply.word ∷ []
        else [])
