-- ===== src/Server/Msgpack.antt =====
-- What src/server/request.c reads of the objects of the msgpack library.
use fgdb.Prelude.{ℕ, List}

mutual
  pub data Object : Type 0 where
    positive_integer : ℕ → Object
    str : List ℕ → Object
    bin : List ℕ → Object
    array : Objects → Object
    map : Pairs → Object
    other : Object

  pub data Objects : Type 0 where
    nil : Objects
    cons : Object → Objects → Objects

  pub data Pairs : Type 0 where
    end : Pairs
    pair : Object → Object → Pairs → Pairs

-- The results of `msgpack_unpack_next`; where the bytes end too early the object stays nil, as
-- `msgpack_unpacked_init` has made it.
pub data Unpacked : Type 0 where
  success : Object → Unpacked
  incomplete : Unpacked
  parse_error : Unpacked
