-- ===== src/Server/Message.antt =====
-- Messages: src/server/message.h and src/server/message.c.
pub mod Set
use fgdb.Prelude.{
  ℕ, zero, suc, ◌%◌, ◌^◌, none, some, List, [], ◌∷◌, ◌++◌, ◌==◌, if◌then◌else◌, replicate,
}
use fgdb.Str.{Str}

-- `enum msg_command_t`, packed into one byte that a request may fill with any number.
abbrev pub Command : Type 0
Command = ℕ

abbrev pub peek : Command
peek = 1

abbrev pub select : Command
select = 2

abbrev pub insert : Command
insert = 3

abbrev pub update : Command
update = 4

abbrev pub delete : Command
delete = 5

pub record Msg : Type 0 where
  pub cmd : Command
  pub key : Str
  pub val : Str

-- `cmd`, `key.size` and `val.size` are what `malloc` left there; only the pointers are set.
pub init_message : Msg → Msg
init_message memory = record memory {
  key = record { size = memory.key.size; ptr = none };
  val = record { size = memory.val.size; ptr = none };
}

-- The C library's `strncpy(dst, src, n)`: what it writes to `dst`.
abbrev pub strncpy : List ℕ → ℕ → List ℕ
strncpy src zero = []
strncpy [] (suc n) = 0 ∷ strncpy [] n
strncpy (c ∷ src) (suc n) = if c == 0 then 0 ∷ replicate n 0 else c ∷ strncpy src n

-- The old string does not matter: its block is freed or, for size 0, lost.
unfoldable pub message_set : List ℕ → ℕ → Str
message_set src size =
    if size == 0
    then record { size = 0; ptr = none }
    else record { size = size % 2 ^ 16; ptr = some (strncpy src size ++ 0 ∷ []) }

unfoldable pub message_command : Msg → ℕ → Msg
message_command msg num = record msg { cmd = num % 256 }
