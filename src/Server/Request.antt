-- ===== src/Server/Request.antt =====
-- Requests: src/server/request.h and src/server/request.c. A request is driven by callbacks of the
-- event loop; what `recv` and `send` return is an argument, and so are the msgpack library
-- (`unpack`) and what `malloc` returns.
pub mod Parse
pub mod Reply
use fgdb.Prelude.{
  ℕ, ◌+◌, ◌-◌, ◌*◌, ◌%◌, ◌^◌, ◌≤◌, ◌<◌, ◌≡◌, Bool, Option, none, some, List, [], ◌∷◌, ◌++◌, ltb,
  ◌==◌, if◌then◌else◌, length, take, drop, replicate, min,
}
use fgdb.Prelude.Bytes.{of_le_bytes}
use fgdb.Str.{Str}
use fgdb.Server.Buffer.{Buffer, copy_to, init_buffer, buffer_push, buffer_free, buffer_left}
use fgdb.Server.Message.{Msg, init_message, message_set, message_command}
use fgdb.Server.Msgpack.{
  Object, positive_integer, str, bin, array, map, other, Objects, nil, cons, Pairs, end, pair,
  Unpacked, success, incomplete, parse_error,
}

pub data State : Type 0 where
  init read write parse service : State

-- The fields that the callbacks change.
pub record Request : Type 0 where
  pub state : State
  pub buf : Option Buffer
  pub msg : Option Msg

-- One `recv` or `send`: bytes received, a number of bytes sent; EAGAIN or EINTR; another error.
pub data Recv : Type 0 where
  received : List ℕ → Recv
  recv_again : Recv
  recv_failed : Recv

pub data Send : Type 0 where
  sent : ℕ → Send
  send_again : Send
  send_failed : Send

-- A callback returns and waits for the next event, destroys the request, or hands it to the
-- server's `on_request`.
pub data Step : Type 0 where
  waits : Request → Step
  destroyed : Step
  submitted : Request → Step

abbrev pub max_message_size : ℕ
max_message_size = 10240

-- The local array of 1024 bytes of which `recv` fills at most 1023.
abbrev pub chunk_size : ℕ
chunk_size = 1024

abbrev pub chunk : List ℕ → List ℕ
chunk bytes = bytes ++ replicate (chunk_size - length bytes) 0

abbrev pub msg_len : List ℕ → ℕ
msg_len bytes = of_le_bytes (take 4 (chunk bytes))

abbrev pub bytes_to_copy : List ℕ → ℕ
bytes_to_copy bytes = if ltb (msg_len bytes) (length bytes) then msg_len bytes else length bytes

-- `parse_command`
unfoldable pub parse_command : Msg → Object → Option Msg
parse_command msg (positive_integer n) = some (message_command msg n)
parse_command msg (str s) = none
parse_command msg (bin s) = none
parse_command msg (array os) = none
parse_command msg (map ps) = none
parse_command msg other = none

-- The bytes of a string or binary object.
abbrev pub raw : Object → Option (List ℕ)
raw (str s) = some s
raw (bin s) = some s
raw (positive_integer n) = none
raw (array os) = none
raw (map ps) = none
raw other = none

abbrev pub key_only : Msg → List ℕ → Msg
key_only msg s = record msg { key = message_set s (length s); val = message_set [] 0 }

abbrev pub key_and_val : Msg → Option (List ℕ) → Option (List ℕ) → Option Msg
key_and_val msg (some k) (some v) =
    some (record msg { key = message_set k (length k); val = message_set v (length v) })
key_and_val msg (some k) none = none
key_and_val msg none v = none

-- `parse_data`; `msg` is the message that `init_message` allocates. Of a map the first pair is read.
unfoldable pub parse_data : Msg → Object → Option Msg
parse_data msg (str s) = some (key_only msg s)
parse_data msg (bin s) = some (key_only msg s)
parse_data msg (map end) = none
parse_data msg (map (pair k v rest)) = key_and_val msg (raw k) (raw v)
parse_data msg (positive_integer n) = none
parse_data msg (array os) = none
parse_data msg other = none

-- The data is parsed before the command.
abbrev pub parse_pair : Msg → Object → Object → Option Msg
parse_pair memory command data' = elim (parse_data (init_message memory) data') [
  | none ↦ none
  | some msg ↦ parse_command msg command
]

-- An array of two objects.
unfoldable pub parse_object : Msg → Object → Option Msg
parse_object memory (array (cons command (cons data' nil))) = parse_pair memory command data'
parse_object memory (array (cons command (cons data' (cons o rest)))) = none
parse_object memory (array (cons command nil)) = none
parse_object memory (array nil) = none
parse_object memory (positive_integer n) = none
parse_object memory (str s) = none
parse_object memory (bin s) = none
parse_object memory (map ps) = none
parse_object memory other = none

abbrev pub submit : Buffer → Option Msg → Step
submit buf none = destroyed
submit buf (some msg) =
    submitted (record { state = service; buf = some (buffer_free buf); msg = some msg })

abbrev pub parse_unpacked : Msg → Buffer → Unpacked → Step
parse_unpacked memory buf parse_error = destroyed
parse_unpacked memory buf incomplete = destroyed
parse_unpacked memory buf (success o) = submit buf (parse_object memory o)

-- `recv` into the block at `end`: `used` grows and `end` stays.
abbrev pub filled : Buffer → List ℕ → Buffer
filled buf bytes = record buf {
  block = copy_to buf.block buf.end bytes;
  used = (buf.used + length bytes) % 2 ^ 64;
}

module _ (unpack : List ℕ → Unpacked) (memory : Msg) where
  -- `case PARSE`: the library is given `used` bytes from `start` on.
  unfoldable pub parse_parse : Buffer → Step
  parse_parse buf = parse_unpacked memory buf (unpack (take buf.used (drop buf.start buf.block)))

  -- Behind the `recv` of `case READ`: no byte, or no room left, leads on to PARSE.
  unfoldable pub parse_filled : List ℕ → Buffer → Step
  parse_filled bytes buf =
      if length bytes == 0
      then parse_parse buf
      else if buffer_left buf == 0
      then parse_parse buf
      else waits (record { state = read; buf = some buf; msg = none })

  abbrev pub read_recv : Buffer → Recv → Step
  read_recv buf (received bytes) = parse_filled bytes (filled buf bytes)
  read_recv buf recv_again = waits (record { state = read; buf = some buf; msg = none })
  read_recv buf recv_failed = destroyed

  -- `case READ`
  unfoldable pub parse_read : Buffer → Recv → Step
  parse_read buf recv = if ltb 0 (buffer_left buf) then read_recv buf recv else parse_parse buf

  abbrev pub init_push : List ℕ → List ℕ → Recv → Option Buffer → Step
  init_push beyond bytes recv none = destroyed
  init_push beyond bytes recv (some buf) =
      elim (buffer_push buf (drop 4 (chunk bytes) ++ beyond) (bytes_to_copy bytes)) [
        | none ↦ parse_read buf recv
        | some buf' ↦ parse_read buf' recv
      ]

  -- `case INIT` with the first chunk received; `beyond` is what lies behind the array.
  unfoldable pub parse_init : Option (List ℕ) → List ℕ → List ℕ → Recv → Step
  parse_init block beyond bytes recv =
      if ltb max_message_size (msg_len bytes)
      then destroyed
      else init_push beyond bytes recv (init_buffer block (msg_len bytes))

  abbrev pub parse_buffered : (Buffer → Step) → Option Buffer → Step
  parse_buffered k none = destroyed
  parse_buffered k (some buf) = k buf

  -- `parse_request`: a call makes up to two calls of `recv`, since the cases fall through.
  unfoldable pub parse_request : Option (List ℕ) → List ℕ → Request → Recv → Recv → Step
  parse_request block beyond req recv recv' = elim req.state [
    | init ↦ elim recv [
      | received bytes ↦ parse_init block beyond bytes recv'
      | recv_again ↦ waits req
      | recv_failed ↦ destroyed
    ]
    | read ↦ parse_buffered (λ buf. parse_read buf recv) req.buf
    | parse ↦ parse_buffered (λ buf. parse_parse buf) req.buf
    | write ↦ destroyed
    | service ↦ destroyed
  ]

-- `request_reply`, given the bytes that `serialize_reply` makes of a reply.
unfoldable pub request_reply : Option (List ℕ) → Request → List ℕ → Step
request_reply block req bytes = elim (init_buffer block (length bytes)) [
  | none ↦ destroyed
  | some buf ↦ elim (buffer_push buf bytes (length bytes)) [
    | none ↦ waits (record req { state = write; buf = some buf })
    | some buf' ↦ waits (record req { state = write; buf = some buf' })
  ]
]

abbrev pub write_sent : Request → Buffer → Send → Step
write_sent req buf (sent n) = waits (record req {
  buf = some (record buf { start = buf.start + n; used = (buf.used + (2 ^ 64 - n)) % 2 ^ 64 });
})
write_sent req buf send_again = waits req
write_sent req buf send_failed = destroyed

abbrev pub write_buffer : Request → Option Buffer → Send → Step
write_buffer req none send = destroyed
write_buffer req (some buf) send = if buf.used == 0 then destroyed else write_sent req buf send

-- `write_reply`
unfoldable pub write_reply : Request → Send → Step
write_reply req send = elim req.state [
  | write ↦ write_buffer req req.buf send
  | init ↦ destroyed
  | read ↦ destroyed
  | parse ↦ destroyed
  | service ↦ destroyed
]
