-- ===== src/Server/Tests.antt =====
-- Runs of the buffer, the messages and the parser of requests on concrete bytes.
use fgdb.Prelude.{All, ℕ, ◌+◌, ◌≢◌, ◌≡◌, some, none, List, [], ◌∷◌, ◌++◌, take, length, arith}
use fgdb.Str.{Str, IsStr}
use fgdb.Str as S
use fgdb.Server.Buffer.{Buffer, buffer_push, buffer_shift, buffer_left}
use fgdb.Server.Buffer.Deque.{
  contents, IsBuffer, buffer_push-append, buffer_push_full, buffer_shift-append, buffer_left-add,
}
use fgdb.Server.Message.{Msg, message_set}
use fgdb.Server.Message.Set.{message_set-take}
use fgdb.Server.Msgpack.{array, positive_integer, str, cons, nil, Unpacked, success, incomplete}
use fgdb.Server.Request.{
  Request, service, sent, send_again, waits, destroyed, request_reply, received, parse_unpacked,
  parse_request, recv_again,
}
use fgdb.Server.Request.Reply.{write_replies, request_reply-Delivers}
use fgdb.Server.Request.Parse.{framed, start, parse_request_whole}

abbrev three : Buffer
three = record {
  total = 8;
  used = 3;
  start = 2;
  end = 5;
  block = 9 ∷ 8 ∷ 1 ∷ 2 ∷ 3 ∷ 0 ∷ 0 ∷ 0 ∷ [];
}

three-IsBuffer : IsBuffer three
three-IsBuffer = omega arith

buffer_push-append_example :
    (b' : Buffer) × (buffer_push three (4 ∷ 5 ∷ 6 ∷ []) 2 ≡ some b')
    × IsBuffer b'
    × (contents b' ≡ 1 ∷ 2 ∷ 3 ∷ 4 ∷ 5 ∷ [])
    × (b'.total ≡ 8)
buffer_push-append_example =
    buffer_push-append three-IsBuffer 2 (4 ∷ 5 ∷ 6 ∷ []) (omega arith) (omega arith)

buffer_push_full_example : buffer_push three (4 ∷ 5 ∷ 6 ∷ 7 ∷ []) 4 ≡ none
buffer_push_full_example = buffer_push_full three-IsBuffer 4 (4 ∷ 5 ∷ 6 ∷ 7 ∷ []) (omega arith)

buffer_shift-append_example :
    (out : List ℕ) × (b' : Buffer) × (buffer_shift three 2 ≡ some (out, b'))
    × IsBuffer b'
    × (length out ≡ 2)
    × (1 ∷ 2 ∷ 3 ∷ [] ≡ out ++ contents b')
buffer_shift-append_example = buffer_shift-append three-IsBuffer 2 (omega arith)

buffer_left-add_example : buffer_left three + 3 ≡ 8
buffer_left-add_example = buffer_left-add three-IsBuffer

no_zero : All (λ (c : ℕ). c ≢ 0) (take 2 (97 ∷ 98 ∷ 99 ∷ []))
no_zero = (omega arith, (omega arith, tt))

message_set-take_example :
    IsStr (message_set (97 ∷ 98 ∷ 99 ∷ []) 2)
    × (S.contents (message_set (97 ∷ 98 ∷ 99 ∷ []) 2) ≡ 97 ∷ 98 ∷ [])
message_set-take_example =
    message_set-take (97 ∷ 98 ∷ 99 ∷ []) 2 (omega arith) (omega arith) no_zero

-- A msgpack library that reads one message.
abbrev unpack : List ℕ → Unpacked
unpack [] = incomplete
unpack (c ∷ bytes) = success (array (cons (positive_integer c) (cons (str bytes) nil)))

abbrev memory : Msg
memory = record {
  cmd = 0;
  key = record { size = 0; ptr = none };
  val = record { size = 0; ptr = none };
}

parse_request_whole_example :
    (b : Buffer) × (parse_request unpack memory
        (some (0 ∷ 0 ∷ 0 ∷ 0 ∷ []))
        []
        start
        (received (framed 3 (1 ∷ 97 ∷ 98 ∷ [])))
        recv_again
      ≡ parse_unpacked memory b (unpack (1 ∷ 97 ∷ 98 ∷ [])))
    × (contents b ≡ 1 ∷ 97 ∷ 98 ∷ [])
parse_request_whole_example =
    parse_request_whole unpack memory (0 ∷ 0 ∷ 0 ∷ 0 ∷ []) [] (1 ∷ 97 ∷ 98 ∷ []) recv_again
      (omega arith) (omega arith)

abbrev answered : Request
answered = record { state = service; buf = none; msg = none }

-- Three bytes go out in two portions, and one event more comes.
request_reply-Delivers_example :
    (req' : Request) × ((request_reply (some (0 ∷ 0 ∷ 0 ∷ [])) answered (1 ∷ 2 ∷ 3 ∷ [])
        ≡ waits req')
      × (write_replies (send_again ∷ sent 2 ∷ sent 1 ∷ send_again ∷ []) req'
          ≡ (1 ∷ 2 ∷ 3 ∷ [], destroyed)))
request_reply-Delivers_example =
    request_reply-Delivers (0 ∷ 0 ∷ 0 ∷ []) (1 ∷ 2 ∷ 3 ∷ []) answered
      (send_again ∷ sent 2 ∷ sent 1 ∷ send_again ∷ []) (omega arith) (omega arith)
      (omega arith, (omega arith, tt))
