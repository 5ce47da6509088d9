-- ===== src/Server/Request/Parse.antt =====
-- What `parse_request` makes of a message that comes in one piece, and of one that comes in two.
use fgdb.Prelude.{
  ℕ, ◌+◌, ◌-◌, ◌^◌, ◌≤◌, ◌<◌, ◌≡◌, refl, ap, ◌∙◌, none, some, List, ◌++◌, arith, length, take, drop,
  replicate, append_assoc, take-append, drop-append, length-append, ltb_of_le, lt→ltb,
}
use fgdb.Prelude.Bytes.{le_bytes, length-le_bytes, of_le_bytes-le_bytes}
use fgdb.Server.Buffer.{Buffer, init_buffer, buffer_push, buffer_left}
use fgdb.Server.Buffer.Deque.{
  contents, IsBuffer, buffer_push-append, length-contents, buffer_left-add,
}
use fgdb.Server.Message.{Msg}
use fgdb.Server.Msgpack.{Unpacked}
use fgdb.Server.Request.{
  init_push, Request, init, Recv, received, chunk, chunk_size, msg_len, bytes_to_copy,
  parse_unpacked, parse_parse, parse_read, parse_init, parse_request, max_message_size,
}

-- What a client sends: the length of the payload in four bytes, and the payload.
abbrev pub framed : ℕ → List ℕ → List ℕ
framed n payload = le_bytes 4 n ++ payload

module _ (n : ℕ) (payload : List ℕ) (small : n < 2 ^ 32) where
  msg_len-framed : msg_len (framed n payload) ≡ n
  msg_len-framed =
      rw
        (
          append_assoc (le_bytes 4 n) payload
              (replicate (chunk_size - length (framed n payload)) 0),
          take-append 4 (le_bytes 4 n)
              (payload ++ replicate (chunk_size - length (framed n payload)) 0)
              (length-le_bytes 4 n),
        )
        (of_le_bytes-le_bytes 4 n (omega arith))

  payload-framed :
      drop 4 (chunk (framed n payload))
      ≡ payload ++ replicate (chunk_size - length (framed n payload)) 0
  payload-framed =
      rw
        (append_assoc (le_bytes 4 n) payload (replicate (chunk_size - length (framed n payload)) 0))
        (drop-append 4 (le_bytes 4 n) _ (length-le_bytes 4 n))

  length-framed : length (framed n payload) ≡ 4 + length payload
  length-framed = omega (arith, length-append {0} (le_bytes 4 n) payload, length-le_bytes 4 n)

-- The buffer that holds nothing yet.
abbrev fresh : ℕ → List ℕ → Buffer
fresh n block = record { total = n; used = 0; start = 0; end = 0; block = block }

abbrev pub start : Request
start = record { state = init; buf = none; msg = none }

module _ (unpack : List ℕ → Unpacked) (memory : Msg) (block beyond : List ℕ) where
  -- With nothing left to read, the bytes of the buffer are parsed.
  parse_read_full :
      (b : Buffer) (recv : Recv)
      → IsBuffer b
      → b.used ≡ b.total
      → parse_read unpack memory b recv ≡ parse_unpacked memory b (unpack (contents b))
  unfolding parse_read parse_parse
  parse_read_full b recv ok e =
      let z : buffer_left b ≡ 0 = omega (arith, buffer_left-add ok, length-contents ok) in
      let u : b.used ≡ b.end - b.start = omega (arith, ok.counted) in
      rw (ltb_of_le 0 (buffer_left b) (omega (arith, z)))
        (ap (λ k. parse_unpacked memory b (unpack (take k (drop b.start b.block)))) u)

  -- The first chunk pushed into the new buffer, where it fits.
  first_push :
      (n : ℕ) (payload : List ℕ)
      → n ≤ length block
      → n < 2 ^ 32
      → (m : ℕ) → m ≤ n
      → m ≤ length (drop 4 (chunk (framed n payload)) ++ beyond)
      → (b : Buffer) × (buffer_push (fresh n block) (drop 4 (chunk (framed n payload)) ++ beyond) m
          ≡ some b)
        × IsBuffer b
        × (contents b ≡ take m (drop 4 (chunk (framed n payload)) ++ beyond))
        × (b.total ≡ n)
  first_push n payload room small m le h =
      buffer_push-append {b = fresh n block} (omega arith) m
        (drop 4 (chunk (framed n payload)) ++ beyond) h (omega arith)

  init_push_lem :
      (bytes : List ℕ) (recv : Recv) (buf b : Buffer)
      → buffer_push buf (drop 4 (chunk bytes) ++ beyond) (bytes_to_copy bytes) ≡ some b
      → init_push unpack memory beyond bytes recv (some buf) ≡ parse_read unpack memory b recv
  init_push_lem bytes recv buf b e = rw (init_push, e) refl

  parse_init_push :
      (n : ℕ) (payload : List ℕ) (recv : Recv)
      → n < 2 ^ 32
      → n ≤ max_message_size
      → (b : Buffer)
      → buffer_push
          (fresh n block)
          (drop 4 (chunk (framed n payload)) ++ beyond)
          (bytes_to_copy (framed n payload))
        ≡ some b
      → parse_init unpack memory (some block) beyond (framed n payload) recv
        ≡ parse_read unpack memory b recv
  unfolding parse_init init_buffer
  parse_init_push n payload recv small max b e =
      rw (msg_len-framed n payload small, ltb_of_le max_message_size n max)
        (init_push_lem (framed n payload) recv (fresh n block) b e)

  -- A message of fewer than 1020 bytes that arrives whole behind its length in the first chunk,
  -- where the block that malloc returns has room for it, is handed to the msgpack library as it
  -- was sent, whatever lies behind the array and whatever a second recv would return.
  pub parse_request_whole :
      (payload : List ℕ) (recv : Recv)
      → 4 + length payload < 1024
      → length payload ≤ length block
      → (b : Buffer) × (parse_request unpack memory
            (some block)
            beyond
            start
            (received (framed (length payload) payload))
            recv
          ≡ parse_unpacked memory b (unpack payload))
        × (contents b ≡ payload)
  unfolding parse_request parse_init init_buffer
  parse_request_whole payload recv h room =
      let n = length payload in
      let src = drop 4 (chunk (framed n payload)) ++ beyond in
      let small : n < 2 ^ 32 = omega arith in
      let shape : src
          ≡ payload ++ (replicate (chunk_size - length (framed n payload)) 0 ++ beyond) =
        rw (payload-framed n payload small) (append_assoc payload _ beyond) in
      let (b, pushed, ok, holds, total) = first_push n payload room small n (omega arith) (
        rw shape (
          omega (
            arith,
            length-append {0} payload
                (replicate (chunk_size - length (framed n payload)) 0 ++ beyond),
          ))) in
      let whole : contents b ≡ payload = holds ∙ ap (take n) shape ∙ take-append n payload _ refl in
      let copied : bytes_to_copy (framed n payload) ≡ n =
        rw
          (
            msg_len-framed n payload small,
            lt→ltb n (length (framed n payload)) (omega (arith, length-framed n payload small)),
          )
          refl in
      let pushed' : buffer_push (fresh n block) src (bytes_to_copy (framed n payload)) ≡ some b =
        ap (buffer_push (fresh n block) src) copied ∙ pushed in
      (
        b,
        parse_init_push n payload recv small (omega arith) b pushed'
            ∙ parse_read_full b recv ok
                (omega (arith, total, length-contents ok, ap (length {A = ℕ}) whole))
            ∙ ap (λ p. parse_unpacked memory b (unpack p)) whole,
        whole,
      )
