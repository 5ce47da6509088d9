-- ===== src/Server/Request/Reply.antt =====
-- `request_reply` and the calls of `write_reply` that follow: which bytes go out, and that the request
-- is destroyed behind them.
use fgdb.Prelude.{
  ℕ, zero, suc, ◌+◌, ◌-◌, ◌%◌, ◌^◌, ◌≤◌, ◌<◌, ◌≡◌, refl, sym, ap, ◌∙◌, Option, none, some, List, [],
  ◌∷◌, ◌++◌, arith, length, take, drop, take_all, drop-drop, take-append, length-take, length-drop,
  take-add, false, ◌==◌, ==_of_ne,
}
use fgdb.Server.Buffer.{Buffer, init_buffer}
use fgdb.Server.Buffer.Deque.{contents, IsBuffer, length-contents, buffer_push-append}
use fgdb.Server.Request.{
  Request, write, Send, sent, send_again, send_failed, Step, waits, destroyed, submitted,
  write_reply, request_reply, write_buffer,
}

-- What a call of `send` takes from the buffer.
abbrev pub handed : Option Buffer → Send → List ℕ
handed none s = []
handed (some buf) (sent n) = take n (contents buf)
handed (some buf) send_again = []
handed (some buf) send_failed = []

-- The bytes that go out and where the request is after them, given what the calls of `send` return.
abbrev pub behind : List ℕ → Step → (Request → List ℕ × Step) → List ℕ × Step
behind bytes (waits req) rest = let (more, step) = rest req in (bytes ++ more, step)
behind bytes destroyed rest = (bytes, destroyed)
behind bytes (submitted req) rest = (bytes, submitted req)

-- The callback `write_reply`, once for each event.
unfoldable pub write_replies : List Send → Request → List ℕ × Step
write_replies [] req = ([], waits req)
write_replies (s ∷ sends) req =
    behind (handed req.buf s) (write_reply req s) (λ req'. write_replies sends req')

-- The calls of `send` take `left` bytes in all, none fails but to be tried again, and there is one event
-- more.
abbrev pub Delivers : List Send → ℕ → Type 0
Delivers [] left = ⊥
Delivers (s ∷ sends) zero = Unit
Delivers (sent n ∷ sends) (suc left) = (n ≤ suc left) × Delivers sends (suc left - n)
Delivers (send_again ∷ sends) (suc left) = Delivers sends (suc left)
Delivers (send_failed ∷ sends) (suc left) = ⊥

no_bytes : (xs : List ℕ) → length xs ≡ 0 → xs ≡ []
no_bytes [] e = refl
no_bytes (x ∷ xs) e = absurd (omega arith)

-- Of an empty buffer nothing is taken.
handed_empty : (buf : Buffer) (s : Send) → contents buf ≡ [] → handed (some buf) s ≡ contents buf
handed_empty buf (sent n) e = rw e (take_nil n)
  where
    take_nil : (n : ℕ) → take {A = ℕ} n [] ≡ []
    take_nil zero = refl
    take_nil (suc n) = refl
handed_empty buf send_again e = sym e
handed_empty buf send_failed e = sym e

write_reply-write :
    (req : Request) (buf : Buffer) (s : Send)
    → req.state ≡ write
    → req.buf ≡ some buf
    → write_reply req s ≡ write_buffer req (some buf) s
unfolding write_reply
write_reply-write req buf s is has = rw (is, has) refl

-- The buffer behind a `send` of `n` bytes.
abbrev moved : Buffer → ℕ → Buffer
moved buf n = record buf { start = buf.start + n; used = (buf.used + (2 ^ 64 - n)) % 2 ^ 64 }

moved-contents :
    (buf : Buffer) (n : ℕ)
    → IsBuffer buf
    → n ≤ buf.used
    → take n (contents buf) ++ contents (moved buf n) ≡ contents buf
moved-contents buf n ok le =
    let size : length (take n (drop buf.start buf.block)) ≡ n = omega (
      arith,
      length-take n (drop buf.start buf.block),
      length-drop buf.start buf.block,
      ok.ordered,
      ok.bounded,
      ok.allocated,
      ok.counted,
    ) in
    let cut : take n (drop buf.start buf.block) ++ contents (moved buf n) ≡ contents buf =
      rw (← drop-drop n buf.start (buf.start + n) buf.block (omega arith)) (
        take-add n (buf.end - (buf.start + n)) (buf.end - buf.start) (drop buf.start buf.block)
          (omega (arith, ok.counted))) in
    let front : take n (contents buf) ≡ take n (drop buf.start buf.block) =
      ap (take n) (sym cut)
      ∙ take-append n (take n (drop buf.start buf.block)) (contents (moved buf n)) size in
    rw front cut

-- Whatever portions the calls of `send` take, the contents of the buffer go out in order.
write_replies-Delivers :
    (sends : List Send) (req : Request) (buf : Buffer) (left : ℕ)
    → req.state ≡ write
    → req.buf ≡ some buf
    → IsBuffer buf
    → buf.used ≡ left
    → Delivers sends left
    → write_replies sends req ≡ (contents buf, destroyed)
unfolding write_replies
write_replies-Delivers [] req buf left is has ok used ends = elim ends [ ]
write_replies-Delivers (s ∷ sends) req buf zero is has ok used ends =
    let empty = no_bytes (contents buf) (length-contents ok ∙ used) in
    rw (write_reply-write req buf s is has, has, used)
      (ap (λ bytes. (bytes, destroyed)) (handed_empty buf s empty))
write_replies-Delivers (send_failed ∷ sends) req buf (suc left) is has ok used ends = elim ends [ ]
write_replies-Delivers (send_again ∷ sends) req buf (suc left) is has ok used ends =
    let more : (buf.used == 0) ≡ false = ==_of_ne buf.used 0 (λ e. absurd (omega arith)) in
    rw (write_reply-write req buf send_again is has, more, has)
      (rw
        (write_replies-Delivers sends (record req { buf = some buf }) buf (suc left) is refl ok used
          ends)
        refl)
write_replies-Delivers (sent n ∷ sends) req buf (suc left) is has ok used (le, ends) =
    let more : (buf.used == 0) ≡ false = ==_of_ne buf.used 0 (λ e. absurd (omega arith)) in
    let req' : Request = record req { buf = some (moved buf n) } in
    let ok' : IsBuffer (moved buf n) =
      omega (arith, ok.ordered, ok.bounded, ok.allocated, ok.counted, ok.small) in
    let used' : (moved buf n).used ≡ suc left - n =
      omega (arith, ok.ordered, ok.bounded, ok.counted, ok.small) in
    rw (write_reply-write req buf (sent n) is has, more, has)
      (rw (write_replies-Delivers sends req' (moved buf n) (suc left - n) is refl ok' used' ends)
        (ap (λ bytes. (bytes, destroyed)) (moved-contents buf n ok (omega arith))))

-- Where the buffer of a reply is allocated and the calls of send take all of its bytes, in
-- whatever portions and with whatever interruptions, the bytes go out in order, once each, and at
-- the next event the request is destroyed.
pub request_reply-Delivers :
    (memory bytes : List ℕ) (req : Request) (sends : List Send)
    → length bytes ≤ length memory
    → length bytes < 2 ^ 64
    → Delivers sends (length bytes)
    → (req' : Request) × ((request_reply (some memory) req bytes ≡ waits req')
        × (write_replies sends req' ≡ (bytes, destroyed)))
unfolding request_reply init_buffer
request_reply-Delivers memory bytes req sends fits small ends =
    let buf : Buffer = record {
      total = length bytes;
      used = 0;
      start = 0;
      end = 0;
      block = memory;
    } in
    let ok : IsBuffer buf = omega arith in
    let (buf', is_pushed, ok', holds, total) =
      buffer_push-append ok (length bytes) bytes (omega arith) (omega arith) in
    let all : contents buf' ≡ bytes = holds ∙ take_all (length bytes) bytes (omega arith) in
    let req' : Request = record req { state = write; buf = some buf' } in
    let used : buf'.used ≡ length bytes = sym (length-contents ok') ∙ ap length all in
    (
      req',
      (
        rw (is_pushed, request_reply) refl,
        write_replies-Delivers sends req' buf' (length bytes) refl refl ok' used ends
            ∙ ap (λ out. (out, destroyed)) all,
      ),
    )
