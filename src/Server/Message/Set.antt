-- ===== src/Server/Message/Set.antt =====
-- What `message_set` keeps of the bytes of a request.
use fgdb.Prelude.{
  ℕ, zero, suc, ◌+◌, ◌%◌, ◌^◌, ◌≤◌, ◌<◌, ◌≡◌, ◌≢◌, refl, ap, ◌∙◌, some, List, [], ◌∷◌, ◌++◌, arith,
  ==_of_ne, length-replicate, All, replicate, length, take, length-append, take-append,
}
use fgdb.Str.{contents, IsStr}
use fgdb.Server.Message.{strncpy, message_set}

length-strncpy : (n : ℕ) (src : List ℕ) → length (strncpy src n) ≡ n
length-strncpy zero src = refl
length-strncpy (suc n) [] = ap suc (length-strncpy n [])
length-strncpy (suc n) (c ∷ src) =
    ground (arith, length-strncpy n src, length-replicate {A = ℕ} n 0)

-- A text with no NUL is copied as it is.
strncpy-take :
    (n : ℕ) (src : List ℕ)
    → n ≤ length src
    → All (λ c. c ≢ 0) (take n src)
    → strncpy src n ≡ take n src
strncpy-take zero src h ne = refl
strncpy-take (suc n) [] h ne = absurd (omega arith)
strncpy-take (suc n) (c ∷ src) h ne =
    rw (==_of_ne c 0 ne.0, strncpy-take n src (omega arith) ne.1) refl

-- Behind the first NUL there are only zeros.
strncpy-nul :
    (n : ℕ) (pre post : List ℕ)
    → All (λ c. c ≢ 0) pre
    → n ≡ suc (length pre + length post)
    → strncpy (pre ++ 0 ∷ post) n ≡ pre ++ 0 ∷ replicate (length post) 0
strncpy-nul zero pre post ne e = absurd (omega arith)
strncpy-nul (suc n) [] post ne e = let e' : n ≡ length post = omega arith in rw e'
strncpy-nul (suc n) (c ∷ pre) post ne e =
    rw (==_of_ne c 0 ne.0, strncpy-nul n pre post ne.1 (omega arith)) refl

ptr-message_set :
    (src : List ℕ) (n : ℕ)
    → suc n < 2 ^ 16
    → message_set src (suc n) ≡ record { size = suc n; ptr = some (strncpy src (suc n) ++ 0 ∷ []) }
unfolding message_set
ptr-message_set src n h =
    let e : suc n % 2 ^ 16 ≡ suc n = omega arith in rw (==_of_ne (suc n) 0 (omega arith), e) refl

contents-message_set :
    (src : List ℕ) (size : ℕ) → size < 2 ^ 16 → contents (message_set src size) ≡ strncpy src size
unfolding message_set
contents-message_set src zero h = refl
contents-message_set src (suc n) h =
    rw (ptr-message_set src n h)
      (take-append (suc n) (strncpy src (suc n)) (0 ∷ []) (length-strncpy (suc n) src))

message_set-IsStr : (src : List ℕ) (size : ℕ) → size < 2 ^ 16 → IsStr (message_set src size)
unfolding message_set
message_set-IsStr src zero h = omega arith
message_set-IsStr src (suc n) h =
    rw (ptr-message_set src n h)
      (omega (arith, length-strncpy (suc n) src, length-append {0} (strncpy src (suc n)) (0 ∷ [])))

-- message_set stores a well-formed string with the first bytes of the source, for a size below
-- 65536 within the source and bytes other than 0.
pub message_set-take :
    (src : List ℕ) (size : ℕ)
    → size < 2 ^ 16
    → size ≤ length src
    → All (λ c. c ≢ 0) (take size src)
    → IsStr (message_set src size) × (contents (message_set src size) ≡ take size src)
message_set-take src size h fits ne =
    (message_set-IsStr src size h, contents-message_set src size h ∙ strncpy-take size src fits ne)

-- Of a source with a byte 0, message_set stores zeros in place of all that follows the first one.
pub message_set-nul :
    (pre post : List ℕ)
    → All (λ c. c ≢ 0) pre
    → suc (length pre + length post) < 2 ^ 16
    → contents (message_set (pre ++ 0 ∷ post) (suc (length pre + length post)))
      ≡ pre ++ 0 ∷ replicate (length post) 0
message_set-nul pre post ne h =
    contents-message_set (pre ++ 0 ∷ post) (suc (length pre + length post)) h
    ∙ strncpy-nul (suc (length pre + length post)) pre post ne refl
