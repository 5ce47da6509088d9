-- ===== src/HashMap/Key.antt =====
-- Keys: `key_comp` of src/lib/hashmap/Util.c and `hash` of src/lib/hashmap/Hash.c.
pub mod Order
use Prim.Native.Nat.{compare, Ordering}
use fgdb.Prelude.{ℕ, zero, suc, ◌+◌, ◌-◌, ◌*◌, ◌%◌, ◌^◌, List, [], ◌∷◌, ltb, ◌==◌, if◌then◌else◌}
use fgdb.Str.{Str, block, contents}

-- The C library's `memcmp`, by the sign of its result.
abbrev pub memcmp : List ℕ → List ℕ → ℕ → Ordering
memcmp xs ys zero = Ordering.eq
memcmp [] ys (suc n) = Ordering.eq
memcmp (x ∷ xs) [] (suc n) = Ordering.eq
memcmp (x ∷ xs) (y ∷ ys) (suc n) = elim (compare x y) [
  | Ordering.eq ↦ memcmp xs ys n
  | Ordering.lt ↦ Ordering.lt
  | Ordering.gt ↦ Ordering.gt
]

-- The sign of the result: `gt` if the second key is the larger one.
unfoldable pub key_comp : Str → Str → Ordering
key_comp key_first key_second =
    if key_first.size == key_second.size
    then memcmp (block key_second.ptr) (block key_first.ptr) key_first.size
    else compare key_second.size key_first.size

abbrev pub max_hash_node : ℕ
max_hash_node = 20024

-- The factor of the table at depth `dep`.
unfoldable pub hash_factor : ℕ → ℕ
hash_factor dep =
    if dep == 1
    then 57
    else if dep == 2
    then 97
    else if dep == 3
    then 71
    else if dep == 4
    then 107
    else 89

-- A `char` is signed on the platform of the build, and is converted to `uint32_t`.
abbrev pub char_to_uint32 : ℕ → ℕ
char_to_uint32 c = if ltb c 128 then c else 2 ^ 32 + c - 256

-- The loop over the bytes of the key.
unfoldable pub hash_from : ℕ → ℕ → List ℕ → ℕ
hash_from p mid [] = mid
hash_from p mid (c ∷ bytes) =
    hash_from p ((mid + p * char_to_uint32 c % 2 ^ 32 % max_hash_node) % 2 ^ 32 % max_hash_node)
      bytes

unfoldable pub hash : Str → ℕ → ℕ
hash key dep = hash_from (hash_factor dep) 0 (contents key)
