-- ===== src/HashMap/Key/Order.antt =====
-- The order of keys, as the trees use it, and the range of `hash`.
use Prim.Native.Nat.{Ordering}
use fgdb.Prelude.{
  ℕ, zero, suc, ◌+◌, ◌*◌, ◌%◌, ◌^◌, ◌≤◌, ◌<◌, ◌≡◌, refl, List, [], ◌∷◌, arith, length, take,
  ==_refl,
}
use fgdb.Str.{Str, block, contents, IsStr}
use fgdb.HashMap.Key.{memcmp, key_comp, hash_from, hash, hash_factor, char_to_uint32, max_hash_node}

-- What the trees need of a comparison that is positive if its second argument is the larger one.
pub record KeyOrder {K : Type 0} (comp : K → K → Ordering) : Type 0 where
  pub comp_refl : (a : K) → comp a a ≡ Ordering.eq
  pub comp_gt : (a b : K) → comp a b ≡ Ordering.gt → comp b a ≡ Ordering.lt
  pub comp_lt : (a b : K) → comp a b ≡ Ordering.lt → comp b a ≡ Ordering.gt
  pub comp_eq : (a b : K) → comp a b ≡ Ordering.eq → comp b a ≡ Ordering.eq
  pub comp_trans :
      (a b c : K) → comp a b ≡ Ordering.gt → comp b c ≡ Ordering.gt → comp a c ≡ Ordering.gt
  -- Keys that compare as equal are told apart from no other.
  pub comp_same : (a b c : K) → comp a b ≡ Ordering.eq → comp a c ≡ comp b c

-- The first `n` bytes, compared one by one.
memcmp_refl : (xs : List ℕ) (n : ℕ) → memcmp xs xs n ≡ Ordering.eq
memcmp_refl xs zero = refl
memcmp_refl [] (suc n) = refl
memcmp_refl (x ∷ xs) (suc n) = ground (arith, memcmp_refl xs n)

memcmp_gt : (xs ys : List ℕ) (n : ℕ) → memcmp xs ys n ≡ Ordering.gt → memcmp ys xs n ≡ Ordering.lt
memcmp_gt xs ys zero h = ground arith
memcmp_gt [] ys (suc n) h = ground arith
memcmp_gt (x ∷ xs) [] (suc n) h = ground arith
memcmp_gt (x ∷ xs) (y ∷ ys) (suc n) h = ground (arith, memcmp_gt xs ys n)

memcmp_lt : (xs ys : List ℕ) (n : ℕ) → memcmp xs ys n ≡ Ordering.lt → memcmp ys xs n ≡ Ordering.gt
memcmp_lt xs ys zero h = ground arith
memcmp_lt [] ys (suc n) h = ground arith
memcmp_lt (x ∷ xs) [] (suc n) h = ground arith
memcmp_lt (x ∷ xs) (y ∷ ys) (suc n) h = ground (arith, memcmp_lt xs ys n)

memcmp_trans :
    (xs ys zs : List ℕ) (n : ℕ)
    → n ≤ length xs
    → n ≤ length ys
    → n ≤ length zs
    → memcmp xs ys n ≡ Ordering.gt
    → memcmp ys zs n ≡ Ordering.gt
    → memcmp xs zs n ≡ Ordering.gt
memcmp_trans xs ys zs zero hx hy hz h k = ground arith
memcmp_trans [] ys zs (suc n) hx hy hz h k = absurd (omega arith)
memcmp_trans (x ∷ xs) [] zs (suc n) hx hy hz h k = absurd (omega arith)
memcmp_trans (x ∷ xs) (y ∷ ys) [] (suc n) hx hy hz h k = absurd (omega arith)
memcmp_trans (x ∷ xs) (y ∷ ys) (z ∷ zs) (suc n) hx hy hz h k =
    ground (arith, memcmp_trans xs ys zs n)

-- Blocks that compare as equal agree on the bytes compared.
memcmp_eq :
    (xs ys : List ℕ) (n : ℕ)
    → n ≤ length xs
    → n ≤ length ys
    → memcmp xs ys n ≡ Ordering.eq
    → take n xs ≡ take n ys
memcmp_eq xs ys zero hx hy h = refl
memcmp_eq [] ys (suc n) hx hy h = absurd (omega arith)
memcmp_eq (x ∷ xs) [] (suc n) hx hy h = absurd (omega arith)
memcmp_eq (x ∷ xs) (y ∷ ys) (suc n) hx hy h = ground (arith, memcmp_eq xs ys n)

-- Blocks that compare as equal compare alike with any third.
memcmp_same :
    (xs ys zs : List ℕ) (n : ℕ)
    → n ≤ length xs
    → n ≤ length ys
    → n ≤ length zs
    → memcmp xs ys n ≡ Ordering.eq
    → memcmp zs xs n ≡ memcmp zs ys n
memcmp_same xs ys zs zero hx hy hz h = refl
memcmp_same [] ys zs (suc n) hx hy hz h = absurd (omega arith)
memcmp_same (x ∷ xs) [] zs (suc n) hx hy hz h = absurd (omega arith)
memcmp_same (x ∷ xs) (y ∷ ys) [] (suc n) hx hy hz h = absurd (omega arith)
memcmp_same (x ∷ xs) (y ∷ ys) (z ∷ zs) (suc n) hx hy hz h = ground (arith, memcmp_same xs ys zs n)

memcmp_eq_symm :
    (xs ys : List ℕ) (n : ℕ) → memcmp xs ys n ≡ Ordering.eq → memcmp ys xs n ≡ Ordering.eq
memcmp_eq_symm xs ys zero h = refl
memcmp_eq_symm [] [] (suc n) h = refl
memcmp_eq_symm [] (y ∷ ys) (suc n) h = refl
memcmp_eq_symm (x ∷ xs) [] (suc n) h = refl
memcmp_eq_symm (x ∷ xs) (y ∷ ys) (suc n) h = ground (arith, memcmp_eq_symm xs ys n)

-- A key whose block is as long as its size says.
pub record Key : Type 0 where
  pub str : Str
  pub ok : IsStr str

unfoldable pub comp_keys : Key → Key → Ordering
unfolding key_comp
comp_keys a b = key_comp a.str b.str

comp_keys_trans :
    (a b c : Key)
    → comp_keys a b ≡ Ordering.gt
    → comp_keys b c ≡ Ordering.gt
    → comp_keys a c ≡ Ordering.gt
unfolding comp_keys
comp_keys_trans a b c h k = ground (
  arith,
  memcmp_trans (block c.str.ptr) (block b.str.ptr) (block a.str.ptr) a.str.size,
  memcmp_gt (block b.str.ptr) (block a.str.ptr) a.str.size,
  a.ok.holds,
  b.ok.holds,
  c.ok.holds,
)

comp_keys_refl : (a : Key) → comp_keys a a ≡ Ordering.eq
unfolding comp_keys
comp_keys_refl a = rw (==_refl a.str.size) (memcmp_refl (block a.str.ptr) a.str.size)

comp_keys_gt : (a b : Key) → comp_keys a b ≡ Ordering.gt → comp_keys b a ≡ Ordering.lt
unfolding comp_keys
comp_keys_gt a b h = ground (arith, memcmp_gt (block b.str.ptr) (block a.str.ptr) a.str.size)

comp_keys_lt : (a b : Key) → comp_keys a b ≡ Ordering.lt → comp_keys b a ≡ Ordering.gt
unfolding comp_keys
comp_keys_lt a b h = ground (arith, memcmp_lt (block b.str.ptr) (block a.str.ptr) a.str.size)

comp_keys_eq : (a b : Key) → comp_keys a b ≡ Ordering.eq → comp_keys b a ≡ Ordering.eq
unfolding comp_keys
comp_keys_eq a b h = ground (arith, memcmp_eq_symm (block b.str.ptr) (block a.str.ptr) a.str.size)

comp_keys_same : (a b c : Key) → comp_keys a b ≡ Ordering.eq → comp_keys a c ≡ comp_keys b c
unfolding comp_keys
comp_keys_same a b c h = ground (
  arith,
  memcmp_same (block a.str.ptr) (block b.str.ptr) (block c.str.ptr) a.str.size,
  memcmp_eq_symm (block b.str.ptr) (block a.str.ptr) a.str.size,
  a.ok.holds,
  b.ok.holds,
  c.ok.holds,
)

-- key_comp, on strings whose blocks are as long as their sizes say, is a key order: reflexive,
-- antisymmetric, transitive, and keys that compare as equal compare alike with every other.
pub comp_keys-KeyOrder : KeyOrder comp_keys
comp_keys-KeyOrder = record {
  comp_refl = comp_keys_refl;
  comp_gt = comp_keys_gt;
  comp_lt = comp_keys_lt;
  comp_eq = comp_keys_eq;
  comp_trans = comp_keys_trans;
  comp_same = comp_keys_same;
}

-- Two keys compare as equal exactly if they hold the same bytes.
contents_of_comp_keys : (a b : Key) → comp_keys a b ≡ Ordering.eq → contents a.str ≡ contents b.str
unfolding comp_keys
contents_of_comp_keys a b h =
    ground (arith, memcmp_eq (block b.str.ptr) (block a.str.ptr) a.str.size, a.ok.holds, b.ok.holds)

hash_from-lt :
    (p mid : ℕ) (bytes : List ℕ) → mid < max_hash_node → hash_from p mid bytes < max_hash_node
unfolding hash_from
hash_from-lt p mid [] h = h
hash_from-lt p mid (c ∷ bytes) h =
    hash_from-lt p ((mid + p * char_to_uint32 c % 2 ^ 32 % max_hash_node) % 2 ^ 32 % max_hash_node)
      bytes (omega arith)

-- hash yields an index below MAX_HASH_NODE for every key and depth.
pub hash-lt : (key : Str) (dep : ℕ) → hash key dep < max_hash_node
unfolding hash
hash-lt key dep = hash_from-lt (hash_factor dep) 0 (contents key) (omega arith)

-- Keys that compare as equal have the same hash at every depth.
pub hash_of_comp_keys :
    (a b : Key) (dep : ℕ) → comp_keys a b ≡ Ordering.eq → hash a.str dep ≡ hash b.str dep
unfolding hash
hash_of_comp_keys a b dep h = rw (contents_of_comp_keys a b h) refl
