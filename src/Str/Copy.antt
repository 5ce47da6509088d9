-- ===== src/Str/Copy.antt =====
-- `string_copy` against the string that it copies.
use fgdb.Prelude.{
  ℕ, ◌≡◌, refl, some, List, ◌++◌, arith, lt→ltb, length, take, drop, take-append, length-take,
  length-append,
}
use fgdb.Str.{Str, block, contents, IsStr, new_string, string_copy}

-- A well-formed string is copied: the copy is well formed and has the same contents.
pub string_copy-contents :
    (memory : List ℕ) (s : Str)
    → IsStr s
    → (s' : Str) × (string_copy memory (some s) ≡ some s') × IsStr s' × (contents s' ≡ contents s)
unfolding string_copy new_string
string_copy-contents memory s ok =
    let copied : List ℕ = take s.size (block s.ptr) in
    let n : length copied ≡ s.size = omega (arith, length-take s.size (block s.ptr), ok.holds) in
    (
      record { size = s.size; ptr = some (copied ++ drop s.size memory) },
      rw (lt→ltb s.size 65536 (omega (arith, ok.fits)), string_copy, new_string) refl,
      record {
        fits = ok.fits;
        holds = omega (arith, n, length-append {0} copied (drop s.size memory));
      },
      take-append s.size copied (drop s.size memory) n,
    )
