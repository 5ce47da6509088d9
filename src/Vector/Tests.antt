-- ===== src/Vector/Tests.antt =====
-- Runs of the vector on concrete blocks.
use fgdb.Prelude.{ℕ, ◌≡◌, refl, some, none, [], ◌∷◌, inr, arith}
use fgdb.Vector.{Vector, vector_init, vector_add, vector_delete}
use fgdb.Vector.Contents.{contents, IsVector, without}
use fgdb.Vector.Add.{Appended, vector_add-append, vector_init_overflow}
use fgdb.Vector.Delete.{vector_delete-without}

abbrev full : Vector ℕ
full = record { items = 1 ∷ 2 ∷ 3 ∷ 4 ∷ []; capacity = 4; total = 4 }

full-IsVector : IsVector full
full-IsVector = record { filled = omega arith; allocated = refl }

vector_add-append_example : Appended full 5 (vector_add (some (0 ∷ 0 ∷ [])) full 5)
vector_add-append_example =
    vector_add-append (some (0 ∷ 0 ∷ [])) full 5 full-IsVector (inr (omega arith, omega arith))

vector_init_overflow_example :
    (v : Vector ℕ) × (vector_add (some (0 ∷ [])) (vector_init (7 ∷ []) 16) 1 ≡ some v)
    × (vector_add (some (0 ∷ [])) v 2 ≡ none)
vector_init_overflow_example =
    vector_init_overflow (7 ∷ []) 16 (some (0 ∷ [])) (some (0 ∷ [])) 1 2 refl

vector_delete-without_example :
    IsVector (vector_delete 0 (some []) full 1)
    × (contents (vector_delete 0 (some []) full 1) ≡ without (contents full) 1)
vector_delete-without_example =
    vector_delete-without 0 (some []) full 1 full-IsVector (omega arith) (omega arith)
