-- ===== src/Arena/Page/Moves.antt =====
-- The loop of `arena_defragmentate_page` over a page whose values are apart.
use fgdb.Prelude.{
  ℕ, ◌+◌, ◌-◌, ◌%◌, ◌^◌, ◌≤◌, ◌<◌, ◌≡◌, refl, ap, ◌∙◌, subst, ◌⊎◌, inl, inr, List, [], ◌∷◌, arith,
  length,
}
use fgdb.Memory.Laws.{Holds, Changes, Holds-Same, memmove-Holds}
use fgdb.Arena.{HeaderKey, returned, read_size, move_values}
use fgdb.Arena.Page.{
  image, length-image, read_size-Holds, Laid, Laid-limit, Laid-Same, total_size, Apart, packed,
}

-- What the loop leaves behind: the values packed from `offset` on.
pub record Moved (mem mem' : List ℕ) (start limit offset : ℕ) (keys : List HeaderKey)
    (values : List (List ℕ)) : Type 0 where
  pub ends : offset + total_size values ≤ limit
  pub laid : Laid mem' start (offset + total_size values) offset (packed offset keys values) values
  pub changes : Changes mem mem' (start + offset) (limit - offset)

-- A value that was moved stands where it was as well, as far as its size is concerned.
size_behind :
    (mem mem' : List ℕ) (start offset : ℕ) (k : HeaderKey) (v : List ℕ)
    → Holds mem (start + k.offset) (image v)
    → Holds mem' (start + offset) (image v)
    → Changes mem mem' (start + offset) (length v + 2)
    → (offset ≡ k.offset) ⊎ (offset + (length v + 2) ≤ k.offset)
    → length v < 2 ^ 16
    → read_size mem' (start + k.offset) ≡ returned (length v)
size_behind mem mem' start offset k v holds moved changes (inl same) fits =
    read_size-Holds mem' (start + k.offset) v
      (subst (λ (o : ℕ). Holds mem' (start + o) (image v)) same moved) fits
size_behind mem mem' start offset k v holds moved changes (inr apart) fits =
    read_size-Holds mem' (start + k.offset) v
      (Holds-Same mem mem' (start + k.offset) (image v) holds changes.size
        (changes.behind (start + k.offset) (length (image v)) (omega arith)))
      fits

-- One value moved, and the others behind it.
Moved-step :
    (mem mem₁ mem₂ : List ℕ) (start limit offset : ℕ) (k : HeaderKey) (v : List ℕ)
    (keys : List HeaderKey) (values : List (List ℕ))
    → Holds mem₁ (start + offset) (image v)
    → Changes mem mem₁ (start + offset) (length v + 2)
    → length v < 2 ^ 16
    → Moved mem₁ mem₂ start limit (offset + (length v + 2)) keys values
    → Moved mem mem₂ start limit offset (k ∷ keys) (v ∷ values)
unfolding Laid
Moved-step mem mem₁ mem₂ start limit offset k v keys values moved changes fits rest =
    let end : offset + (length v + 2) + total_size values ≡ offset + total_size (v ∷ values) =
      omega arith in
    record {
      ends = omega (arith, rest.ends);
      laid = (
        omega arith,
        Holds-Same mem₁ mem₂ (start + offset) (image v) moved rest.changes.size (
            rest.changes.before (start + offset) (length (image v))
              (omega (arith, length-image v))),
        fits,
        subst
            (λ (n : ℕ).
              Laid mem₂ start n (offset + (length v + 2))
                (packed (offset + (length v + 2)) keys values) values)
            end rest.laid,
      );
      changes = record {
        size = rest.changes.size ∙ changes.size;
        before = λ q m le. rest.changes.before q m (omega arith) ∙ changes.before q m le;
        behind = λ q m le.
            rest.changes.behind q m (omega (arith, rest.ends))
            ∙ changes.behind q m (omega (arith, rest.ends));
      };
    }

pub move_values-Moved :
    (keys : List HeaderKey) (values : List (List ℕ)) (mem : List ℕ) (start limit base offset : ℕ)
    → Laid mem start limit base keys values
    → Apart offset keys values
    → offset ≤ base
    → limit < 2 ^ 16
    → start + limit ≤ length mem
    → (mem' : List ℕ) × ((move_values keys start offset mem
          ≡ returned (packed offset keys values, offset + total_size values, mem'))
        × Moved mem mem' start limit offset keys values)
unfolding move_values Laid
move_values-Moved [] (v ∷ values) mem start limit base offset laid apart le fits within =
    elim laid [ ]
move_values-Moved (k ∷ keys) [] mem start limit base offset laid apart le fits within =
    elim laid [ ]
move_values-Moved [] [] mem start limit base offset laid apart le fits within = (
  mem,
  (
    ap (λ (n : ℕ). returned ([], n, mem)) (omega arith),
    record {
      ends = omega arith;
      laid = omega arith;
      changes = record { size = refl; before = λ q m h. refl; behind = λ q m h. refl };
    },
  ),
)
move_values-Moved (k ∷ keys) (v ∷ values) mem start limit base offset (le', holds, small, laid)
      (apart, aparts) le fits within =
    let end : k.offset + (length v + 2) ≤ limit = Laid-limit mem start limit _ keys values laid in
    let (mem₁, (is_moved, (moved, changes))) =
      memmove-Holds mem (start + offset) (start + k.offset) (length v + 2) (image v) holds
        (length-image v) (omega arith) in
    let laid₁ =
      Laid-Same mem mem₁ start limit (k.offset + (length v + 2)) keys values changes.size
        (λ q m from to. changes.behind q m (omega arith)) laid in
    let (mem₂, (is_rest, rest)) =
      move_values-Moved keys values mem₁ start limit (k.offset + (length v + 2))
        (offset + (length v + 2)) laid₁ aparts (omega arith) fits (omega (arith, changes.size)) in
    let small_offset : offset % 2 ^ 16 ≡ offset = omega arith in
    (
      mem₂,
      (
        rw
            (
              read_size-Holds mem (start + k.offset) v holds small,
              is_moved,
              size_behind mem mem₁ start offset k v holds moved changes apart small,
              is_rest,
              small_offset,
            )
            (ap
              (λ (n : ℕ). returned (
                record k { offset = offset } ∷ packed (offset + (length v + 2)) keys values,
                n,
                mem₂,
              ))
              (omega arith)),
        Moved-step mem mem₁ mem₂ start limit offset k v keys values moved changes small rest,
      ),
    )
