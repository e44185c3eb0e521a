-- ===== src/Storage/Shapes.antt =====
-- What StorageView does to its shape alone.
use mathlib.Core.List.{reverse}
use ctranslate.Prelude.{
  ℕ, zero, suc, ◌+◌, ◌-◌, ◌*◌, ◌/◌, ◌%◌, List, [], ◌∷◌, length, get_or, set, Option, none, some,
  ltb, leb, ◌==◌, if◌then◌else◌, invalid_argument, out_of_range, Result, ok, err,
}
use ctranslate.Padding.Padder.{ℤ, pos, negsuc}
use ctranslate.Storage.Defs.{Storage, Effect, gives, throws, undefined}

-- The loop of `reshape` from dimension `i` on: the dimension that is -1, and the product of the
-- others.
unfoldable pub known_dims : List ℤ → ℕ → Option ℕ → ℕ → Result (Option ℕ × ℕ)
known_dims [] i unknown known = ok (unknown, known)
known_dims (pos d ∷ ds) i unknown known = known_dims ds (suc i) unknown (known * d)
known_dims (negsuc zero ∷ ds) i none known = known_dims ds (suc i) (some i) known
known_dims (negsuc zero ∷ ds) i (some u) known = err invalid_argument
known_dims (negsuc (suc n) ∷ ds) i unknown known = err invalid_argument

-- A shape with no negative dimension left.
unfoldable pub to_dims : List ℤ → List ℕ
to_dims [] = []
to_dims (pos d ∷ ds) = d ∷ to_dims ds
to_dims (negsuc n ∷ ds) = 0 ∷ to_dims ds

-- A division by zero is undefined.
unfoldable pub reshape : List ℤ → Storage → Effect
unfolding known_dims to_dims
reshape new_shape s = elim (known_dims new_shape 0 none 1) [
  | err e ↦ throws e s
  | ok (some u, known) ↦
      if known == 0
      then undefined
      else if s.size % known == 0
      then gives (record s { shape = to_dims (set new_shape u (pos (s.size / known))) })
      else throws invalid_argument s
  | ok (none, known) ↦
      if s.size == known
      then gives (record s { shape = to_dims new_shape })
      else throws invalid_argument s
]

unfoldable pub insert_at : List ℕ → ℕ → ℕ → List ℕ
insert_at ds zero d = d ∷ ds
insert_at [] (suc i) d = d ∷ []
insert_at (x ∷ ds) (suc i) d = x ∷ insert_at ds i d

unfoldable pub erase_at : List ℕ → ℕ → List ℕ
erase_at [] i = []
erase_at (x ∷ ds) zero = ds
erase_at (x ∷ ds) (suc i) = x ∷ erase_at ds i

-- The test of the upper bound, and the insertion.
unfoldable pub expand_at : ℕ → Storage → Effect
unfolding insert_at
expand_at d s =
    if ltb (length s.shape) d
    then throws out_of_range s
    else gives (record s { shape = insert_at s.shape d 1 })

-- A dimension below -(rank + 1) passes the test and is an iterator before the first.
unfoldable pub expand_dims : ℤ → Storage → Effect
unfolding expand_at
expand_dims (pos d) s = expand_at d s
expand_dims (negsuc n) s =
    if leb n (length s.shape) then expand_at (length s.shape - n) s else undefined

-- `GUARD_DIM`.
unfoldable pub guard_dim : ℤ → ℕ → Result ℕ
guard_dim (pos d) rank = if ltb d rank then ok d else err invalid_argument
guard_dim (negsuc n) rank = err invalid_argument

-- A negative dimension counts from the end.
unfoldable pub wrap_dim : ℤ → ℕ → ℤ
wrap_dim (pos d) rank = pos d
wrap_dim (negsuc n) rank = if ltb n rank then pos (rank - suc n) else negsuc (n - rank)

unfoldable pub squeeze : ℤ → Storage → Effect
unfolding guard_dim wrap_dim erase_at
squeeze dim s = elim (guard_dim (wrap_dim dim (length s.shape)) (length s.shape)) [
  | err e ↦ throws e s
  | ok d ↦
      if get_or s.shape d 0 == 1
      then gives (record s { shape = erase_at s.shape d })
      else throws invalid_argument s
]

unfoldable pub dim_of : Storage → ℤ → Result ℕ
unfolding guard_dim wrap_dim
dim_of s dim = elim (guard_dim (wrap_dim dim (length s.shape)) (length s.shape)) [
  | err e ↦ err e
  | ok d ↦ ok (get_or s.shape d 0)
]

-- The loop of `index`, over the indices and the dimensions from the last on.
unfoldable pub offset_from : List ℕ → List ℕ → ℕ → ℕ → ℕ
offset_from (i ∷ is) (d ∷ ds) stride offset = offset_from is ds (stride * d) (offset + i * stride)
offset_from is ds stride offset = offset

unfoldable pub index : List ℕ → Storage → Result ℕ
unfolding offset_from
index indices s =
    let offset = offset_from (reverse indices) (reverse s.shape) 1 0 in
    if length indices == length s.shape
    then (if leb s.size offset then err invalid_argument else ok offset)
    else err invalid_argument
