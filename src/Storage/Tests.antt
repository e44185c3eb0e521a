-- ===== src/Storage/Tests.antt =====
-- Runs of the operations on a storage, and the theorems at concrete inputs.
use ctranslate.Prelude.{
  ℕ, zero, suc, ◌<◌, Bool, true, List, [], ◌∷◌, some, ok, ◌≡◌, refl, arith, inl, invalid_argument,
  out_of_range,
}
use ctranslate.Padding.Padder.{ℤ, pos, negsuc}
use ctranslate.Types.Defs.{DataType, Device}
use ctranslate.Storage.Defs.{
  Storage, gives, throws, undefined, item_size, compute_size, new_storage, room, fits_dim,
  fits_shape,
}
use ctranslate.Storage.Shapes.{reshape, guard_dim, expand_dims, squeeze, index, dim_of}
use ctranslate.Storage.ShapeLaws.{Reshaped}
use ctranslate.Storage.Reshaping.{reshape-Reshaped, reshape-finds}
use ctranslate.Storage.Squeezing.{squeeze-expand_dims}
use ctranslate.Storage.Operations.{assign, shallow_copy}
use ctranslate.Storage.Validity.{IsValid, grow_by, perform, Allowed, Keeps}
use ctranslate.Storage.Copies.{perform-Keeps}
use ctranslate.Storage.Places.{row_major, index-row_major, index-injective}

-- Twelve floats.
abbrev matrix : Storage
matrix = record {
  dtype = DataType.float32;
  device = Device.cpu;
  device_index = 0;
  owns = true;
  memory = some 64;
  allocated_size = 16;
  size = 12;
  shape = 3 ∷ 4 ∷ [];
}

matrix-IsValid : IsValid matrix
unfolding compute_size room item_size
matrix-IsValid = record { shaped = inl refl; fits = omega arith; backed = omega arith }

abbrev always : ℕ → Bool
always n = true

two_more : Allowed (grow_by (pos 0) 2) matrix
unfolding guard_dim fits_shape fits_dim compute_size item_size
two_more zero h = (refl, refl)
two_more (suc k) h = let e : 0 ≡ suc k = cc in absurd (omega (arith, e))

perform-Keeps_example : Keeps (perform always (grow_by (pos 0) 2) matrix)
perform-Keeps_example = perform-Keeps always (grow_by (pos 0) 2) matrix matrix-IsValid two_more

abbrev halves : List ℤ
halves = pos 2 ∷ negsuc 0 ∷ pos 3 ∷ []

reshaped_matrix : reshape halves matrix ≡ gives (record matrix { shape = 2 ∷ 2 ∷ 3 ∷ [] })
unfolding reshape
reshaped_matrix = refl

reshape-Reshaped_example : Reshaped halves matrix (record matrix { shape = 2 ∷ 2 ∷ 3 ∷ [] })
reshape-Reshaped_example =
    reshape-Reshaped halves matrix (record matrix { shape = 2 ∷ 2 ∷ 3 ∷ [] }) reshaped_matrix

reshape-finds_example : reshape halves matrix ≡ gives (record matrix { shape = 2 ∷ 2 ∷ 3 ∷ [] })
unfolding compute_size
reshape-finds_example =
    reshape-finds halves (2 ∷ 2 ∷ 3 ∷ []) matrix (refl, (refl, tt)) refl (omega arith) (omega arith)

squeeze-expand_dims_example :
    (s' : Storage) × (expand_dims (negsuc 1) matrix ≡ gives s')
    × (dim_of s' (negsuc 1) ≡ ok 1)
    × (squeeze (negsuc 1) s' ≡ gives matrix)
squeeze-expand_dims_example = squeeze-expand_dims (negsuc 1) matrix (omega arith)

index-row_major_example :
    (index (2 ∷ 1 ∷ []) matrix ≡ ok (row_major (2 ∷ 1 ∷ []) (3 ∷ 4 ∷ [])))
    × (row_major (2 ∷ 1 ∷ []) (3 ∷ 4 ∷ []) < 12)
unfolding compute_size
index-row_major_example = index-row_major matrix refl (2 ∷ 1 ∷ []) (omega arith, (omega arith, tt))

abbrev one_two : List ℕ
one_two = 1 ∷ 2 ∷ []

index-injective_example : one_two ≡ one_two
unfolding compute_size
index-injective_example =
    index-injective matrix refl one_two one_two (omega arith, (omega arith, tt))
      (omega arith, (omega arith, tt)) refl

-- An index beyond its dimension is an element of the next row.
next_row : index (0 ∷ 5 ∷ []) matrix ≡ index (1 ∷ 1 ∷ []) matrix
unfolding index
next_row = refl

-- Eight floats assigned to memory that was reserved for sixteen bytes.
abbrev bytes : Storage
bytes = record {
  dtype = DataType.int8;
  device = Device.cpu;
  device_index = 0;
  owns = true;
  memory = some 16;
  allocated_size = 16;
  size = 16;
  shape = 16 ∷ [];
}

abbrev floats : Storage
floats = record matrix { size = 8; shape = 8 ∷ [] }

assigned_behind_end : assign always floats bytes ≡ undefined
unfolding assign
assigned_behind_end = refl

-- A view of a storage with no element has one element, and no memory.
shared_empty :
    shallow_copy (new_storage DataType.float32 Device.cpu 0) matrix
    ≡ gives (record (new_storage DataType.float32 Device.cpu 0) { allocated_size = 1; size = 1 })
unfolding shallow_copy new_storage
shared_empty = refl

-- A -1 beside a dimension 0.
divided_by_zero :
    reshape (pos 0 ∷ negsuc 0 ∷ []) (record matrix { size = 0; shape = 0 ∷ 4 ∷ [] }) ≡ undefined
unfolding reshape
divided_by_zero = refl

-- Far below the first dimension: inserted before the first, where -5 would be refused by squeeze.
expanded_below :
    (expand_dims (negsuc 4) matrix ≡ undefined)
    × (squeeze (negsuc 4) matrix ≡ throws invalid_argument matrix)
    × (expand_dims (pos 3) matrix ≡ throws out_of_range matrix)
unfolding expand_dims squeeze
expanded_below = (refl, refl, refl)
