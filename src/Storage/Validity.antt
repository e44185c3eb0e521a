-- ===== src/Storage/Validity.antt =====
-- A storage that is in order, and what each operation is asked not to do.
use ctranslate.Prelude.{
  ℕ, ◌+◌, ◌-◌, ◌*◌, set, ◌∷◌, ◌&&◌, true, ◌≤◌, Bool, List, [], length, get_or, Option, some, ok,
  ◌≢◌, ◌⊎◌, ◌≡◌, none, false,
}
use ctranslate.Padding.Padder.{ℤ, pos, negsuc}
use ctranslate.Types.Defs.{DataType}
use ctranslate.Storage.Defs.{
  Storage, Effect, gives, throws, undefined, item_size, compute_size, room, clear, release, reserve,
  fits_dim, fits_shape,
}
use ctranslate.Storage.Shapes.{known_dims, reshape, guard_dim, expand_dims, squeeze}
use ctranslate.Storage.Operations.{
  view, shallow_copy, resize, resize_dim, grow, shrink, resize_as, copy_from, assign, same_device,
}

-- A cleared storage has no dimension and no element; any other has those of its shape.
abbrev pub HasShape : ℕ → List ℕ → Type 0
HasShape size shape = (size ≡ compute_size shape) ⊎ ((size ≡ 0) × (shape ≡ []))

pub record IsValid (s : Storage) : Type 0 where
  pub shaped : HasShape s.size s.shape
  pub fits : s.size ≤ s.allocated_size
  pub backed : s.allocated_size * item_size s.dtype ≤ room s.memory

-- The methods that change a storage.
pub data Operation : Type 0 where
  clear_all release_all : Operation
  reserve_size : ℕ → Operation
  reshape_to : List ℤ → Operation
  expand_dim squeeze_dim : ℤ → Operation
  resize_to : List ℕ → Operation
  resize_one grow_by shrink_by : ℤ → ℕ → Operation
  resize_like : Storage → Operation
  view_at : DataType → Option ℕ → List ℕ → Operation
  shallow_copy_of : Storage → Operation
  copy_of : Storage → Operation
  assign_from : Storage → Operation

module _ (allocate : ℕ → Bool) where
  unfoldable pub perform : Operation → Storage → Effect
  perform clear_all s = gives (clear s)
  perform release_all s = gives (release s)
  perform (reserve_size n) s = reserve allocate n s
  perform (reshape_to dims) s = reshape dims s
  perform (expand_dim d) s = expand_dims d s
  perform (squeeze_dim d) s = squeeze d s
  perform (resize_to shape) s = resize allocate shape s
  perform (resize_one d n) s = resize_dim allocate d n s
  perform (grow_by d n) s = grow allocate d n s
  perform (shrink_by d n) s = shrink allocate d n s
  perform (resize_like other) s = resize_as allocate other s
  perform (view_at dtype memory shape) s = view dtype memory shape s
  perform (shallow_copy_of other) s = shallow_copy other s
  perform (copy_of other) s = copy_from allocate other s
  perform (assign_from other) s = assign allocate other s

-- No product of the loop of reshape, from the product so far, is too large for a `dim_t`.
abbrev pub fits_known : ℕ → List ℤ → Bool
fits_known known [] = true
fits_known known (pos d ∷ dims) = fits_dim d && fits_dim (known * d) && fits_known (known * d) dims
fits_known known (negsuc n ∷ dims) = fits_known known dims

-- Neither the size of a shape nor its number of bytes is too large for a `dim_t`.
abbrev pub IsSmall : DataType → List ℕ → Type 0
IsSmall dtype shape =
    (fits_shape 1 shape ≡ true) × (fits_dim (compute_size shape * item_size dtype) ≡ true)

-- What the source leaves to its callers: to ask for no size or number of bytes that a `dim_t` does not
-- hold; to give no -1 beside a dimension 0, no dimension below
-- -(rank + 1) to expand, nor one of a cleared storage, and no more to shrink than there is; to view no more memory than there is;
-- and to assign no elements of a larger type, from the same device, to memory that was reserved for
-- elements of a smaller one; and to share no cleared storage.
abbrev pub Allowed : Operation → Storage → Type 0
Allowed (reserve_size n) s = fits_dim (n * item_size s.dtype) ≡ true
Allowed (reshape_to dims) s =
    (fits_known 1 dims ≡ true) × ((u : ℕ) → known_dims dims 0 none 1 ≢ ok (some u, 0))
Allowed (resize_to shape) s = IsSmall s.dtype shape
Allowed (resize_one d n) s =
    (k : ℕ) → guard_dim d (length s.shape) ≡ ok k → IsSmall s.dtype (set s.shape k n)
Allowed (grow_by d n) s =
    (k : ℕ)
    → guard_dim d (length s.shape) ≡ ok k
    → IsSmall s.dtype (set s.shape k (get_or s.shape k 0 + n))
Allowed (expand_dim (pos d)) s = s.size ≡ compute_size s.shape
Allowed (expand_dim (negsuc n)) s = (s.size ≡ compute_size s.shape) × (n ≤ length s.shape)
Allowed (shrink_by d n) s =
    (k : ℕ)
    → guard_dim d (length s.shape) ≡ ok k
    → (n ≤ get_or s.shape k 0) × IsSmall s.dtype (set s.shape k (get_or s.shape k 0 - n))
Allowed (view_at dtype memory shape) s =
    (fits_shape 1 shape ≡ true) × (compute_size shape * item_size dtype ≤ room memory)
Allowed (shallow_copy_of other) s =
    IsValid other × (other.size ≡ compute_size other.shape) × (fits_shape 1 other.shape ≡ true)
Allowed (resize_like other) s = IsValid other × IsSmall s.dtype other.shape
Allowed (copy_of other) s = IsValid other × IsSmall s.dtype other.shape
Allowed (assign_from other) s =
    IsValid other
    × IsSmall other.dtype other.shape
    × ((same_device s other ≡ false) ⊎ (item_size other.dtype ≤ item_size s.dtype))
Allowed op s = Unit {0}

abbrev pub Keeps : Effect → Type 0
Keeps (gives s) = IsValid s
Keeps (throws e s) = IsValid s
Keeps undefined = ⊥
