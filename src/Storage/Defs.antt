-- ===== src/Storage/Defs.antt =====
-- The state of a StorageView, its sizes, and the memory that it holds.
use ctranslate.Prelude.{
  ℕ, ◌*◌, Bool, true, false, List, [], ◌∷◌, Option, none, some, leb, ltb, ◌&&◌, not, if◌then◌else◌,
  Error, runtime_error,
}
use ctranslate.Types.Defs.{DataType, Device}

-- `_data` is known by the number of bytes behind the pointer, `_allocator` by whether it is set. The
-- elements are left out.
pub record Storage : Type 0 where
  pub dtype : DataType
  pub device : Device
  pub device_index : ℕ
  pub owns : Bool
  pub memory : Option ℕ
  pub allocated_size : ℕ
  pub size : ℕ
  pub shape : List ℕ

-- What a method does to its storage. An exception leaves it in some state.
pub data Effect : Type 0 where
  gives : Storage → Effect
  throws : Error → Storage → Effect
  undefined : Effect

-- `sizeof`.
unfoldable pub item_size : DataType → ℕ
item_size DataType.float32 = 4
item_size DataType.int8 = 1
item_size DataType.int16 = 2
item_size DataType.int32 = 4
item_size DataType.float16 = 2
item_size DataType.bfloat16 = 2

unfoldable pub compute_size : List ℕ → ℕ
compute_size [] = 1
compute_size (d ∷ ds) = d * compute_size ds

-- `dim_t` has 64 bits and a sign. A product that it does not hold is undefined.
unfoldable pub fits_dim : ℕ → Bool
fits_dim n = ltb n 9223372036854775808

-- The loop of compute_size overflows nowhere, from the product so far.
unfoldable pub fits_shape : ℕ → List ℕ → Bool
unfolding fits_dim
fits_shape size [] = true
fits_shape size (d ∷ ds) = fits_dim d && fits_dim (size * d) && fits_shape (size * d) ds

unfoldable pub new_storage : DataType → Device → ℕ → Storage
new_storage dtype device device_index = record {
  dtype = dtype;
  device = device;
  device_index = device_index;
  owns = false;
  memory = none;
  allocated_size = 0;
  size = 0;
  shape = [];
}

-- The bytes behind the pointer.
unfoldable pub room : Option ℕ → ℕ
room none = 0
room (some bytes) = bytes

unfoldable pub clear : Storage → Storage
clear s = record s { size = 0; shape = [] }

unfoldable pub release : Storage → Storage
unfolding clear
release s = clear (record s { memory = none; owns = false; allocated_size = 0 })

-- `allocate` says for which numbers of bytes the allocator gives memory.
module _ (allocate : ℕ → Bool) where
  unfoldable pub reserve : ℕ → Storage → Effect
  unfolding release item_size fits_dim
  reserve n s =
      if leb n s.allocated_size
      then gives s
      else if not (fits_dim (n * item_size s.dtype))
      then undefined
      else if allocate (n * item_size s.dtype)
      then gives (record (release s) {
        owns = true;
        memory = some (n * item_size s.dtype);
        allocated_size = n;
      })
      else throws runtime_error (record (release s) { owns = true })
