-- ===== src/Storage/Operations.antt =====
-- The operations of StorageView that change its memory.
use ctranslate.Prelude.{
  ℕ, ◌+◌, ◌-◌, ◌*◌, Bool, false, ◌&&◌, not, List, map, get_or, set, length, Option, leb, ◌==◌,
  if◌then◌else◌, is_nil, invalid_argument, ok, err,
}
use ctranslate.Padding.Padder.{ℤ, pos}
use ctranslate.Types.Defs.{DataType, Device}
use ctranslate.Storage.Defs.{
  Storage, Effect, gives, throws, undefined, item_size, compute_size, room, clear, release, reserve,
  fits_shape,
}
use ctranslate.Storage.Shapes.{reshape, guard_dim}

abbrev pub type_code : DataType → ℕ
type_code DataType.float32 = 0
type_code DataType.int8 = 1
type_code DataType.int16 = 2
type_code DataType.int32 = 3
type_code DataType.float16 = 4
type_code DataType.bfloat16 = 5

abbrev device_code : Device → ℕ
device_code Device.cpu = 0
device_code Device.cuda = 1
device_code Device.metal = 2

abbrev pub same_type : DataType → DataType → Bool
same_type a b = type_code a == type_code b

abbrev pub same_device : Storage → Storage → Bool
same_device s t = device_code s.device == device_code t.device && s.device_index == t.device_index

-- `view` of a pointer to elements of a type.
unfoldable pub view : DataType → Option ℕ → List ℕ → Storage → Effect
unfolding release compute_size fits_shape reshape
view dtype memory shape s =
    if same_type s.dtype dtype
    then (if fits_shape 1 shape
        then reshape (map pos shape) (record (release s) {
          memory = memory;
          allocated_size = compute_size shape;
          size = compute_size shape;
        })
        else undefined)
    else throws invalid_argument s

-- What a step does with the storage that the one before it gives.
abbrev pub and_gives : Effect → (Storage → Effect) → Effect
and_gives (gives s) k = k s
and_gives (throws e s) k = throws e s
and_gives undefined k = undefined

unfoldable pub shallow_copy : Storage → Storage → Effect
unfolding view
shallow_copy other s =
    and_gives (view other.dtype other.memory other.shape (record s { dtype = other.dtype }))
      λ s'. gives (record s' { device = other.device; device_index = other.device_index })

-- `StorageView(StorageView&&)`: the new storage, and what is left of the other.
unfoldable pub move_from : Storage → Storage × Storage
unfolding release
move_from other = (other, release (record other { owns = false }))

-- The copy of `size` elements of a type to the memory of a storage. A write behind its end is
-- undefined.
unfoldable pub copy_elements : DataType → ℕ → Storage → Effect
unfolding room item_size
copy_elements dtype size s =
    if not (size == s.size)
    then throws invalid_argument s
    else if not (same_type s.dtype dtype)
    then throws invalid_argument s
    else if leb (size * item_size dtype) (room s.memory)
    then gives s
    else undefined

module _ (allocate : ℕ → Bool) where
  unfoldable pub resize : List ℕ → Storage → Effect
  unfolding reserve compute_size fits_shape
  resize new_shape s =
      if fits_shape 1 new_shape
      then and_gives (reserve allocate (compute_size new_shape) s)
          (λ s'. gives (record s' { size = compute_size new_shape; shape = new_shape }))
      else undefined

  unfoldable pub resize_dim : ℤ → ℕ → Storage → Effect
  unfolding guard_dim resize
  resize_dim dim new_size s = elim (guard_dim dim (length s.shape)) [
    | err e ↦ throws e s
    | ok d ↦ resize (set s.shape d new_size) s
  ]

  unfoldable pub grow : ℤ → ℕ → Storage → Effect
  unfolding guard_dim resize_dim
  grow dim size s = elim (guard_dim dim (length s.shape)) [
    | err e ↦ throws e s
    | ok d ↦ resize_dim dim (get_or s.shape d 0 + size) s
  ]

  -- The source does not exclude a negative dimension.
  unfoldable pub shrink : ℤ → ℕ → Storage → Effect
  unfolding guard_dim resize_dim
  shrink dim size s = elim (guard_dim dim (length s.shape)) [
    | err e ↦ throws e s
    | ok d ↦
        if leb size (get_or s.shape d 0)
        then resize_dim dim (get_or s.shape d 0 - size) s
        else undefined
  ]

  unfoldable pub resize_as : Storage → Storage → Effect
  unfolding clear resize
  resize_as other s =
      if other.size == 0 && is_nil other.shape then gives (clear s) else resize other.shape s

  unfoldable pub copy_from : Storage → Storage → Effect
  unfolding resize_as copy_elements
  copy_from other s = and_gives (resize_as other s) λ s'. copy_elements other.dtype other.size s'

  -- `operator=(const StorageView&)`, from another object.
  unfoldable pub assign : Storage → Storage → Effect
  unfolding copy_from release
  assign other s =
      let s' = if same_device s other then s else release s in
      copy_from other (record s' {
        device = other.device;
        device_index = other.device_index;
        dtype = other.dtype;
      })
