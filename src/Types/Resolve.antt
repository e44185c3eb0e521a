-- ===== src/Types/Resolve.antt =====
-- resolve_compute_type of src/types.cc.
use ctranslate.Prelude.{
  ℕ, zero, suc, Bool, true, false, ◌&&◌, not, if◌then◌else◌, Option, none, some, invalid_argument,
  Result, ok, err, ◌>>=◌, guard, ◌>>◌,
}
use ctranslate.Types.Defs.{
  DataType, ComputeType, Device, cpu, cuda, metal, compute_type_to_data_type, int8_compute_type,
}
use ctranslate.Types.Support.{
  Platform, mayiuse_bfloat16, mayiuse_float16, mayiuse_int16, mayiuse_int8,
}

-- The four flags that the function computes first. A recursive call computes the same ones.
pub record Support : Type 0 where
  pub bfloat16 : Bool
  pub float16 : Bool
  pub int16 : Bool
  pub int8 : Bool

unfoldable pub support : Platform → Device → ℕ → Result Support
unfolding mayiuse_bfloat16 mayiuse_float16 mayiuse_int16 mayiuse_int8
support p device i = do
  s16 ← mayiuse_int16 p device i
  s8 ← mayiuse_int8 p device i
  ok (record {
    bfloat16 = mayiuse_bfloat16 p device i;
    float16 = mayiuse_float16 p device i;
    int16 = s16;
    int8 = s8;
  })

abbrev is_cpu : Device → Bool
is_cpu cpu = true
is_cpu other = false

abbrev is_cuda : Device → Bool
is_cuda cuda = true
is_cuda other = false

-- The requested types that need no recursive call. Without `fallback` the request itself, or the
-- error of `unsupported_compute_type`.
unfoldable pub resolve_direct : Support → ComputeType → Device → Bool → Result ComputeType
resolve_direct s ComputeType.float16 device fallback =
    if s.float16
    then ok ComputeType.float16
    else if not fallback
    then err invalid_argument
    else ok ComputeType.float32
resolve_direct s ComputeType.bfloat16 device fallback =
    if s.bfloat16
    then ok ComputeType.bfloat16
    else if not fallback
    then err invalid_argument
    else ok ComputeType.float32
resolve_direct s ComputeType.int16 device fallback =
    if s.int16
    then ok ComputeType.int16
    else if not fallback
    then err invalid_argument
    else if is_cpu device && s.int8
    then ok ComputeType.int8_float32
    else if is_cuda device && s.float16
    then ok ComputeType.float16
    else ok ComputeType.float32
resolve_direct s ComputeType.int8_float32 device fallback =
    if s.int8
    then ok ComputeType.int8_float32
    else if not fallback
    then err invalid_argument
    else if is_cpu device && s.int16
    then ok ComputeType.int16
    else if is_cuda device && s.float16
    then ok ComputeType.float16
    else ok ComputeType.float32
resolve_direct s ComputeType.int8_float16 device fallback =
    if s.int8 && s.float16
    then ok ComputeType.int8_float16
    else if not fallback
    then err invalid_argument
    else if s.int8
    then ok ComputeType.int8_float32
    else if s.float16
    then ok ComputeType.float16
    else if s.int16
    then ok ComputeType.int16
    else ok ComputeType.float32
resolve_direct s ComputeType.int8_bfloat16 device fallback =
    if s.int8 && s.bfloat16
    then ok ComputeType.int8_bfloat16
    else if not fallback
    then err invalid_argument
    else if s.int8
    then ok ComputeType.int8_float32
    else if s.bfloat16
    then ok ComputeType.bfloat16
    else ok ComputeType.float32
resolve_direct s ComputeType.auto metal fallback = ok ComputeType.float32
resolve_direct s ComputeType.auto cuda fallback =
    if s.int8 && s.float16
    then ok ComputeType.int8_float16
    else if s.int8
    then ok ComputeType.int8_float32
    else if s.float16
    then ok ComputeType.float16
    else ok ComputeType.float32
resolve_direct s ComputeType.auto cpu fallback =
    if s.int8
    then ok ComputeType.int8_float32
    else if s.int16
    then ok ComputeType.int16
    else ok ComputeType.float32
resolve_direct s other device fallback = ok ComputeType.float32

-- The test of the INT8 case on the type that the recursive call has chosen.
unfoldable pub check_int8 : Result ComputeType → Result ComputeType
unfolding compute_type_to_data_type
check_int8 r = do
  resolved ← r
  types ← compute_type_to_data_type resolved
  guard (elim (types.0) [ DataType.int8 ↦ true | _ ↦ false ]) invalid_argument
  ok resolved

-- The INT8 case: the model's data types, and the nested resolution with the model's float type.
unfoldable pub resolve_int8_case :
    Result (DataType × DataType)
    → (DataType → Option (Result ComputeType))
    → Option (Result ComputeType)
unfolding check_int8
resolve_int8_case (err e) inner = some (err e)
resolve_int8_case (ok (_, float_type)) inner = elim (inner float_type) [
  | none ↦ none
  | some r ↦ some (check_int8 r)
]

-- On fuel, since DEFAULT calls the function again with the model's type: `none` is a call that has
-- not returned within the fuel.
unfoldable pub resolve :
    ℕ → Support → ComputeType → ComputeType → Device → Bool → Option (Result ComputeType)
unfolding resolve_direct resolve_int8_case int8_compute_type compute_type_to_data_type
resolve zero s requested model device fallback = none
resolve (suc fuel) s ComputeType.default model device fallback =
    resolve fuel s model model device true
resolve (suc fuel) s ComputeType.int8 model device fallback =
    resolve_int8_case (compute_type_to_data_type model)
      (λ float_type. resolve fuel s (int8_compute_type float_type) model device true)
resolve (suc fuel) s requested model device fallback =
    some (resolve_direct s requested device fallback)

abbrev pub with_support :
    Result Support → (Support → Option (Result ComputeType)) → Option (Result ComputeType)
with_support (err e) f = some (err e)
with_support (ok s) f = f s

-- Three nested calls are the most that a model's own type can cause: DEFAULT, INT8 and a direct one.
unfoldable pub resolve_compute_type :
    Platform → ComputeType → ComputeType → Device → ℕ → Bool → Option (Result ComputeType)
unfolding resolve support
resolve_compute_type p requested model device i fallback =
    with_support (support p device i) (λ s. resolve 3 s requested model device fallback)
