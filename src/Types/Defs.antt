-- ===== src/Types/Defs.antt =====
-- The enums of include/ctranslate2/types.h, devices.h and src/cpu/backend.h, their names, and the
-- maps between compute types and pairs of data types (src/types.cc).
use ctranslate.Prelude.{
  Bool, true, false, String, ◌||◌, str_eq, if◌then◌else◌, invalid_argument, Result, ok, err,
}

pub data DataType : Type 0 where
  float32 int8 int16 int32 float16 bfloat16 : DataType

pub data ComputeType : Type 0 where
  default auto float32 int8 int8_float32 int8_float16 int8_bfloat16 int16 float16 : ComputeType
  bfloat16 : ComputeType

pub data Device : Type 0 where
  cpu cuda metal : Device

unfoldable pub dtype_name : DataType → String
dtype_name DataType.float32 = "float32"
dtype_name DataType.int8 = "int8"
dtype_name DataType.int16 = "int16"
dtype_name DataType.int32 = "int32"
dtype_name DataType.float16 = "float16"
dtype_name DataType.bfloat16 = "bfloat16"

unfoldable pub is_float_type : DataType → Bool
is_float_type DataType.float32 = true
is_float_type DataType.float16 = true
is_float_type DataType.bfloat16 = true
is_float_type other = false

unfoldable pub str_to_compute_type : String → Result ComputeType
str_to_compute_type s =
    if str_eq s "int8"
    then ok ComputeType.int8
    else if str_eq s "int8_float32"
    then ok ComputeType.int8_float32
    else if str_eq s "int8_float16"
    then ok ComputeType.int8_float16
    else if str_eq s "int8_bfloat16"
    then ok ComputeType.int8_bfloat16
    else if str_eq s "int16"
    then ok ComputeType.int16
    else if str_eq s "float32" || str_eq s "float"
    then ok ComputeType.float32
    else if str_eq s "float16"
    then ok ComputeType.float16
    else if str_eq s "bfloat16"
    then ok ComputeType.bfloat16
    else if str_eq s "default"
    then ok ComputeType.default
    else if str_eq s "auto"
    then ok ComputeType.auto
    else err invalid_argument

unfoldable pub compute_type_to_str : ComputeType → String
compute_type_to_str ComputeType.default = "default"
compute_type_to_str ComputeType.auto = "auto"
compute_type_to_str ComputeType.float32 = "float32"
compute_type_to_str ComputeType.int8 = "int8"
compute_type_to_str ComputeType.int8_float32 = "int8_float32"
compute_type_to_str ComputeType.int8_float16 = "int8_float16"
compute_type_to_str ComputeType.int8_bfloat16 = "int8_bfloat16"
compute_type_to_str ComputeType.int16 = "int16"
compute_type_to_str ComputeType.float16 = "float16"
compute_type_to_str ComputeType.bfloat16 = "bfloat16"

-- The weight type and the float type of a compute type.
unfoldable pub compute_type_to_data_type : ComputeType → Result (DataType × DataType)
compute_type_to_data_type ComputeType.float32 = ok (DataType.float32, DataType.float32)
compute_type_to_data_type ComputeType.int8_float32 = ok (DataType.int8, DataType.float32)
compute_type_to_data_type ComputeType.int8_float16 = ok (DataType.int8, DataType.float16)
compute_type_to_data_type ComputeType.int8_bfloat16 = ok (DataType.int8, DataType.bfloat16)
compute_type_to_data_type ComputeType.int16 = ok (DataType.int16, DataType.float32)
compute_type_to_data_type ComputeType.float16 = ok (DataType.float16, DataType.float16)
compute_type_to_data_type ComputeType.bfloat16 = ok (DataType.bfloat16, DataType.bfloat16)
compute_type_to_data_type other = err invalid_argument

-- The inner `switch` on the float type, which `resolve_compute_type` writes out once more.
unfoldable pub int8_compute_type : DataType → ComputeType
int8_compute_type DataType.float16 = ComputeType.int8_float16
int8_compute_type DataType.bfloat16 = ComputeType.int8_bfloat16
int8_compute_type other = ComputeType.int8_float32

unfoldable pub data_type_to_compute_type : DataType → DataType → ComputeType
unfolding int8_compute_type
data_type_to_compute_type DataType.int8 float_type = int8_compute_type float_type
data_type_to_compute_type DataType.int16 float_type = ComputeType.int16
data_type_to_compute_type DataType.float16 float_type = ComputeType.float16
data_type_to_compute_type DataType.bfloat16 float_type = ComputeType.bfloat16
data_type_to_compute_type other float_type = ComputeType.float32

unfoldable pub get_default_float_type : ComputeType → Result DataType
unfolding compute_type_to_data_type
get_default_float_type c = elim (compute_type_to_data_type c) [
  | ok (_, float_type) ↦ ok float_type
  | err e ↦ err e
]
