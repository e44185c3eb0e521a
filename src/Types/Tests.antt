-- ===== src/Types/Tests.antt =====
-- Runs of the compute type functions, and the theorems at concrete inputs.
use ctranslate.Prelude.{true, false, some, ◌≡◌, refl, ok, err, invalid_argument}
use ctranslate.Types.Defs.{ComputeType, cuda}
use ctranslate.Types.Support.{Platform, get_preferred_size_multiple}
use ctranslate.Types.Resolve.{Support, resolve, resolve_compute_type}
use ctranslate.Types.ResolveLaws.{runs, resolve-runs}

-- A build with CUDA and oneDNN, on a device of compute capability 6.1.
abbrev pascal : Platform
pascal = record {
  with_cuda = true;
  with_hip = false;
  with_metal = false;
  with_mkl = false;
  with_dnnl = true;
  with_accelerate = false;
  with_openblas = false;
  with_ruy = false;
  env_use_mkl = "";
  env_allow_bf16 = false;
  env_allow_fp16 = false;
  cpu_is_genuine_intel = true;
  cuda_major = λ _. 6;
  cuda_minor = λ _. 1;
}

abbrev only_int8 : Support
only_int8 = record { bfloat16 = false; float16 = false; int16 = false; int8 = true }

pascal_int8_float16 :
    resolve_compute_type pascal ComputeType.int8_float16 ComputeType.float16 cuda 0 true
    ≡ some (ok ComputeType.int8_float32)
unfolding resolve_compute_type
pascal_int8_float16 = refl

pascal_refuses_float16 :
    resolve_compute_type pascal ComputeType.float16 ComputeType.float32 cuda 0 false
    ≡ some (err invalid_argument)
unfolding resolve_compute_type
pascal_refuses_float16 = refl

pascal_multiple : get_preferred_size_multiple pascal ComputeType.int8_float32 cuda 0 ≡ 1
unfolding get_preferred_size_multiple
pascal_multiple = refl

resolve-runs_example :
    runs only_int8 (resolve 2 only_int8 ComputeType.default ComputeType.float16 cuda true) ≡ true
resolve-runs_example =
    resolve-runs 0 only_int8 ComputeType.default ComputeType.float16 cuda refl (λ e. cc)

-- A CUDA build on a machine without a GPU.
