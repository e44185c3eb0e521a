-- ===== src/Types/Support.antt =====
-- What a build, its environment and its devices can run: the mayiuse_ functions of src/types.cc,
-- the choice of the matrix product's backend in src/cpu/backend.cc, and the tests on the compute
-- capability in src/cuda/utils.cc.
use ctranslate.Prelude.{
  ℕ, Bool, true, false, String, ◌||◌, ◌&&◌, not, str_eq, ltb, leb, ◌==◌, if◌then◌else◌,
  invalid_argument, Result, ok, err, ◌>>=◌,
}
use ctranslate.Types.Defs.{ComputeType, Device, cpu, cuda, metal}

-- The flags of the build, the environment variables that are read, and what the CUDA runtime and
-- the CPU report. They stand for code that is not part of the repository.
pub record Platform : Type 0 where
  pub with_cuda : Bool
  pub with_hip : Bool
  pub with_metal : Bool
  pub with_mkl : Bool
  pub with_dnnl : Bool
  pub with_accelerate : Bool
  pub with_openblas : Bool
  pub with_ruy : Bool
  pub env_use_mkl : String
  pub env_allow_bf16 : Bool
  pub env_allow_fp16 : Bool
  pub cpu_is_genuine_intel : Bool
  pub cuda_major : ℕ → ℕ
  pub cuda_minor : ℕ → ℕ

unfoldable pub string_to_bool : String → Bool
string_to_bool s = str_eq s "1" || str_eq s "true" || str_eq s "TRUE"

pub data GemmBackend : Type 0 where
  no_backend mkl dnnl accelerate openblas ruy : GemmBackend

unfoldable pub mayiuse_mkl_init : Platform → Result Bool
unfolding string_to_bool
mayiuse_mkl_init p =
    if str_eq p.env_use_mkl ""
    then ok (if p.with_mkl then p.cpu_is_genuine_intel else false)
    else if not p.with_mkl && string_to_bool p.env_use_mkl
    then err invalid_argument
    else ok (string_to_bool p.env_use_mkl)

unfoldable pub is_int8 : ComputeType → Bool
is_int8 ComputeType.int8 = true
is_int8 ComputeType.int8_float32 = true
is_int8 ComputeType.int8_float16 = true
is_int8 ComputeType.int8_bfloat16 = true
is_int8 other = false

unfoldable pub is_float32 : ComputeType → Bool
is_float32 ComputeType.float32 = true
is_float32 other = false

unfoldable pub is_int16 : ComputeType → Bool
is_int16 ComputeType.int16 = true
is_int16 other = false

-- `use_mkl` is the cached result of `mayiuse_mkl`, which only a build with MKL asks for.
unfoldable pub select_backend : Platform → Bool → ComputeType → GemmBackend
unfolding is_int8 is_float32 is_int16
select_backend p use_mkl c =
    if p.with_mkl && use_mkl && (is_float32 c || is_int16 c || is_int8 c)
    then GemmBackend.mkl
    else if p.with_dnnl && (is_float32 c || is_int8 c)
    then dnnl
    else if p.with_accelerate && is_float32 c
    then accelerate
    else if p.with_openblas && is_float32 c
    then openblas
    else if p.with_ruy && (is_int8 c || is_float32 c)
    then ruy
    else no_backend

unfoldable pub get_gemm_backend : Platform → ComputeType → Result GemmBackend
unfolding mayiuse_mkl_init select_backend
get_gemm_backend p c = do
  use_mkl ← if p.with_mkl then mayiuse_mkl_init p else ok false
  ok (select_backend p use_mkl c)

unfoldable pub has_gemm_backend : Platform → ComputeType → Result Bool
unfolding get_gemm_backend
has_gemm_backend p c = do
  backend ← get_gemm_backend p c
  ok (elim backend [ no_backend ↦ false | _ ↦ true ])

unfoldable pub gpu_supports_int8 : Platform → ℕ → Bool
gpu_supports_int8 p i =
    p.with_hip || ltb 6 (p.cuda_major i) || (p.cuda_major i == 6 && p.cuda_minor i == 1)

unfoldable pub gpu_has_int8_tensor_cores : Platform → ℕ → Bool
gpu_has_int8_tensor_cores p i =
    p.with_hip || ltb 7 (p.cuda_major i) || (p.cuda_major i == 7 && leb 2 (p.cuda_minor i))

unfoldable pub gpu_has_fp16_tensor_cores : Platform → ℕ → Bool
gpu_has_fp16_tensor_cores p i = p.with_hip || leb 7 (p.cuda_major i)

unfoldable pub mayiuse_bfloat16 : Platform → Device → ℕ → Bool
mayiuse_bfloat16 p cuda i = p.with_cuda && (p.env_allow_bf16 || leb 8 (p.cuda_major i))
mayiuse_bfloat16 p device i = false

unfoldable pub mayiuse_float16 : Platform → Device → ℕ → Bool
unfolding gpu_has_fp16_tensor_cores
mayiuse_float16 p cuda i = p.with_cuda && (p.env_allow_fp16 || gpu_has_fp16_tensor_cores p i)
mayiuse_float16 p metal i = p.with_metal
mayiuse_float16 p cpu i = false

unfoldable pub mayiuse_int16 : Platform → Device → ℕ → Result Bool
unfolding has_gemm_backend
mayiuse_int16 p cpu i = has_gemm_backend p ComputeType.int16
mayiuse_int16 p device i = ok false

unfoldable pub mayiuse_int8 : Platform → Device → ℕ → Result Bool
unfolding has_gemm_backend gpu_supports_int8
mayiuse_int8 p cuda i = ok (p.with_cuda && gpu_supports_int8 p i)
mayiuse_int8 p cpu i = has_gemm_backend p ComputeType.int8
mayiuse_int8 p metal i = ok p.with_metal

unfoldable pub get_preferred_size_multiple : Platform → ComputeType → Device → ℕ → ℕ
unfolding gpu_has_fp16_tensor_cores gpu_has_int8_tensor_cores
get_preferred_size_multiple p ComputeType.float16 cuda i =
    if p.with_cuda && gpu_has_fp16_tensor_cores p i then 8 else 1
get_preferred_size_multiple p ComputeType.bfloat16 cuda i =
    if p.with_cuda && gpu_has_fp16_tensor_cores p i then 8 else 1
get_preferred_size_multiple p ComputeType.int8_float16 cuda i =
    if p.with_cuda && gpu_has_int8_tensor_cores p i then 16 else 1
get_preferred_size_multiple p ComputeType.int8_bfloat16 cuda i =
    if p.with_cuda && gpu_has_int8_tensor_cores p i then 16 else 1
get_preferred_size_multiple p ComputeType.int8_float32 cuda i =
    if p.with_cuda && gpu_has_int8_tensor_cores p i then 16 else 1
get_preferred_size_multiple p compute_type device i = 1
