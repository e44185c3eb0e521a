-- ===== src/Types/CpuLaws.antt =====
-- On the CPU only FLOAT32 is a float type that resolve_compute_type chooses.
use ctranslate.Prelude.{
  ℕ, zero, suc, Bool, true, false, Option, none, some, ◌≡◌, refl, Result, ok, err, arith, >>=-eq-ok,
  ap, sym, ◌∙◌,
}
use ctranslate.Types.Defs.{
  DataType, ComputeType, Device, cpu, cuda, metal, compute_type_to_data_type, int8_compute_type,
  get_default_float_type,
}
use ctranslate.Types.Support.{Platform, mayiuse_int16, mayiuse_int8}
use ctranslate.Types.Resolve.{
  Support, support, resolve_direct, check_int8, resolve, resolve_compute_type, resolve_int8_case,
  with_support,
}

-- The float type of the outcome is FLOAT32, if there is an outcome.
abbrev float32_only : Option (Result ComputeType) → Bool
float32_only (some (ok ComputeType.float16)) = false
float32_only (some (ok ComputeType.bfloat16)) = false
float32_only (some (ok ComputeType.int8_float16)) = false
float32_only (some (ok ComputeType.int8_bfloat16)) = false
float32_only (some (ok ComputeType.default)) = false
float32_only (some (ok ComputeType.auto)) = false
float32_only (some (ok ComputeType.int8)) = false
float32_only other = true

direct-float32 :
    (s : Support) (requested : ComputeType) (device : Device) (fallback : Bool)
    → s.float16 ≡ false
    → s.bfloat16 ≡ false
    → float32_only (some (resolve_direct s requested device fallback)) ≡ true
unfolding resolve_direct
direct-float32 s ComputeType.auto cpu fallback h b = ground arith
direct-float32 s ComputeType.auto cuda fallback h b = ground arith
direct-float32 s ComputeType.auto metal fallback h b = refl
direct-float32 s other device fallback h b = ground arith

check_int8-float32 :
    (r : Result ComputeType)
    → float32_only (some r) ≡ true
    → float32_only (some (check_int8 r)) ≡ true
unfolding check_int8
check_int8-float32 (err e) h = refl
check_int8-float32 (ok ComputeType.float32) h = refl
check_int8-float32 (ok other) h = ground arith

-- The INT8 case, for any model type and any inner resolution.
int8-float32 :
    (t : Result (DataType × DataType)) (inner : DataType → Option (Result ComputeType))
    → ((f : DataType) → float32_only (inner f) ≡ true)
    → float32_only (resolve_int8_case t inner) ≡ true
unfolding resolve_int8_case
int8-float32 (err e) inner h = refl
int8-float32 (ok (w, f)) inner h = rest (inner f) (h f)
  where
    rest :
        (o : Option (Result ComputeType))
        → float32_only o ≡ true
        → float32_only (elim o [ none ↦ none | some r ↦ some (check_int8 r) ]) ≡ true
    rest none h = refl
    rest (some r) h = check_int8-float32 r h

resolve-float32 :
    (fuel : ℕ) (s : Support) (requested model : ComputeType) (device : Device) (fallback : Bool)
    → s.float16 ≡ false
    → s.bfloat16 ≡ false
    → float32_only (resolve fuel s requested model device fallback) ≡ true
unfolding resolve
resolve-float32 zero s requested model device fallback h b = refl
resolve-float32 (suc fuel) s ComputeType.default model device fallback h b =
    resolve-float32 fuel s model model device true h b
resolve-float32 (suc fuel) s ComputeType.int8 model device fallback h b =
    int8-float32 (compute_type_to_data_type model)
      (λ f. resolve fuel s (int8_compute_type f) model device true)
      (λ f. resolve-float32 fuel s (int8_compute_type f) model device true h b)
resolve-float32 (suc fuel) s other model device fallback h b =
    direct-float32 s other device fallback h b

float32_only-data_type :
    (c : ComputeType)
    → float32_only (some (ok c)) ≡ true
    → get_default_float_type c ≡ ok DataType.float32
unfolding get_default_float_type
float32_only-data_type ComputeType.float32 h = refl
float32_only-data_type other h = ground arith

-- No flag for half precision is set on the CPU.
support-cpu :
    (p : Platform) (i : ℕ) (s : Support)
    → support p cpu i ≡ ok s
    → (s.float16 ≡ false) × (s.bfloat16 ≡ false)
unfolding support
support-cpu p i s h =
    let (s16, _, h16) = >>=-eq-ok (mayiuse_int16 p cpu i) _ h in
    let (s8, _, h8) = >>=-eq-ok (mayiuse_int8 p cpu i) _ h16 in (ground arith, ground arith)

with_support-float32 :
    (r : Result Support) (f : Support → Option (Result ComputeType))
    → ((s : Support) → r ≡ ok s → float32_only (f s) ≡ true)
    → float32_only (with_support r f) ≡ true
with_support-float32 (err e) f h = refl
with_support-float32 (ok s) f h = h s refl

cpu-outcome :
    (p : Platform) (requested model : ComputeType) (i : ℕ) (fallback : Bool)
    → float32_only (resolve_compute_type p requested model cpu i fallback) ≡ true
unfolding resolve_compute_type
cpu-outcome p requested model i fallback =
    with_support-float32 (support p cpu i) _ λ s e.
      let (h, b) = support-cpu p i s e in resolve-float32 3 s requested model cpu fallback h b

-- On the CPU, whatever is requested and whatever the model is, a compute type that the resolution
-- gives computes in FLOAT32.
pub resolve_compute_type_cpu :
    (p : Platform) (requested model : ComputeType) (i : ℕ) (fallback : Bool) (c : ComputeType)
    → resolve_compute_type p requested model cpu i fallback ≡ some (ok c)
    → get_default_float_type c ≡ ok DataType.float32
resolve_compute_type_cpu p requested model i fallback c h =
    float32_only-data_type c (ap float32_only (sym h) ∙ cpu-outcome p requested model i fallback)
