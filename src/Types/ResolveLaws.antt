-- ===== src/Types/ResolveLaws.antt =====
-- What resolve_compute_type promises: it returns, and what it chooses can run.
use ctranslate.Prelude.{
  ℕ, zero, suc, Bool, true, false, ◌&&◌, if◌then◌else◌, Option, none, some, ◌≡◌, ◌≢◌, refl, ◌⊎◌,
  inl, inr, invalid_argument, Result, ok, err, arith,
}
use ctranslate.Types.Defs.{
  DataType, ComputeType, Device, cpu, cuda, metal, compute_type_to_data_type,
}
use ctranslate.Types.Resolve.{Support, resolve}

-- The support that the weights and the floats of a type need. No support makes a symbolic type
-- (DEFAULT, AUTO, INT8) run.
abbrev pub is_supported : Support → ComputeType → Bool
is_supported s ComputeType.float32 = true
is_supported s ComputeType.float16 = s.float16
is_supported s ComputeType.bfloat16 = s.bfloat16
is_supported s ComputeType.int16 = s.int16
is_supported s ComputeType.int8_float32 = s.int8
is_supported s ComputeType.int8_float16 = s.int8 && s.float16
is_supported s ComputeType.int8_bfloat16 = s.int8 && s.bfloat16
is_supported s other = false

-- The types that name their weights and floats.
abbrev pub is_concrete : ComputeType → Bool
is_concrete ComputeType.default = false
is_concrete ComputeType.auto = false
is_concrete ComputeType.int8 = false
is_concrete other = true

-- The resolution without fallback of a concrete type is that type if the device and the build
-- support it, and invalid_argument if not.
pub resolve_exact :
    (fuel : ℕ) (s : Support) (c model : ComputeType) (device : Device)
    → is_concrete c ≡ true
    → resolve (suc fuel) s c model device false
      ≡ some (if is_supported s c then ok c else err invalid_argument)
unfolding resolve
resolve_exact fuel s ComputeType.default model device h = cc
resolve_exact fuel s other model device h = ground arith

-- A supported concrete type resolves to itself, with and without fallback.
pub resolve_supported :
    (fuel : ℕ) (s : Support) (c model : ComputeType) (device : Device) (fallback : Bool)
    → is_supported s c ≡ true
    → resolve (suc fuel) s c model device fallback ≡ some (ok c)
unfolding resolve
resolve_supported fuel s ComputeType.default model device fallback h = cc
resolve_supported fuel s other model device fallback h = ground arith

-- The outcome is a type that runs.
abbrev pub runs : Support → Option (Result ComputeType) → Bool
runs s (some (ok c)) = is_supported s c
runs s other = false

direct-runs :
    (fuel : ℕ) (s : Support) (requested model : ComputeType) (device : Device)
    → requested ≢ ComputeType.default
    → requested ≢ ComputeType.int8
    → runs s (resolve (suc fuel) s requested model device true) ≡ true
unfolding resolve
direct-runs fuel s ComputeType.default model device h n = absurd (h refl)
direct-runs fuel s ComputeType.int8 model device h n = absurd (n refl)
direct-runs fuel s ComputeType.auto model cpu h n = ground arith
direct-runs fuel s ComputeType.auto model cuda h n = ground arith
direct-runs fuel s ComputeType.auto model metal h n = refl
direct-runs fuel s other model device h n = ground arith

-- With fallback, a request other than INT8 for a model of a concrete type never fails: it gives a
-- type that the device and the build support.
pub resolve-runs :
    (fuel : ℕ) (s : Support) (requested model : ComputeType) (device : Device)
    → is_concrete model ≡ true
    → requested ≢ ComputeType.int8
    → runs s (resolve (suc (suc fuel)) s requested model device true) ≡ true
unfolding resolve
resolve-runs fuel s ComputeType.default model device h ne =
    direct-runs fuel s model model device (λ e. ground (arith, e)) (λ e. ground (arith, e))
resolve-runs fuel s ComputeType.int8 model device h ne = absurd (ne refl)
resolve-runs fuel s other model device h ne =
    direct-runs (suc fuel) s other model device (λ e. cc) (λ e. cc)

-- The type that an INT8 request for a model with this float type gets where INT8 is supported.
abbrev pub int8_choice : Support → DataType → ComputeType
int8_choice s DataType.float16 =
    if s.float16 then ComputeType.int8_float16 else ComputeType.int8_float32
int8_choice s DataType.bfloat16 =
    if s.bfloat16 then ComputeType.int8_bfloat16 else ComputeType.int8_float32
int8_choice s other = ComputeType.int8_float32

-- An INT8 request keeps the model's float type if that is supported, and FLOAT32 if not; without
-- support for INT8 it is invalid_argument, whatever `fallback` says.
pub resolve_int8 :
    (fuel : ℕ) (s : Support) (model : ComputeType) (device : Device) (fallback : Bool)
    {w f : DataType}
    → compute_type_to_data_type model ≡ ok (w, f)
    → resolve (suc (suc fuel)) s ComputeType.int8 model device fallback
      ≡ some (if s.int8 then ok (int8_choice s f) else err invalid_argument)
unfolding resolve
resolve_int8 fuel s ComputeType.default device fallback h = absurd (ground arith)
resolve_int8 fuel s other device fallback h = ground arith

resolve_int8_returns :
    (fuel : ℕ) (s : Support) (model : ComputeType) (device : Device) (fallback : Bool)
    → (r : Result ComputeType) × (resolve (suc (suc fuel)) s ComputeType.int8 model device fallback
        ≡ some r)
unfolding resolve
resolve_int8_returns fuel s ComputeType.default device fallback = (_, refl)
resolve_int8_returns fuel s other device fallback = (_, refl)

resolve_default_returns :
    (fuel : ℕ) (s : Support) (model : ComputeType) (device : Device) (fallback : Bool)
    → model ≢ ComputeType.default
    → (r : Result ComputeType) × (resolve
          (suc (suc (suc fuel)))
          s
          ComputeType.default
          model
          device
          fallback
        ≡ some r)
unfolding resolve
resolve_default_returns fuel s ComputeType.default device fallback h = absurd (h refl)
resolve_default_returns fuel s ComputeType.int8 device fallback h = (_, refl)
resolve_default_returns fuel s other device fallback h = (_, refl)

-- Three nested calls are enough, unless DEFAULT is asked for a model whose own type is DEFAULT.
pub resolve_returns :
    (fuel : ℕ) (s : Support) (requested model : ComputeType) (device : Device) (fallback : Bool)
    → (requested ≢ ComputeType.default) ⊎ (model ≢ ComputeType.default)
    → (r : Result ComputeType) × (resolve (suc (suc (suc fuel))) s requested model device fallback
        ≡ some r)
unfolding resolve
resolve_returns fuel s ComputeType.default model device fallback (inl h) = absurd (h refl)
resolve_returns fuel s ComputeType.default model device fallback (inr h) =
    resolve_default_returns fuel s model device fallback h
resolve_returns fuel s ComputeType.int8 model device fallback h =
    resolve_int8_returns (suc fuel) s model device fallback
resolve_returns fuel s other model device fallback h = (_, refl)

-- DEFAULT for a model whose own type is DEFAULT calls itself with the same arguments for ever.
pub resolve_diverges :
    (fuel : ℕ) (s : Support) (device : Device) (fallback : Bool)
    → resolve fuel s ComputeType.default ComputeType.default device fallback ≡ none
unfolding resolve
resolve_diverges zero s device fallback = refl
resolve_diverges (suc fuel) s device fallback = resolve_diverges fuel s device true
