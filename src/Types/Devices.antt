-- ===== src/Types/Devices.antt =====
-- The names of the devices and their numbers, of src/devices.cc. `has_gpu` of src/cuda and src/metal
-- is the test that the runtime reports a device.
use ctranslate.Prelude.{
  ℕ, ◌<◌, ltb, Bool, true, String, ◌||◌, str_eq, if◌then◌else◌, invalid_argument, Result, ok, err,
  ◌≡◌, refl, arith,
}
use ctranslate.Types.Defs.{Device, cpu, cuda, metal}
use ctranslate.Types.Support.{Platform}

-- How many devices the runtimes report.
pub record Runtime : Type 0 where
  pub cuda_gpus : ℕ
  pub metal_gpus : ℕ

unfoldable pub get_device_count : Platform → Runtime → Device → ℕ
get_device_count p r cuda = if p.with_cuda then r.cuda_gpus else 0
get_device_count p r metal = if p.with_metal then r.metal_gpus else 0
get_device_count p r cpu = 1

-- The device for "auto".
unfoldable pub auto_device : Platform → Runtime → Device
auto_device p r =
    if p.with_cuda
    then if ltb 0 r.cuda_gpus then cuda else cpu
    else if p.with_metal
    then if ltb 0 r.metal_gpus then metal else cpu
    else cpu

unfoldable pub str_to_device : Platform → Runtime → String → Result Device
unfolding auto_device
str_to_device p r device =
    if str_eq device "cuda" || str_eq device "CUDA"
    then if p.with_cuda then ok cuda else err invalid_argument
    else if str_eq device "cpu" || str_eq device "CPU"
    then ok cpu
    else if str_eq device "metal" || str_eq device "METAL"
    then if p.with_metal then ok metal else err invalid_argument
    else if str_eq device "auto" || str_eq device "AUTO"
    then ok (auto_device p r)
    else err invalid_argument

unfoldable pub device_to_str : Device → String
device_to_str cuda = "cuda"
device_to_str metal = "metal"
device_to_str cpu = "cpu"

-- The build has the device.
abbrev pub has_device : Platform → Device → Bool
has_device p cuda = p.with_cuda
has_device p metal = p.with_metal
has_device p cpu = true

-- The name of a device is read back as the device when the build has it, and refused otherwise.
pub str_to_device-device_to_str :
    (p : Platform) (r : Runtime) (d : Device)
    → str_to_device p r (device_to_str d) ≡ (if has_device p d then ok d else err invalid_argument)
unfolding str_to_device device_to_str
str_to_device-device_to_str p r cuda = refl
str_to_device-device_to_str p r metal = refl
str_to_device-device_to_str p r cpu = refl

-- "auto" is always granted, with a device of which there is at least one.
pub str_to_device_auto :
    (p : Platform) (r : Runtime)
    → (d : Device) × (str_to_device p r "auto" ≡ ok d) × (0 < get_device_count p r d)
unfolding str_to_device auto_device get_device_count
str_to_device_auto p r = (auto_device p r, refl, ground arith)
