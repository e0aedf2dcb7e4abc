-- ===== src/Native/Hardware/Detect.antt =====
-- Which GPU is found, and the `HardwareInfo` that the rest of the program decides by.
use bubble_hub.Prelude.{
  ℕ, suc, String, Bool, not, ◌&&◌, ◌||◌, Option, none, some, List, [], ◌∷◌, map, ◌==◌, nat_eq,
  string_eq, if◌then◌else◌, ltb,
}
use bubble_hub.Prelude.Int.{ℤ, pos}
use bubble_hub.Prelude.Text.{split, strip, lower, show_nat}
use bubble_hub.Value.{Conversion, number, type_or_value_error, overflow_error}
use bubble_hub.Selector.{HardwareInfo}
use bubble_hub.Native.Hardware.{
  Machine, Profile, gpu_profile, run_text, splitlines, has_part, value_after, supports_vllm_compute,
  gpu_profile_from_env,
}

-- a float that is a NaN or an infinity ends the detection with an exception
pub data Detected {ℓ} (A : Type ℓ) : Type ℓ where
  found : A → Detected A
  not_a_number infinite : Detected A

abbrev pub vllm_first : Bool → List String
vllm_first supported = if supported then "vllm" ∷ "cuda-llama" ∷ [] else "cuda-llama" ∷ []

abbrev pub vllm_backend : Bool → String
vllm_backend supported = if supported then "vllm" else "cuda-llama"

-- `candidate`, from the four parts of a line
unfoldable pub candidate : ℕ → String → ℤ → ℤ → String → Profile
unfolding supports_vllm_compute show_nat
candidate index name total free compute = record (gpu_profile total free) {
  gpu_vendor = "nvidia";
  gpu_name = name;
  gpu_backend = vllm_backend (supports_vllm_compute compute);
  gpu_backends = vllm_first (supports_vllm_compute compute);
  gpu_compute_capability = compute;
  gpu_device = show_nat index;
}

-- `int(total_mib * 1024**2)`, where a text that is no number counts as 0.0
abbrev pub amount : Option Conversion → Detected ℤ
amount none = found (pos 0)
amount (some (number n)) = found n
amount (some type_or_value_error) = not_a_number
amount (some overflow_error) = infinite

abbrev pub with_amounts : (ℤ → ℤ → Profile) → Detected ℤ → Detected ℤ → Detected (Option Profile)
with_amounts f (found total) (found free) = found (some (f total free))
with_amounts f (found total) not_a_number = not_a_number
with_amounts f (found total) infinite = infinite
with_amounts f not_a_number free = not_a_number
with_amounts f infinite free = infinite

-- what a line of `nvidia-smi` gives: nothing, if it has less than four parts
abbrev pub of_parts : Machine → ℕ → List String → Detected (Option Profile)
of_parts machine index (name ∷ total ∷ free ∷ compute ∷ _) =
    with_amounts (λ t f. candidate index name t f compute) (amount (machine.mib_bytes total))
      (amount (machine.mib_bytes free))
of_parts machine index _ = found none

-- `best is None or candidate free > best free`
abbrev pub better : Option Profile → Profile → Profile
better none new = new
better (some best) new = if ltb best.free_vram_bytes new.free_vram_bytes then new else best

abbrev pub keep_best : Option Profile → Option Profile → Option Profile
keep_best best none = best
keep_best best (some new) = some (better best new)

abbrev pub go_on {ℓ μ} : {A : Type ℓ} {B : Type μ} → Detected A → (A → Detected B) → Detected B
go_on (found a) f = f a
go_on not_a_number f = not_a_number
go_on infinite f = infinite

-- the loop over the lines
unfoldable pub best_from : Machine → ℕ → Option Profile → List String → Detected (Option Profile)
unfolding split strip candidate
best_from machine index best [] = found best
best_from machine index best (line ∷ lines) =
    go_on (of_parts machine index (map strip (split 44 line)))
      (λ new. best_from machine (suc index) (keep_best best new) lines)

abbrev pub nvidia_query : List String
nvidia_query =
    "nvidia-smi" ∷ "--query-gpu=name,memory.total,memory.free,compute_cap"
    ∷ "--format=csv,noheader,nounits" ∷ []

unfoldable pub detect_nvidia_gpu : Machine → Detected (Option Profile)
unfolding best_from splitlines
detect_nvidia_gpu machine =
    let output = run_text machine nvidia_query in
    if not (machine.found "nvidia-smi") || output == ""
    then found none
    else best_from machine 0 none (splitlines output)

-- the text after `sep` in the first line that passes the test
unfoldable pub name_in : (String → Bool) → ℕ → List String → String
unfolding value_after strip
name_in test sep [] = ""
name_in test sep (line ∷ lines) =
    let later = name_in test sep lines in if test line then strip (value_after sep line) else later

-- the profile of a GPU that libbubble measures: `free_vram_bytes or vram_bytes`
abbrev pub measured : Machine → String → String → String → Profile
measured machine vendor name backend =
    let free =
      if machine.free_vram_bytes == 0 then machine.vram_bytes else machine.free_vram_bytes in
    record (gpu_profile (pos machine.vram_bytes) (pos free)) {
      gpu_vendor = vendor;
      gpu_name = name;
      gpu_backend = backend;
      gpu_backends = backend ∷ [];
    }

abbrev is_card : String → Bool
is_card line = has_part line "Card series" || has_part line "Card model"

unfoldable pub detect_amd_gpu : Machine → Option Profile
unfolding name_in splitlines has_part
detect_amd_gpu machine =
    let output : String =
      if machine.found "rocm-smi"
      then run_text machine ("rocm-smi" ∷ "--showproductname" ∷ [])
      else "" in
    if machine.found "rocm-smi" || machine.found "rocminfo"
    then some (measured machine "amd" (name_in is_card 58 (splitlines output)) "rocm-llama")
    else none

unfoldable pub detect_intel_gpu : Machine → Option Profile
unfolding lower has_part
detect_intel_gpu machine =
    if machine.found "sycl-ls" && has_part (lower (run_text machine ("sycl-ls" ∷ []))) "gpu"
    then some (measured machine "intel" "SYCL GPU" "sycl-llama")
    else none

abbrev is_device : String → Bool
is_device line = has_part line "deviceName"

unfoldable pub detect_vulkan_gpu : Machine → Option Profile
unfolding name_in splitlines has_part
detect_vulkan_gpu machine =
    let output = run_text machine ("vulkaninfo" ∷ "--summary" ∷ []) in
    if machine.found "vulkaninfo" && has_part output "deviceName"
    then some (measured machine "vulkan" (name_in is_device 61 (splitlines output)) "vulkan-llama")
    else none

-- the first of the detectors that finds a GPU, or what libbubble measures
abbrev pub or_next : Option Profile → Profile → Profile
or_next none next = next
or_next (some profile) next = profile

abbrev pub other_gpu : Machine → Profile
other_gpu machine = or_next (detect_amd_gpu machine) (
    or_next (detect_intel_gpu machine) (
      or_next (detect_vulkan_gpu machine)
        (gpu_profile (pos machine.vram_bytes) (pos machine.free_vram_bytes))))

abbrev pub or_other : Machine → Detected (Option Profile) → Detected Profile
or_other machine (found profile) = found (or_next profile (other_gpu machine))
or_other machine not_a_number = not_a_number
or_other machine infinite = infinite

-- `_detect_gpu_profile`
unfoldable pub detect_gpu_profile : Machine → Detected Profile
unfolding gpu_profile_from_env detect_nvidia_gpu detect_amd_gpu detect_intel_gpu detect_vulkan_gpu
detect_gpu_profile machine = elim (gpu_profile_from_env machine.env) [
  | some profile ↦ found profile
  | none ↦ or_other machine (detect_nvidia_gpu machine)
]

-- `detect_hardware`, with the fields that the program decides by
unfoldable pub detect_hardware : Machine → ℕ → Detected HardwareInfo
unfolding detect_gpu_profile
detect_hardware machine ram_bytes = elim (detect_gpu_profile machine) [
  | found profile ↦ found (record {
    ram_bytes = ram_bytes;
    vram_bytes = profile.vram_bytes;
    gpu_backends = profile.gpu_backends;
  })
  | not_a_number ↦ not_a_number
  | infinite ↦ infinite
]
