-- ===== src/Gpu.antt =====
-- The choice of an install profile, bubblehub/gpu_setup.py.
pub mod Laws
mod Examples
use bubble_hub.Prelude.{
  ℕ, zero, String, Bool, true, false, not, ◌&&◌, Option, none, some, List, [], ◌∷◌, ◌==◌, string_eq,
  nat_eq, if◌then◌else◌, any, is_empty,
}
use bubble_hub.Prelude.Text.{concat, strip, lower}

-- a test for a name in a list of names
unfoldable pub contains : List String → String → Bool
unfolding any
contains names name = any (λ n. n == name) names

abbrev pub llama_gpu_backends : List String
llama_gpu_backends = "cuda-llama" ∷ "rocm-llama" ∷ "vulkan-llama" ∷ "sycl-llama" ∷ []

abbrev pub gpu_modes : List String
gpu_modes = "auto" ∷ "cpu" ∷ "vllm" ∷ llama_gpu_backends

-- The profile; the hardware that it repeats is left out.
pub record Profile : Type 0 where
  pub backend : String
  pub install_vllm : Bool
  pub supported : Bool
  pub reason : String

abbrev profile : String → Bool → Bool → String → Profile
profile backend install supported reason = record {
  backend = backend;
  install_vllm = install;
  supported = supported;
  reason = reason;
}

-- the loop over the llama backends, and what stands behind it
unfoldable pub first_supported : List String → List String → Profile
unfolding contains
first_supported supported [] = profile "cpu" false true "No supported GPU backend detected"
first_supported supported (backend ∷ backends) =
    if contains supported backend
    then profile backend false true (concat (backend ∷ " selected automatically" ∷ []))
    else first_supported supported backends

abbrev pub normal_mode : String → String
normal_mode mode =
    let normalized = lower (strip mode) in if normalized == "" then "auto" else normalized

-- the branches of `choose_install_profile`, on the normalized mode; `supported` is
-- `hardware.gpu_backends`
unfoldable pub choose_profile : List String → String → String → Profile
unfolding contains first_supported
choose_profile supported mode normalized =
    if not (contains gpu_modes normalized)
    then profile "cpu" false false (concat ("unsupported BUBBLEHUB_GPU mode '" ∷ mode ∷ "'" ∷ []))
    else if normalized == "cpu"
    then profile "cpu" false true "CPU mode forced by BUBBLEHUB_GPU=cpu"
    else if normalized == "vllm"
    then profile "vllm" true (contains supported "vllm") "vLLM forced by BUBBLEHUB_GPU=vllm"
    else if contains llama_gpu_backends normalized
    then profile normalized false (contains supported normalized)
        (concat (normalized ∷ " forced by BUBBLEHUB_GPU=" ∷ normalized ∷ []))
    else if contains supported "vllm"
    then profile "vllm" true true "vLLM selected automatically"
    else first_supported supported llama_gpu_backends

unfoldable pub choose_install_profile : List String → String → Profile
unfolding choose_profile
choose_install_profile supported mode = choose_profile supported mode (normal_mode mode)

-- the arguments of `main`, and the status of the `pip install` that it may run
pub record Arguments : Type 0 where
  pub mode : String
  pub wheel : Option String
  pub no_install : Bool
  pub pip_status : ℕ

abbrev pub is_given : Option String → Bool
is_given none = false
is_given (some wheel) = not (wheel == "")

-- the exit status of `main`, and whether it runs pip
unfoldable pub exit_status : Arguments → Profile → ℕ × Bool
exit_status args p =
    if not p.supported
    then (if args.mode == "auto" then (0, false) else (1, false))
    else if p.install_vllm && not args.no_install
    then (if not (is_given args.wheel)
        then (1, false)
        else if not (args.pip_status == 0) && args.mode == "auto"
        then (0, true)
        else (args.pip_status, true))
    else (0, false)

unfoldable pub main : List String → Arguments → ℕ × Bool
unfolding exit_status
main supported args = exit_status args (choose_install_profile supported args.mode)
