-- ===== src/Gpu/Examples.antt =====
-- The theorems on the install profile, at a machine with CUDA and vLLM.
use bubble_hub.Prelude.{String, ◌≡◌, ◌≢◌, refl, true, false, none, List, [], ◌∷◌, ◌↔◌}
use bubble_hub.Gpu.{choose_install_profile, Arguments, is_given, main}
use bubble_hub.Gpu.Laws.{IsSound, choose_install_profile-IsSound, main-auto}

abbrev supported : List String
supported = "cuda-llama" ∷ "vllm" ∷ []

abbrev args : Arguments
args = record { mode = "auto"; wheel = none; no_install = false; pip_status = 0 }

choose_install_profile-IsSound_example :
    IsSound supported (choose_install_profile supported " CUDA-llama")
choose_install_profile-IsSound_example = choose_install_profile-IsSound supported " CUDA-llama"

main-auto_example : ((main supported args).0 ≢ 0) ↔ (
    ((choose_install_profile supported "auto").install_vllm ≡ true)
    × (args.no_install ≡ false)
    × (is_given args.wheel ≡ false))
main-auto_example = main-auto supported args refl
