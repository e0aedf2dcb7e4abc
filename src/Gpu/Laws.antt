-- ===== src/Gpu/Laws.antt =====
-- What the chosen profile promises of the machine.
use bubble_hub.Prelude.{
  String, ◌≡◌, ◌≢◌, refl, ◌⊎◌, inl, inr, true, false, List, [], ◌∷◌, arith, ◌==◌, string_eq, eq_iff,
  Bool-cases, ◌↔◌, subst, ap, sym,
}
use bubble_hub.Prelude.Text.{strip, lower}
use bubble_hub.Gpu.{
  contains, llama_gpu_backends, gpu_modes, Profile, first_supported, normal_mode, choose_profile,
  choose_install_profile, Arguments, is_given, exit_status, main,
}

-- a profile that can be installed on a machine with these backends
abbrev pub IsSound : List String → Profile → Type 0
IsSound supported p =
    (p.supported ≡ true → (p.backend ≡ "cpu") ⊎ (contains supported p.backend ≡ true))
    × (p.install_vllm ≡ true → p.backend ≡ "vllm")

first_supported-IsSound :
    (supported backends : List String)
    → IsSound supported (first_supported supported backends)
      × ((first_supported supported backends).supported ≡ true)
unfolding first_supported
first_supported-IsSound supported [] = ((λ h. inl refl, λ h. cc), refl)
first_supported-IsSound supported (b ∷ backends) = elim (Bool-cases (contains supported b)) [
  | inl t ↦ rw t ((λ h. inr t, λ h. cc), refl)
  | inr f ↦ rw f (first_supported-IsSound supported backends)
]

choose_profile-IsSound :
    (supported : List String) (mode normalized : String)
    → IsSound supported (choose_profile supported mode normalized)
unfolding choose_profile
choose_profile-IsSound supported mode n = elim (Bool-cases (contains gpu_modes n)) [
  | inr f ↦ rw f (λ h. inl refl, λ h. cc)
  | inl known ↦ rw known (elim (Bool-cases (n == "cpu")) [
    | inl t ↦ rw t (λ h. inl refl, λ h. cc)
    | inr f ↦ rw f (elim (Bool-cases (n == "vllm")) [
      | inl t ↦ rw t (λ h. inr h, λ h. refl)
      | inr g ↦ rw g (elim (Bool-cases (contains llama_gpu_backends n)) [
        | inl t ↦ rw t (λ h. inr h, λ h. cc)
        | inr k ↦ rw k (elim (Bool-cases (contains supported "vllm")) [
          | inl t ↦ rw t (λ h. inr t, λ h. refl)
          | inr l ↦ rw l (first_supported-IsSound supported llama_gpu_backends).0
        ])
      ])
    ])
  ])
]

-- For every mode a profile that counts as supported names the CPU or a GPU backend that the machine
-- has, and vLLM is installed only with the vLLM backend.
pub choose_install_profile-IsSound :
    (supported : List String) (mode : String)
    → IsSound supported (choose_install_profile supported mode)
unfolding choose_install_profile
choose_install_profile-IsSound supported mode =
    choose_profile-IsSound supported mode (normal_mode mode)

auto_supported :
    (supported : List String) (mode : String)
    → (choose_profile supported mode "auto").supported ≡ true
unfolding choose_profile
auto_supported supported mode = elim (Bool-cases (contains supported "vllm")) [
  | inl t ↦ rw t refl
  | inr f ↦ rw f (first_supported-IsSound supported llama_gpu_backends).1
]

exit_auto :
    (args : Arguments) (p : Profile)
    → args.mode ≡ "auto"
    → p.supported ≡ true
    → ((exit_status args p).0 ≢ 0)
      ↔ ((p.install_vllm ≡ true) × (args.no_install ≡ false) × (is_given args.wheel ≡ false))
unfolding exit_status
exit_auto args p a s =
    (λ h. ground (arith, eq_iff args.mode "auto"), λ h e. ground (arith, eq_iff args.mode "auto"))

auto_profile :
    (supported : List String) → (choose_install_profile supported "auto").supported ≡ true
unfolding choose_install_profile lower strip
auto_profile supported = auto_supported supported "auto"

-- In automatic mode the setup fails exactly if it has vLLM to install and no wheel is given; an
-- installation that pip cannot do does not fail it.
pub main-auto :
    (supported : List String) (args : Arguments)
    → args.mode ≡ "auto"
    → ((main supported args).0 ≢ 0) ↔ (
        ((choose_install_profile supported "auto").install_vllm ≡ true)
        × (args.no_install ≡ false)
        × (is_given args.wheel ≡ false))
unfolding main
main-auto supported args a =
    subst
      (λ p. ((exit_status args p).0 ≢ 0) ↔ (
        ((choose_install_profile supported "auto").install_vllm ≡ true)
        × (args.no_install ≡ false)
        × (is_given args.wheel ≡ false)))
      (ap (choose_install_profile supported) (sym a))
      (exit_auto args (choose_install_profile supported "auto") a (auto_profile supported))
