-- ===== src/Native/Hardware/Consistent.antt =====
-- Whatever the machine, the backend of the GPU is one of its backends.
use text.Mathlib.TextPositions.{eq_refl}
use bubble_hub.Prelude.{
  ℕ, suc, String, ◌≡◌, refl, sym, subst, Bool, true, false, Bool-cases, inl, inr, ◌⊎◌, Option, none,
  some, List, [], ◌∷◌, map, ◌==◌, string_eq, eq_iff, if◌then◌else◌, ltb, any, not, ◌||◌,
}
use bubble_hub.Prelude.Dict.{Dict}
use bubble_hub.Prelude.Dict
use bubble_hub.Prelude.Int.{ℤ}
use bubble_hub.Prelude.Text.{split, strip}
use bubble_hub.Native.Hardware.{
  Machine, Profile, run_text, splitlines, contains, supports_vllm_compute, gpu_profile_from_env,
  env_profile, with_backend, chosen_backend, names_nothing, split_env_list,
}
use bubble_hub.Native.Hardware.Detect.{
  Detected, found, not_a_number, infinite, vllm_first, vllm_backend, candidate, of_parts, keep_best,
  go_on, with_amounts, amount, best_from, nvidia_query, detect_nvidia_gpu, detect_amd_gpu,
  detect_intel_gpu, detect_vulkan_gpu, measured, or_next, other_gpu, or_other, detect_gpu_profile,
}
use bubble_hub.Native.Hardware.Laws.{better-if}

-- the backend is one of the backends, or the CPU, or the empty text that the environment may give
abbrev pub IsConsistent : Profile → Type 0
IsConsistent p =
    (contains p.gpu_backends p.gpu_backend ≡ true)
    ⊎ ((p.gpu_backend ≡ "cpu") ⊎ (p.gpu_backend ≡ ""))

abbrev AreConsistent : Option Profile → Type 0
AreConsistent none = Unit
AreConsistent (some p) = IsConsistent p

abbrev AreDetected : Detected (Option Profile) → Type 0
AreDetected (found p) = AreConsistent p
AreDetected not_a_number = Unit
AreDetected infinite = Unit

vllm_first-head : (b : Bool) → contains (vllm_first b) (vllm_backend b) ≡ true
unfolding any
vllm_first-head true = refl
vllm_first-head false = refl

measured-IsConsistent :
    (machine : Machine) (vendor name backend : String)
    → IsConsistent (measured machine vendor name backend)
unfolding any
measured-IsConsistent machine vendor name backend = inl (rw (eq_refl backend) refl)

keep_best-AreConsistent :
    (best new : Option Profile)
    → AreConsistent best
    → AreConsistent new
    → AreConsistent (keep_best best new)
keep_best-AreConsistent best none b n = b
keep_best-AreConsistent none (some new) b n = n
keep_best-AreConsistent (some best) (some new) b n =
    elim (Bool-cases (ltb best.free_vram_bytes new.free_vram_bytes)) [
      | inl t ↦ subst IsConsistent (sym (better-if best new true t)) n
      | inr f ↦ subst IsConsistent (sym (better-if best new false f)) b
    ]

with_amounts-AreDetected :
    (f : ℤ → ℤ → Profile) (a b : Detected ℤ)
    → ((m n : ℤ) → IsConsistent (f m n))
    → AreDetected (with_amounts f a b)
with_amounts-AreDetected f (found m) (found n) h = h m n
with_amounts-AreDetected f (found m) not_a_number h = tt
with_amounts-AreDetected f (found m) infinite h = tt
with_amounts-AreDetected f not_a_number b h = tt
with_amounts-AreDetected f infinite b h = tt

go_on-AreDetected :
    (o : Detected (Option Profile)) (f : Option Profile → Detected (Option Profile))
    → AreDetected o
    → ((p : Option Profile) → AreConsistent p → AreDetected (f p))
    → AreDetected (go_on o f)
go_on-AreDetected (found p) f h k = k p h
go_on-AreDetected not_a_number f h k = tt
go_on-AreDetected infinite f h k = tt

of_parts-AreDetected :
    (machine : Machine) (index : ℕ) (parts : List String)
    → AreDetected (of_parts machine index parts)
unfolding candidate
of_parts-AreDetected machine index [] = tt
of_parts-AreDetected machine index (a ∷ []) = tt
of_parts-AreDetected machine index (a ∷ b ∷ []) = tt
of_parts-AreDetected machine index (a ∷ b ∷ c ∷ []) = tt
of_parts-AreDetected machine index (a ∷ b ∷ c ∷ d ∷ rest) =
    with_amounts-AreDetected (λ t f. candidate index a t f d) (amount (machine.mib_bytes b))
      (amount (machine.mib_bytes c)) (λ t f. inl (vllm_first-head (supports_vllm_compute d)))

best_from-AreDetected :
    (machine : Machine) (index : ℕ) (best : Option Profile) (lines : List String)
    → AreConsistent best
    → AreDetected (best_from machine index best lines)
unfolding best_from
best_from-AreDetected machine index best [] h = h
best_from-AreDetected machine index best (line ∷ lines) h =
    go_on-AreDetected (of_parts machine index (map strip (split 44 line)))
      (λ new. best_from machine (suc index) (keep_best best new) lines)
      (of_parts-AreDetected machine index (map strip (split 44 line)))
      (λ new n.
        best_from-AreDetected machine (suc index) (keep_best best new) lines
          (keep_best-AreConsistent best new h n))

or_next-IsConsistent :
    (o : Option Profile) (p : Profile)
    → AreConsistent o
    → IsConsistent p
    → IsConsistent (or_next o p)
or_next-IsConsistent none p h k = k
or_next-IsConsistent (some q) p h k = h

some_if-AreConsistent :
    (b : Bool) (p : Profile) → IsConsistent p → AreConsistent (if b then some p else none)
some_if-AreConsistent true p h = h
some_if-AreConsistent false p h = tt

none_if-AreConsistent :
    (b : Bool) (p : Profile) → IsConsistent p → AreConsistent (if b then none else some p)
none_if-AreConsistent true p h = tt
none_if-AreConsistent false p h = h

other_gpu-IsConsistent : (machine : Machine) → IsConsistent (other_gpu machine)
unfolding detect_amd_gpu detect_intel_gpu detect_vulkan_gpu
other_gpu-IsConsistent machine =
    or_next-IsConsistent (detect_amd_gpu machine) _
      (some_if-AreConsistent _ _ (measured-IsConsistent machine "amd" "" "rocm-llama"))
      (or_next-IsConsistent (detect_intel_gpu machine) _
        (some_if-AreConsistent _ _ (measured-IsConsistent machine "intel" "SYCL GPU" "sycl-llama"))
        (or_next-IsConsistent (detect_vulkan_gpu machine) _
          (some_if-AreConsistent _ _ (measured-IsConsistent machine "vulkan" "" "vulkan-llama"))
          (inr (inl refl))))

-- what the environment gives
chosen_backend-IsConsistent :
    (backend : Option String) (named : List String)
    → let backends = with_backend backend named in
      let chosen = chosen_backend backend backends in
      (contains backends chosen ≡ true) ⊎ ((chosen ≡ "cpu") ⊎ (chosen ≡ ""))
unfolding with_backend any
chosen_backend-IsConsistent none [] = inr (inl refl)
chosen_backend-IsConsistent none (b ∷ bs) = inl (rw (eq_refl b) refl)
chosen_backend-IsConsistent (some b) named = elim (Bool-cases (b == "")) [
  | inl t ↦ inr (inr ((eq_iff b "").0 t))
  | inr f ↦ elim (Bool-cases (b == "cpu")) [
    | inl t ↦ inr (inl ((eq_iff b "cpu").0 t))
    | inr g ↦ elim (Bool-cases (contains named b)) [
      | inl t ↦ inl (rw (f, g, t) t)
      | inr k ↦ inl (rw (f, g, k, eq_refl b) refl)
    ]
  ]
]

env_profile-IsConsistent :
    (env : Dict String) (named : List String) → IsConsistent (env_profile env named)
unfolding env_profile
env_profile-IsConsistent env named =
    chosen_backend-IsConsistent (Dict.get env "BUBBLEHUB_GPU_BACKEND") named

gpu_profile_from_env-AreConsistent : (env : Dict String) → AreConsistent (gpu_profile_from_env env)
unfolding gpu_profile_from_env
gpu_profile_from_env-AreConsistent env =
    let named = split_env_list (Dict.get env "BUBBLEHUB_GPU_BACKENDS") in
    none_if-AreConsistent (names_nothing env named) (env_profile env named)
      (env_profile-IsConsistent env named)

detect_nvidia_gpu-AreDetected : (machine : Machine) → AreDetected (detect_nvidia_gpu machine)
unfolding detect_nvidia_gpu
detect_nvidia_gpu-AreDetected machine =
    let output = run_text machine nvidia_query in
    elim (Bool-cases (not (machine.found "nvidia-smi") || output == "")) [
      | inl t ↦ rw t tt
      | inr f ↦ rw f (best_from-AreDetected machine 0 none (splitlines output) tt)
    ]

abbrev pub IsSound : Detected Profile → Type 0
IsSound (found p) = IsConsistent p
IsSound not_a_number = Unit
IsSound infinite = Unit

or_other-IsSound :
    (machine : Machine) (o : Detected (Option Profile))
    → AreDetected o
    → IsSound (or_other machine o)
or_other-IsSound machine (found p) h =
    or_next-IsConsistent p (other_gpu machine) h (other_gpu-IsConsistent machine)
or_other-IsSound machine not_a_number h = tt
or_other-IsSound machine infinite h = tt

detected-IsSound :
    (machine : Machine) (o : Option Profile)
    → AreConsistent o
    → IsSound (elim o [ some p ↦ found p | none ↦ or_other machine (detect_nvidia_gpu machine) ])
detected-IsSound machine none h =
    or_other-IsSound machine (detect_nvidia_gpu machine) (detect_nvidia_gpu-AreDetected machine)
detected-IsSound machine (some p) h = h

-- Whatever the environment and the tools say, a profile that is detected has its backend among its
-- backends, or the backend is the CPU or the empty text.
pub detect_gpu_profile-IsSound : (machine : Machine) → IsSound (detect_gpu_profile machine)
unfolding detect_gpu_profile
detect_gpu_profile-IsSound machine =
    detected-IsSound machine (gpu_profile_from_env machine.env)
      (gpu_profile_from_env-AreConsistent machine.env)
