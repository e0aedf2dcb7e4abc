-- ===== src/Registry/Normal.antt =====
-- `__post_init__` of bubblehub/engine/registry.py brings a model to a normal form.
use bubble_hub.Prelude.{ℕ, String, ◌≡◌, ◌≢◌, ◌⊎◌, List, [], ◌∷◌, arith, eq_iff}
use bubble_hub.Registry.Spec.{
  RawSpec, ModelSpec, listed, post_init, given_backends, normal_placement, normal_backends,
}

-- The constructor's arguments that give a model back.
abbrev pub as_raw : ModelSpec → RawSpec
as_raw m = record {
  name = m.name;
  flavor = m.flavor;
  capability = m.capability;
  tier = m.tier;
  backend = m.backend;
  repo_id = m.repo_id;
  filename = m.filename;
  ram_gb = m.ram_gb;
  vram_gb = m.vram_gb;
  context_tokens = m.context_tokens;
  placement = m.placement;
  gpu_backends = listed m.gpu_backends;
  gpu_layers = m.gpu_layers;
}

placement_again :
    (p : String) (v : ℕ) → normal_placement (normal_placement p v) v ≡ normal_placement p v
unfolding normal_placement
placement_again p v = ground arith

backends_again :
    (p backend : String) (xs : List String)
    → normal_backends p backend (normal_backends p backend xs) ≡ normal_backends p backend xs
unfolding normal_backends
backends_again p backend xs = ground arith

-- A second `__post_init__` changes nothing: the dataclass can be rebuilt from its own fields.
pub post_init_idem : (raw : RawSpec) → post_init (as_raw (post_init raw)) ≡ post_init raw
unfolding post_init
post_init_idem raw = cc (
  placement_again raw.placement raw.vram_gb,
  backends_again (normal_placement raw.placement raw.vram_gb) raw.backend
      (given_backends raw.gpu_backends),
)

backends-ne-nil :
    (p backend : String) (xs : List String)
    → (backend ≡ "vllm") ⊎ (backend ≡ "llama")
    → p ≡ "gpu"
    → normal_backends p backend xs ≢ []
unfolding normal_backends
backends-ne-nil p backend [] b e =
    ground (arith, eq_iff backend "vllm", eq_iff backend "llama", eq_iff p "gpu")
backends-ne-nil p backend (x ∷ xs) b e = ground arith

-- A model of the `vllm` or `llama` backend that is placed on a GPU has a GPU backend to be checked
-- against the machine, whatever was given for `gpu_backends`.
pub post_init-backends :
    (raw : RawSpec)
    → (raw.backend ≡ "vllm") ⊎ (raw.backend ≡ "llama")
    → (post_init raw).placement ≡ "gpu"
    → (post_init raw).gpu_backends ≢ []
unfolding post_init
post_init-backends raw b p = backends-ne-nil _ raw.backend (given_backends raw.gpu_backends) b p
