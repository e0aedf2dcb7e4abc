-- ===== src/Registry/Spec.antt =====
-- `ModelSpec` and `Specialty` of bubblehub/engine/registry.py.
use bubble_hub.Prelude.{
  ℕ, String, ◌&&◌, not, Option, List, [], ◌∷◌, map, ltb, ◌==◌, string_eq, if◌then◌else◌, filter,
  is_empty,
}
use bubble_hub.Prelude.Int.{ℤ}
use bubble_hub.Prelude.Text.{split, strip}

-- what YAML may give for `gpu_backends`
pub data Backends : Type 0 where
  absent : Backends
  comma_separated : String → Backends
  listed : List String → Backends

-- the arguments of the constructor
pub record RawSpec : Type 0 where
  pub name : String
  pub flavor : String
  pub capability : String
  pub tier : String
  pub backend : String
  pub repo_id : String
  pub filename : Option String
  pub ram_gb : ℕ
  pub vram_gb : ℕ
  pub context_tokens : ℕ
  pub placement : String
  pub gpu_backends : Backends
  pub gpu_layers : Option ℤ

pub record ModelSpec : Type 0 where
  pub name : String
  pub flavor : String
  pub capability : String
  pub tier : String
  pub backend : String
  pub repo_id : String
  pub filename : Option String
  pub ram_gb : ℕ
  pub vram_gb : ℕ
  pub context_tokens : ℕ
  pub placement : String
  pub gpu_backends : List String
  pub gpu_layers : Option ℤ

pub record Specialty : Type 0 where
  pub name : String
  pub capability : String
  pub flavor : Option String
  pub lora : Option String
  pub min_context_tokens : Option ℕ
  pub model : Option String

-- `item.strip() for item in backends.split(",") if item.strip()`
unfoldable pub split_items : String → List String
unfolding filter split strip
split_items text = filter (λ s. not (s == "")) (map strip (split 44 text))

unfoldable pub given_backends : Backends → List String
unfolding split_items
given_backends absent = []
given_backends (comma_separated text) = split_items text
given_backends (listed items) = items

abbrev llama_backends : List String
llama_backends = "cuda-llama" ∷ "rocm-llama" ∷ "vulkan-llama" ∷ "sycl-llama" ∷ []

unfoldable pub default_backends : String → List String
default_backends backend =
    if backend == "vllm" then "vllm" ∷ [] else if backend == "llama" then llama_backends else []

unfoldable pub normal_placement : String → ℕ → String
normal_placement placement vram_gb =
    if placement == "auto" then (if ltb 0 vram_gb then "gpu" else "cpu") else placement

unfoldable pub normal_backends : String → String → List String → List String
unfolding default_backends
normal_backends placement backend normalized =
    if placement == "gpu" && is_empty normalized then default_backends backend else normalized

-- `__post_init__`
unfoldable pub post_init : RawSpec → ModelSpec
unfolding given_backends normal_placement normal_backends
post_init raw = record {
  name = raw.name;
  flavor = raw.flavor;
  capability = raw.capability;
  tier = raw.tier;
  backend = raw.backend;
  repo_id = raw.repo_id;
  filename = raw.filename;
  ram_gb = raw.ram_gb;
  vram_gb = raw.vram_gb;
  context_tokens = raw.context_tokens;
  placement = normal_placement raw.placement raw.vram_gb;
  gpu_backends =
      normal_backends (normal_placement raw.placement raw.vram_gb) raw.backend
        (given_backends raw.gpu_backends);
  gpu_layers = raw.gpu_layers;
}
