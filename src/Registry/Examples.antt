-- ===== src/Registry/Examples.antt =====
-- A registry of three models, and the theorems at it.
use mathlib.Core.List.{Memᴰ}
use bubble_hub.Prelude.{ℕ, String, ◌≡◌, refl, Option, none, some, List, [], ◌∷◌, ◌↔◌, filter, any}
use bubble_hub.Prelude.Dict.{get}
use bubble_hub.Prelude.Sort.{sorted, IsSorted}
use bubble_hub.Registry.Spec.{
  RawSpec, ModelSpec, Specialty, absent, comma_separated, Backends, post_init,
}
use bubble_hub.Registry.{
  ModelRegistry, Query, ok, placement_rank, tier_rank, resolve_candidates, resolve_specialty,
  le_key,
}
use bubble_hub.Registry.Resolution.{Serves, resolve_candidates-exact}
use bubble_hub.Registry.Choice.{Chooses, resolve_specialty-least}

abbrev raw : String → String → String → ℕ → Backends → RawSpec
raw name tier backend vram backends = record {
  name = name;
  flavor = "instruct";
  capability = "text";
  tier = tier;
  backend = backend;
  repo_id = "org/model";
  filename = none;
  ram_gb = 2;
  vram_gb = vram;
  context_tokens = 4096;
  placement = "auto";
  gpu_backends = backends;
  gpu_layers = none;
}

abbrev tiny_cpu : RawSpec
tiny_cpu = raw "tiny-cpu" "tiny" "llama" 0 absent

abbrev small_gpu : RawSpec
small_gpu = raw "small-gpu" "small" "llama" 6 (comma_separated " cuda-llama, ,vulkan-llama")

abbrev small_vllm : RawSpec
small_vllm = raw "small-vllm" "small" "vllm" 6 absent

abbrev specialty : Option String → Specialty
specialty model = record {
  name = "default-instruct";
  capability = "text";
  flavor = some "instruct";
  lora = none;
  min_context_tokens = some 2048;
  model = model;
}

abbrev registry : ModelRegistry
registry = record {
  models = post_init tiny_cpu ∷ post_init small_gpu ∷ post_init small_vllm ∷ [];
  specialties = ("default-instruct", specialty none) ∷ ("fixed", specialty (some "small-gpu")) ∷ [];
}

abbrev query : Query
query = record {
  tier_order = "small" ∷ "tiny" ∷ [];
  flavor = none;
  capability = none;
  max_ram_gb = some 8;
  max_vram_gb = some 6;
  supported_gpu_backends = some ("cuda-llama" ∷ []);
}

-- The machine has no vLLM, so the llama model on the GPU comes first.
resolve_candidates_runs :
    resolve_candidates registry "default-instruct" query
    ≡ ok (post_init small_gpu ∷ post_init tiny_cpu ∷ [])
unfolding resolve_candidates post_init filter any sorted get placement_rank tier_rank
resolve_candidates_runs = refl

resolve_candidates-exact_example :
    (found : List ModelSpec) × (resolve_candidates registry "default-instruct" query ≡ ok found)
    × ((m : ModelSpec) → Memᴰ m found ↔ (Memᴰ m registry.models × Serves (specialty none) query m))
    × IsSorted (le_key query.tier_order) found
unfolding get
resolve_candidates-exact_example =
    resolve_candidates-exact registry "default-instruct" query (specialty none) refl refl

resolve_specialty-least_example :
    Chooses registry.models
      (specialty none)
      query
      "default-instruct"
      (resolve_specialty registry "default-instruct" query)
unfolding get
resolve_specialty-least_example =
    resolve_specialty-least registry "default-instruct" query (specialty none) refl refl
