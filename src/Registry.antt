-- ===== src/Registry.antt =====
-- The registry of models, bubblehub/engine/registry.py: what a model and a specialty are, and which
-- models may serve a specialty on a machine. The children prove what `resolve_candidates` returns.
--
-- An amount of gigabytes is a float of YAML, or a count of bytes divided by 1024 ** 3. It is held
-- as a natural number of units of 2 ** -1074 gigabytes, which is exact for every float that is at
-- least 0; the code only compares amounts.
pub mod Order
pub mod Resolution
pub mod Choice
pub mod Normal
pub mod Load
pub mod Spec
mod Examples
use bubble_hub.Prelude.{
  ℕ, zero, suc, ◌+◌, ◌*◌, ◌^◌, String, ◌≡◌, refl, Bool, true, false, ◌&&◌, ◌||◌, not, Option, none,
  some, List, [], ◌∷◌, ltb, leb, ◌==◌, nat_eq, string_eq, if◌then◌else◌, filter, any,
}
use bubble_hub.Prelude.Dict.{Dict, get}
use bubble_hub.Prelude.Sort.{sorted}
use bubble_hub.Prelude.TextOrder.{leb_text}
use Spec.{ModelSpec, Specialty}

pub record ModelRegistry : Type 0 where
  pub models : List ModelSpec
  pub specialties : Dict Specialty

-- the keyword arguments of `resolve_candidates`
pub record Query : Type 0 where
  pub tier_order : List String
  pub flavor : Option String
  pub capability : Option String
  pub max_ram_gb : Option ℕ
  pub max_vram_gb : Option ℕ
  pub supported_gpu_backends : Option (List String)

-- the `KeyError`s, with the names that their messages hold
pub data KeyError : Type 0 where
  no_match unknown_specialty : String → KeyError
  unknown_model exceeds_ram exceeds_vram unsupported_backend : String → String → KeyError

pub data Result {ℓ} (A : Type ℓ) : Type ℓ where
  ok : A → Result A
  key_error : KeyError → Result A

abbrev pub contains : List String → String → Bool
contains xs a = any (λ x. x == a) xs

-- `bool(supported.intersection(backends))`
abbrev pub intersects : List String → List String → Bool
intersects supported backends = any (λ b. contains supported b) backends

-- `model.placement != "gpu" or model.vram_gb <= 0`
abbrev pub runs_on_cpu : ModelSpec → Bool
runs_on_cpu model = not (model.placement == "gpu") || leb model.vram_gb 0

unfoldable pub model_backend_supported : ModelSpec → Option (List String) → Bool
unfolding any
model_backend_supported model none = true
model_backend_supported model (some supported) =
    if runs_on_cpu model then true else intersects supported model.gpu_backends

unfoldable pub placement_rank : ModelSpec → ℕ
placement_rank model = if runs_on_cpu model then 2 else if model.backend == "vllm" then 0 else 1

-- `rank = {tier: idx for idx, tier in enumerate(tier_order)}`: a later place overwrites
unfoldable pub tier_rank_from : ℕ → List String → String → Option ℕ
tier_rank_from i [] tier = none
tier_rank_from i (t ∷ order) tier =
    let later = tier_rank_from (suc i) order tier in
    elim later [ some j ↦ some j | none ↦ if t == tier then some i else none ]

-- `rank.get(tier, 999)`
unfoldable pub tier_rank : List String → String → ℕ
unfolding tier_rank_from
tier_rank order tier = elim (tier_rank_from 0 order tier) [ none ↦ 999 | some j ↦ j ]

-- `<=` on the sort keys `(_placement_rank(item), rank.get(item.tier, 999), item.name)`
unfoldable pub le_key : List String → ModelSpec → ModelSpec → Bool
le_key order a b =
    if placement_rank a == placement_rank b
    then (if tier_rank order a.tier == tier_rank order b.tier
        then leb_text a.name b.name
        else ltb (tier_rank order a.tier) (tier_rank order b.tier))
    else ltb (placement_rank a) (placement_rank b)

-- `a or b` on texts that may be `None`: the empty text is false too
abbrev pub or_text : Option String → Option String → Option String
or_text none b = b
or_text (some a) b = if a == "" then b else some a

abbrev pub or_string : Option String → String → String
or_string none b = b
or_string (some a) b = if a == "" then b else a

-- `x is None or a == x`
abbrev pub is_none_or : Option String → String → Bool
is_none_or none a = true
is_none_or (some x) a = a == x

-- `limit is None or a <= limit`
abbrev pub within : Option ℕ → ℕ → Bool
within none a = true
within (some limit) a = leb a limit

-- `least is None or a >= least`
abbrev pub at_least : Option ℕ → ℕ → Bool
at_least none a = true
at_least (some least) a = leb least a

unfoldable pub matches_specialty : Specialty → Query → ModelSpec → Bool
matches_specialty specialty q model =
    model.capability == or_string q.capability specialty.capability
    && (is_none_or (or_text q.flavor specialty.flavor) model.flavor
        && at_least specialty.min_context_tokens model.context_tokens)

-- the filters of `resolve_candidates`, one after the other
unfoldable pub fitting : Specialty → Query → List ModelSpec → List ModelSpec
unfolding matches_specialty model_backend_supported
fitting specialty q models =
    let candidates = filter (matches_specialty specialty q) models in
    let candidates = filter (λ m. within q.max_ram_gb m.ram_gb) candidates in
    let candidates = filter (λ m. within q.max_vram_gb m.vram_gb) candidates in
    filter (λ m. model_backend_supported m q.supported_gpu_backends) candidates

-- `_resolve_model_name`, on the models that have the name
unfoldable pub checked_model : String → String → Query → List ModelSpec → Result ModelSpec
unfolding model_backend_supported
checked_model name specialty q [] = key_error (unknown_model specialty name)
checked_model name specialty q (model ∷ _) =
    if not (within q.max_ram_gb model.ram_gb)
    then key_error (exceeds_ram specialty name)
    else if not (within q.max_vram_gb model.vram_gb)
    then key_error (exceeds_vram specialty name)
    else if not (model_backend_supported model q.supported_gpu_backends)
    then key_error (unsupported_backend specialty name)
    else ok model

unfoldable pub resolve_model_name : ModelRegistry → String → String → Query → Result ModelSpec
unfolding checked_model
resolve_model_name registry name specialty q =
    checked_model name specialty q (filter (λ m. m.name == name) registry.models)

abbrev pub singleton : Result ModelSpec → Result (List ModelSpec)
singleton (ok model) = ok (model ∷ [])
singleton (key_error e) = key_error e

abbrev pub candidates_of :
    ModelRegistry → String → Query → Option Specialty → Result (List ModelSpec)
candidates_of registry name q none = key_error (unknown_specialty name)
candidates_of registry name q (some specialty) = elim specialty.model [
  | some pinned ↦ singleton (resolve_model_name registry pinned name q)
  | none ↦ ok (sorted (le_key q.tier_order) (fitting specialty q registry.models))
]

unfoldable pub resolve_candidates : ModelRegistry → String → Query → Result (List ModelSpec)
unfolding resolve_model_name fitting le_key
resolve_candidates registry name q = candidates_of registry name q (get registry.specialties name)

abbrev pub first_of_candidates : String → Result (List ModelSpec) → Result ModelSpec
first_of_candidates name (key_error e) = key_error e
first_of_candidates name (ok []) = key_error (no_match name)
first_of_candidates name (ok (model ∷ _)) = ok model

unfoldable pub resolve_specialty : ModelRegistry → String → Query → Result ModelSpec
unfolding resolve_candidates
resolve_specialty registry name q = first_of_candidates name (resolve_candidates registry name q)
