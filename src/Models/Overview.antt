-- ===== src/Models/Overview.antt =====
-- `models_overview`, bubblehub/app/models.py: what the models' page shows. The machine's hardware and
-- the float of an amount are given.
use bubble_hub.Prelude.{
  ℕ, String, Bool, true, false, Option, none, some, List, [], ◌∷◌, map, ◌==◌, string_eq,
}
use bubble_hub.Prelude.Dict.{Dict}
use bubble_hub.Prelude.Int.{ℤ, pos}
use bubble_hub.Prelude.Sort.{sorted}
use bubble_hub.Prelude.TextOrder.{leb_text}
use bubble_hub.Value.{Value, null, boolean, int, str, list, dict, of_dict, of_list}
use bubble_hub.Registry.{ModelRegistry}
use bubble_hub.Registry.Spec.{ModelSpec, Specialty}
use bubble_hub.Selector.{HardwareInfo, select_tier}
use bubble_hub.Models.{Yaml, Result, returns, and_then, registry_of, needs_base_model_setup}
use bubble_hub.Models.Setup.{selected_model_name, resolve_setup_candidates}

-- what `detect_hardware` finds, with the fields that are only shown
pub record Hardware : Type 0 where
  pub info : HardwareInfo
  pub free_vram_bytes : ℕ
  pub gpu_vendor : String
  pub gpu_name : String
  pub gpu_backend : String
  pub gpu_compute_capability : String
  pub gpu_device : String

abbrev pub or_null : Option String → Value
or_null none = null
or_null (some s) = str s

abbrev number : ℕ → Value
number n = int (pos n)

abbrev count_or_null : Option ℕ → Value
count_or_null none = null
count_or_null (some n) = number n

abbrev int_or_null : Option ℤ → Value
int_or_null none = null
int_or_null (some n) = int n

abbrev texts : List String → Value
texts xs = list (of_list (map (λ s. str s) xs))

abbrev pub object_of : Dict Value → Value
object_of d = dict (of_dict d)

-- `model.name == selected`
abbrev pub is_selected : Option String → String → Bool
is_selected none name = false
is_selected (some selected) name = name == selected

-- `_model_payload`; `amount` is the float of an amount of gigabytes
model_payload : (ℕ → Value) → ModelSpec → Option String → Value
model_payload amount model selected = object_of (
    ("name", str model.name)
    ∷ ("flavor", str model.flavor)
    ∷ ("capability", str model.capability)
    ∷ ("tier", str model.tier)
    ∷ ("backend", str model.backend)
    ∷ ("repo_id", str model.repo_id)
    ∷ ("filename", or_null model.filename)
    ∷ ("ram_gb", amount model.ram_gb)
    ∷ ("vram_gb", amount model.vram_gb)
    ∷ ("context_tokens", number model.context_tokens)
    ∷ ("placement", str model.placement)
    ∷ ("gpu_backends", texts model.gpu_backends)
    ∷ ("gpu_layers", int_or_null model.gpu_layers)
    ∷ ("selected", boolean (is_selected selected model.name))
    ∷ [])

specialty_payload : String × Specialty → String × Value
specialty_payload (name, s) = (
  name,
  object_of (
      ("name", str s.name)
      ∷ ("capability", str s.capability)
      ∷ ("flavor", or_null s.flavor)
      ∷ ("lora", or_null s.lora)
      ∷ ("min_context_tokens", count_or_null s.min_context_tokens)
      ∷ ("model", or_null s.model)
      ∷ []),
)

hardware_payload : Hardware → Value
hardware_payload h = object_of (
    ("ram_bytes", number h.info.ram_bytes)
    ∷ ("vram_bytes", number h.info.vram_bytes)
    ∷ ("free_vram_bytes", number h.free_vram_bytes)
    ∷ ("gpu_vendor", str h.gpu_vendor)
    ∷ ("gpu_name", str h.gpu_name)
    ∷ ("gpu_backend", str h.gpu_backend)
    ∷ ("gpu_backends", texts h.info.gpu_backends)
    ∷ ("gpu_compute_capability", str h.gpu_compute_capability)
    ∷ ("gpu_device", str h.gpu_device)
    ∷ [])

-- what a page shows, once all is computed
unfoldable pub page :
    (ℕ → Value)
    → String
    → ModelRegistry
    → Hardware
    → String
    → Option String
    → Bool
    → List ModelSpec
    → Dict Value
unfolding model_payload specialty_payload hardware_payload sorted
page amount config_path registry hardware speciality selected needs_setup candidates =
    let tier = select_tier hardware.info in
    ("speciality", str speciality)
    ∷ ("specialty", str speciality)
    ∷ ("tier", object_of (("name", str tier.name) ∷ ("order", texts tier.order) ∷ []))
    ∷ ("hardware", hardware_payload hardware)
    ∷ ("selected_model", or_null selected)
    ∷ ("needs_setup", boolean needs_setup)
    ∷ ("setup_candidates", list (of_list (map (λ m. model_payload amount m selected) candidates)))
    ∷ ("models", list (of_list (map (λ m. model_payload amount m selected) registry.models)))
    ∷ (
      "specialties",
      object_of (map specialty_payload (sorted (λ a b. leb_text a.0 b.0) registry.specialties)),
    )
    ∷ ("config_path", str config_path)
    ∷ []

-- the floats that are shown, and the path of the user's file
pub record View : Type 0 where
  pub hardware : Hardware
  pub amount : ℕ → Value
  pub config_path : String

module _ {Text : Type 0} (yaml : Yaml Text) (view : View) where
  abbrev candidates_if : Bool → ModelRegistry → String → Result (List ModelSpec)
  candidates_if false registry speciality = returns []
  candidates_if true registry speciality =
      resolve_setup_candidates registry view.hardware.info speciality

  abbrev pub page_of : ModelRegistry → String → Option String → Bool → List ModelSpec → Dict Value
  page_of registry speciality = page view.amount view.config_path registry view.hardware speciality

  unfoldable pub models_overview :
      Dict Value → Option Value → Option Text → String → Result (Dict Value)
  unfolding registry_of selected_model_name needs_base_model_setup resolve_setup_candidates
  models_overview base explicit file speciality =
      and_then (registry_of yaml base explicit file) (λ registry.
        and_then (needs_base_model_setup yaml speciality file) (λ needs_setup.
          and_then (candidates_if needs_setup registry speciality) (λ candidates. returns (
            page_of registry speciality (selected_model_name registry view.hardware.info speciality)
              needs_setup candidates))))
