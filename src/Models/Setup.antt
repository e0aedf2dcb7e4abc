-- ===== src/Models/Setup.antt =====
-- The setup of the base model, and the views of the models: the rest of bubblehub/app/models.py.
-- What is printed is not modelled.
use bubble_hub.Prelude.{
  ℕ, suc, String, Bool, true, false, not, ◌||◌, Option, none, some, List, [], ◌∷◌, map, ◌==◌,
  string_eq, nat_eq, if◌then◌else◌, get_elem?,
}
use bubble_hub.Prelude.Dict.{Dict}
use bubble_hub.Prelude.Dict
use bubble_hub.Prelude.Text.{strip, concat, show_nat}
use bubble_hub.Prompt.{choose_option}
use bubble_hub.Prompt
use bubble_hub.Registry.{ModelRegistry, Query, KeyError, resolve_candidates, resolve_specialty}
use bubble_hub.Registry
use bubble_hub.Registry.Spec.{ModelSpec, Specialty}
use bubble_hub.Selector.{HardwareInfo, select_tier}
use bubble_hub.Session.{gigabytes}
use bubble_hub.Models.{
  Yaml, value_error, key_error, type_error, Result, returns, raises, and_then,
  needs_base_model_setup, write_speciality_model_override, select_in, Selection, selected,
}

abbrev pub text_at : Dict String → String → String
text_at env k = elim (Dict.get env k) [ none ↦ "" | some v ↦ v ]

-- the query of `resolve_candidates` and `resolve_specialty`
abbrev pub query_for : HardwareInfo → Option String → Query
query_for hardware capability = record {
  tier_order = (select_tier hardware).order;
  flavor = none;
  capability = capability;
  max_ram_gb = some (gigabytes hardware.ram_bytes);
  max_vram_gb = some (gigabytes hardware.vram_bytes);
  supported_gpu_backends = some hardware.gpu_backends;
}

abbrev pub of_registry {ℓ} : {A : Type ℓ} → Registry.Result A → Result A
of_registry (Registry.Result.ok a) = returns a
of_registry (Registry.Result.key_error e) = raises (key_error e)

abbrev pub candidates_for :
    ModelRegistry → HardwareInfo → String → Option Specialty → Result (List ModelSpec)
candidates_for registry hardware speciality none =
    raises (value_error (concat ("unknown specialty: " ∷ speciality ∷ [])))
candidates_for registry hardware speciality (some specialty) =
    of_registry
      (resolve_candidates registry speciality (query_for hardware (some specialty.capability)))

unfoldable pub resolve_setup_candidates :
    ModelRegistry → HardwareInfo → String → Result (List ModelSpec)
unfolding resolve_candidates Dict.get
resolve_setup_candidates registry hardware speciality =
    candidates_for registry hardware speciality (Dict.get registry.specialties speciality)

abbrev pub name_or_none : Registry.Result ModelSpec → Option String
name_or_none (Registry.Result.ok model) = some model.name
name_or_none (Registry.Result.key_error e) = none

unfoldable pub selected_model_name : ModelRegistry → HardwareInfo → String → Option String
unfolding resolve_specialty
selected_model_name registry hardware speciality =
    name_or_none (resolve_specialty registry speciality (query_for hardware none))

abbrev is_text : Option String → String → Bool
is_text none s = false
is_text (some t) s = s == t

-- `next((index for ... if model.name == recommended), 0)`, from an index on
unfoldable pub index_from : ℕ → Option String → List ModelSpec → ℕ
index_from index recommended [] = 0
index_from index recommended (model ∷ models) =
    let later = index_from (suc index) recommended models in
    if is_text recommended model.name then index else later

-- `_model_option_label`; `g` is `format(x, "g")` of an amount
unfoldable pub model_option_label : (ℕ → String) → ModelSpec → Option String → String
unfolding show_nat
model_option_label g model recommended = concat (
    model.name
    ∷ " ("
    ∷ model.flavor
    ∷ ", "
    ∷ model.backend
    ∷ ", "
    ∷ model.tier
    ∷ ", RAM "
    ∷ g model.ram_gb
    ∷ "G, VRAM "
    ∷ g model.vram_gb
    ∷ "G, ctx "
    ∷ show_nat model.context_tokens
    ∷ ")"
    ∷ (if is_text recommended model.name then " (recommended)" else "")
    ∷ [])

-- what the setup reads
pub record Machine (Text : Type 0) : Type 0 where
  pub registry : ModelRegistry
  pub hardware : HardwareInfo
  pub env : Dict String
  pub file : Option Text
  -- both streams are terminals
  pub is_terminal : Bool
  -- what is typed until the end of input
  pub input : String
  -- `format(x, "g")` of an amount of gigabytes
  pub general : ℕ → String

module _ {Text : Type 0} (yaml : Yaml Text) (machine : Machine Text) where
  abbrev pub written : String → Option ModelSpec → Result (Selection Text)
  written speciality none = raises type_error
  written speciality (some model) =
      selected yaml model.name
        (write_speciality_model_override yaml machine.file speciality model.name model.capability)

  -- the index is in range, and `none` of `written` does not happen
  abbrev pub pick : String → List ModelSpec → Prompt.Result → Result (Selection Text)
  pick speciality candidates (Prompt.Result.chosen index) =
      written speciality (get_elem? candidates index)
  pick speciality candidates Prompt.Result.no_options =
      raises (value_error "at least one option is required")
  pick speciality candidates Prompt.Result.default_out_of_range =
      raises (value_error "default_index out of range")

  abbrev pub options_for : List ModelSpec → List String
  options_for candidates = map (λ m. model_option_label machine.general m (some m.name)) candidates

  abbrev pub default_for : String → List ModelSpec → ℕ
  default_for speciality candidates =
      index_from 0 (selected_model_name machine.registry machine.hardware speciality) candidates

  abbrev pub prompt_among : String → List ModelSpec → Result (Selection Text)
  prompt_among speciality [] =
      raises (value_error "no models fit the current machine for base model setup")
  prompt_among speciality (first ∷ rest) = pick speciality (first ∷ rest) (
      choose_option (options_for (first ∷ rest)) (default_for speciality (first ∷ rest))
        machine.input)

  unfoldable pub prompt_base_model_setup : String → Result (Selection Text)
  unfolding resolve_setup_candidates selected_model_name index_from model_option_label choose_option
      write_speciality_model_override
  prompt_base_model_setup speciality =
      and_then (resolve_setup_candidates machine.registry machine.hardware speciality)
        (prompt_among speciality)

  -- whether a base model is set up, and the file that is left
  abbrev pub done : Result (Selection Text) → Result (Bool × Option Text)
  done (raises e) = raises e
  done (returns s) = returns (true, s.file)

  abbrev pub set_up : String → Bool → Result (Bool × Option Text)
  set_up speciality false = returns (true, machine.file)
  set_up speciality true =
      let explicit = strip (text_at machine.env "BUBBLEHUB_BASE_MODEL") in
      if not (explicit == "")
      then done (select_in yaml machine.registry machine.file speciality explicit)
      else if strip (text_at machine.env "BUBBLEHUB_SKIP_MODEL_SETUP") == "1"
          || not machine.is_terminal
      then returns (false, machine.file)
      else done (prompt_base_model_setup speciality)

  unfoldable pub run_install_base_model_setup : String → Result (Bool × Option Text)
  unfolding needs_base_model_setup select_in prompt_base_model_setup strip Dict.get
  run_install_base_model_setup speciality =
      and_then (needs_base_model_setup yaml speciality machine.file) (set_up speciality)
