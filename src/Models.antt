-- ===== src/Models.antt =====
-- bubblehub/app/models.py: the user's file models.yaml, the model that it chooses for a specialty,
-- and the setup that asks for one. The YAML library is an argument, and the packaged and the
-- explicit configuration are given as YAML reads them. That the file cannot be read or
-- written is not modelled.
pub mod Setup
pub mod Laws
pub mod Done
pub mod Entry
pub mod Selected
pub mod Effective
pub mod Overview
pub mod Shown
mod Examples
use bubble_hub.Prelude.{
  ℕ, String, Bool, true, false, not, ◌&&◌, Option, none, some, List, [], ◌∷◌, ◌==◌, string_eq,
  if◌then◌else◌, filter,
}
use bubble_hub.Prelude.Dict.{Dict}
use bubble_hub.Prelude.Dict
use bubble_hub.Prelude.Text.{strip, concat}
use bubble_hub.Value.{
  Value, null, boolean, int, float, str, list, dict, end, to_dict, of_dict, to_list, get,
}
use bubble_hub.Registry.{ModelRegistry, KeyError}
use bubble_hub.Registry.Spec.{ModelSpec, Specialty}
use bubble_hub.Registry.Load.{Builtins, dict_of, load_default}
use bubble_hub.Registry.Load

-- What `yaml` does on a text, `none` where `safe_load` raises, and what is used of Python.
pub record Yaml (Text : Type 0) : Type 0 where
  pub safe_load : Text → Option Value
  pub safe_dump : Value → Text
  pub builtins : Builtins

pub data Failure : Type 0 where
  value_error : String → Failure
  key_error : KeyError → Failure
  type_error yaml_error attribute_error untyped : Failure

pub data Result {ℓ} (A : Type ℓ) : Type ℓ where
  returns : A → Result A
  raises : Failure → Result A

abbrev pub and_then {ℓ μ} : {A : Type ℓ} {B : Type μ} → Result A → (A → Result B) → Result B
and_then (raises e) f = raises e
and_then (returns a) f = f a

abbrev failure_of : Load.Failure → Failure
failure_of Load.Failure.type_error = type_error
failure_of Load.Failure.value_error =
    value_error "dictionary update sequence element #0 has length 1; 2 is required"
failure_of Load.Failure.attribute_error = attribute_error
failure_of Load.Failure.untyped = untyped

abbrev pub of_load {ℓ} : {A : Type ℓ} → Load.Result A → Result A
of_load (Load.Result.returns a) = returns a
of_load (Load.Result.raises e) = raises (failure_of e)

-- `data if isinstance(data, dict) else {}`
abbrev object_or_empty : Value → Dict Value
object_or_empty (dict fs) = to_dict fs
object_or_empty _ = []

-- `d.get(k, {})`
unfoldable pub get_object : Dict Value → String → Value
unfolding Dict.get
get_object d k = elim (Dict.get d k) [ none ↦ dict end | some v ↦ v ]

-- `isinstance(v, str) and bool(v.strip())`
unfoldable pub is_chosen : Value → Bool
unfolding strip
is_chosen (str s) = not (strip s == "")
is_chosen _ = false

abbrev pub chosen_by_entry : Value → Bool
chosen_by_entry (dict fs) = is_chosen (get (to_dict fs) "model")
chosen_by_entry _ = false

abbrev pub chosen_by_entries : String → Value → Bool
chosen_by_entries speciality (dict fs) = chosen_by_entry (get_object (to_dict fs) speciality)
chosen_by_entries speciality _ = false

-- the entry that is written for a specialty
unfoldable pub override_entry : Dict Value → String → String → Dict Value
unfolding Dict.put Dict.remove
override_entry current model_name capability =
    let current = Dict.put current "capability" (str capability) in
    let current = Dict.put current "model" (str model_name) in
    let current = Dict.remove current "flavor" in Dict.remove current "min_context_tokens"

unfoldable pub with_entry : Dict Value → Dict Value → String → Dict Value → Dict Value
unfolding Dict.put
with_entry config specialties speciality entry =
    Dict.put config "specialties"
      (dict (of_dict (Dict.put specialties speciality (dict (of_dict entry)))))

abbrev pub matching : ModelRegistry → String → List ModelSpec
matching registry model_name = filter (λ m. m.name == model_name) registry.models

-- what is returned and written
pub record Selection (Text : Type 0) : Type 0 where
  pub selected_model : String
  pub file : Option Text

module _ {Text : Type 0} (yaml : Yaml Text) where
  abbrev pub loaded : Option Value → Result (Dict Value)
  loaded none = raises yaml_error
  loaded (some v) = returns (object_or_empty v)

  -- `none` is a file that does not exist
  abbrev pub read_user_models_config : Option Text → Result (Dict Value)
  read_user_models_config none = returns []
  read_user_models_config (some text) = loaded (yaml.safe_load text)

  unfoldable pub user_chose_base_model : String → Option Text → Result Bool
  unfolding get_object is_chosen get
  user_chose_base_model speciality file =
      and_then (read_user_models_config file)
        (λ config. returns (chosen_by_entries speciality (get_object config "specialties")))

  unfoldable pub needs_base_model_setup : String → Option Text → Result Bool
  unfolding user_chose_base_model
  needs_base_model_setup speciality file =
      and_then (user_chose_base_model speciality file) (λ chosen. returns (not chosen))

  -- `dict(v)`
  abbrev pub entries : Value → Result (Dict Value)
  entries v = of_load (dict_of yaml.builtins v)

  -- the new content of the file
  unfoldable pub write_speciality_model_override :
      Option Text → String → String → String → Result Text
  unfolding get_object override_entry with_entry dict_of
  write_speciality_model_override file speciality model_name capability =
      and_then (read_user_models_config file) (λ config.
        and_then (entries (get_object config "specialties")) (λ specialties.
          and_then (entries (get_object specialties speciality)) (λ current. returns (
            yaml.safe_dump (
              dict (
                of_dict (
                  with_entry config specialties speciality
                    (override_entry current model_name capability))))))))

  abbrev pub selected : String → Result Text → Result (Selection Text)
  selected model_name (raises e) = raises e
  selected model_name (returns text) =
      returns (record { selected_model = model_name; file = some text })

  abbrev pub write_checked :
      Option Text → String → String → ModelSpec → Option Specialty → Result (Selection Text)
  write_checked file speciality model_name model none =
      raises (value_error (concat ("unknown specialty: " ∷ speciality ∷ [])))
  write_checked file speciality model_name model (some specialty) =
      if model.capability == specialty.capability
      then selected model.name
          (write_speciality_model_override file speciality model.name model.capability)
      else raises (
          value_error (
            concat (
              "model " ∷ model_name ∷ " does not match specialty capability " ∷ specialty.capability
              ∷ [])))

  abbrev pub select_among :
      ModelRegistry → Option Text → String → String → List ModelSpec → Result (Selection Text)
  select_among registry file speciality model_name [] =
      raises (value_error (concat ("unknown model: " ∷ model_name ∷ [])))
  select_among registry file speciality model_name (model ∷ _) =
      write_checked file speciality model_name model (Dict.get registry.specialties speciality)

  -- the choice from a registry
  unfoldable pub select_in : ModelRegistry → Option Text → String → String → Result (Selection Text)
  unfolding write_speciality_model_override filter Dict.get
  select_in registry file speciality model_name =
      select_among registry file speciality model_name (matching registry model_name)

  abbrev pub parsed : Option Value → Result (Option Value)
  parsed none = raises yaml_error
  parsed (some v) = returns (some v)

  abbrev pub user_value : Option Text → Result (Option Value)
  user_value none = returns none
  user_value (some text) = parsed (yaml.safe_load text)

  -- `ModelRegistry.load_default`, with the content of the user's file
  unfoldable pub registry_of : Dict Value → Option Value → Option Text → Result ModelRegistry
  unfolding load_default
  registry_of base explicit file =
      and_then (user_value file) (λ user. of_load (load_default yaml.builtins base user explicit))

  unfoldable pub select_model_for_speciality :
      Dict Value → Option Value → Option Text → String → String → Result (Selection Text)
  unfolding registry_of select_in
  select_model_for_speciality base explicit file speciality model_name =
      and_then (registry_of base explicit file)
        (λ registry. select_in registry file speciality model_name)
