-- ===== src/Registry/Load.antt =====
-- How the registry is loaded, bubblehub/engine/registry.py: `load_default` with `_merge_config`, and
-- `from_dict`. What YAML makes of the files is given; `dict(v)` of a list `v` and the value of a
-- float are arguments.
--
-- Python keeps whatever a field of a model or a specialty is given. Here a value of another type
-- than the field's annotation ends the loading with `untyped`; so do a negative amount and a
-- negative count.
pub mod Laws
use bubble_hub.Prelude.{
  ℕ, ◌*◌, ◌^◌, String, Bool, true, false, ◌&&◌, ◌||◌, not, Option, none, some, List, [], ◌∷◌, map,
  ◌==◌, string_eq, if◌then◌else◌, any,
}
use bubble_hub.Prelude.Dict.{Dict}
use bubble_hub.Prelude.Dict
use bubble_hub.Prelude.Int.{ℤ, pos}
use bubble_hub.Prelude.Text.{starts_with}
use bubble_hub.Value.{
  Value, Real, null, int, float, str, list, dict, end, to_dict, of_dict, to_list, truthy, str_of,
}
use bubble_hub.Registry.{ModelRegistry}
use bubble_hub.Registry.Spec.{
  Backends, absent, comma_separated, listed, RawSpec, ModelSpec, Specialty, post_init,
}
use Prim.Native.String.{[], ◌∷◌}

pub data Failure : Type 0 where
  type_error value_error attribute_error untyped : Failure

pub data Result {ℓ} (A : Type ℓ) : Type ℓ where
  returns : A → Result A
  raises : Failure → Result A

infixl 5 ◌>>=◌
abbrev pub ◌>>=◌ {ℓ μ} : {A : Type ℓ} {B : Type μ} → Result A → (A → Result B) → Result B
returns a >>= f = f a
raises e >>= f = raises e

-- what the loading uses of Python: `dict(v)` of a list, a float in units of 2 ** -1074, and the
-- text of a list or a dict
pub record Builtins : Type 0 where
  pub dict_of_list : List Value → Option (Dict Value)
  pub units : Real → Option ℕ
  pub repr : Value → String

abbrev pub or_raise {ℓ} : {A : Type ℓ} → Failure → Option A → Result A
or_raise e none = raises e
or_raise e (some a) = returns a

-- `sub in text`
unfoldable pub has_text : String → String → Bool
unfolding starts_with
has_text sub [] = sub == ""
has_text sub (c ∷ s) = let later = has_text sub s in starts_with (c ∷ s) sub || later

abbrev is_str : String → Value → Bool
is_str t (str s) = s == t
is_str t _ = false

-- `k in override`, where that is no dict
unfoldable pub is_in : String → Value → Result Bool
unfolding has_text any
is_in k (str s) = returns (has_text k s)
is_in k (list vs) = returns (any (is_str k) (to_list vs))
is_in k v = raises type_error

-- a text or `None`
abbrev pub optional_text : Value → Result (Option String)
optional_text null = returns none
optional_text (str s) = returns (some s)
optional_text v = raises untyped

abbrev pub optional_count : Value → Result (Option ℕ)
optional_count null = returns none
optional_count (int (pos n)) = returns (some n)
optional_count v = raises untyped

abbrev optional_int : Value → Result (Option ℤ)
optional_int null = returns none
optional_int (int n) = returns (some n)
optional_int v = raises untyped

abbrev pub text_of : Value → Result String
text_of (str s) = returns s
text_of v = raises untyped

abbrev pub count_of : Value → Result ℕ
count_of (int (pos n)) = returns n
count_of v = raises untyped

-- a field of a constructor that has no default
abbrev pub required {ℓ} : {A : Type ℓ} → (Value → Result A) → Dict Value → String → Result A
required read d k = elim (Dict.get d k) [ none ↦ raises type_error | some v ↦ read v ]

abbrev pub optional {ℓ} : {A : Type ℓ} → (Value → Result A) → A → Dict Value → String → Result A
optional read default d k = elim (Dict.get d k) [ none ↦ returns default | some v ↦ read v ]

abbrev pub member : List String → String → Bool
member names k = any (λ name. name == k) names

-- no keyword that the constructor does not know
unfoldable pub are_fields : List String → Dict Value → Bool
unfolding any
are_fields names [] = true
are_fields names ((k, v) ∷ d) = member names k && are_fields names d

abbrev pub specialty_fields : List String
specialty_fields = "capability" ∷ "flavor" ∷ "lora" ∷ "min_context_tokens" ∷ "model" ∷ []

abbrev model_fields : List String
model_fields =
    "name" ∷ "flavor" ∷ "capability" ∷ "tier" ∷ "backend" ∷ "repo_id" ∷ "filename" ∷ "ram_gb"
    ∷ "vram_gb" ∷ "context_tokens" ∷ "placement" ∷ "gpu_backends" ∷ "gpu_layers" ∷ []

-- `Specialty(name=name, **spec)`
unfoldable pub specialty_of_fields : String → Dict Value → Result Specialty
unfolding are_fields
specialty_of_fields name d = if not (are_fields specialty_fields d) then raises type_error else do
  capability ← required text_of d "capability"
  flavor ← optional optional_text none d "flavor"
  lora ← optional optional_text none d "lora"
  least ← optional optional_count none d "min_context_tokens"
  model ← optional optional_text none d "model"
  returns (record {
    name = name;
    capability = capability;
    flavor = flavor;
    lora = lora;
    min_context_tokens = least;
    model = model;
  })

abbrev pub specialty_of : String → Value → Result Specialty
specialty_of name (dict fs) = specialty_of_fields name (to_dict fs)
specialty_of name v = raises type_error

unfoldable pub specialties_of : Dict Value → Result (Dict Specialty)
specialties_of [] = returns []
specialties_of ((name, spec) ∷ d) =
    specialty_of name spec >>= λ s. specialties_of d >>= λ rest. returns ((name, s) ∷ rest)

-- `data.get("specialties", {}).items()`
abbrev pub specialties_in : Option Value → Result (Dict Specialty)
specialties_in none = returns []
specialties_in (some (dict fs)) = specialties_of (to_dict fs)
specialties_in (some v) = raises attribute_error

module _ (builtins : Builtins) where
  -- an amount of gigabytes, in units of 2 ** -1074
  abbrev amount_of : Value → Result ℕ
  amount_of (int (pos n)) = returns (n * 2 ^ 1074)
  amount_of (float r) = or_raise untyped (builtins.units r)
  amount_of v = raises untyped

  -- what `__post_init__` iterates over: the keys of a dict
  abbrev backends_of : Value → Result Backends
  backends_of null = returns absent
  backends_of (str s) = returns (comma_separated s)
  backends_of (list vs) = returns (listed (map (str_of builtins.repr) (to_list vs)))
  backends_of (dict fs) = returns (listed (map (λ kv. kv.0) (to_dict fs)))
  backends_of v = raises type_error

  raw_spec : Dict Value → Result RawSpec
  unfolding Dict.get
  raw_spec d = do
    name ← required text_of d "name"
    flavor ← required text_of d "flavor"
    capability ← required text_of d "capability"
    tier ← required text_of d "tier"
    backend ← required text_of d "backend"
    repo_id ← required text_of d "repo_id"
    filename ← required optional_text d "filename"
    ram_gb ← required amount_of d "ram_gb"
    vram_gb ← required amount_of d "vram_gb"
    context_tokens ← optional count_of 4096 d "context_tokens"
    placement ← optional text_of "auto" d "placement"
    gpu_backends ← optional backends_of absent d "gpu_backends"
    gpu_layers ← optional optional_int none d "gpu_layers"
    returns (record {
      name = name;
      flavor = flavor;
      capability = capability;
      tier = tier;
      backend = backend;
      repo_id = repo_id;
      filename = filename;
      ram_gb = ram_gb;
      vram_gb = vram_gb;
      context_tokens = context_tokens;
      placement = placement;
      gpu_backends = gpu_backends;
      gpu_layers = gpu_layers;
    })

  -- `ModelSpec(**item)`
  unfoldable pub model_of : Value → Result ModelSpec
  unfolding are_fields raw_spec post_init str_of
  model_of (dict fs) =
      if not (are_fields model_fields (to_dict fs))
      then raises type_error
      else raw_spec (to_dict fs) >>= λ raw. returns (post_init raw)
  model_of v = raises type_error

  unfoldable pub models_of : List Value → Result (List ModelSpec)
  unfolding model_of
  models_of [] = returns []
  models_of (item ∷ items) = model_of item >>= λ m. models_of items >>= λ rest. returns (m ∷ rest)

  -- `for item in data.get("models", [])`: an empty text or dict has no item, and no item of
  -- another is a mapping
  abbrev pub models_in : Option Value → Result (List ModelSpec)
  models_in none = returns []
  models_in (some (list vs)) = models_of (to_list vs)
  models_in (some (dict end)) = returns []
  models_in (some (str s)) = if s == "" then returns [] else raises type_error
  models_in (some v) = raises type_error

  unfoldable pub from_dict : Dict Value → Result ModelRegistry
  unfolding models_of specialties_of Dict.get
  from_dict config = models_in (Dict.get config "models") >>= λ models.
      specialties_in (Dict.get config "specialties") >>= λ specialties.
      returns (record { models = models; specialties = specialties })

  -- `dict(v)`, and what `d.update(v)` puts
  unfoldable pub dict_of : Value → Result (Dict Value)
  dict_of (dict fs) = returns (to_dict fs)
  dict_of (list vs) = or_raise type_error (builtins.dict_of_list (to_list vs))
  dict_of (str s) = if s == "" then returns [] else raises value_error
  dict_of v = raises type_error

  -- `base.get("specialties", {})`
  abbrev pub specialties_value : Option Value → Value
  specialties_value none = dict end
  specialties_value (some v) = v

  abbrev with_models : Option Value → Dict Value → Dict Value
  with_models none merged = merged
  with_models (some models) merged = Dict.put merged "models" models

  abbrev pub with_specialties : Dict Value → Option Value → Dict Value → Result (Dict Value)
  with_specialties base none merged = returns merged
  with_specialties base (some more) merged =
      dict_of (specialties_value (Dict.get base "specialties")) >>= λ specialties.
      dict_of more >>= λ updates.
      returns (Dict.put merged "specialties" (dict (of_dict (Dict.update specialties updates))))

  -- an override that is no dict has no items to look up
  abbrev no_override : Dict Value → Value → Result (Dict Value)
  no_override base override = is_in "models" override >>= λ models.
      is_in "specialties" override >>= λ specialties.
      if models || specialties then raises type_error else returns base

  abbrev pub merge_truthy : Dict Value → Value → Result (Dict Value)
  merge_truthy base (dict fs) =
      let override = to_dict fs in
      with_specialties base (Dict.get override "specialties")
        (with_models (Dict.get override "models") base)
  merge_truthy base v = no_override base v

  -- `_merge_config`
  unfoldable pub merge_config : Dict Value → Value → Result (Dict Value)
  unfolding Dict.get Dict.put Dict.update dict_of truthy is_in
  merge_config base override = if truthy override then merge_truthy base override else returns base

  -- `none` is a file that is not there, or not named
  abbrev pub merge_file : Dict Value → Option Value → Result (Dict Value)
  merge_file base none = returns base
  merge_file base (some override) = merge_config base override

  -- `load_default`, by what the packaged file, the user's and the explicit one hold
  unfoldable pub load_default : Dict Value → Option Value → Option Value → Result ModelRegistry
  unfolding merge_config from_dict
  load_default base user explicit =
      merge_file base user >>= λ config. merge_file config explicit >>= λ config. from_dict config
