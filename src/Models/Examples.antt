-- ===== src/Models/Examples.antt =====
-- The theorems on the choice of a model, at a user's file with two specialties.
use bubble_hub.Prelude.{◌≡◌, refl, sym, subst, true, false, none, some, [], ◌∷◌}
use mathlib.Core.List.{Memᴰ}
use mathlib.Core.List.Memᴰ
use bubble_hub.Prelude.Dict.{Dict, Distinct}
use bubble_hub.Prelude.Text.{strip}
use bubble_hub.Prelude.Int.{pos}
use bubble_hub.Value.{Value, null, str, int, list, dict, of_dict, of_list}
use bubble_hub.Registry.Load.{Builtins, dict_of, specialty_of_fields}
use bubble_hub.Registry.Spec.{ModelSpec, Specialty}
use bubble_hub.Models.{
  Yaml, returns, user_chose_base_model, get_object, entries, registry_of,
  select_model_for_speciality,
}
use bubble_hub.Models.Entry.{models_inj}
use bubble_hub.Models.Overview.{View, models_overview}
use bubble_hub.Models.Shown.{IsShown, models_overview-IsShown}
use bubble_hub.Registry.{ModelRegistry}
use bubble_hub.Models.Setup.{Machine, run_install_base_model_setup, model_option_label}
use bubble_hub.Models.Effective.{AreDistinct, IsEffective, select_model_for_speciality-IsEffective}
use bubble_hub.Models.Done.{AreNamed, run_install_base_model_setup-Chosen}

abbrev builtins : Builtins
builtins = record { dict_of_list = λ vs. none; units = λ r. none; repr = λ v. "" }

-- a library whose texts are the values themselves
abbrev yaml : Yaml Value
yaml = record { safe_load = λ v. some v; safe_dump = λ v. v; builtins = builtins }

abbrev of_pairs : Dict Value → Value
of_pairs d = dict (of_dict d)

abbrev file : Value
file = of_pairs (
    (
      "specialties",
      of_pairs (
          ("chat", of_pairs (("flavor", str "instruct") ∷ ("lora", str "x") ∷ []))
          ∷ ("embed", of_pairs (("model", str "e5") ∷ []))
          ∷ []),
    )
    ∷ ("version", int (pos 1))
    ∷ [])

abbrev written : Value
written = of_pairs (
    (
      "specialties",
      of_pairs (
          (
            "chat",
            of_pairs (("lora", str "x") ∷ ("capability", str "text") ∷ ("model", str "tiny") ∷ []),
          )
          ∷ ("embed", of_pairs (("model", str "e5") ∷ []))
          ∷ []),
    )
    ∷ ("version", int (pos 1))
    ∷ [])

abbrev tiny : ModelSpec
tiny = record {
  name = "tiny";
  flavor = "instruct";
  capability = "text";
  tier = "tiny";
  backend = "llama";
  repo_id = "org/tiny";
  filename = none;
  ram_gb = 0;
  vram_gb = 0;
  context_tokens = 2048;
  placement = "cpu";
  gpu_backends = [];
  gpu_layers = none;
}

abbrev chat : Specialty
chat = record {
  name = "chat";
  capability = "text";
  flavor = none;
  lora = none;
  min_context_tokens = none;
  model = none;
}

abbrev machine : Machine Value
machine = record {
  registry = record { models = tiny ∷ []; specialties = ("chat", chat) ∷ [] };
  hardware = record { ram_bytes = 1; vram_bytes = 0; gpu_backends = [] };
  env = ("BUBBLEHUB_BASE_MODEL", " tiny ") ∷ [];
  file = some file;
  is_terminal = false;
  input = "";
  general = λ n. "";
}

machine-AreNamed : AreNamed machine.registry.models
unfolding strip
machine-AreNamed m (Memᴰ.head e) = rw e refl
machine-AreNamed m (Memᴰ.tail k) = absurd (Memᴰ.not-nil k)

run_install_base_model_setup-Chosen_example :
    user_chose_base_model yaml "chat" (some written) ≡ returns true
unfolding run_install_base_model_setup strip
run_install_base_model_setup-Chosen_example =
    run_install_base_model_setup-Chosen yaml (λ v. refl) machine machine-AreNamed "chat"
      (some written) refl

-- every option of the menu is marked as the recommended one
test_label :
    model_option_label machine.general tiny (some tiny.name)
    ≡ "tiny (instruct, llama, tiny, RAM G, VRAM G, ctx 2048) (recommended)"
unfolding model_option_label
test_label = refl

-- the packaged configuration, and a user's file that changes the specialty
abbrev base : Dict Value
base =
    (
      "models",
      list (
          of_list (
            of_pairs (
              ("name", str "tiny")
              ∷ ("flavor", str "instruct")
              ∷ ("capability", str "text")
              ∷ ("tier", str "tiny")
              ∷ ("backend", str "llama")
              ∷ ("repo_id", str "org/tiny")
              ∷ ("filename", null)
              ∷ ("ram_gb", int (pos 0))
              ∷ ("vram_gb", int (pos 0))
              ∷ ("context_tokens", int (pos 2048))
              ∷ [])
            ∷ [])),
    )
    ∷ ("specialties", of_pairs (("chat", of_pairs (("capability", str "text") ∷ [])) ∷ []))
    ∷ []

abbrev user : Value
user = of_pairs (
    (
      "specialties",
      of_pairs (("chat", of_pairs (("capability", str "text") ∷ ("flavor", str "big") ∷ [])) ∷ []),
    )
    ∷ [])

abbrev chosen : Value
chosen = of_pairs (
    (
      "specialties",
      of_pairs (("chat", of_pairs (("capability", str "text") ∷ ("model", str "tiny") ∷ [])) ∷ []),
    )
    ∷ [])

abbrev loaded : ModelRegistry
loaded = record {
  models = tiny ∷ [];
  specialties = ("chat", record chat { flavor = some "big" }) ∷ [];
}

user-AreDistinct : AreDistinct yaml (some user)
unfolding dict_of get_object
user-AreDistinct config old e h =
    let here =
      subst (λ c. entries yaml (get_object c "specialties") ≡ returns old) (sym (models_inj e)) h in
    subst Distinct (models_inj here) (tt, tt)

select_model_for_speciality-IsEffective_example :
    IsEffective yaml base loaded "chat" "tiny"
      (record { selected_model = "tiny"; file = some chosen })
unfolding select_model_for_speciality registry_of specialty_of_fields
select_model_for_speciality-IsEffective_example =
    select_model_for_speciality-IsEffective yaml (λ v. refl) base (some user) loaded "chat" "tiny"
      (record { selected_model = "tiny"; file = some chosen }) refl user-AreDistinct refl

abbrev view : View
view = record {
  hardware = record {
    info = record { ram_bytes = 8589934592; vram_bytes = 0; gpu_backends = [] };
    free_vram_bytes = 0;
    gpu_vendor = "none";
    gpu_name = "";
    gpu_backend = "cpu";
    gpu_compute_capability = "";
    gpu_device = "";
  };
  amount = λ n. null;
  config_path = "models.yaml";
}

loaded-AreNamed : AreNamed loaded.models
loaded-AreNamed = machine-AreNamed

models_overview-IsShown_example :
    (shown : Dict Value) × (models_overview yaml view base none (some chosen) "chat"
      ≡ returns shown)
    × IsShown loaded view "chat" "tiny" shown
unfolding select_model_for_speciality registry_of specialty_of_fields
models_overview-IsShown_example =
    models_overview-IsShown yaml (λ v. refl) view base (some user) loaded "chat" "tiny"
      (record { selected_model = "tiny"; file = some chosen }) refl user-AreDistinct loaded-AreNamed
      refl
