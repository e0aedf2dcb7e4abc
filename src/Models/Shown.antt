-- ===== src/Models/Shown.antt =====
-- What the models' page shows after a choice of a model.
use bubble_hub.Prelude.{
  String, ◌≡◌, refl, sym, ap, ◌∙◌, subst, true, false, ◌⊎◌, inl, inr, Option, none, some, [],
  string_eq,
}
use bubble_hub.Prelude.Dict.{Dict}
use bubble_hub.Prelude.Dict
use bubble_hub.Value.{Value, null, boolean, str}
use bubble_hub.Registry.{
  ModelRegistry, Query, KeyError, first_of_candidates, resolve_specialty, resolve_candidates,
  resolve_model_name, singleton,
}
use bubble_hub.Registry
use bubble_hub.Registry.Choice.{Pinned-sound}
use bubble_hub.Models.{
  Yaml, returns, registry_of, needs_base_model_setup, user_chose_base_model,
  select_model_for_speciality, select_in, Selection,
}
use bubble_hub.Models.Setup.{query_for, selected_model_name, name_or_none}
use bubble_hub.Models.Done.{AreNamed, select_in-Chosen}
use bubble_hub.Models.Effective.{AreDistinct, select_model_for_speciality-IsEffective}
use bubble_hub.Models.Laws.{and_then-returns}
use bubble_hub.Models.Entry.{models_inj}
use bubble_hub.Models.Overview.{View, page, page_of, models_overview}

-- The page asks for no setup, and shows the chosen model, or none where the machine's limits refuse
-- it.
pub record IsShown (r : ModelRegistry) (view : View) (speciality name : String) (shown : Dict Value)
    : Type 0 where
  pub done : Dict.get shown "needs_setup" ≡ some (boolean false)
  pub selected :
      (Dict.get shown "selected_model" ≡ some (str name))
      ⊎ ((e : KeyError) × (resolve_model_name r name speciality (query_for view.hardware.info none)
            ≡ Registry.Result.key_error e)
          × (Dict.get shown "selected_model" ≡ some null))

page-IsShown :
    (r after : ModelRegistry) (view : View) (speciality name : String) (selected : Option String)
    → ((selected ≡ some name)
        ⊎ ((e : KeyError) × (resolve_model_name r name speciality
                (query_for view.hardware.info none)
              ≡ Registry.Result.key_error e)
            × (selected ≡ none)))
    → IsShown r view speciality name
        (page view.amount view.config_path after view.hardware speciality selected false [])
unfolding page Dict.get
page-IsShown r after view speciality name selected (inl e) = record {
  done = refl;
  selected = inl (rw e refl);
}
page-IsShown r after view speciality name selected (inr (e, refused, n)) = record {
  done = refl;
  selected = inr (e, refused, rw n refl);
}

selected_model_name-pinned :
    (r after : ModelRegistry) (view : View) (speciality name : String)
    → ((q : Query)
        → resolve_candidates after speciality q
          ≡ singleton (resolve_model_name r name speciality q))
    → (selected_model_name after view.hardware.info speciality ≡ some name)
      ⊎ ((e : KeyError) × (resolve_model_name r name speciality (query_for view.hardware.info none)
            ≡ Registry.Result.key_error e)
          × (selected_model_name after view.hardware.info speciality ≡ none))
unfolding selected_model_name resolve_specialty
selected_model_name-pinned r after view speciality name h =
    rw (h (query_for view.hardware.info none))
      (go (resolve_model_name r name speciality (query_for view.hardware.info none)) refl)
  where
    go :
        (x : Registry.Result Registry.Spec.ModelSpec)
        → resolve_model_name r name speciality (query_for view.hardware.info none) ≡ x
        → (name_or_none (first_of_candidates speciality (singleton x)) ≡ some name)
          ⊎ ((e : KeyError) × (x ≡ Registry.Result.key_error e)
              × (name_or_none (first_of_candidates speciality (singleton x)) ≡ none))
    go (Registry.Result.ok m) e =
        inl (
          ap Option.some (Pinned-sound r speciality name (query_for view.hardware.info none) m e).1)
    go (Registry.Result.key_error x) e = inr (x, refl, refl)

module _ {Text : Type 0} (yaml : Yaml Text)
    (reads : (v : Value) → yaml.safe_load (yaml.safe_dump v) ≡ some v) (view : View) where
  needs-chosen :
      (speciality : String) (file : Option Text)
      → user_chose_base_model yaml speciality file ≡ returns true
      → needs_base_model_setup yaml speciality file ≡ returns false
  unfolding needs_base_model_setup
  needs-chosen speciality file h = rw h refl

  -- If the YAML library reads back what it dumps, the specialties of the user's file have distinct
  -- keys and no model's name is blank, then after a choice that is accepted the page of the models
  -- is shown, asks for no setup of the specialty, and has the chosen model as the selected one, or
  -- none where the machine's limits refuse that model.
  pub models_overview-IsShown :
      (base : Dict Value) (file : Option Text) (r : ModelRegistry) (speciality name : String)
      (sel : Selection Text)
      → registry_of yaml base none file ≡ returns r
      → AreDistinct yaml file
      → AreNamed r.models
      → select_model_for_speciality yaml base none file speciality name ≡ returns sel
      → (shown : Dict Value) × (models_overview yaml view base none sel.file speciality
          ≡ returns shown)
        × IsShown r view speciality name shown
  unfolding models_overview select_model_for_speciality
  models_overview-IsShown base file r speciality name sel er distinct named h =
      let i =
        select_model_for_speciality-IsEffective yaml reads base file r speciality name sel er
          distinct h in
      let (q, eq, k) = and_then-returns (registry_of yaml base none file) _ sel h in
      let here =
        subst (λ x. select_in yaml x file speciality name ≡ returns sel) (models_inj (sym eq ∙ er))
          k in
      let chosen = select_in-Chosen yaml reads r file speciality name named sel here in
      let selected = selected_model_name i.after view.hardware.info speciality in
      (
        page_of yaml view i.after speciality selected false [],
        rw (i.reloaded, needs-chosen speciality sel.file chosen) refl,
        page-IsShown r i.after view speciality name selected
            (selected_model_name-pinned r i.after view speciality name i.resolved),
      )
