-- ===== src/Models/Effective.antt =====
-- A model that is chosen for a specialty is the one that the specialty gets from the registry that
-- is loaded with the user's new file.
use bubble_hub.Prelude.{String, ◌≡◌, refl, sym, ap, ◌∙◌, subst, Option, none, some, string_eq}
use bubble_hub.Prelude.Dict.{Dict, Distinct, get-put, get-put_self, get-remove, update-put}
use bubble_hub.Prelude.Dict
use bubble_hub.Value.{to_dict-of_dict, Value, dict, of_dict}
use bubble_hub.Registry.{ModelRegistry, Query, resolve_candidates, resolve_model_name, singleton}
use bubble_hub.Registry.Spec.{Specialty}
use bubble_hub.Registry.Load.{
  specialties_of, specialty_of, specialty_of_fields, specialty_fields, are_fields, dict_of,
  specialties_value, models_in, load_default, optional, optional_text, required, text_of,
}
use bubble_hub.Registry.Load
use bubble_hub.Registry.Load.Laws.{
  Parts, load_default-Parts, load_default-of_parts, specialties_of-put, object, or_base,
  returns_inj,
}
use bubble_hub.Models.{
  Yaml, returns, get_object, override_entry, with_entry, entries, read_user_models_config,
  write_speciality_model_override, select_in, Selection, user_value, registry_of,
  select_model_for_speciality,
}
use bubble_hub.Models.Laws.{and_then-returns}
use bubble_hub.Models.Entry.{
  models_inj, of_load_inj, IsEntry, override_entry-pinned, pinned, get_object-value,
  current-IsEntry, user-object,
}
use bubble_hub.Models.Selected.{IsSelected, select_in-IsSelected}

-- The specialties of the user's file: no key stands twice, as in every dict of Python.
abbrev pub AreDistinct : {Text : Type 0} → Yaml Text → Option Text → Type 0
AreDistinct yaml file =
    (config old : Dict Value)
    → read_user_models_config yaml file ≡ returns config
    → entries yaml (get_object config "specialties") ≡ returns old
    → Distinct old

-- The registry that is loaded after a choice is the one before, but for the specialty, which pins
-- the chosen model, of the capability that it had.
pub record IsEffective {Text : Type 0} (yaml : Yaml Text) (base : Dict Value) (r : ModelRegistry)
    (speciality name : String) (sel : Selection Text) : Type 0 where
  pub before : Specialty
  pub lora : Option String
  pub after : ModelRegistry
  pub found : Dict.get r.specialties speciality ≡ some before
  pub reloaded : registry_of yaml base none sel.file ≡ returns after
  pub models_kept : after.models ≡ r.models
  pub specialties :
      after.specialties
      ≡ Dict.put r.specialties speciality (pinned speciality name before.capability lora)
  pub resolved :
      (q : Query)
      → resolve_candidates after speciality q ≡ singleton (resolve_model_name r name speciality q)

resolved-pinned :
    (r : ModelRegistry) (ss : Dict Specialty) (speciality name capability : String)
    (lora : Option String) (q : Query)
    → resolve_candidates
        (record r { specialties = Dict.put ss speciality (pinned speciality name capability lora) })
        speciality
        q
      ≡ singleton (resolve_model_name r name speciality q)
unfolding resolve_candidates resolve_model_name
resolved-pinned r ss speciality name capability lora q =
    rw (get-put_self ss speciality (pinned speciality name capability lora)) refl

module _ {Text : Type 0} (yaml : Yaml Text)
    (reads : (v : Value) → yaml.safe_load (yaml.safe_dump v) ≡ some v) where
  reload-dumped :
      (base d : Dict Value) (r : ModelRegistry)
      → load_default yaml.builtins base (some (dict (of_dict d))) none ≡ Load.Result.returns r
      → registry_of yaml base none (some (yaml.safe_dump (dict (of_dict d)))) ≡ returns r
  unfolding registry_of
  reload-dumped base d r h = rw (reads (dict (of_dict d)), h) refl

  written-specialty :
      (bs old current : Dict Value) (ss : Dict Specialty) (speciality name capability : String)
      (i : IsEntry current)
      → Distinct old
      → specialties_of (Dict.update bs old) ≡ Load.Result.returns ss
      → specialties_of (
          Dict.update bs
            (Dict.put old speciality (dict (of_dict (override_entry current name capability)))))
        ≡ Load.Result.returns (Dict.put ss speciality (pinned speciality name capability i.lora))
  written-specialty bs old current ss speciality name capability i distinct es =
      rw
        (update-put bs old speciality (dict (of_dict (override_entry current name capability)))
          distinct)
        (specialties_of-put (Dict.update bs old) ss speciality _ _ es (
          rw (to_dict-of_dict (override_entry current name capability))
            (override_entry-pinned speciality name capability current i)))

  write-content :
      (file : Option Text) (before : Dict Value) (speciality name capability : String) (text : Text)
      → read_user_models_config yaml file ≡ returns before
      → write_speciality_model_override yaml file speciality name capability ≡ returns text
      → (old : Dict Value) × (current : Dict Value) × (entries yaml
            (get_object before "specialties")
          ≡ returns old)
        × (dict_of yaml.builtins (get_object old speciality) ≡ Load.Result.returns current)
        × (text
            ≡ yaml.safe_dump (
                dict (
                  of_dict
                    (with_entry before old speciality (override_entry current name capability)))))
  unfolding write_speciality_model_override
  write-content file before speciality name capability text read h =
      let h = rw read at h in
      let (old, eo, h) =
        and_then-returns (entries yaml (get_object before "specialties")) _ text h in
      let (current, ec, h) = and_then-returns (entries yaml (get_object old speciality)) _ text h in
      (old, current, eo, of_load_inj _ current ec, sym (models_inj h))

  reloaded-written :
      (base before bs old current : Dict Value) (r : ModelRegistry)
      (speciality name capability : String) (i : IsEntry current)
      → Distinct old
      → dict_of yaml.builtins (specialties_value yaml.builtins (Dict.get base "specialties"))
        ≡ Load.Result.returns bs
      → models_in yaml.builtins (or_base (Dict.get before "models") (Dict.get base "models"))
        ≡ Load.Result.returns r.models
      → specialties_of (Dict.update bs old) ≡ Load.Result.returns r.specialties
      → registry_of yaml base none (
          some (
            yaml.safe_dump (
              dict (
                of_dict
                  (with_entry before old speciality (override_entry current name capability))))))
        ≡ returns (record r {
          specialties =
              Dict.put r.specialties speciality (pinned speciality name capability i.lora);
        })
  unfolding with_entry
  reloaded-written base before bs old current r speciality name capability i distinct eb em es =
      let entry = override_entry current name capability in
      let new = Dict.put old speciality (dict (of_dict entry)) in
      let after = Dict.put before "specialties" (dict (of_dict new)) in
      let kept : Dict.get after "models" ≡ Dict.get before "models" =
        get-put before "specialties" "models" (dict (of_dict new)) in
      let q = record r {
        specialties = Dict.put r.specialties speciality (pinned speciality name capability i.lora);
      } in
      reload-dumped base after q (
        load_default-of_parts yaml.builtins base after new bs q
          (get-put_self before "specialties" (dict (of_dict new))) eb (rw kept em)
          (written-specialty bs old current r.specialties speciality name capability i distinct es))

  written-IsEffective :
      (base : Dict Value) (file : Option Text) (r : ModelRegistry) (speciality name : String)
      (sel : Selection Text) (user : Option Value)
      → Parts yaml.builtins base (object user) r
      → user_value yaml file ≡ returns user
      → AreDistinct yaml file
      → IsSelected yaml r file speciality name sel
      → IsEffective yaml base r speciality name sel
  written-IsEffective base file r speciality name sel user p eu distinct c =
      let before = object user in
      let read = user-object yaml file user eu in
      let (old, current, eo, ec, et) =
        write-content file before speciality name c.capability c.text read c.wrote in
      let more : p.more ≡ old = returns_inj (
        sym p.of_override
        ∙ (rw (get_object-value yaml.builtins before "specialties") at (of_load_inj _ old eo))) in
      let es =
        subst
          (λ d.
            specialties_of (Dict.update p.base_specialties d) ≡ Load.Result.returns r.specialties)
          more p.specialties in
      let unique = distinct before old read eo in
      let i =
        current-IsEntry yaml p.base_specialties old r.specialties speciality current unique es ec in
      let q = record r {
        specialties =
            Dict.put r.specialties speciality (pinned speciality name c.capability i.lora);
      } in
      let here =
        reloaded-written base before p.base_specialties old current r speciality name c.capability i
          unique p.of_base p.models es in
      record {
        before = c.specialty;
        lora = i.lora;
        after = q;
        found = c.found;
        reloaded = rw (c.chosen, et) here;
        models_kept = refl;
        specialties =
            ap (λ x. Dict.put r.specialties speciality (pinned speciality name x i.lora)) c.same;
        resolved = resolved-pinned r r.specialties speciality name c.capability i.lora;
      }

  -- If the YAML library reads back what it dumps, and the specialties of the user's file have
  -- distinct keys, then a choice that is accepted takes effect: the registry that is loaded from
  -- the new file, where no file is named by the environment, is the one before, but for the
  -- specialty, which has its capability and pins the chosen model, and whatever is asked for, only
  -- that model is a candidate, or it is refused by the query's limits.
  pub select_model_for_speciality-IsEffective :
      (base : Dict Value) (file : Option Text) (r : ModelRegistry) (speciality name : String)
      (sel : Selection Text)
      → registry_of yaml base none file ≡ returns r
      → AreDistinct yaml file
      → select_model_for_speciality yaml base none file speciality name ≡ returns sel
      → IsEffective yaml base r speciality name sel
  unfolding select_model_for_speciality registry_of
  select_model_for_speciality-IsEffective base file r speciality name sel er distinct h =
      let (user, eu, k) = and_then-returns (user_value yaml file) _ r er in
      let p = load_default-Parts yaml.builtins base user r (of_load_inj _ r k) in
      let (q, eq, h) = and_then-returns (registry_of yaml base none file) _ sel h in
      let same : q ≡ r = models_inj (sym eq ∙ er) in
      written-IsEffective base file r speciality name sel user p eu distinct (
        select_in-IsSelected yaml r file speciality name sel
          (subst (λ x. select_in yaml x file speciality name ≡ returns sel) same h))
