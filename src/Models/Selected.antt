-- ===== src/Models/Selected.antt =====
-- What a choice of a model finds in the registry and writes.
use mathlib.Core.List.{Memᴰ}
use bubble_hub.Prelude.{
  String, ◌≡◌, refl, sym, subst, Bool-cases, inl, inr, Option, none, some, List, [], ◌∷◌, ◌==◌,
  string_eq, eq_iff, test_of_mem-filter,
}
use bubble_hub.Prelude.Dict.{Dict, Distinct, get-put, get-put_self, get-remove, update-put}
use bubble_hub.Prelude.Dict
use bubble_hub.Registry.{ModelRegistry}
use bubble_hub.Registry.Spec.{ModelSpec, Specialty}
use bubble_hub.Models.{
  Yaml, Result, returns, raises, write_speciality_model_override, select_in, select_among,
  write_checked, matching, selected, Selection,
}
use bubble_hub.Models.Entry.{models_inj}

module _ {Text : Type 0} (yaml : Yaml Text) where
  -- what a choice found and wrote
  pub record IsSelected (r : ModelRegistry) (file : Option Text) (speciality name : String)
      (sel : Selection Text) : Type 0 where
    pub capability : String
    pub specialty : Specialty
    pub text : Text
    pub found : Dict.get r.specialties speciality ≡ some specialty
    pub same : capability ≡ specialty.capability
    pub wrote : write_speciality_model_override yaml file speciality name capability ≡ returns text
    pub chosen : sel ≡ record { selected_model = name; file = some text }

  selected-IsSelected :
      (r : ModelRegistry) (file : Option Text) (speciality : String) (m : ModelSpec) (s : Specialty)
      (sel : Selection Text) (w : Result Text)
      → Dict.get r.specialties speciality ≡ some s
      → m.capability ≡ s.capability
      → write_speciality_model_override yaml file speciality m.name m.capability ≡ w
      → selected yaml m.name w ≡ returns sel
      → IsSelected r file speciality m.name sel
  selected-IsSelected r file speciality m s sel (raises e) es ec ew h = cc
  selected-IsSelected r file speciality m s sel (returns text) es ec ew h = record {
    capability = m.capability;
    specialty = s;
    text = text;
    found = es;
    same = ec;
    wrote = ew;
    chosen = sym (models_inj h);
  }

  write_checked-IsSelected :
      (r : ModelRegistry) (file : Option Text) (speciality name : String) (m : ModelSpec)
      (o : Option Specialty) (sel : Selection Text)
      → Dict.get r.specialties speciality ≡ o
      → write_checked yaml file speciality name m o ≡ returns sel
      → IsSelected r file speciality m.name sel
  write_checked-IsSelected r file speciality name m none sel es h = cc
  write_checked-IsSelected r file speciality name m (some s) sel es h =
      elim (Bool-cases (m.capability == s.capability)) [
        | inl t ↦
            selected-IsSelected r file speciality m s sel _ es
              ((eq_iff m.capability s.capability).0 t) refl (rw t at h)
        | inr f ↦ (let k = rw f at h in cc)
      ]

  select_among-IsSelected :
      (r : ModelRegistry) (file : Option Text) (speciality name : String) (models : List ModelSpec)
      (sel : Selection Text)
      → ((m : ModelSpec) → Memᴰ m models → m.name ≡ name)
      → select_among yaml r file speciality name models ≡ returns sel
      → IsSelected r file speciality name sel
  select_among-IsSelected r file speciality name [] sel n h = cc
  select_among-IsSelected r file speciality name (m ∷ models) sel n h =
      subst (λ x. IsSelected r file speciality x sel) (n m (Memᴰ.head refl))
        (write_checked-IsSelected r file speciality name m _ sel refl h)

  pub select_in-IsSelected :
      (r : ModelRegistry) (file : Option Text) (speciality name : String) (sel : Selection Text)
      → select_in yaml r file speciality name ≡ returns sel
      → IsSelected r file speciality name sel
  unfolding select_in
  select_in-IsSelected r file speciality name sel h =
      select_among-IsSelected r file speciality name (matching r name) sel
        (λ m k. (eq_iff m.name name).0 (test_of_mem-filter _ r.models k)) h
