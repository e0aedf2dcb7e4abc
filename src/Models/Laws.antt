-- ===== src/Models/Laws.antt =====
-- What a choice of a model leaves in the user's file.
use bubble_hub.Prelude.{
  String, ◌≡◌, ◌≢◌, refl, ap, subst, true, false, Option, none, some, ◌==◌, string_eq, eq_iff,
  arith,
}
use bubble_hub.Prelude.Dict.{Dict, get-put, get-put_self, get-remove}
use bubble_hub.Prelude.Dict
use bubble_hub.Prelude.Text.{strip}
use bubble_hub.Value.{to_dict-of_dict, Value, str, dict, of_dict, get}
use bubble_hub.Models.{
  Yaml, Result, returns, raises, and_then, get_object, is_chosen, chosen_by_entries,
  chosen_by_entry, override_entry, with_entry, entries, read_user_models_config,
  user_chose_base_model, write_speciality_model_override,
}

abbrev returned {ℓ} : {A : Type ℓ} → A → Result A → A
returned a (returns b) = b
returned a (raises e) = a

returns_inj {ℓ} : {A : Type ℓ} {a b : A} → Result.returns a ≡ returns b → a ≡ b
returns_inj {a} e = ap (returned a) e

pub and_then-returns {ℓ μ} :
    {A : Type ℓ} {B : Type μ} (r : Result A) (f : A → Result B) (b : B)
    → and_then r f ≡ returns b
    → (a : A) × (r ≡ returns a) × (f a ≡ returns b)
and_then-returns (returns a) f b e = (a, refl, e)
and_then-returns (raises x) f b e = cc

-- the entry that is written, and what is as it was before
pub record IsWritten {Text : Type 0} (yaml : Yaml Text) (file : Option Text)
    (speciality name capability : String) (text : Text) : Type 0 where
  pub before : Dict Value
  pub old : Dict Value
  pub after : Dict Value
  pub new : Dict Value
  pub entry : Dict Value
  pub read_before : read_user_models_config yaml file ≡ returns before
  pub entries_before : entries yaml (get_object before "specialties") ≡ returns old
  pub read_after : read_user_models_config yaml (some text) ≡ returns after
  pub specialties_after : get_object after "specialties" ≡ dict (of_dict new)
  pub written : Dict.get new speciality ≡ some (dict (of_dict entry))
  pub model : Dict.get entry "model" ≡ some (str name)
  pub capability_written : Dict.get entry "capability" ≡ some (str capability)
  pub no_flavor : Dict.get entry "flavor" ≡ none
  pub no_minimum : Dict.get entry "min_context_tokens" ≡ none
  pub others_kept : (j : String) → j ≢ speciality → Dict.get new j ≡ Dict.get old j
  pub fields_kept : (k : String) → k ≢ "specialties" → Dict.get after k ≡ Dict.get before k

kept :
    (d : Dict Value) (k j : String) (v : Value) → j ≢ k → Dict.get (Dict.put d k v) j ≡ Dict.get d j
kept d k j v n = ground (arith, get-put d k j v, eq_iff k j)

pub entry-model :
    (d : Dict Value) (name capability : String)
    → Dict.get (override_entry d name capability) "model" ≡ some (str name)
unfolding override_entry
entry-model d name capability = simp (get-remove, get-put) refl

pub entry-capability :
    (d : Dict Value) (name capability : String)
    → Dict.get (override_entry d name capability) "capability" ≡ some (str capability)
unfolding override_entry
entry-capability d name capability = simp (get-remove, get-put) refl

pub entry-flavor :
    (d : Dict Value) (name capability : String)
    → Dict.get (override_entry d name capability) "flavor" ≡ none
unfolding override_entry
entry-flavor d name capability = simp get-remove refl

pub entry-minimum :
    (d : Dict Value) (name capability : String)
    → Dict.get (override_entry d name capability) "min_context_tokens" ≡ none
unfolding override_entry
entry-minimum d name capability = simp get-remove refl

get_object-put : (d : Dict Value) (k : String) (v : Value) → get_object (Dict.put d k v) k ≡ v
unfolding get_object
get_object-put d k v = rw (get-put_self d k v, get_object) refl

chosen_entry :
    (name : String) (entry : Dict Value)
    → Dict.get entry "model" ≡ some (str name)
    → (strip name == "") ≡ false
    → chosen_by_entry (dict (of_dict entry)) ≡ true
unfolding get is_chosen
chosen_entry name entry e n = rw (to_dict-of_dict entry, e, n, get) refl

chosen_entries :
    (speciality : String) (new entry : Dict Value)
    → Dict.get new speciality ≡ some (dict (of_dict entry))
    → chosen_by_entry (dict (of_dict entry)) ≡ true
    → chosen_by_entries speciality (dict (of_dict new)) ≡ true
unfolding get_object
chosen_entries speciality new entry e h = rw (to_dict-of_dict new, e, get_object) h

-- a specialty whose model is written is one that the user chose a model for
pub IsWritten-chosen :
    {Text : Type 0} (yaml : Yaml Text) (file : Option Text) (speciality name capability : String)
    (text : Text)
    → IsWritten yaml file speciality name capability text
    → (strip name == "") ≡ false
    → user_chose_base_model yaml speciality (some text) ≡ returns true
unfolding user_chose_base_model
IsWritten-chosen yaml file speciality name capability text w n =
    rw (w.read_after, w.specialties_after)
      (ap Result.returns
        (chosen_entries speciality w.new w.entry w.written (chosen_entry name w.entry w.model n)))

module _ {Text : Type 0} (yaml : Yaml Text)
    (reads : (v : Value) → yaml.safe_load (yaml.safe_dump v) ≡ some v) where
  read-dumped :
      (d : Dict Value)
      → read_user_models_config yaml (some (yaml.safe_dump (dict (of_dict d)))) ≡ returns d
  read-dumped d = rw (reads (dict (of_dict d)), to_dict-of_dict d) refl

  -- If the library reads back what it dumps, a written override is the specialty's entry: it has
  -- the model and the capability, and no flavor and no least context; the other specialties and the
  -- other fields of the file are as they were.
  pub write_speciality_model_override-IsWritten :
      (file : Option Text) (speciality name capability : String) (text : Text)
      → write_speciality_model_override yaml file speciality name capability ≡ returns text
      → IsWritten yaml file speciality name capability text
  unfolding write_speciality_model_override with_entry
  write_speciality_model_override-IsWritten file speciality name capability text h =
      let (before, read, h) = and_then-returns (read_user_models_config yaml file) _ text h in
      let (old, olds, h) =
        and_then-returns (entries yaml (get_object before "specialties")) _ text h in
      let (current, here, h) =
        and_then-returns (entries yaml (get_object old speciality)) _ text h in
      let entry = override_entry current name capability in
      let new = Dict.put old speciality (dict (of_dict entry)) in
      let after = Dict.put before "specialties" (dict (of_dict new)) in
      record {
        before = before;
        old = old;
        after = after;
        new = new;
        entry = entry;
        read_before = read;
        entries_before = olds;
        read_after =
            subst (λ t. read_user_models_config yaml (some t) ≡ returns after) (returns_inj h)
              (read-dumped after);
        specialties_after = get_object-put before "specialties" (dict (of_dict new));
        written = get-put_self old speciality (dict (of_dict entry));
        model = entry-model current name capability;
        capability_written = entry-capability current name capability;
        no_flavor = entry-flavor current name capability;
        no_minimum = entry-minimum current name capability;
        others_kept = λ j n. kept old speciality j (dict (of_dict entry)) n;
        fields_kept = λ k n. kept before "specialties" k (dict (of_dict new)) n;
      }
