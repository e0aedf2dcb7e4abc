-- ===== src/Models/Entry.antt =====
-- The entry that a choice of a model writes for a specialty, as the registry reads it.
use bubble_hub.Prelude.{
  String, ◌≡◌, refl, sym, ap, ◌∙◌, subst, true, Bool-cases, inl, inr, Option, none, some,
  Option-cases, List, [], ◌∷◌, ◌==◌, string_eq, arith, any,
}
use bubble_hub.Prelude.Dict.{Dict, Distinct, get-put, get-put_self, get-remove, update-put}
use bubble_hub.Prelude.Dict
use bubble_hub.Value.{Value, str, dict, end, to_dict}
use bubble_hub.Registry.Spec.{Specialty}
use bubble_hub.Registry.Load.{
  specialties_of, specialty_of, specialty_of_fields, specialty_fields, are_fields, dict_of,
  specialties_value, models_in, load_default, optional, optional_text, required, text_of,
}
use bubble_hub.Registry.Load
use bubble_hub.Registry.Load.Laws.{specialties_of-get, object, >>=-returns, returns_inj}
use bubble_hub.Models.{
  loaded, Yaml, Result, returns, raises, of_load, get_object, override_entry,
  read_user_models_config, user_value,
}
use bubble_hub.Models.Laws.{entry-model, entry-capability, entry-flavor, entry-minimum}

are_fields-put :
    (names : List String) (d : Dict Value) (k : String) (v : Value)
    → are_fields names d ≡ true
    → any (λ name. name == k) names ≡ true
    → are_fields names (Dict.put d k v) ≡ true
unfolding are_fields Dict.put
are_fields-put names [] k v h m = rw m refl
are_fields-put names ((j, w) ∷ d) k v h m = ground (arith, are_fields-put names d k v)

are_fields-remove :
    (names : List String) (d : Dict Value) (k : String)
    → are_fields names d ≡ true
    → are_fields names (Dict.remove d k) ≡ true
unfolding are_fields Dict.remove
are_fields-remove names [] k h = refl
are_fields-remove names ((j, w) ∷ d) k h = ground (arith, are_fields-remove names d k)

-- an entry that `Specialty` accepts, but for the fields that a choice writes
pub record IsEntry (current : Dict Value) : Type 0 where
  pub known : are_fields specialty_fields current ≡ true
  pub lora : Option String
  pub lora_read : optional optional_text none current "lora" ≡ Load.Result.returns lora

empty-IsEntry : IsEntry []
unfolding are_fields Dict.get
empty-IsEntry = record { known = refl; lora = none; lora_read = refl }

specialty-IsEntry :
    (name : String) (current : Dict Value) (s : Specialty)
    → specialty_of_fields name current ≡ Load.Result.returns s
    → IsEntry current
unfolding specialty_of_fields
specialty-IsEntry name current s h = elim (Bool-cases (are_fields specialty_fields current)) [
  | inr f ↦ (let k = rw f at h in cc)
  | inl t ↦
      (let h = rw t at h in
        let (c, ec, h) = >>=-returns (required text_of current "capability") _ h in
        let (f, ef, h) = >>=-returns (optional optional_text none current "flavor") _ h in
        let (l, el, h) = >>=-returns (optional optional_text none current "lora") _ h in
        record { known = t; lora = l; lora_read = el })
]

override_entry-known :
    (current : Dict Value) (name capability : String)
    → are_fields specialty_fields current ≡ true
    → are_fields specialty_fields (override_entry current name capability) ≡ true
unfolding override_entry any
override_entry-known current name capability h =
    let h = are_fields-put specialty_fields current "capability" (str capability) h refl in
    let h = are_fields-put specialty_fields _ "model" (str name) h refl in
    are_fields-remove specialty_fields _ "min_context_tokens"
      (are_fields-remove specialty_fields _ "flavor" h)

-- what the specialty of a chosen model is
abbrev pub pinned : String → String → String → Option String → Specialty
pinned speciality name capability lora = record {
  name = speciality;
  capability = capability;
  flavor = none;
  lora = lora;
  min_context_tokens = none;
  model = some name;
}

entry-lora :
    (d : Dict Value) (name capability : String)
    → Dict.get (override_entry d name capability) "lora" ≡ Dict.get d "lora"
unfolding override_entry
entry-lora d name capability = simp (get-remove, get-put) refl

pub override_entry-pinned :
    (speciality name capability : String) (current : Dict Value) (i : IsEntry current)
    → specialty_of_fields speciality (override_entry current name capability)
      ≡ Load.Result.returns (pinned speciality name capability i.lora)
unfolding specialty_of_fields
override_entry-pinned speciality name capability current i =
    rw
      (
        override_entry-known current name capability i.known,
        entry-capability current name capability,
        entry-flavor current name capability,
        entry-lora current name capability,
        i.lora_read,
        entry-minimum current name capability,
        entry-model current name capability,
        required,
        optional,
      )
      refl

put-get_self :
    (d : Dict Value) (k : String) (v : Value) → Dict.get d k ≡ some v → Dict.put d k v ≡ d
unfolding Dict.get Dict.put
put-get_self [] k v e = cc
put-get_self ((j, w) ∷ d) k v e = ground (arith, put-get_self d k v)

pub of_load_inj {ℓ} :
    {A : Type ℓ} (r : Load.Result A) (a : A) → of_load r ≡ returns a → r ≡ Load.Result.returns a
of_load_inj (Load.Result.returns b) a h =
    ap (λ r. elim r [ returns x ↦ Load.Result.returns x | raises e ↦ Load.Result.returns a ]) h
of_load_inj (Load.Result.raises e) a h = cc

some-IsEntry :
    (builtins : Load.Builtins) (speciality : String) (v : Value) (s : Specialty)
    (current : Dict Value)
    → specialty_of speciality v ≡ Load.Result.returns s
    → dict_of builtins v ≡ Load.Result.returns current
    → IsEntry current
unfolding dict_of
some-IsEntry builtins speciality (dict fs) s current es ec =
    subst IsEntry (returns_inj ec) (specialty-IsEntry speciality (to_dict fs) s es)
some-IsEntry builtins speciality Value.null s current es ec = cc
some-IsEntry builtins speciality (Value.boolean b) s current es ec = cc
some-IsEntry builtins speciality (Value.int n) s current es ec = cc
some-IsEntry builtins speciality (Value.float x) s current es ec = cc
some-IsEntry builtins speciality (Value.str t) s current es ec = cc
some-IsEntry builtins speciality (Value.list vs) s current es ec = cc

none-IsEntry :
    (builtins : Load.Builtins) (current : Dict Value)
    → dict_of builtins (dict end) ≡ Load.Result.returns current
    → IsEntry current
unfolding dict_of
none-IsEntry builtins current ec = subst IsEntry (returns_inj ec) empty-IsEntry

pub get_object-value :
    (builtins : Load.Builtins) (d : Dict Value) (k : String)
    → get_object d k ≡ specialties_value builtins (Dict.get d k)
unfolding get_object
get_object-value builtins d k = value (Dict.get d k)
  where
    value :
        (o : Option Value)
        → (elim o [ none ↦ dict end | some v ↦ v ]) ≡ specialties_value builtins o
    value none = refl
    value (some v) = refl

pub models_inj {ℓ} : {A : Type ℓ} {a b : A} → Result.returns a ≡ returns b → a ≡ b
models_inj {a} e = ap (λ r. elim r [ returns x ↦ x | raises x ↦ a ]) e

module _ {Text : Type 0} (yaml : Yaml Text) where
  -- a user's specialty that the registry was loaded with is a dict, or none is given
  pub current-IsEntry :
      (bs old : Dict Value) (ss : Dict Specialty) (speciality : String) (current : Dict Value)
      → Distinct old
      → specialties_of (Dict.update bs old) ≡ Load.Result.returns ss
      → dict_of yaml.builtins (get_object old speciality) ≡ Load.Result.returns current
      → IsEntry current
  current-IsEntry bs old ss speciality current distinct es ec =
      elim (Option-cases (Dict.get old speciality)) [
        | inl n ↦
            none-IsEntry yaml.builtins current
              (rw (get_object-value yaml.builtins old speciality, n) at ec)
        | inr (v, e) ↦
            (let found : Dict.get (Dict.update bs old) speciality ≡ some v =
                ap (λ d. Dict.get (Dict.update bs d) speciality)
                  (sym (put-get_self old speciality v e))
                ∙ ap (λ d. Dict.get d speciality) (update-put bs old speciality v distinct)
                ∙ get-put_self (Dict.update bs old) speciality v in
              let (s, es) = specialties_of-get (Dict.update bs old) ss speciality v es found in
              some-IsEntry yaml.builtins speciality v s current es
                (rw (get_object-value yaml.builtins old speciality, e) at ec))
      ]

  -- the content of the user's file as a dict
  pub user-object :
      (file : Option Text) (user : Option Value)
      → user_value yaml file ≡ returns user
      → read_user_models_config yaml file ≡ returns (object user)
  user-object none user h = ap Result.returns (ap object (models_inj h))
  user-object (some text) user h = elim (Option-cases (yaml.safe_load text)) [
    | inl n ↦ (let k = rw n at h in cc)
    | inr (v, e) ↦ rw e (value v ∙ ap Result.returns (ap object (models_inj (rw e at h))))
  ]
    where
      value : (v : Value) → loaded yaml (some v) ≡ returns (object (some v))
      value (dict fs) = refl
      value _ = refl
