-- ===== src/Models/Done.antt =====
-- A setup of the base model that reports success leaves a chosen model.
use mathlib.Core.List.{Memᴰ}
use mathlib.Core.List.Memᴰ
use bubble_hub.Prelude.{
  ℕ, zero, suc, String, ◌≡◌, refl, sym, ap, ◌∙◌, subst, Bool, true, false, not, ◌||◌, Bool-cases,
  inl, inr, Option, none, some, Option-cases, List, [], ◌∷◌, ◌==◌, string_eq, mem_of_mem-filter,
  get_elem?,
}
use bubble_hub.Prelude.Dict.{Dict}
use bubble_hub.Prelude.Dict
use bubble_hub.Prelude.Text.{strip}
use bubble_hub.Value.{Value}
use bubble_hub.Prompt.{choose_option}
use bubble_hub.Prompt
use bubble_hub.Registry.{ModelRegistry, Query, resolve_candidates}
use bubble_hub.Registry
use bubble_hub.Registry.Spec.{ModelSpec, Specialty}
use bubble_hub.Registry.Resolution.{resolve_candidates-exact}
use bubble_hub.Registry.Choice.{resolve_candidates-Pinned}
use bubble_hub.Models.{
  Yaml, Result, returns, raises, select_in, write_checked, select_among, matching, selected,
  Selection, needs_base_model_setup, user_chose_base_model, write_speciality_model_override,
}
use bubble_hub.Models.Setup.{
  Machine, query_for, candidates_for, of_registry, resolve_setup_candidates, pick, written,
  prompt_among, prompt_base_model_setup, set_up, done, run_install_base_model_setup, text_at,
}
use bubble_hub.Models.Laws.{
  IsWritten, IsWritten-chosen, and_then-returns, write_speciality_model_override-IsWritten,
}

-- the names of the models are not blank
abbrev pub AreNamed : List ModelSpec → Type 0
AreNamed models = (m : ModelSpec) → Memᴰ m models → (strip m.name == "") ≡ false

some_inj : {a b : ModelSpec} → Option.some a ≡ some b → a ≡ b
some_inj {a} e = ap (λ o. elim o [ some x ↦ x | none ↦ a ]) e

ok_inj : {a b : List ModelSpec} → Registry.Result.ok a ≡ Registry.Result.ok b → a ≡ b
ok_inj {a} e = ap (λ r. elim r [ Registry.Result.ok x ↦ x | Registry.Result.key_error x ↦ a ]) e

returned_inj {ℓ} : {A : Type ℓ} {a b : A} → Result.returns a ≡ returns b → a ≡ b
returned_inj {a} e = ap (λ r. elim r [ returns x ↦ x | raises x ↦ a ]) e

only : {a b : ModelSpec} → Memᴰ a (b ∷ []) → a ≡ b
only (Memᴰ.head e) = e
only (Memᴰ.tail m) = absurd (Memᴰ.not-nil m)

mem_of_get_elem :
    (xs : List ModelSpec) (i : ℕ) (m : ModelSpec) → get_elem? xs i ≡ some m → Memᴰ m xs
mem_of_get_elem [] i m h = cc
mem_of_get_elem (x ∷ xs) zero m h = Memᴰ.head (sym (some_inj h))
mem_of_get_elem (x ∷ xs) (suc i) m h = Memᴰ.tail (mem_of_get_elem xs i m h)

of_registry_inv :
    (r : Registry.Result (List ModelSpec)) (found : List ModelSpec)
    → of_registry r ≡ returns found
    → r ≡ Registry.Result.ok found
of_registry_inv (Registry.Result.ok x) found h = ap Registry.Result.ok (returned_inj h)
of_registry_inv (Registry.Result.key_error e) found h = cc

not-false : (b : Bool) → not b ≡ false → b ≡ true
not-false true h = refl
not-false false h = cc

-- what is resolved is in the registry
resolve_candidates-mem :
    (r : ModelRegistry) (name : String) (q : Query) (s : Specialty) (found : List ModelSpec)
    → Dict.get r.specialties name ≡ some s
    → resolve_candidates r name q ≡ Registry.Result.ok found
    → (m : ModelSpec) → Memᴰ m found
    → Memᴰ m r.models
resolve_candidates-mem r name q s found e h m k = elim (Option-cases s.model) [
  | inl n ↦
      (let (all, ok_all, exact, sorted) = resolve_candidates-exact r name q s e n in
        ((exact m).0 (subst (Memᴰ m) (ok_inj (sym h ∙ ok_all)) k)).0)
  | inr (pinned, p) ↦
      (let (one, single, pin) = resolve_candidates-Pinned r name q s pinned found e p h in
        subst (λ x. Memᴰ x r.models) (sym (only (subst (Memᴰ m) single k))) pin.0)
]

module _ {Text : Type 0} (yaml : Yaml Text)
    (reads : (v : Value) → yaml.safe_load (yaml.safe_dump v) ≡ some v) where
  abbrev pub Chosen : String → Result (Selection Text) → Type 0
  Chosen speciality r =
      (s : Selection Text)
      → r ≡ returns s
      → user_chose_base_model yaml speciality s.file ≡ returns true

  selected-Chosen :
      (file : Option Text) (speciality : String) (m : ModelSpec) (r : Result Text)
      → (strip m.name == "") ≡ false
      → ((text : Text) → r ≡ returns text → IsWritten yaml file speciality m.name m.capability text)
      → Chosen speciality (selected yaml m.name r)
  selected-Chosen file speciality m (raises e) n w s h = cc
  selected-Chosen file speciality m (returns text) n w s h =
      subst (λ (x : Selection Text). user_chose_base_model yaml speciality x.file ≡ returns true)
        (returned_inj h)
        (IsWritten-chosen yaml file speciality m.name m.capability text (w text refl) n)

  write-Chosen :
      (file : Option Text) (speciality : String) (m : ModelSpec)
      → (strip m.name == "") ≡ false
      → Chosen speciality (
          selected yaml m.name
            (write_speciality_model_override yaml file speciality m.name m.capability))
  write-Chosen file speciality m n =
      selected-Chosen file speciality m
        (write_speciality_model_override yaml file speciality m.name m.capability) n
        (write_speciality_model_override-IsWritten yaml reads file speciality m.name m.capability)

  write_checked-Chosen :
      (file : Option Text) (speciality model_name : String) (m : ModelSpec) (o : Option Specialty)
      → (strip m.name == "") ≡ false
      → Chosen speciality (write_checked yaml file speciality model_name m o)
  write_checked-Chosen file speciality model_name m none n = λ s h. cc
  write_checked-Chosen file speciality model_name m (some specialty) n =
      elim (Bool-cases (m.capability == specialty.capability)) [
        | inl t ↦ rw t (write-Chosen file speciality m n)
        | inr f ↦ rw f (λ s h. cc)
      ]

  select_among-Chosen :
      (registry : ModelRegistry) (file : Option Text) (speciality model_name : String)
      (models : List ModelSpec)
      → AreNamed models
      → Chosen speciality (select_among yaml registry file speciality model_name models)
  select_among-Chosen registry file speciality model_name [] n = λ s h. cc
  select_among-Chosen registry file speciality model_name (m ∷ models) n =
      write_checked-Chosen file speciality model_name m (Dict.get registry.specialties speciality)
        (n m (Memᴰ.head refl))

  pub select_in-Chosen :
      (registry : ModelRegistry) (file : Option Text) (speciality model_name : String)
      → AreNamed registry.models
      → Chosen speciality (select_in yaml registry file speciality model_name)
  unfolding select_in
  select_in-Chosen registry file speciality model_name n =
      select_among-Chosen registry file speciality model_name (matching registry model_name)
        (λ m k. n m (mem_of_mem-filter _ registry.models k))

  module _ (machine : Machine Text) (named : AreNamed machine.registry.models) where
    written-Chosen :
        (speciality : String) (o : Option ModelSpec)
        → ((m : ModelSpec) → o ≡ some m → (strip m.name == "") ≡ false)
        → Chosen speciality (written yaml machine speciality o)
    written-Chosen speciality none n = λ s h. cc
    written-Chosen speciality (some m) n = write-Chosen machine.file speciality m (n m refl)

    pick-Chosen :
        (speciality : String) (candidates : List ModelSpec) (r : Prompt.Result)
        → AreNamed candidates
        → Chosen speciality (pick yaml machine speciality candidates r)
    pick-Chosen speciality candidates (Prompt.Result.chosen i) n =
        written-Chosen speciality (get_elem? candidates i)
          (λ m e. n m (mem_of_get_elem candidates i m e))
    pick-Chosen speciality candidates Prompt.Result.no_options n = λ s h. cc
    pick-Chosen speciality candidates Prompt.Result.default_out_of_range n = λ s h. cc

    prompt_among-Chosen :
        (speciality : String) (candidates : List ModelSpec)
        → AreNamed candidates
        → Chosen speciality (prompt_among yaml machine speciality candidates)
    prompt_among-Chosen speciality [] n = λ s h. cc
    prompt_among-Chosen speciality (first ∷ rest) n = pick-Chosen speciality (first ∷ rest) _ n

    candidates_for-AreNamed :
        (speciality : String) (o : Option Specialty) (found : List ModelSpec)
        → Dict.get machine.registry.specialties speciality ≡ o
        → candidates_for machine.registry machine.hardware speciality o ≡ returns found
        → AreNamed found
    candidates_for-AreNamed speciality none found e h = cc
    candidates_for-AreNamed speciality (some s) found e h = λ m k. named m (
        resolve_candidates-mem machine.registry speciality
          (query_for machine.hardware (some s.capability)) s found e (of_registry_inv _ found h) m
          k)

    prompt_base_model_setup-Chosen :
        (speciality : String) → Chosen speciality (prompt_base_model_setup yaml machine speciality)
    unfolding prompt_base_model_setup resolve_setup_candidates
    prompt_base_model_setup-Chosen speciality s h =
        let (found, e, k) =
          and_then-returns (resolve_setup_candidates machine.registry machine.hardware speciality) _
            s h in
        prompt_among-Chosen speciality found (candidates_for-AreNamed speciality _ found refl e) s k

    done-Chosen :
        (speciality : String) (r : Result (Selection Text)) (file : Option Text)
        → Chosen speciality r
        → done yaml machine r ≡ returns (true, file)
        → user_chose_base_model yaml speciality file ≡ returns true
    done-Chosen speciality (raises e) file c h = cc
    done-Chosen speciality (returns s) file c h =
        subst (λ f. user_chose_base_model yaml speciality f ≡ returns true)
          (ap (λ o. o.1) (returned_inj h)) (c s refl)

    set_up-Chosen :
        (speciality : String) (needed : Bool) (file : Option Text)
        → (needed ≡ false → user_chose_base_model yaml speciality machine.file ≡ returns true)
        → set_up yaml machine speciality needed ≡ returns (true, file)
        → user_chose_base_model yaml speciality file ≡ returns true
    set_up-Chosen speciality false file c h =
        subst (λ f. user_chose_base_model yaml speciality f ≡ returns true)
          (ap (λ o. o.1) (returned_inj h)) (c refl)
    set_up-Chosen speciality true file c h =
        let explicit = strip (text_at machine.env "BUBBLEHUB_BASE_MODEL") in
        elim (Bool-cases (explicit == "")) [
          | inr f ↦
              done-Chosen speciality _ file
                (select_in-Chosen machine.registry machine.file speciality explicit named)
                (rw f at h)
          | inl t ↦
              elim (Bool-cases (
                strip (text_at machine.env "BUBBLEHUB_SKIP_MODEL_SETUP") == "1"
                || not machine.is_terminal)) [
                  | inl u ↦ (let k = ap (λ o. o.0) (returned_inj (rw (t, u) at h)) in cc)
                  | inr g ↦
                      done-Chosen speciality _ file (prompt_base_model_setup-Chosen speciality)
                        (rw (t, g) at h)
                ]
        ]

    -- If the YAML library reads back what it dumps and no model's name is blank, then after a setup
    -- that reports success the user's file chooses a base model, whether it was chosen before, named
    -- by the environment or picked from the menu.
    pub run_install_base_model_setup-Chosen :
        (speciality : String) (file : Option Text)
        → run_install_base_model_setup yaml machine speciality ≡ returns (true, file)
        → user_chose_base_model yaml speciality file ≡ returns true
    unfolding run_install_base_model_setup needs_base_model_setup
    run_install_base_model_setup-Chosen speciality file h =
        let (needed, e, k) =
          and_then-returns (needs_base_model_setup yaml speciality machine.file) _ (true, file) h in
        let (chosen, c, n) =
          and_then-returns (user_chose_base_model yaml speciality machine.file) _ needed e in
        set_up-Chosen speciality needed file
          (λ f. c ∙ ap Result.returns (not-false chosen (returned_inj n ∙ f))) k
