-- ===== src/Registry/Load/Laws.antt =====
-- What a loaded registry takes from the files: the parts of `load_default`, and a changed specialty.
use bubble_hub.Prelude.{
  String, ◌≡◌, refl, sym, ap, ◌∙◌, subst, true, ◌||◌, Bool-cases, inl, inr, Option, none, some, [],
  ◌∷◌, ◌==◌, string_eq, eq_iff,
}
use bubble_hub.Prelude.Dict.{Dict, get-put, get-put_self, get-remove}
use bubble_hub.Prelude.Dict
use bubble_hub.Value.{to_dict-of_dict, Value, dict, end, field, to_dict, of_dict, truthy}
use bubble_hub.Registry.{ModelRegistry}
use bubble_hub.Registry.Spec.{Specialty}
use bubble_hub.Registry.Load.{
  Result, returns, raises, ◌>>=◌, Builtins, specialties_in, specialties_of, specialty_of, models_in,
  from_dict, dict_of, specialties_value, with_models, no_override, is_in, with_specialties,
  merge_config, merge_truthy, load_default,
}

pub returns_inj {ℓ} : {A : Type ℓ} {a b : A} → Result.returns a ≡ returns b → a ≡ b
returns_inj {a} e = ap (λ r. elim r [ returns x ↦ x | raises x ↦ a ]) e

pub >>=-returns {ℓ μ} :
    {A : Type ℓ} {B : Type μ} (m : Result A) (f : A → Result B) {b : B}
    → (m >>= f) ≡ returns b
    → (a : A) × (m ≡ returns a) × (f a ≡ returns b)
>>=-returns (returns a) f h = (a, refl, h)
>>=-returns (raises e) f h = cc

specialties_of-head :
    (j : String) (w : Value) (d : Dict Value) (ss : Dict Specialty)
    → specialties_of ((j, w) ∷ d) ≡ returns ss
    → (s : Specialty) × (rest : Dict Specialty) × (specialty_of j w ≡ returns s)
      × (specialties_of d ≡ returns rest)
      × (ss ≡ (j, s) ∷ rest)
unfolding specialties_of
specialties_of-head j w d ss h =
    let (s, e, h) = >>=-returns (specialty_of j w) _ h in
    let (rest, e', h) = >>=-returns (specialties_of d) _ h in (s, rest, e, e', sym (returns_inj h))

-- an entry that is written is the specialty that it describes
pub specialties_of-put :
    (d : Dict Value) (ss : Dict Specialty) (k : String) (v : Value) (s : Specialty)
    → specialties_of d ≡ returns ss
    → specialty_of k v ≡ returns s
    → specialties_of (Dict.put d k v) ≡ returns (Dict.put ss k s)
unfolding specialties_of Dict.put
specialties_of-put [] ss k v s h e = rw (e, sym (returns_inj h)) refl
specialties_of-put ((j, w) ∷ d) ss k v s h e =
    let (t, rest, et, er, same) = specialties_of-head j w d ss h in
    elim (Bool-cases (j == k)) [
      | inl b ↦
          (let ev = subst (λ i. specialty_of i v ≡ returns s) (sym ((eq_iff j k).0 b)) e in
            rw (same, b, ev, er) refl)
      | inr b ↦ rw (same, b, et, specialties_of-put d rest k v s er e) refl
    ]

-- every entry that is found describes a specialty
pub specialties_of-get :
    (d : Dict Value) (ss : Dict Specialty) (k : String) (v : Value)
    → specialties_of d ≡ returns ss
    → Dict.get d k ≡ some v
    → (s : Specialty) × (specialty_of k v ≡ returns s)
unfolding Dict.get
specialties_of-get [] ss k v h e = cc
specialties_of-get ((j, w) ∷ d) ss k v h e =
    let (t, rest, et, er, same) = specialties_of-head j w d ss h in
    elim (Bool-cases (j == k)) [
      | inl b ↦ (
        t,
        subst (λ i. specialty_of i v ≡ returns t) ((eq_iff j k).0 b)
            (subst (λ x. specialty_of j x ≡ returns t)
              (ap (λ o. elim o [ none ↦ w | some x ↦ x ]) (rw b at e)) et),
      )
      | inr b ↦ specialties_of-get d rest k v er (rw b at e)
    ]

pub truthy-of_get :
    (d : Dict Value) (k : String) (v : Value)
    → Dict.get d k ≡ some v
    → truthy (dict (of_dict d)) ≡ true
unfolding Dict.get truthy
truthy-of_get [] k v e = cc
truthy-of_get (kv ∷ d) k v e = refl

-- `a` where it is there, else `b`
abbrev pub or_base : Option Value → Option Value → Option Value
or_base none b = b
or_base (some a) b = some a

abbrev pub object : Option Value → Dict Value
object (some (dict fs)) = to_dict fs
object _ = []

module _ (builtins : Builtins) where
  -- what a registry takes from the packaged file and from an override
  pub record Parts (base override : Dict Value) (r : ModelRegistry) : Type 0 where
    pub base_specialties : Dict Value
    pub more : Dict Value
    pub of_base :
        dict_of builtins (specialties_value builtins (Dict.get base "specialties"))
        ≡ returns base_specialties
    pub of_override :
        dict_of builtins (specialties_value builtins (Dict.get override "specialties"))
        ≡ returns more
    pub models :
        models_in builtins (or_base (Dict.get override "models") (Dict.get base "models"))
        ≡ returns r.models
    pub specialties : specialties_of (Dict.update base_specialties more) ≡ returns r.specialties

  from_dict-parts :
      (config : Dict Value) (r : ModelRegistry)
      → from_dict builtins config ≡ returns r
      → (models_in builtins (Dict.get config "models") ≡ returns r.models)
        × (specialties_in (Dict.get config "specialties") ≡ returns r.specialties)
  unfolding from_dict
  from_dict-parts config r h =
      let (ms, em, h) = >>=-returns (models_in builtins (Dict.get config "models")) _ h in
      let (ss, es, h) = >>=-returns (specialties_in (Dict.get config "specialties")) _ h in
      let e = returns_inj h in
      (em ∙ ap (λ q. Result.returns q.models) e, es ∙ ap (λ q. Result.returns q.specialties) e)

  specialties_in-dict_of :
      (o : Option Value) (ss : Dict Specialty)
      → specialties_in o ≡ returns ss
      → (bs : Dict Value) × (dict_of builtins (specialties_value builtins o) ≡ returns bs)
        × (specialties_of bs ≡ returns ss)
  unfolding dict_of specialties_of
  specialties_in-dict_of none ss h = ([], refl, h)
  specialties_in-dict_of (some (dict fs)) ss h = (to_dict fs, refl, h)
  specialties_in-dict_of (some Value.null) ss h = cc
  specialties_in-dict_of (some (Value.boolean b)) ss h = cc
  specialties_in-dict_of (some (Value.int n)) ss h = cc
  specialties_in-dict_of (some (Value.float x)) ss h = cc
  specialties_in-dict_of (some (Value.str s)) ss h = cc
  specialties_in-dict_of (some (Value.list vs)) ss h = cc

  base-Parts :
      (base : Dict Value) (r : ModelRegistry)
      → from_dict builtins base ≡ returns r
      → Parts base [] r
  unfolding Dict.get dict_of Dict.update
  base-Parts base r h =
      let (em, es) = from_dict-parts base r h in
      let (bs, eb, es) = specialties_in-dict_of (Dict.get base "specialties") r.specialties es in
      record {
        base_specialties = bs;
        more = [];
        of_base = eb;
        of_override = refl;
        models = em;
        specialties = es;
      }

  get-with_models :
      (m : Option Value) (base : Dict Value)
      → (Dict.get (with_models builtins m base) "models" ≡ or_base m (Dict.get base "models"))
        × (Dict.get (with_models builtins m base) "specialties" ≡ Dict.get base "specialties")
  get-with_models none base = (refl, refl)
  get-with_models (some m) base = (simp get-put refl, simp get-put refl)

  with_specialties-Parts :
      (base override : Dict Value) (o : Option Value) (r : ModelRegistry)
      → Dict.get override "specialties" ≡ o
      → (with_specialties builtins base o (with_models builtins (Dict.get override "models") base)
          >>= from_dict builtins)
        ≡ returns r
      → Parts base override r
  unfolding dict_of Dict.update
  with_specialties-Parts base override none r e h =
      let (gm, gs) = get-with_models (Dict.get override "models") base in
      let (em, es) = from_dict-parts _ r h in
      let (bs, eb, es) =
        specialties_in-dict_of (Dict.get base "specialties") r.specialties (rw gs at es) in
      record {
        base_specialties = bs;
        more = [];
        of_base = eb;
        of_override = rw e refl;
        models = rw gm at em;
        specialties = es;
      }
  with_specialties-Parts base override (some more) r e h =
      let (gm, gs) = get-with_models (Dict.get override "models") base in
      let (c, ec, h) =
        >>=-returns
          (with_specialties builtins base (some more)
            (with_models builtins (Dict.get override "models") base))
          _ h in
      let (bs, eb, ec) =
        >>=-returns (dict_of builtins (specialties_value builtins (Dict.get base "specialties"))) _
          ec in
      let (us, eu, ec) = >>=-returns (dict_of builtins more) _ ec in
      let (em, es) = from_dict-parts c r h in
      let ec = returns_inj ec in
      let em =
        subst (λ d. models_in builtins (Dict.get d "models") ≡ returns r.models) (sym ec) em in
      let es =
        subst (λ d. specialties_in (Dict.get d "specialties") ≡ returns r.specialties) (sym ec)
          es in
      record {
        base_specialties = bs;
        more = us;
        of_base = eb;
        of_override = rw e eu;
        models = rw (← gm) (simp get-put at em);
        specialties = rw (← to_dict-of_dict (Dict.update bs us)) (simp get-put at es);
      }

  no_override-returns :
      (base : Dict Value) (v : Value) (c : Dict Value)
      → no_override builtins base v ≡ returns c
      → c ≡ base
  no_override-returns base v c h =
      let (models, em, h) = >>=-returns (is_in "models" v) _ h in
      let (specialties, es, h) = >>=-returns (is_in "specialties" v) _ h in
      elim (Bool-cases (models || specialties)) [
        | inl t ↦ (let k = rw t at h in cc)
        | inr f ↦ sym (returns_inj (rw f at h))
      ]

  -- an override that is no dict changes nothing, if it is accepted
  not_merged :
      (base : Dict Value) (v : Value) (r : ModelRegistry)
      → merge_truthy builtins base v ≡ no_override builtins base v
      → (merge_config builtins base v >>= from_dict builtins) ≡ returns r
      → Parts base [] r
  unfolding merge_config
  not_merged base v r e h =
      let (c, ec, h) = >>=-returns (merge_config builtins base v) _ h in
      let same : c ≡ base = elim (Bool-cases (truthy v)) [
        | inl t ↦ no_override-returns base v c (rw (t, e) at ec)
        | inr f ↦ sym (returns_inj (rw f at ec))
      ] in
      base-Parts base r (subst (λ d. from_dict builtins d ≡ returns r) same h)

  merged-Parts :
      (base : Dict Value) (v : Value) (r : ModelRegistry)
      → (merge_config builtins base v >>= from_dict builtins) ≡ returns r
      → Parts base (object (some v)) r
  unfolding merge_config truthy Dict.get
  merged-Parts base (dict end) r h = base-Parts base r h
  merged-Parts base (dict (field k v fs)) r h =
      with_specialties-Parts base ((k, v) ∷ to_dict fs) _ r refl h
  merged-Parts base Value.null r h = not_merged base Value.null r refl h
  merged-Parts base (Value.boolean b) r h = not_merged base (Value.boolean b) r refl h
  merged-Parts base (Value.int n) r h = not_merged base (Value.int n) r refl h
  merged-Parts base (Value.float x) r h = not_merged base (Value.float x) r refl h
  merged-Parts base (Value.str s) r h = not_merged base (Value.str s) r refl h
  merged-Parts base (Value.list vs) r h = not_merged base (Value.list vs) r refl h

  -- A registry that is loaded with a user's file has the models of that file, or the packaged
  -- ones where it lists none, and the packaged specialties updated by the user's.
  pub load_default-Parts :
      (base : Dict Value) (user : Option Value) (r : ModelRegistry)
      → load_default builtins base user none ≡ returns r
      → Parts base (object user) r
  unfolding load_default
  load_default-Parts base none r h = base-Parts base r h
  load_default-Parts base (some v) r h =
      let (c, ec, h) = >>=-returns (merge_config builtins base v) _ h in
      merged-Parts base v r (rw ec h)

  -- the converse, for a user's file that is a dict with specialties
  pub load_default-of_parts :
      (base override new bs : Dict Value) (r : ModelRegistry)
      → Dict.get override "specialties" ≡ some (dict (of_dict new))
      → dict_of builtins (specialties_value builtins (Dict.get base "specialties")) ≡ returns bs
      → models_in builtins (or_base (Dict.get override "models") (Dict.get base "models"))
        ≡ returns r.models
      → specialties_of (Dict.update bs new) ≡ returns r.specialties
      → load_default builtins base (some (dict (of_dict override))) none ≡ returns r
  unfolding load_default merge_config from_dict dict_of
  load_default-of_parts base override new bs r e eb em es =
      let (gm, gs) = get-with_models (Dict.get override "models") base in
      rw
        (
          truthy-of_get override "specialties" (dict (of_dict new)) e,
          to_dict-of_dict override,
          e,
          eb,
          to_dict-of_dict new,
        )
        (simp get-put (rw (gm, em, to_dict-of_dict (Dict.update bs new), es) refl))
