-- ===== src/Agents/Known.antt =====
-- Which agents `known_agent_records` shows, and what it says of them.
use bubble_hub.Prelude.{
  String, ◌≡◌, refl, sym, ap, ◌∙◌, subst, inl, inr, Bool, true, false, not, ◌&&◌, ◌||◌, Bool-cases,
  Option, none, some, List, [], ◌∷◌, map, ◌==◌, string_eq, if◌then◌else◌, any, eq_iff, arith,
}
use bubble_hub.Prelude.Dict.{
  Dict, Distinct, Distinct-put, get-put, get-put_self, mem_of_get, get_of_mem,
}
use bubble_hub.Prelude.Dict
use bubble_hub.Value.{Value}
use bubble_hub.Agents.{State}
use bubble_hub.Agents.Views.{
  is_stopped, from_metadata, from_manifest, has_metadata, with_metadata, with_manifests, records_of,
}

abbrev pub names {ℓ} : {V : Type ℓ} → Dict V → List String
names d = map (λ kv. kv.0) d

abbrev pub is_among : String → List String → Bool
is_among name all = any (λ other. other == name) all

-- the first that is there
abbrev first {ℓ} : {V : Type ℓ} → Option V → Option V → Option V
first none b = b
first (some v) b = some v

module _ {ℓ} {V : Type ℓ} where
  get-put_if :
      (p : String → Bool) (f : String → V) (d : Dict V) (i j : String)
      → Dict.get (if p i then Dict.put d i (f i) else d) j
        ≡ (if (i == j) && p j then some (f j) else Dict.get d j)
  get-put_if p f d i j = elim (Bool-cases (i == j)) [
    | inl t ↦
        subst
          (λ k.
            Dict.get (if p k then Dict.put d k (f k) else d) j
            ≡ (if (k == j) && p j then some (f j) else Dict.get d j))
          (sym ((eq_iff i j).0 t)) (here (p j) ((eq_iff j j).1 refl))
    | inr e ↦ rw e (there (p i) e)
  ]
    where
      here :
          (b : Bool)
          → (j == j) ≡ true
          → Dict.get (if b then Dict.put d j (f j) else d) j
            ≡ (if (j == j) && b then some (f j) else Dict.get d j)
      here true e = rw e (get-put_self d j (f j))
      here false e = rw e refl

      there :
          (b : Bool)
          → (i == j) ≡ false
          → Dict.get (if b then Dict.put d i (f i) else d) j ≡ Dict.get d j
      there true e = get-put d i j (f i) ∙ (rw e refl)
      there false e = refl

  merge_tests :
      (a b h : Bool) (x y : Option V)
      → (if b && h then x else (if a && h then x else y)) ≡ (if (a || b) && h then x else y)
  merge_tests a b h x y = ground arith

abbrev is_there {ℓ} : {V : Type ℓ} → Option V → Bool
is_there none = false
is_there (some v) = true

merge_found {ℓ} :
    {V : Type ℓ} (a b h : Bool) (x : V) (o : Option V)
    → first (if a && (h && not (is_there o)) then some x else o) (if b && h then some x else none)
      ≡ first o (if (a || b) && h then some x else none)
merge_found true true true x none = refl
merge_found true true false x none = refl
merge_found true false true x none = refl
merge_found true false false x none = refl
merge_found false b h x none = refl
merge_found true true true x (some v) = refl
merge_found true true false x (some v) = refl
merge_found true false true x (some v) = refl
merge_found true false false x (some v) = refl
merge_found false b h x (some v) = refl

module _ (repr : Value → String) (leads : String → Bool) (s : State) (running : List String) where
  get-with_metadata :
      (records : Dict (Dict Value)) (ids : List String) (j : String)
      → Dict.get (with_metadata repr leads s running records ids) j ≡ (
          if is_among j ids && has_metadata repr leads s running j
          then some (from_metadata repr leads s j)
          else Dict.get records j)
  unfolding with_metadata any
  get-with_metadata records [] j = refl
  get-with_metadata records (i ∷ ids) j =
      let p : String → Bool = has_metadata repr leads s running in
      let f : String → Dict Value = from_metadata repr leads s in
      get-with_metadata (if p i then Dict.put records i (f i) else records) ids j
      ∙ ap (λ o. if is_among j ids && p j then some (f j) else o) (get-put_if p f records i j)
      ∙ merge_tests (i == j) (is_among j ids) (p j) (some (f j)) (Dict.get records j)

  get-with_manifests :
      (records : Dict (Dict Value)) (ids : List String) (j : String)
      → Dict.get (with_manifests repr leads s running records ids) j
        ≡ first (Dict.get records j) (
            if is_among j ids && is_stopped repr leads s running j
            then some (from_manifest repr leads s j)
            else none)
  unfolding with_manifests any
  get-with_manifests records [] j = none_first (Dict.get records j)
    where
      none_first : (o : Option (Dict Value)) → o ≡ first o none
      none_first none = refl
      none_first (some r) = refl
  get-with_manifests records (i ∷ ids) j =
      let q : String → Bool = is_stopped repr leads s running in
      let p : String → Bool = λ k. q k && not (is_there (Dict.get records k)) in
      let f : String → Dict Value = from_manifest repr leads s in
      get-with_manifests (if p i then Dict.put records i (f i) else records) ids j
      ∙ ap (λ o. first o (if is_among j ids && q j then some (f j) else none))
          (get-put_if p f records i j)
      ∙ merge_found (i == j) (is_among j ids) (q j) (f j) (Dict.get records j)

  -- the record that is shown of an agent
  abbrev pub record_of : String → Option (Dict Value)
  record_of agent_id =
      first
        (if is_among agent_id (names s.metadata) && has_metadata repr leads s running agent_id
          then some (from_metadata repr leads s agent_id)
          else none)
        (if is_among agent_id (names s.manifests) && is_stopped repr leads s running agent_id
          then some (from_manifest repr leads s agent_id)
          else none)

  pub get-records_of : (j : String) → Dict.get (records_of repr leads s running) j ≡ record_of j
  unfolding records_of Dict.get
  get-records_of j =
      get-with_manifests (with_metadata repr leads s running [] (names s.metadata))
        (names s.manifests) j
      ∙ ap
          (λ o. first o (
            if is_among j (names s.manifests) && is_stopped repr leads s running j
            then some (from_manifest repr leads s j)
            else none))
          (get-with_metadata [] (names s.metadata) j)

  with_metadata-Distinct :
      (records : Dict (Dict Value)) (ids : List String)
      → Distinct records
      → Distinct (with_metadata repr leads s running records ids)
  unfolding with_metadata
  with_metadata-Distinct records [] h = h
  with_metadata-Distinct records (i ∷ ids) h =
      elim (Bool-cases (has_metadata repr leads s running i)) [
        | inl t ↦ rw t (
            with_metadata-Distinct (Dict.put records i (from_metadata repr leads s i)) ids
              (Distinct-put records i _ h))
        | inr f ↦ rw f (with_metadata-Distinct records ids h)
      ]

  with_manifests-Distinct :
      (records : Dict (Dict Value)) (ids : List String)
      → Distinct records
      → Distinct (with_manifests repr leads s running records ids)
  unfolding with_manifests
  with_manifests-Distinct records [] h = h
  with_manifests-Distinct records (i ∷ ids) h =
      elim (Bool-cases (is_stopped repr leads s running i && not (is_there (Dict.get records i)))) [
        | inl t ↦ rw t (
            with_manifests-Distinct (Dict.put records i (from_manifest repr leads s i)) ids
              (Distinct-put records i _ h))
        | inr f ↦ rw f (with_manifests-Distinct records ids h)
      ]

  pub records_of-Distinct : Distinct (records_of repr leads s running)
  unfolding records_of
  records_of-Distinct =
      with_manifests-Distinct (with_metadata repr leads s running [] (names s.metadata))
        (names s.manifests) (with_metadata-Distinct [] (names s.metadata) tt)
