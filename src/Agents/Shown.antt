-- ===== src/Agents/Shown.antt =====
-- What `known_agent_records` shows: the agents that do not run.
use mathlib.Core.List.{Memᴰ}
use bubble_hub.Prelude.{
  String, ◌≡◌, refl, sym, ap, ◌∙◌, subst, ◌⊎◌, inl, inr, Bool, true, false, ◌&&◌, Bool-cases,
  Option, none, some, List, [], ◌∷◌, map, ◌==◌, string_eq, if◌then◌else◌, is_empty, arith,
}
use bubble_hub.Prelude.Dict.{Dict, get-put, mem_of_get, get_of_mem}
use bubble_hub.Prelude.Dict
use bubble_hub.Prelude.Sort.{
  IsSorted, IsLinear, sorted-IsSorted, mem-sorted_of_mem, mem_of_mem-sorted,
}
use bubble_hub.Prelude.TextOrder.{leb_text-total, leb_text_trans}
use bubble_hub.Value.{Value, boolean, str, list, of_list, get, truthy}
use bubble_hub.Agents.{State, is_valid_agent_id, read_agent_metadata}
use bubble_hub.Agents.Views.{
  enrich_agent_view, described, stopped_agent, stopped_agent_record, is_stopped, from_metadata,
  from_manifest, has_metadata, sort_key, le_record, records_of, known_agent_records, with_status,
  with_name, with_text, is_running, name_in, name_or,
}
use bubble_hub.Agents.Known.{names, is_among, record_of, get-records_of, records_of-Distinct}

-- a view of an agent that does not run: it can be deleted, and not be stopped
pub record Describes (agent_id : String) (r : Dict Value) : Type 0 where
  pub identified : Dict.get r "agent_id" ≡ some (str agent_id)
  pub running : Dict.get r "running" ≡ some (boolean false)
  pub status : Dict.get r "status" ≡ some (str "stopped")
  pub actions : Dict.get r "actions" ≡ some (list (of_list (str "delete" ∷ [])))

with_name-get :
    (o : Option String) (view : Dict Value) (k : String)
    → ("name" == k) ≡ false
    → Dict.get (with_name o view) k ≡ Dict.get view k
with_name-get none view k n = refl
with_name-get (some name) view k n = get-put view "name" k (str name) ∙ (rw n refl)

with_text-get :
    (repr : Value → String) (metadata : Dict Value) (j : String) (view : Dict Value) (k : String)
    → (j == k) ≡ false
    → Dict.get (with_text repr metadata j view) k ≡ Dict.get view k
with_text-get repr metadata j view k n = elim (Bool-cases (truthy (get metadata j))) [
  | inl t ↦ rw t (get-put view j k _ ∙ (rw n refl))
  | inr f ↦ rw f refl
]

described-get :
    (repr : Value → String) (metadata view : Dict Value) (agent_id k : String)
    → ("name" == k) ≡ false
    → ("root_dir" == k) ≡ false
    → ("workdir" == k) ≡ false
    → ("display_name" == k) ≡ false
    → Dict.get (described repr metadata view agent_id) k ≡ Dict.get view k
unfolding described
described-get repr metadata view agent_id k n r w d =
    let named = with_name (name_in repr metadata) view in
    let rooted = with_text repr metadata "root_dir" named in
    get-put (with_text repr metadata "workdir" rooted) "display_name" k
      (str (name_or (name_in repr metadata) agent_id))
    ∙ ap
        (λ b.
          if b
          then some (str (name_or (name_in repr metadata) agent_id))
          else Dict.get (with_text repr metadata "workdir" rooted) k)
        d
    ∙ with_text-get repr metadata "workdir" rooted k w
    ∙ with_text-get repr metadata "root_dir" named k r
    ∙ with_name-get (name_in repr metadata) view k n

with_status-Describes :
    (agent_id : String) (view : Dict Value)
    → Dict.get view "agent_id" ≡ some (str agent_id)
    → Describes agent_id (with_status false view)
with_status-Describes agent_id view e = record {
  identified = simp get-put e;
  running = simp get-put refl;
  status = simp get-put refl;
  actions = simp get-put refl;
}

put-Describes :
    (agent_id : String) (view : Dict Value) (k : String) (v : Value)
    → (k == "agent_id") ≡ false
    → (k == "running") ≡ false
    → (k == "status") ≡ false
    → (k == "actions") ≡ false
    → Describes agent_id view
    → Describes agent_id (Dict.put view k v)
put-Describes agent_id view k v a r s c d = record {
  identified = simp get-put (rw a d.identified);
  running = simp get-put (rw r d.running);
  status = simp get-put (rw s d.status);
  actions = simp get-put (rw c d.actions);
}

some_inj : {a b : Dict Value} → Option.some a ≡ some b → a ≡ b
some_inj {a} e = ap (λ o. elim o [ some x ↦ x | none ↦ a ]) e

module _ (repr : Value → String) (leads : String → Bool) (s : State) where
  enrich-Describes :
      (agent_id : String) (metadata : Dict Value)
      → Describes agent_id (enrich_agent_view repr s (stopped_agent repr agent_id metadata))
  unfolding enrich_agent_view
  enrich-Describes agent_id metadata =
      let agent = stopped_agent repr agent_id metadata in
      let view = described repr (read_agent_metadata s agent_id) agent agent_id in
      let stopped : is_running view ≡ false =
        rw
          (
            described-get repr (read_agent_metadata s agent_id) agent agent_id "running" refl refl
                refl refl,
            is_running,
          )
          refl in
      rw stopped (
        with_status-Describes agent_id view (
          described-get repr (read_agent_metadata s agent_id) agent agent_id "agent_id" refl refl
            refl refl))

  stopped_agent_record-Describes :
      (agent_id : String) (metadata : Dict Value)
      → Describes agent_id (stopped_agent_record repr leads s agent_id metadata)
  unfolding stopped_agent_record
  stopped_agent_record-Describes agent_id metadata =
      put-Describes agent_id _ "has_persistent_sandbox" _ refl refl refl refl (
        put-Describes agent_id _ "has_manifest" _ refl refl refl refl
          (enrich-Describes agent_id metadata))

module _ (repr : Value → String) (leads : String → Bool) (s : State) (running : List String) where
  -- an agent that does not run, with metadata that are not empty or with an access manifest
  pub record IsListed (agent_id : String) : Type 0 where
    pub valid : is_valid_agent_id agent_id ≡ true
    pub not_running : is_among agent_id running ≡ false
    pub known :
        ((is_among agent_id (names s.metadata) ≡ true)
          × (is_empty (read_agent_metadata s agent_id) ≡ false))
        ⊎ (is_among agent_id (names s.manifests) ≡ true)

  is_stopped-parts :
      (agent_id : String)
      → is_stopped repr leads s running agent_id ≡ true
      → (is_valid_agent_id agent_id ≡ true) × (is_among agent_id running ≡ false)
  is_stopped-parts agent_id h = ground arith

  record_of-IsListed :
      (agent_id : String) (r : Dict Value)
      → record_of repr leads s running agent_id ≡ some r
      → IsListed agent_id × Describes agent_id r
  record_of-IsListed agent_id r h =
      elim (Bool-cases
        (is_among agent_id (names s.metadata) && has_metadata repr leads s running agent_id)) [
          | inl t ↦ (
            record {
              valid = ground arith;
              not_running = ground arith;
              known = inl (ground arith, ground arith);
            },
            subst (Describes agent_id) (some_inj (rw t at h)) (
                stopped_agent_record-Describes repr leads s agent_id
                  (read_agent_metadata s agent_id)),
          )
          | inr f ↦
              elim (Bool-cases (
                is_among agent_id (names s.manifests)
                && is_stopped repr leads s running agent_id)) [
                  | inl t ↦ (
                    record {
                      valid = ground arith;
                      not_running = ground arith;
                      known = inr (ground arith);
                    },
                    subst (Describes agent_id) (some_inj (rw (f, t) at h)) (
                        stopped_agent_record-Describes repr leads s agent_id
                          (("agent_id", str agent_id) ∷ [])),
                  )
                  | inr g ↦ (let k = rw (f, g) at h in cc)
                ]
        ]

  listed-record :
      (agent_id : String)
      → IsListed agent_id
      → (r : Dict Value) × (record_of repr leads s running agent_id ≡ some r)
  listed-record agent_id i =
      elim (Bool-cases
        (is_among agent_id (names s.metadata) && has_metadata repr leads s running agent_id)) [
          | inl t ↦ (from_metadata repr leads s agent_id, rw t refl)
          | inr f ↦
              elim (Bool-cases (
                is_among agent_id (names s.manifests)
                && is_stopped repr leads s running agent_id)) [
                  | inl t ↦ (from_manifest repr leads s agent_id, rw (f, t) refl)
                  | inr g ↦ absurd (neither agent_id i f g)
                ]
        ]
    where
      neither :
          (agent_id : String)
          → IsListed agent_id
          → (is_among agent_id (names s.metadata) && has_metadata repr leads s running agent_id)
            ≡ false
          → (is_among agent_id (names s.manifests) && is_stopped repr leads s running agent_id)
            ≡ false
          → ⊥
      neither agent_id i f g = ground arith

  le_record-IsLinear : IsLinear (le_record repr leads s)
  le_record-IsLinear = record {
    total = λ a b. leb_text-total (sort_key repr leads s a) (sort_key repr leads s b);
    trans = λ a b c.
        leb_text_trans (sort_key repr leads s a) (sort_key repr leads s b)
          (sort_key repr leads s c);
  }

  -- The records that are shown beside the running agents are sorted by their display names. Each is
  -- the view of a stopped agent, with a valid id, that is not among the running ones and has
  -- metadata or an access manifest; and every such agent has a record.
  pub known_agent_records-exact :
      IsSorted (le_record repr leads s) (known_agent_records repr leads s running)
      × ((r : Dict Value)
          → Memᴰ r (known_agent_records repr leads s running)
          → (agent_id : String) × IsListed agent_id × Describes agent_id r)
      × ((agent_id : String)
          → IsListed agent_id
          → (r : Dict Value) × Memᴰ r (known_agent_records repr leads s running)
            × Describes agent_id r)
  unfolding known_agent_records
  known_agent_records-exact =
      let all = records_of repr leads s running in
      (
        sorted-IsSorted (le_record repr leads s) le_record-IsLinear (map (λ kv. kv.1) all),
        λ r m.
            (let (agent_id, e) =
                get_of_mem all r (records_of-Distinct repr leads s running)
                  (mem_of_mem-sorted (le_record repr leads s) (map (λ kv. kv.1) all) m) in
              let (i, d) =
                record_of-IsListed agent_id r
                  (sym (get-records_of repr leads s running agent_id) ∙ e) in
              (agent_id, i, d)),
        λ agent_id i.
            (let (r, e) = listed-record agent_id i in
              let here =
                mem_of_get all agent_id r (get-records_of repr leads s running agent_id ∙ e) in
              (
                r,
                mem-sorted_of_mem (le_record repr leads s) here,
                (record_of-IsListed agent_id r e).1,
              )),
      )
