-- ===== src/Telemetry/Views.antt =====
-- What the views of agents and models say of the scheduler's items: `_agent_view` and `_model_view`
-- of bubblehub/app/telemetry.py.
use bubble_hub.Prelude.{
  String, ◌≡◌, ◌≢◌, refl, ap, ◌∙◌, subst, Bool, Bool-cases, inl, inr, true, Option, none, some,
  List, [], ◌∷◌, All, if◌then◌else◌, string_eq,
}
use bubble_hub.Prelude.Dict.{Dict, get-put, get-put_self, get-put_other, differ}
use bubble_hub.Prelude.Dict
use bubble_hub.Prelude.Int.{ℤ, pos}
use bubble_hub.Value.{Value, boolean, int, str, list, of_list, get, truthy, ◌or◌, str_of}
use bubble_hub.Agents.{State, Result, ok, raise, read_agent_metadata}
use bubble_hub.Agents.Views.{
  enrich_agent_view, with_status, text_at, described, is_running, with_name, with_text, name_in,
  name_or,
}
use bubble_hub.Telemetry.{◌>>=◌, int_at, Floats, map_results, measured, agent_view, model_view}
use bubble_hub.Telemetry.Proc.{ProcFiles, Metrics, process_metrics, rss_bytes}

pub ok_inj {ℓ} : {A : Type ℓ} {a b : A} → Result.ok a ≡ ok b → a ≡ b
ok_inj {a} e = ap (λ r. elim r [ ok x ↦ x | raise x ↦ a ]) e

pub >>=-ok {ℓ μ} :
    {A : Type ℓ} {B : Type μ} (first : Result A) (next : A → Result B) {out : B}
    → (first >>= next) ≡ ok out
    → (a : A) × (first ≡ ok a) × (next a ≡ ok out)
>>=-ok (ok a) next h = (a, refl, h)
>>=-ok (raise e) next h = cc

-- the items and their views go together, one by one and in order
pub data Each (R : Dict Value → Dict Value → Type 0)
    : List (Dict Value) → List (Dict Value) → Type 0 where
  end : Each R [] []
  more :
      (item view : Dict Value) (items views : List (Dict Value))
      → R item view
      → Each R items views
      → Each R (item ∷ items) (view ∷ views)

pub map_results-Each :
    (R : Dict Value → Dict Value → Type 0) (f : Dict Value → Result (Dict Value))
    → ((item view : Dict Value) → f item ≡ ok view → R item view)
    → (items views : List (Dict Value)) → map_results f items ≡ ok views
    → Each R items views
unfolding map_results
map_results-Each R f r [] views h = subst (Each R []) (ok_inj h) end
map_results-Each R f r (item ∷ items) views h =
    let (view, ev, h) = >>=-ok (f item) _ h in
    let (rest, er, h) = >>=-ok (map_results f items) _ h in
    subst (Each R (item ∷ items)) (ok_inj h)
      (more item view items rest (r item view ev) (map_results-Each R f r items rest er))

with_name-kept :
    (name : Option String) (view : Dict Value) (k : String)
    → "name" ≢ k
    → Dict.get (with_name name view) k ≡ Dict.get view k
with_name-kept none view k n = refl
with_name-kept (some name) view k n = get-put_other view "name" k (str name) n

with_text-kept :
    (repr : Value → String) (metadata : Dict Value) (j : String) (view : Dict Value) (k : String)
    → j ≢ k
    → Dict.get (with_text repr metadata j view) k ≡ Dict.get view k
with_text-kept repr metadata j view k n = elim (Bool-cases (truthy (get metadata j))) [
  | inl t ↦ rw t (get-put_other view j k (str (str_of repr (get metadata j))) n)
  | inr f ↦ rw f refl
]

-- what the metadata add to a view leaves all else as it was
described-kept :
    (repr : Value → String) (metadata agent : Dict Value) (agent_id k : String)
    → "name" ≢ k
    → "root_dir" ≢ k
    → "workdir" ≢ k
    → "display_name" ≢ k
    → Dict.get (described repr metadata agent agent_id) k ≡ Dict.get agent k
unfolding described
described-kept repr metadata agent agent_id k n r w d =
    let name = name_in repr metadata in
    let named = with_name name agent in
    let rooted = with_text repr metadata "root_dir" named in
    get-put_other (with_text repr metadata "workdir" rooted) "display_name" k
      (str (name_or name agent_id)) d
    ∙ with_text-kept repr metadata "workdir" rooted k w
    ∙ with_text-kept repr metadata "root_dir" named k r
    ∙ with_name-kept name agent k n

-- what a view says of an agent: whether it runs, and what can be done with it
pub record Says (runs : Bool) (view : Dict Value) : Type 0 where
  pub running : Dict.get view "running" ≡ some (boolean runs)
  pub status : Dict.get view "status" ≡ some (str (if runs then "running" else "stopped"))
  pub actions :
      Dict.get view "actions"
      ≡ some (list (of_list (if runs then str "stop" ∷ str "delete" ∷ [] else str "delete" ∷ [])))

with_status-Says : (b : Bool) (view : Dict Value) → Says b (with_status b view)
with_status-Says b view = record {
  running = simp get-put refl;
  status = simp get-put refl;
  actions = simp get-put refl;
}

with_status-kept :
    (b : Bool) (view : Dict Value) (k : String)
    → "running" ≢ k
    → "status" ≢ k
    → "status_color" ≢ k
    → "actions" ≢ k
    → Dict.get (with_status b view) k ≡ Dict.get view k
with_status-kept b view k r s c a =
    get-put_other _ "actions" k _ a
    ∙ get-put_other _ "status_color" k _ c
    ∙ get-put_other _ "status" k _ s
    ∙ get-put_other view "running" k (boolean b) r

module _ {Time : Type 0} (proc : ProcFiles Time) (floats : Floats Time) (repr : Value → String)
    (leads : String → Bool) where
  -- the view of an item: it has the item's id and process, and says that the agent runs just where
  -- that process is there
  pub record IsAgentView (item view : Dict Value) : Type 0 where
    pub pid : ℤ
    pub pid_read : int_at item "pid" ≡ ok pid
    pub same_id : Dict.get view "agent_id" ≡ Dict.get item "agent_id"
    pub same_pid : Dict.get view "pid" ≡ some (int pid)
    pub says : Says (process_metrics proc pid).available view

  measured-running :
      (item : Dict Value) (pid : ℤ) (m : Metrics Time)
      → Dict.get (measured proc floats repr leads item pid m) "running" ≡ some (boolean m.available)
  measured-running item pid m = simp get-put refl

  measured-agent_id :
      (item : Dict Value) (pid : ℤ) (m : Metrics Time)
      → Dict.get (measured proc floats repr leads item pid m) "agent_id" ≡ Dict.get item "agent_id"
  measured-agent_id item pid m = simp get-put refl

  measured-pid :
      (item : Dict Value) (pid : ℤ) (m : Metrics Time)
      → Dict.get (measured proc floats repr leads item pid m) "pid" ≡ some (int pid)
  measured-pid item pid m = simp get-put refl

  pub agent_view-IsAgentView :
      (s : State) (item view : Dict Value)
      → agent_view proc floats repr leads s item ≡ ok view
      → IsAgentView item view
  unfolding agent_view enrich_agent_view truthy
  agent_view-IsAgentView s item view h =
      let (pid, read, h) = >>=-ok (int_at item "pid") _ h in
      let m = process_metrics proc pid in
      let agent = measured proc floats repr leads item pid m in
      let agent_id = text_at repr agent "agent_id" in
      let metadata = read_agent_metadata s agent_id in
      let shown = described repr metadata agent agent_id in
      let kept = described-kept repr metadata agent agent_id in
      let runs : is_running shown ≡ m.available =
        ap (λ (o : Option Value). elim o [ none ↦ true | some v ↦ truthy v ])
          (kept "running" (differ _ _ refl) (differ _ _ refl) (differ _ _ refl) (differ _ _ refl)
            ∙ measured-running item pid m) in
      subst (IsAgentView item) (ok_inj h) (record {
        pid = pid;
        pid_read = read;
        same_id =
            with_status-kept (is_running shown) shown "agent_id" (differ _ _ refl) (differ _ _ refl)
              (differ _ _ refl) (differ _ _ refl)
            ∙ kept "agent_id" (differ _ _ refl) (differ _ _ refl) (differ _ _ refl)
                (differ _ _ refl)
            ∙ measured-agent_id item pid m;
        same_pid =
            with_status-kept (is_running shown) shown "pid" (differ _ _ refl) (differ _ _ refl)
              (differ _ _ refl) (differ _ _ refl)
            ∙ kept "pid" (differ _ _ refl) (differ _ _ refl) (differ _ _ refl) (differ _ _ refl)
            ∙ measured-pid item pid m;
        says =
            subst (λ b. Says b (with_status (is_running shown) shown)) runs
              (with_status-Says (is_running shown) shown);
      })

  -- the keys that the view of a model has of its own
  abbrev pub model_keys : List String
  model_keys = "vram_reserved_bytes" ∷ "ram_reserved_bytes" ∷ "rss_bytes" ∷ "pid" ∷ []

  -- the view of a model: what the item says, with the process and the memory that is reserved
  pub record IsModelView (item view : Dict Value) : Type 0 where
    pub pid : ℤ
    pub ram : ℤ
    pub vram : ℤ
    pub pid_read : int_at item "pid" ≡ ok pid
    pub ram_read : floats.bytes (get item "ram_gb" or int (pos 0)) ≡ ok ram
    pub vram_read : floats.bytes (get item "vram_gb" or int (pos 0)) ≡ ok vram
    pub same_pid : Dict.get view "pid" ≡ some (int pid)
    pub rss : Dict.get view "rss_bytes" ≡ some (int (rss_bytes proc pid))
    pub ram_reserved : Dict.get view "ram_reserved_bytes" ≡ some (int ram)
    pub vram_reserved : Dict.get view "vram_reserved_bytes" ≡ some (int vram)
    pub others : (k : String) → All (λ j. j ≢ k) model_keys → Dict.get view k ≡ Dict.get item k

  pub model_view-IsModelView :
      (item view : Dict Value)
      → model_view proc floats repr leads item ≡ ok view
      → IsModelView item view
  unfolding model_view
  model_view-IsModelView item view h =
      let (pid, pid_read, h) = >>=-ok (int_at item "pid") _ h in
      let (ram, ram_read, h) = >>=-ok (floats.bytes (get item "ram_gb" or int (pos 0))) _ h in
      let (vram, vram_read, h) = >>=-ok (floats.bytes (get item "vram_gb" or int (pos 0))) _ h in
      subst (IsModelView item) (ok_inj h) (record {
        pid = pid;
        ram = ram;
        vram = vram;
        pid_read = pid_read;
        ram_read = ram_read;
        vram_read = vram_read;
        same_pid = simp get-put refl;
        rss = simp get-put refl;
        ram_reserved = simp get-put refl;
        vram_reserved = simp get-put refl;
        others = λ k (a, (b, (c, (d, _)))).
            get-put_other _ _ k _ a
            ∙ get-put_other _ _ k _ b
            ∙ get-put_other _ _ k _ c
            ∙ get-put_other _ _ k _ d;
      })
