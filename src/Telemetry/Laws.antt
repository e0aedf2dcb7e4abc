-- ===== src/Telemetry/Laws.antt =====
-- The agents and the memory that a snapshot of the telemetry shows.
use mathlib.Core.List.{Memᴰ}
use bubble_hub.Prelude.{◌≤◌, String, ◌≡◌, sym, subst, Bool, true, List, ◌++◌, map, arith}
use bubble_hub.Prelude.Dict.{Dict}
use bubble_hub.Prelude.Int.{ℤ, pos, negsuc, is_positive, to_ℕ}
use bubble_hub.Value.{Value, get}
use bubble_hub.Agents.{State, ok}
use bubble_hub.Agents.Views.{known_agent_records}
use bubble_hub.Agents.Shown.{Describes, IsListed, known_agent_records-exact}
use bubble_hub.Telemetry.{
  dict_or_empty, list_of_dicts, int_at, smaller_limit, limit_or_hardware, Floats, Snapshot,
  map_results, telemetry_warnings, actual_vram_used, agent_view, model_view, id_of, all_agents,
  control_snapshot,
}
use bubble_hub.Telemetry.Views.{
  ok_inj, >>=-ok, Each, map_results-Each, IsAgentView, agent_view-IsAgentView, IsModelView,
  model_view-IsModelView,
}
use bubble_hub.Telemetry.Proc.{ProcFiles}

-- The total is within the limit and the machine's amount, each where it is known.
pub record IsWithin (limit hardware total : ℤ) : Type 0 where
  pub of_limit : is_positive limit ≡ true → to_ℕ total ≤ to_ℕ limit
  pub of_hardware : is_positive hardware ≡ true → to_ℕ total ≤ to_ℕ hardware

smaller_limit-IsWithin :
    (limit hardware : ℤ) → IsWithin limit hardware (smaller_limit limit hardware)
unfolding smaller_limit
smaller_limit-IsWithin (pos n) (pos m) = ground arith
smaller_limit-IsWithin (pos n) (negsuc m) = ground arith
smaller_limit-IsWithin (negsuc n) (pos m) = ground arith
smaller_limit-IsWithin (negsuc n) (negsuc m) = ground arith

module _ {Time : Type 0} (proc : ProcFiles Time) (floats : Floats Time) (repr : Value → String)
    (leads : String → Bool) (s : State) where
  -- Every agent of the scheduler has a view, in order, and behind the views stand the known agents
  -- that are none of them.
  pub record AreListed (items : List (Dict Value)) (agents : List (Dict Value)) : Type 0 where
    pub views : List (Dict Value)
    pub stopped : List (Dict Value)
    pub all : agents ≡ views ++ stopped
    pub each : Each (IsAgentView proc floats repr leads) items views
    pub not_running :
        (r : Dict Value)
        → Memᴰ r stopped
        → (agent_id : String) × IsListed repr leads s
            (map (id_of proc floats repr leads) views)
            agent_id
          × Describes agent_id r
    pub complete :
        (agent_id : String)
        → IsListed repr leads s (map (id_of proc floats repr leads) views) agent_id
        → (r : Dict Value) × Memᴰ r stopped × Describes agent_id r

  all_agents-AreListed :
      (items agents : List (Dict Value))
      → all_agents proc floats repr leads s items ≡ ok agents
      → AreListed items agents
  unfolding all_agents
  all_agents-AreListed items agents h =
      let (views, ev, h) = >>=-ok (map_results (agent_view proc floats repr leads s) items) _ h in
      let known =
        known_agent_records-exact repr leads s (map (id_of proc floats repr leads) views) in
      record {
        views = views;
        stopped = known_agent_records repr leads s (map (id_of proc floats repr leads) views);
        all = sym (ok_inj h);
        each =
            map_results-Each (IsAgentView proc floats repr leads)
              (agent_view proc floats repr leads s)
              (agent_view-IsAgentView proc floats repr leads s) items views ev;
        not_running = known.1;
        complete = known.2;
      }

  limit_or_hardware-IsWithin :
      (limits hardware : Dict Value) (key : String) (total : ℤ)
      → limit_or_hardware limits hardware key ≡ ok total
      → (limit : ℤ) × (amount : ℤ) × (int_at limits key ≡ ok limit)
        × (int_at hardware key ≡ ok amount)
        × IsWithin limit amount total
  unfolding limit_or_hardware
  limit_or_hardware-IsWithin limits hardware key total h =
      let (amount, ea, h) = >>=-ok (int_at hardware key) _ h in
      let (limit, el, h) = >>=-ok (int_at limits key) _ h in
      (
        limit,
        amount,
        el,
        ea,
        subst (IsWithin limit amount) (ok_inj h) (smaller_limit-IsWithin limit amount),
      )

  vram_used_le :
      (hardware : Dict Value) (total used free : ℤ) (models : List (Dict Value))
      → actual_vram_used proc floats repr leads hardware total models ≡ ok used
      → int_at hardware "free_vram_bytes" ≡ ok free
      → is_positive free ≡ true
      → is_positive total ≡ true
      → to_ℕ used ≤ to_ℕ total
  unfolding actual_vram_used
  vram_used_le hardware total used free models h e f t =
      subst (λ n. to_ℕ n ≤ to_ℕ total) (ok_inj (rw (e, t, f) at h)) (omega arith)

  -- the snapshot that is shown of what the scheduler says
  pub record IsShown (snapshot : Dict Value) (shown : Snapshot) : Type 0 where
    pub agents : AreListed (list_of_dicts (get snapshot "agents")) shown.agents
    pub ram_limit : ℤ
    pub ram_amount : ℤ
    pub ram_limit_read : int_at (dict_or_empty (get snapshot "limits")) "ram_bytes" ≡ ok ram_limit
    pub ram_amount_read :
        int_at (dict_or_empty (get snapshot "hardware")) "ram_bytes" ≡ ok ram_amount
    pub ram : IsWithin ram_limit ram_amount shown.memory.ram_total
    pub vram :
        (free : ℤ)
        → int_at (dict_or_empty (get snapshot "hardware")) "free_vram_bytes" ≡ ok free
        → is_positive free ≡ true
        → is_positive shown.memory.vram_total ≡ true
        → to_ℕ shown.memory.vram_used ≤ to_ℕ shown.memory.vram_total
    pub each_model :
        Each
          (IsModelView proc floats repr leads)
          (list_of_dicts (get snapshot "models"))
          shown.models

  -- A snapshot that is shown has a view of every agent of the scheduler, one by one and in order: it
  -- has the agent's id and process, and its status and actions say that the agent runs just where that
  -- process is there. Behind them stand the records of the other agents that have metadata or an
  -- access manifest, as stopped. The RAM in total is within the limit and the machine's amount, each
  -- where it is known; where the free VRAM and the total are known, no more VRAM is in use than
  -- there is in total. Every model of the scheduler has a view, one by one and in order, which is the
  -- item with its process, the memory of that process, and the amounts reserved in bytes.
  pub control_snapshot-IsShown :
      (snapshot : Dict Value) (shown : Snapshot)
      → control_snapshot proc floats repr leads s snapshot ≡ ok shown
      → IsShown snapshot shown
  unfolding control_snapshot
  control_snapshot-IsShown snapshot shown h =
      let hardware = dict_or_empty (get snapshot "hardware") in
      let limits = dict_or_empty (get snapshot "limits") in
      let models = list_of_dicts (get snapshot "models") in
      let (ram, er, h) = >>=-ok (limit_or_hardware limits hardware "ram_bytes") _ h in
      let (vram, ev, h) = >>=-ok (limit_or_hardware limits hardware "vram_bytes") _ h in
      let (used, eu, h) =
        >>=-ok (actual_vram_used proc floats repr leads hardware vram models) _ h in
      let (agents, ea, h) =
        >>=-ok (all_agents proc floats repr leads s (list_of_dicts (get snapshot "agents"))) _ h in
      let (views, em, h) = >>=-ok (map_results (model_view proc floats repr leads) models) _ h in
      let (warnings, ew, h) = >>=-ok (telemetry_warnings hardware) _ h in
      let (limit, amount, el, eh, within) =
        limit_or_hardware-IsWithin limits hardware "ram_bytes" ram er in
      subst (IsShown snapshot) (ok_inj h) (record {
        agents = all_agents-AreListed (list_of_dicts (get snapshot "agents")) agents ea;
        ram_limit = limit;
        ram_amount = amount;
        ram_limit_read = el;
        ram_amount_read = eh;
        ram = within;
        vram = λ free e f t. vram_used_le hardware vram used free models eu e f t;
        each_model =
            map_results-Each (IsModelView proc floats repr leads)
              (model_view proc floats repr leads) (model_view-IsModelView proc floats repr leads)
              models views em;
      })
