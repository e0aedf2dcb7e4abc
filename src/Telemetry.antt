-- ===== src/Telemetry.antt =====
-- The telemetry of the control API, bubblehub/app/telemetry.py: the snapshot of the scheduler with
-- the use of memory, and the views of the agents and models. The scheduler's snapshot is given as a
-- dict; Python's arithmetic of floats and the time are arguments.
pub mod Proc
pub mod Views
pub mod Laws
mod Examples
use bubble_hub.Prelude.{
  ℕ, ◌-◌, String, Bool, true, false, not, ◌&&◌, ◌||◌, Option, none, some, List, [], ◌∷◌, ◌++◌, map,
  ◌==◌, string_eq, if◌then◌else◌, ltb, min,
}
use bubble_hub.Prelude.Dict.{Dict}
use bubble_hub.Prelude.Dict
use bubble_hub.Prelude.Int.{ℤ, pos, negsuc, is_positive, to_ℕ, sub_ℕ}
use bubble_hub.Value.{
  Value, null, boolean, int, str, list, dict, to_dict, of_dict, to_list, get, str_of, int_of, ◌or◌,
}
use bubble_hub.Agents.{State, Result, ok, raise, int_or_zero}
use bubble_hub.Agents
use bubble_hub.Agents.Views.{enrich_agent_view, known_agent_records, object}
use Proc.{ProcFiles, Metrics, process_metrics, rss_bytes, meminfo}

-- `_dict`
abbrev pub dict_or_empty : Value → Dict Value
dict_or_empty (dict fs) = to_dict fs
dict_or_empty _ = []

abbrev onto_dicts : Value → List (Dict Value) → List (Dict Value)
onto_dicts (dict fs) ds = to_dict fs ∷ ds
onto_dicts _ ds = ds

unfoldable pub dicts_in : List Value → List (Dict Value)
dicts_in [] = []
dicts_in (v ∷ vs) = onto_dicts v (dicts_in vs)

-- `_list_of_dicts`
unfoldable pub list_of_dicts : Value → List (Dict Value)
unfolding dicts_in
list_of_dicts (list vs) = dicts_in (to_list vs)
list_of_dicts _ = []

infixl 5 ◌>>=◌
abbrev pub ◌>>=◌ {ℓ μ} : {A : Type ℓ} {B : Type μ} → Result A → (A → Result B) → Result B
ok a >>= f = f a
raise e >>= f = raise e

-- `_int_or_zero`
abbrev pub int_at : Dict Value → String → Result ℤ
int_at d k = int_or_zero (int_of (get d k))

-- `_limit_or_hardware`, on the two amounts
unfoldable pub smaller_limit : ℤ → ℤ → ℤ
smaller_limit limit hardware =
    if is_positive limit
    then (if is_positive hardware then pos (min (to_ℕ limit) (to_ℕ hardware)) else limit)
    else hardware

unfoldable pub limit_or_hardware : Dict Value → Dict Value → String → Result ℤ
unfolding smaller_limit int_of get
limit_or_hardware limits hardware key =
    int_at hardware key >>= λ amount. int_at limits key >>= λ limit. ok (smaller_limit limit amount)

-- `values.get(k, default)`
abbrev amount_or : Dict ℤ → String → ℤ → ℤ
amount_or values k default = elim (Dict.get values k) [ none ↦ default | some n ↦ n ]

-- what is computed with floats: `int(float(v) * 1024**3)` of an amount `v` and of a sum, a use of
-- memory scaled to a limit, the percentage, and the value of a time
pub record Floats (Time : Type 0) : Type 0 where
  pub bytes : Value → Result ℤ
  pub sum_bytes : List Value → Result ℤ
  pub scaled : ℤ → ℤ → ℤ → ℤ
  pub percent : ℤ → ℤ → Value
  pub zero_percent : Value
  pub time_value : Time → Value

pub record Memory : Type 0 where
  pub ram_total : ℤ
  pub ram_used : ℤ
  pub ram_used_percent : Value
  pub vram_total : ℤ
  pub vram_used : ℤ
  pub vram_used_percent : Value

pub record Snapshot : Type 0 where
  pub hardware : Dict Value
  pub limits : Dict Value
  pub memory_pressure : Value
  pub memory : Memory
  pub agents : List (Dict Value)
  pub models : List (Dict Value)
  pub queue : List (Dict Value)
  pub warnings : List String

-- `item.get(k, 0) or 0`
abbrev amount_in : String → Dict Value → Value
amount_in k item = get item k or int (pos 0)

-- `snapshot.get("memory_pressure", "available")`
abbrev pressure_in : Dict Value → Value
pressure_in d = elim (Dict.get d "memory_pressure") [ none ↦ str "available" | some v ↦ v ]

unfoldable pub map_results {ℓ μ} :
    {A : Type ℓ} {B : Type μ} → (A → Result B) → List A → Result (List B)
map_results f [] = ok []
map_results f (a ∷ as') = f a >>= λ b. map_results f as' >>= λ bs. ok (b ∷ bs)

-- `_telemetry_warnings`
unfoldable pub telemetry_warnings : Dict Value → Result (List String)
unfolding int_of get
telemetry_warnings hardware = int_at hardware "vram_bytes" >>= λ vram.
    let host =
      "Agent resource metrics use the host bubble run process until sandbox child telemetry is available."
      ∷ [] in
    ok (
      if is_positive vram
      then host
      else "No dedicated VRAM telemetry is available; model GPU usage falls back to reservations."
        ∷ host)

module _ {Time : Type 0} (proc : ProcFiles Time) (floats : Floats Time) (repr : Value → String)
    (leads : String → Bool) where
  -- `_actual_ram_used_bytes`
  unfoldable pub actual_ram_used : ℤ → ℤ
  unfolding meminfo Dict.get
  actual_ram_used total =
      let values = meminfo proc.memory in
      let mem_total = amount_or values "MemTotal" total in
      let mem_available = amount_or values "MemAvailable" (pos 0) in
      if not (is_positive mem_total) || not (is_positive mem_available)
      then pos 0
      else let used = sub_ℕ (to_ℕ mem_total) (to_ℕ mem_available) in
        if is_positive total && ltb (to_ℕ total) (to_ℕ mem_total)
        then floats.scaled used total mem_total
        else used

  -- `_actual_vram_used_bytes`
  unfoldable pub actual_vram_used : Dict Value → ℤ → List (Dict Value) → Result ℤ
  unfolding int_of get ◌or◌
  actual_vram_used hardware total models = int_at hardware "free_vram_bytes" >>= λ free.
      if is_positive total && is_positive free
      then ok (pos (to_ℕ total - min (to_ℕ free) (to_ℕ total)))
      else floats.sum_bytes (map (amount_in "vram_gb") models)

  -- `_percent`
  abbrev percent : ℤ → ℤ → Value
  percent used total = if is_positive total then floats.percent used total else floats.zero_percent

  abbrev metrics_value : Metrics Time → Value
  metrics_value m = object (
      ("available", boolean m.available)
      ∷ ("rss_bytes", int m.rss_bytes)
      ∷ ("cpu_time_seconds", floats.time_value m.cpu_time)
      ∷ ("status", str m.status)
      ∷ [])

  abbrev pub measured : Dict Value → ℤ → Metrics Time → Dict Value
  measured item pid m =
      let item = Dict.put item "pid" (int pid) in
      let item = Dict.put item "running" (boolean m.available) in
      let item = Dict.put item "pid_role" (str "bubblehub-run-host-process") in
      let item = Dict.put item "resource_metrics" (metrics_value m) in
      let item = Dict.put item "rss_bytes" (int m.rss_bytes) in
      Dict.put item "cpu_time_seconds" (floats.time_value m.cpu_time)

  -- `_agent_view`
  unfoldable pub agent_view : State → Dict Value → Result (Dict Value)
  unfolding int_of get process_metrics enrich_agent_view Dict.put
  agent_view s item = int_at item "pid" >>= λ pid.
      ok (enrich_agent_view repr s (measured item pid (process_metrics proc pid)))

  -- `_model_view`
  unfoldable pub model_view : Dict Value → Result (Dict Value)
  unfolding int_of get rss_bytes ◌or◌ Dict.put
  model_view item = int_at item "pid" >>= λ pid. floats.bytes (amount_in "ram_gb" item) >>= λ ram.
      floats.bytes (amount_in "vram_gb" item) >>= λ vram.
      let item = Dict.put item "pid" (int pid) in
      let item = Dict.put item "rss_bytes" (int (rss_bytes proc pid)) in
      let item = Dict.put item "ram_reserved_bytes" (int ram) in
      ok (Dict.put item "vram_reserved_bytes" (int vram))

  -- `str(item.get("agent_id", ""))`
  abbrev pub id_of : Dict Value → String
  id_of item = elim (Dict.get item "agent_id") [ none ↦ "" | some v ↦ str_of repr v ]

  abbrev memory_of : ℤ → ℤ → ℤ → Memory
  memory_of ram_total vram_total vram_used =
      let ram_used = actual_ram_used ram_total in
      record {
        ram_total = ram_total;
        ram_used = ram_used;
        ram_used_percent = percent ram_used ram_total;
        vram_total = vram_total;
        vram_used = vram_used;
        vram_used_percent = percent vram_used vram_total;
      }

  -- the running agents, and then those that are known and do not run
  unfoldable pub all_agents : State → List (Dict Value) → Result (List (Dict Value))
  unfolding map_results agent_view known_agent_records str_of Dict.get
  all_agents s items = map_results (agent_view s) items >>= λ views.
      ok (views ++ known_agent_records repr leads s (map id_of views))

  -- `control_snapshot`, on the snapshot of the scheduler
  unfoldable pub control_snapshot : State → Dict Value → Result Snapshot
  unfolding list_of_dicts limit_or_hardware actual_ram_used actual_vram_used all_agents model_view
      telemetry_warnings get Dict.get
  control_snapshot s snapshot =
      let hardware = dict_or_empty (get snapshot "hardware") in
      let limits = dict_or_empty (get snapshot "limits") in
      let models = list_of_dicts (get snapshot "models") in
      limit_or_hardware limits hardware "ram_bytes" >>= λ ram_total.
      limit_or_hardware limits hardware "vram_bytes" >>= λ vram_total.
      actual_vram_used hardware vram_total models >>= λ vram_used.
      all_agents s (list_of_dicts (get snapshot "agents")) >>= λ agents.
      map_results model_view models >>= λ views. telemetry_warnings hardware >>= λ warnings.
      ok (record {
        hardware = hardware;
        limits = limits;
        memory_pressure = pressure_in snapshot;
        memory = memory_of ram_total vram_total vram_used;
        agents = agents;
        models = views;
        queue = list_of_dicts (get snapshot "queue");
        warnings = warnings;
      })
