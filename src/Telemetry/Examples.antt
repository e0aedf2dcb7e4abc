-- ===== src/Telemetry/Examples.antt =====
-- The theorems on the telemetry and the agents' views, at a host with a running and a stopped agent.
use mathlib.Core.List.{Memᴰ}
use bubble_hub.Prelude.{String, Bool, ◌≡◌, refl, true, false, none, some, [], ◌∷◌}
use bubble_hub.Prelude.Dict.{Dict}
use bubble_hub.Prelude.Sort.{IsSorted}
use bubble_hub.Prelude.Int.{pos}
use bubble_hub.Value.{Value, null, str, int, list, dict, of_dict, of_list}
use bubble_hub.Agents.{State, Result, ok, directory}
use bubble_hub.Agents.Views.{known_agent_records, described, le_record}
use bubble_hub.Agents.Shown.{IsListed, Describes, known_agent_records-exact}
use bubble_hub.Telemetry.{Floats, Snapshot, control_snapshot}
use bubble_hub.Telemetry.Proc.{ProcFiles}
use bubble_hub.Telemetry.Laws.{IsShown, control_snapshot-IsShown}

abbrev repr : Value → String
repr v = ""

abbrev leads : String → Bool
leads name = false

abbrev of_pairs : Dict Value → Value
of_pairs d = dict (of_dict d)

abbrev host : State
host = record {
  metadata = ("agt-1", some (of_pairs (("name", str "Ann") ∷ []))) ∷ [];
  manifests = ("agt-2", directory) ∷ [];
  homes = [];
  agents = [];
  signalled = [];
}

abbrev proc : ProcFiles Value
proc = record {
  exists = λ pid. true;
  status = λ pid. some "State:\tS (sleeping)\nVmRSS:\t  12 kB\n";
  stat = λ pid. none;
  memory = some "MemTotal: 16 kB\nMemAvailable: 4 kB\n";
  clock_ticks = 100;
  seconds = λ ticks per. null;
  no_time = null;
}

abbrev floats : Floats Value
floats = record {
  bytes = λ v. ok (pos 0);
  sum_bytes = λ vs. ok (pos 0);
  scaled = λ used total all. used;
  percent = λ used total. null;
  zero_percent = null;
  time_value = λ t. t;
}

abbrev snapshot : Dict Value
snapshot =
    (
      "hardware",
      of_pairs (
          ("ram_bytes", int (pos 16384))
          ∷ ("vram_bytes", int (pos 9))
          ∷ ("free_vram_bytes", int (pos 4))
          ∷ []),
    )
    ∷ (
      "agents",
      list (of_list (of_pairs (("agent_id", str "agt-1") ∷ ("pid", int (pos 7)) ∷ []) ∷ [])),
    )
    ∷ []

abbrev shown_of : Result Snapshot → Snapshot
shown_of r = elim r [
  | ok shown ↦ shown
  | Result.raise e ↦ record {
    hardware = [];
    limits = [];
    memory_pressure = null;
    memory = record {
      ram_total = pos 0;
      ram_used = pos 0;
      ram_used_percent = null;
      vram_total = pos 0;
      vram_used = pos 0;
      vram_used_percent = null;
    };
    agents = [];
    models = [];
    queue = [];
    warnings = [];
  }
]

control_snapshot-IsShown_example :
    IsShown proc floats repr leads host snapshot
      (shown_of (control_snapshot proc floats repr leads host snapshot))
unfolding control_snapshot described
control_snapshot-IsShown_example =
    control_snapshot-IsShown proc floats repr leads host snapshot
      (shown_of (control_snapshot proc floats repr leads host snapshot)) refl

test_used :
    (shown_of (control_snapshot proc floats repr leads host snapshot)).memory.ram_used ≡ pos 12288
unfolding control_snapshot described
test_used = refl

known_agent_records-exact_example :
    IsSorted (le_record repr leads host) (known_agent_records repr leads host ("agt-1" ∷ []))
    × ((r : Dict Value)
        → Memᴰ r (known_agent_records repr leads host ("agt-1" ∷ []))
        → (agent_id : String) × IsListed repr leads host ("agt-1" ∷ []) agent_id
          × Describes agent_id r)
    × ((agent_id : String)
        → IsListed repr leads host ("agt-1" ∷ []) agent_id
        → (r : Dict Value) × Memᴰ r (known_agent_records repr leads host ("agt-1" ∷ []))
          × Describes agent_id r)
known_agent_records-exact_example = known_agent_records-exact repr leads host ("agt-1" ∷ [])
