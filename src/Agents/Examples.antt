-- ===== src/Agents/Examples.antt =====
-- The theorems on stopping and deleting an agent, at a host with two agents.
use bubble_hub.Prelude.{
  ℕ, String, ◌≡◌, refl, true, false, not, none, some, List, [], ◌∷◌, filter, Bool-cases, inl, inr,
}
use bubble_hub.Prelude.Int.{pos}
use bubble_hub.Value.{Value, str, int, dict, of_dict, int_of, str_of, ◌or◌}
use bubble_hub.Agents.{
  directory, State, sent, Host, is_agent, is_valid_agent_id, agent_from_snapshot, stop_agent,
  delete_agent, delete_stopped,
}
use bubble_hub.Agents.Kept.{IsForgotten}
use bubble_hub.Agents.Laws.{Deregisters, delete_agent-forgets}

abbrev others : String → List Value → List Value
others agent_id agents = filter (λ item. not (is_agent agent_id item)) agents

abbrev host : Host
host = record { deregister = others; kill = λ pid. sent; repr = λ v. "" }

host-Deregisters : Deregisters host
unfolding agent_from_snapshot filter
host-Deregisters agent_id [] = refl
host-Deregisters agent_id (item ∷ agents) = elim (Bool-cases (is_agent agent_id item)) [
  | inl t ↦ rw t (host-Deregisters agent_id agents)
  | inr f ↦ rw (f, f) (host-Deregisters agent_id agents)
]

abbrev agent : String → ℕ → Value
agent agent_id pid = dict (of_dict (("agent_id", str agent_id) ∷ ("pid", int (pos pid)) ∷ []))

abbrev before : State
before = record {
  metadata =
      ("agt-1", some (dict (of_dict (("root_dir", str "/work") ∷ [])))) ∷ ("agt-2", none) ∷ [];
  manifests = ("agt-1", directory) ∷ [];
  homes = ("/work", record { marker = some "agt-1\n"; agents = [] }) ∷ [];
  agents = agent "agt-1" 41 ∷ agent "agt-2" 42 ∷ [];
  signalled = [];
}

abbrev stopped : State
stopped = record before { agents = agent "agt-2" 42 ∷ []; signalled = pos 41 ∷ [] }

abbrev deleted : State
deleted = record stopped {
  metadata = ("agt-2", none) ∷ [];
  manifests = [];
  homes = ("/work", record { marker = none; agents = [] }) ∷ [];
}

delete_agent-forgets_example :
    IsForgotten before "agt-1" deleted × (agent_from_snapshot "agt-1" deleted.agents ≡ none)
unfolding delete_agent is_valid_agent_id agent_from_snapshot stop_agent int_of delete_stopped str_of
    ◌or◌ filter
delete_agent-forgets_example =
    delete_agent-forgets host host-Deregisters before "agt-1" deleted
      (record { root_dir = "/work"; deleted = false; manifest_deleted = true }) refl
