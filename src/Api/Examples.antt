-- ===== src/Api/Examples.antt =====
-- The theorems on the control API, at a host with two agents.
use bubble_hub.Prelude.{
  String, ◌≡◌, refl, true, false, not, none, some, [], ◌∷◌, filter, Bool-cases, inl, inr, string_eq,
}
use bubble_hub.Prelude.Dict.{Dict}
use bubble_hub.Prelude.Int.{pos}
use bubble_hub.Prelude.Text.{strip_prefix}
use bubble_hub.Agents
use bubble_hub.Value.{Value, null, str, int, dict, of_dict, int_of, str_of}
use bubble_hub.Agents.{
  directory, sent, Host, is_agent, is_valid_agent_id, agent_from_snapshot, delete_agent,
  delete_stopped,
}
use bubble_hub.Agents.Kept.{IsForgotten}
use bubble_hub.Agents.Laws.{Deregisters}
use bubble_hub.Api.{State, manifest, json, error, Request, Server}
use bubble_hub.Api.Handler.{do_post}
use bubble_hub.Api.Laws.{Applies, do_post-Applies}
use bubble_hub.Api.Forgets.{do_post-forgets}

abbrev host : Host
host = record {
  deregister = λ agent_id agents. filter (λ item. not (is_agent agent_id item)) agents;
  kill = λ pid. sent;
  repr = λ v. "";
}

host-Deregisters : Deregisters host
unfolding agent_from_snapshot filter
host-Deregisters agent_id [] = refl
host-Deregisters agent_id (item ∷ agents) = elim (Bool-cases (is_agent agent_id item)) [
  | inl t ↦ rw t (host-Deregisters agent_id agents)
  | inr f ↦ rw (f, f) (host-Deregisters agent_id agents)
]

abbrev of_pairs : Dict Value → Value
of_pairs d = dict (of_dict d)

abbrev server : Server Value
server = record {
  speciality = "default-instruct";
  host = host;
  yaml = record {
    safe_load = λ v. some v;
    safe_dump = λ v. v;
    builtins = record { dict_of_list = λ vs. none; units = λ r. none; repr = λ v. "" };
  };
  base = [];
  explicit = none;
  unquote = λ text. text;
  describe = λ c. "failed";
  snapshot = λ s. none;
  status_models = none;
  access_pending = none;
  access_manifest = λ agent_id. some (str agent_id);
  applies = λ a. true;
  evicts = λ name. true;
  proc = record {
    exists = λ pid. true;
    status = λ pid. none;
    stat = λ pid. none;
    memory = none;
    clock_ticks = 100;
    seconds = λ ticks per. null;
    no_time = null;
  };
  floats = record {
    bytes = λ v. Agents.Result.ok (pos 0);
    sum_bytes = λ vs. Agents.Result.ok (pos 0);
    scaled = λ used total all. used;
    percent = λ used total. null;
    zero_percent = null;
    time_value = λ t. t;
  };
  leads = λ name. false;
  view = record {
    hardware = record {
      info = record { ram_bytes = 1; vram_bytes = 0; gpu_backends = [] };
      free_vram_bytes = 0;
      gpu_vendor = "none";
      gpu_name = "";
      gpu_backend = "cpu";
      gpu_compute_capability = "";
      gpu_device = "";
    };
    amount = λ n. null;
    config_path = "models.yaml";
  };
  has_static = λ name. false;
  has_icon = λ name. false;
}

abbrev before : State Value
before = record {
  agents = record {
    metadata = ("agt-1", some (of_pairs [])) ∷ [];
    manifests = ("agt-1", directory) ∷ [];
    homes = [];
    agents =
        of_pairs (("agent_id", str "agt-1") ∷ ("pid", int (pos 41)) ∷ [])
        ∷ of_pairs (("agent_id", str "agt-2") ∷ [])
        ∷ [];
    signalled = [];
  };
  file = none;
  applied = [];
  evicted = [];
}

abbrev after : State Value
after = record before {
  agents = record {
    metadata = [];
    manifests = [];
    homes = [];
    agents = of_pairs (("agent_id", str "agt-2") ∷ []) ∷ [];
    signalled = pos 41 ∷ [];
  };
}

abbrev posted : String → Dict Value → Request
posted path body = record {
  path = path;
  speciality = none;
  name = "";
  content_length = some "2";
  body = λ n. some (of_pairs body);
}

do_post-forgets_example :
    IsForgotten before.agents "agt-1" after.agents
    × (agent_from_snapshot "agt-1" after.agents.agents ≡ none)
unfolding do_post delete_agent delete_stopped is_valid_agent_id agent_from_snapshot int_of str_of
    filter strip_prefix
do_post-forgets_example =
    do_post-forgets server host-Deregisters before after (posted "/api/agents/agt-1/delete/" [])
      "agt-1" (record { root_dir = ""; deleted = false; manifest_deleted = true }) refl

abbrev policy : Dict Value
policy = ("policy", str "always") ∷ ("kind", str "net") ∷ []

do_post-Applies_example :
    Applies server before
      (do_post server before (posted "/api/agents/agt-2/manifest/policies" policy)).0
do_post-Applies_example =
    do_post-Applies server before (posted "/api/agents/agt-2/manifest/policies" policy)

test_policy :
    (do_post server before (posted "/api/agents/agt-2/manifest/policies" policy)).1
    ≡ json (manifest "agt-2" (str "agt-2"))
unfolding do_post str_of
test_policy = refl

test_unknown :
    do_post server before (posted "/api/none" [])
    ≡ (before, error 404 "not_found" "unknown endpoint: /api/none")
unfolding do_post
test_unknown = refl
