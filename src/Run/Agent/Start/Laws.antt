-- ===== src/Run/Agent/Start/Laws.antt =====
-- What `run_agent` of bubblehub/cli/run.py launches, and that it cleans up.
use mathlib.Core.List.{Memᴰ}
use bubble_hub.Prelude.{
  ◌⊎◌, inl, inr, arith, String, Bool, true, false, not, ◌&&◌, Option, none, some, ◌≡◌, refl, [],
  ◌∷◌, ◌++◌, All, if◌then◌else◌,
}
use bubble_hub.Prelude.Int.{pos}
use bubble_hub.Run.Agent.{
  memory_of, start_sandbox, Event, Event.manifest_made, Event.removed_directory, Event.deregistered,
  Event.called, Event.launched, Stop, Result, ok, stop, Options, Host, Trace, continue, ◌>>=◌,
  sandbox_removed, manifest_removed, registered, marker_written, sandbox_moved, metadata_written,
  made_directory,
}
use bubble_hub.Run.Agent.Start.{
  Ready, prepare_agent, launch_agent, run_prepared, run_agent, launch_of, removed,
}
use bubble_hub.Run.Agent.Start.Id.{HasId, sandbox_env-HasId, Holds, IsOwn, prepare_agent-Gives}
use bubble_hub.Run.Agent.Start.Steps.{
  Quiet, Adds, Adds-bind, Adds-given, Adds-if_eq, Adds-pure, Adds-raise, Adds-emit, Adds-pure_bind,
  Adds-raise_bind, prepare_agent-Adds,
}
use bubble_hub.Run.Environment.{Limit, bytes, empty_limit, invalid_limit, parse_bytes}
use bubble_hub.Run.Paths.{FilePath}
use bubble_hub.Run.Places.{SandboxInferenceEndpoint}

-- what the events of an agent have to do with the options
abbrev pub IsAllowed : Host → Options → String → Event → Type 0
IsAllowed h o agent_id (launched launch) =
    HasId agent_id launch.env
    × (h.is_linux ≡ true)
    × (o.unsafe_no_sandbox ≡ false)
    × (launch.sandbox.isolate_network ≡ not o.allow_network)
    × (launch.sandbox.sandbox_http_proxy_port ≡ pos (if o.allow_network then 0 else 18080))
    × (launch.sandbox.cpu_percent ≡ o.cpu)
    × (parse_bytes o.memory ≡ bytes launch.sandbox.memory_max)
IsAllowed h o agent_id (called args cwd env) = HasId agent_id env × (o.unsafe_no_sandbox ≡ true)
IsAllowed h o agent_id _ = Unit

on_linux : (linux unsafe : Bool) → (not linux && not unsafe) ≡ false → unsafe ≡ false → linux ≡ true
on_linux true unsafe allowed safe = refl
on_linux false unsafe allowed safe = ground arith

module _ (h : Host) (o : Options) (ready : Ready) where
  -- the events of a run whose agent was registered
  abbrev Known : Trace → Type 0
  Known events = All (IsAllowed h o ready.agent_id) events × Memᴰ (registered ready.agent_id) events

  with_event :
      (event : Event)
      → IsAllowed h o ready.agent_id event
      → (events : Trace) → Known events
      → Known (event ∷ events)
  with_event event allowed events (all, m) = ((allowed, all), Memᴰ.tail m)

  limited-Adds :
      (inference : SandboxInferenceEndpoint) (limit : Limit)
      → HasId ready.agent_id ready.env
      → h.is_linux ≡ true
      → o.unsafe_no_sandbox ≡ false
      → parse_bytes o.memory ≡ limit
      → Adds Known (
          memory_of h limit >>= λ memory_max.
          start_sandbox h (launch_of h o ready inference memory_max))
  unfolding launch_of
  limited-Adds inference (bytes n) own linux safe limit =
      let env = sandbox_env-HasId h ready.agent_id o ready.env inference.port own in
      Adds-pure_bind _ n _ (
        Adds-bind _ (Adds-emit _ (with_event _ (env, linux, safe, refl, refl, refl, limit)))
          λ _. Adds-given _ _ _)
  limited-Adds inference empty_limit own linux safe limit = Adds-raise_bind _ _ _
  limited-Adds inference invalid_limit own linux safe limit = Adds-raise_bind _ _ _

  launch_agent-Adds : HasId ready.agent_id ready.env → Adds Known (launch_agent h o ready)
  unfolding launch_agent
  launch_agent-Adds own =
      Adds-if_eq _ (not h.is_linux && not o.unsafe_no_sandbox) (λ refused. Adds-raise _ _)
        λ allowed.
          Adds-if_eq _ o.unsafe_no_sandbox
            (λ unsafe. Adds-bind _ (Adds-emit _ (with_event _ (own, unsafe))) λ _. Adds-pure _ _)
            λ safe. Adds-bind _ (Adds-given _ _ _) λ inference.
              limited-Adds inference (parse_bytes o.memory) own
                (on_linux h.is_linux o.unsafe_no_sandbox allowed safe) safe refl

  quiet : (event : Event) → Quiet event → IsAllowed h o ready.agent_id event
  quiet (launched launch) q = elim q [ ]
  quiet (called args cwd env) q = elim q [ ]
  quiet (sandbox_removed a) q = tt
  quiet (manifest_removed a) q = tt
  quiet (registered a) q = tt
  quiet (marker_written a) q = tt
  quiet (deregistered a) q = tt
  quiet (sandbox_moved a b) q = tt
  quiet (metadata_written a b) q = tt
  quiet (manifest_made a) q = tt
  quiet (made_directory a) q = tt
  quiet (removed_directory a) q = tt

  All-IsAllowed : (events : Trace) → All Quiet events → All (IsAllowed h o ready.agent_id) events
  All-IsAllowed [] q = tt
  All-IsAllowed (event ∷ events) (q, qs) = (quiet event q, All-IsAllowed events qs)

  removed-Known :
      (workspace staging : Option FilePath) (events : Trace)
      → Known events
      → Known ((removed h o workspace ++ removed h o staging) ++ events)
  removed-Known none none events known = known
  removed-Known none (some path) events known = with_event _ tt events known
  removed-Known (some path) none events known = with_event _ tt events known
  removed-Known (some path) (some second) events known =
      with_event _ tt _ (with_event _ tt events known)

module _ (h : Host) (o : Options) (outcome : Result (Unit {0}) × Trace) where
  -- the run ended before the `try`
  pub record IsUnprepared : Type 0 where
    pub why : Stop
    pub stopped : prepare_agent h o [] ≡ (stop why, outcome.1)
    pub raised : outcome.0 ≡ stop why
    pub nothing_started : All Quiet outcome.1

  -- the run came to the `try`
  pub record IsTried : Type 0 where
    pub ready : Ready
    pub before : Trace
    pub prepared : prepare_agent h o [] ≡ (ok ready, before)
    pub not_yet_started : All Quiet before
    pub registered_before : Memᴰ (registered ready.agent_id) before
    pub earlier : Trace
    pub closed : outcome.1 ≡ deregistered ready.agent_id ∷ earlier
    pub all_allowed : All (IsAllowed h o ready.agent_id) earlier
    pub was_registered : Memᴰ (registered ready.agent_id) earlier

  abbrev pub IsClosed : Type 0
  IsClosed = IsUnprepared ⊎ IsTried

module _ (h : Host) (o : Options) where
  closing :
      (prepared : Result Ready × Trace)
      → prepare_agent h o [] ≡ prepared
      → All Quiet prepared.1
      → Holds IsOwn prepared
      → IsClosed h o (continue (run_prepared h o) prepared)
  unfolding run_prepared
  closing (stop e, later) p q own =
      inl (record { why = e; stopped = p; raised = refl; nothing_started = q })
  closing (ok ready, later) p q (own, m) =
      let known = removed-Known h o ready ready.overlay_workspace_dir ready.staging_dir _ (
        (Adds-bind (Known h o ready) (launch_agent-Adds h o ready own) λ code. Adds-raise _ _).adds
          later (All-IsAllowed h o ready later q, m)) in
      inr (record {
        ready = ready;
        before = later;
        prepared = p;
        not_yet_started = q;
        registered_before = m;
        earlier = _;
        closed = refl;
        all_allowed = known.0;
        was_registered = known.1;
      })

  -- Where `run_agent` does not come to its `try`, it has launched and called nothing. Where it does,
  -- it has registered an agent, has still launched and called nothing, and its last event
  -- deregisters that agent, also where the `try` raises. Before that event a sandbox is launched
  -- only with that agent's id in its environment, on Linux and without the unsafe option, with the
  -- network isolated exactly when it is not allowed, with the proxy port 18080 then and 0 otherwise,
  -- and with the CPU limit and the memory limit that the options ask for; and a binary is called
  -- outside a sandbox only with the unsafe option, and with the agent's id in its environment.
  pub run_agent-IsClosed : IsClosed h o (run_agent h o [])
  unfolding run_agent ◌>>=◌
  run_agent-IsClosed =
      closing (prepare_agent h o []) refl
        ((prepare_agent-Adds (All Quiet) (λ event q events qs. (q, qs)) h o).adds [] tt)
        ((prepare_agent-Gives h o).gives [] tt)
