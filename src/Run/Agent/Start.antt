-- ===== src/Run/Agent/Start.antt =====
-- `run_agent`, bubblehub/cli/run.py, with the helpers of the parent: everything up to the launch,
-- the launch, and the cleanup.
pub mod Steps
pub mod Id
pub mod Laws
mod Examples
use bubble_hub.Prelude.{
  ℕ, String, Bool, true, false, not, ◌&&◌, ◌||◌, Option, none, some, List, [], ◌∷◌, ◌++◌, ◌==◌,
  string_eq, if◌then◌else◌,
}
use bubble_hub.Prelude.Dict.{Dict}
use bubble_hub.Prelude.Int.{ℤ, pos}
use bubble_hub.Prelude.Text.{rstrip_slash}
use bubble_hub.Agents.Views.{normalize_agent_name}
use bubble_hub.Inference.{InferenceConfig, apply_inference_env}
use bubble_hub.Native.Command.{Sandbox}
use bubble_hub.Run.Agent.{
  Launch, Event, Event.manifest_made, Event.removed_directory, Event.deregistered, Event.called,
  Event.launched, Stop, exit, refused, bad_parameter, failed, Options, Host, Trace, M, ◌>>=◌, ◌>>◌,
  pure, raise, emit, finally, given, of_paths, select_persistent_sandbox, register_agent,
  record_persistent_sandbox, write_metadata, prepare_overlay_paths, agent_env, memory_of,
  start_sandbox, shown,
}
use bubble_hub.Run.Environment.{
  apply_sandbox_inference_env, apply_sandbox_http_proxy_env, parse_bytes,
}
use bubble_hub.Run.Paths.{
  FilePath, binary_not_found, SandboxPaths, Prepared, resolve_sandbox_paths, prepare_sandbox_binary,
}
use bubble_hub.Run.Places.{
  resolve_binary, resolve_rootfs_dir, argv_for_binary, SandboxInferenceEndpoint,
  sandbox_inference_endpoint,
}

-- the local variables of `run_agent` at its `try`
pub record Ready : Type 0 where
  pub agent_id : String
  pub resolved_binary : FilePath
  pub sandbox_binary : FilePath
  pub sandbox_paths : SandboxPaths
  pub rootfs_dir : Option FilePath
  pub overlay_paths : Option (FilePath × FilePath)
  pub staging_dir : Option FilePath
  pub overlay_workspace_dir : Option FilePath
  pub endpoint : String
  pub env : Dict String

module _ (h : Host) (o : Options) where
  abbrev pub is_some : Option FilePath → Bool
  is_some none = false
  is_some (some path) = true

  -- the paths with a rootfs, and the temporary workspace that is made when there is no root
  abbrev pub with_workspace :
      Option FilePath → Option FilePath → SandboxPaths → SandboxPaths × Option FilePath
  with_workspace (some rootfs) none paths = (
    record {
      host_workdir = h.workspace;
      sandbox_workdir = "workspace" ∷ [];
      host_root_dir = some h.workspace;
    },
    some h.workspace,
  )
  with_workspace _ _ paths = (paths, none)

  unfoldable pub inference_env : Dict String → String × InferenceConfig → Dict String
  unfolding apply_inference_env rstrip_slash
  inference_env env (url, config) =
      apply_inference_env env url (rstrip_slash url) o.speciality config

  -- the body of `run_agent` before its `try`
  unfoldable pub prepare_agent : M Ready
  unfolding resolve_sandbox_paths resolve_rootfs_dir resolve_binary normalize_agent_name
      select_persistent_sandbox register_agent prepare_sandbox_binary prepare_overlay_paths
      agent_env inference_env
  prepare_agent = do
    paths ← of_paths (resolve_sandbox_paths h.places.files o.root_dir o.workdir)
    rootfs ← given (bad_parameter "BubbleHub rootfs not found") (resolve_rootfs_dir h.places)
    binary ← given (refused binary_not_found) (resolve_binary h.places o.binary paths.host_workdir)
    let agent_name = normalize_agent_name o.name
    persistent ← select_persistent_sandbox h paths.host_root_dir o.force_new_sandbox
    agent_id ← register_agent h persistent
    record_persistent_sandbox h paths.host_root_dir agent_id
    write_metadata h agent_id agent_name
    prepared ← of_paths (prepare_sandbox_binary h.places.files binary paths agent_id h.staging)
    let (sandbox_paths, workspace) =
        with_workspace rootfs prepared.paths.host_root_dir prepared.paths
    overlay ← prepare_overlay_paths h sandbox_paths.host_root_dir agent_id rootfs
    emit (manifest_made agent_id)
    endpoint ← given failed h.endpoint
    pure (record {
      agent_id = agent_id;
      resolved_binary = binary;
      sandbox_binary = prepared.binary;
      sandbox_paths = sandbox_paths;
      rootfs_dir = rootfs;
      overlay_paths = overlay;
      staging_dir = prepared.staging;
      overlay_workspace_dir = workspace;
      endpoint = endpoint.0;
      env = inference_env (agent_env h agent_id agent_name o.niceness (is_some rootfs)) endpoint;
    })

  -- `_SANDBOX_HTTP_PROXY_PORT`, or 0
  abbrev pub proxy_port : ℕ
  proxy_port = if o.allow_network then 0 else 18080

  unfoldable pub sandbox_env : Dict String → ℕ → Dict String
  unfolding apply_sandbox_inference_env apply_sandbox_http_proxy_env
  sandbox_env env port =
      let env = apply_sandbox_inference_env env port in
      if o.allow_network then env else apply_sandbox_http_proxy_env env proxy_port

  abbrev upper_of : Option (FilePath × FilePath) → Option FilePath
  upper_of none = none
  upper_of (some (upper, work)) = some upper

  abbrev work_of : Option (FilePath × FilePath) → Option FilePath
  work_of none = none
  work_of (some (upper, work)) = some work

  abbrev head_or : List String → String
  head_or [] = ""
  head_or (a ∷ args) = a

  -- the call of `_run_native_sandbox`
  unfoldable pub launch_of : Ready → SandboxInferenceEndpoint → ℤ → Launch
  unfolding sandbox_env argv_for_binary
  launch_of ready inference memory_max =
      let argv = argv_for_binary h.places ready.sandbox_binary ++ o.extra_args in
      let show = h.places.show in
      record {
        sandbox = record {
          binary = head_or argv;
          argv = argv;
          resource_niceness = o.niceness;
          memory_max = memory_max;
          cpu_percent = o.cpu;
          workdir = show ready.sandbox_paths.sandbox_workdir;
          isolate_network = not o.allow_network;
          root_dir = shown h ready.sandbox_paths.host_root_dir;
          rootfs_dir = shown h ready.rootfs_dir;
          overlay_upper_dir = shown h (upper_of ready.overlay_paths);
          overlay_work_dir = shown h (work_of ready.overlay_paths);
          inference_host = some inference.host;
          inference_port = pos inference.port;
          sandbox_inference_port = pos inference.port;
          sandbox_http_proxy_port = pos proxy_port;
          disable_http_proxy = false;
        };
        env = sandbox_env ready.env inference.port;
        has_broker = o.interactive_access && not o.allow_network;
      }

  -- the body of the `try`
  unfoldable pub launch_agent : Ready → M ℤ
  unfolding sandbox_inference_endpoint parse_bytes launch_of argv_for_binary
  launch_agent ready =
      let host_args = argv_for_binary h.places ready.resolved_binary ++ o.extra_args in
      let cwd = ready.sandbox_paths.host_workdir in
      if not h.is_linux && not o.unsafe_no_sandbox
      then raise (bad_parameter "bubble run sandbox is Linux-only")
      else if o.unsafe_no_sandbox
      then (emit (called host_args cwd ready.env) >> pure (h.call host_args cwd ready.env))
      else do
        inference ←
            given (bad_parameter "sandboxed inference endpoint must use HTTP")
              (sandbox_inference_endpoint (h.places.parse_url ready.endpoint))
        memory_max ← memory_of h (parse_bytes o.memory)
        start_sandbox h (launch_of ready inference memory_max)

  abbrev pub removed : Option FilePath → Trace
  removed none = []
  removed (some path) = removed_directory path ∷ []

  -- the events of the `finally`, the newest first
  abbrev pub cleanup : Ready → Trace
  cleanup ready =
      deregistered ready.agent_id ∷ removed ready.overlay_workspace_dir ++ removed ready.staging_dir

  -- the `try`, with its `typer.Exit`
  unfoldable pub run_prepared : Ready → M (Unit {0})
  unfolding launch_agent
  run_prepared ready = finally (launch_agent ready >>= λ code. raise (exit code)) (cleanup ready)

  unfoldable pub run_agent : M (Unit {0})
  unfolding prepare_agent run_prepared
  run_agent = prepare_agent >>= run_prepared
