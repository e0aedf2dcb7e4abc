-- ===== src/Run/Agent.antt =====
-- `run_agent`, bubblehub/cli/run.py: how an agent is registered, prepared, launched and cleaned up.
-- What it does to the host is a list of events, the newest first. The scheduler, the inference
-- endpoint, the native sandbox and `subprocess.call` are fields of `Host`; the printed lines and
-- the logs are not modelled.
pub mod Start
use bubble_hub.Prelude.{
  ℕ, String, Bool, true, false, not, ◌&&◌, ◌||◌, Option, none, some, List, [], ◌∷◌, ◌++◌, ◌==◌,
  string_eq, if◌then◌else◌,
}
use bubble_hub.Prelude.Dict.{Dict}
use bubble_hub.Prelude.Dict
use bubble_hub.Prelude.Int.{ℤ, pos}
use bubble_hub.Prelude.Text.{show_int, show_nat, rstrip_slash}
use bubble_hub.Agents.{is_valid_agent_id}
use bubble_hub.Agents.Views.{normalize_agent_name}
use bubble_hub.Inference.{InferenceConfig, apply_inference_env}
use bubble_hub.Native.Command.{Sandbox}
use bubble_hub.Run.Environment.{
  text_at, apply_sandbox_inference_env, apply_sandbox_http_proxy_env, Limit, bytes, empty_limit,
  invalid_limit, parse_bytes,
}
use bubble_hub.Run.Paths.{
  FilePath, Refusal, SandboxPaths, Prepared, resolve_sandbox_paths, prepare_sandbox_binary,
}
use bubble_hub.Run.Paths
use bubble_hub.Run.Persistent.{Hub, find_persistent_agent_id, tombstone_agent_path}
use bubble_hub.Run.Places.{
  Binary, Places, resolve_binary, resolve_rootfs_dir, argv_for_binary, bubblehub_site_packages,
  SandboxInferenceEndpoint, sandbox_inference_endpoint,
}

-- what is handed to the sandbox
pub record Launch : Type 0 where
  pub sandbox : Sandbox
  pub env : Dict String
  pub has_broker : Bool

pub data Event : Type 0 where
  sandbox_removed manifest_removed registered marker_written deregistered : String → Event
  -- a sandbox that cannot be deleted, and its new name
  sandbox_moved : String → String → Event
  -- an agent with its name
  metadata_written : String → Option String → Event
  manifest_made : String → Event
  made_directory removed_directory : FilePath → Event
  launched : Launch → Event
  called : List String → FilePath → Dict String → Event

-- how `run_agent` ends: it raises in any case
pub data Stop : Type 0 where
  exit : ℤ → Stop
  refused : Refusal → Stop
  bad_parameter : String → Stop
  failed : Stop

pub data Result {ℓ} (A : Type ℓ) : Type ℓ where
  ok : A → Result A
  stop : Stop → Result A

-- what stands at `sandboxes/<id>` of the state directory
pub data ManifestEntry : Type 0 where
  absent here escaped : ManifestEntry

pub record Options : Type 0 where
  pub binary : Binary
  pub extra_args : List String
  pub name : Option String
  pub niceness : ℤ
  pub memory : String
  pub cpu : ℤ
  pub speciality : Option String
  pub workdir : Option FilePath
  pub root_dir : Option FilePath
  pub unsafe_no_sandbox : Bool
  pub force_new_sandbox : Bool
  pub allow_network : Bool
  pub interactive_access : Bool

pub record Host : Type 0 where
  pub places : Places
  -- `.bubblehub` of a root
  pub hub : FilePath → Hub
  -- whether the directory of an agent resolves to a child of `agents`, and can be deleted
  pub stays : FilePath → String → Bool
  pub deletes : FilePath → String → Bool
  pub taken : FilePath → String → Bool
  pub manifest : String → ManifestEntry
  -- the id that `register_agent` makes, and whether the scheduler takes an agent
  pub new_id : String
  pub registers : String → Bool
  -- the directories that `TemporaryDirectory` makes
  pub staging : FilePath
  pub workspace : FilePath
  -- the URL of the endpoint with the configuration, `none` where it does not become healthy
  pub endpoint : Option (String × InferenceConfig)
  pub is_linux : Bool
  pub uid : ℕ
  pub gid : ℕ
  -- the exit code of a sandbox, `none` where the helper cannot be started, and of a plain call
  pub sandbox : Launch → Option ℤ
  pub call : List String → FilePath → Dict String → ℤ

abbrev pub Trace : Type 0
Trace = List Event

abbrev pub M {ℓ} : Type ℓ → Type ℓ
M A = Trace → Result A × Trace

-- what the second part adds to an outcome of the first
abbrev pub continue {ℓ μ} :
    {A : Type ℓ} {B : Type μ} → (A → M B) → Result A × Trace → Result B × Trace
continue f (ok a, later) = f a later
continue f (stop e, later) = (stop e, later)

infixl 5 ◌>>=◌ ◌>>◌
unfoldable pub ◌>>=◌ {ℓ μ} : {A : Type ℓ} {B : Type μ} → M A → (A → M B) → M B
◌>>=◌ m f events = continue f (m events)

abbrev pub ◌>>◌ {μ} : {B : Type μ} → M (Unit {0}) → M B → M B
m >> n = m >>= λ _. n

unfoldable pub pure {ℓ} : {A : Type ℓ} → A → M A
pure a events = (ok a, events)

unfoldable pub raise {ℓ} : {A : Type ℓ} → Stop → M A
raise e events = (stop e, events)

unfoldable pub emit : Event → M (Unit {0})
emit event events = (ok tt, event ∷ events)

-- `try: m finally: cleanup`, with the newest event of `cleanup` first
abbrev pub finally {ℓ} : {A : Type ℓ} → M A → Trace → M A
finally m cleanup events = let (r, later) = m events in (r, cleanup ++ later)

abbrev pub given {ℓ} : {A : Type ℓ} → Stop → Option A → M A
given e none = raise e
given e (some a) = pure a

abbrev pub of_paths {ℓ} : {A : Type ℓ} → Paths.Result A → M A
of_paths (Paths.Result.ok a) = pure a
of_paths (Paths.Result.refused r) = raise (refused r)

abbrev pub emit_if : Bool → Event → M (Unit {0})
emit_if b event = if b then emit event else pure tt

module _ (h : Host) where
  abbrev pub moved : String → Option String → M (Unit {0})
  moved agent_id none =
      raise (bad_parameter "could not choose a tombstone path for persistent sandbox cleanup")
  moved agent_id (some name) = emit (sandbox_moved agent_id name)

  -- `_remove_persistent_agent`, of a directory that is a persistent sandbox
  unfoldable pub remove_persistent_agent : FilePath → String → M (Unit {0})
  unfolding tombstone_agent_path
  remove_persistent_agent root agent_id =
      if not (h.stays root agent_id)
      then raise (bad_parameter "persistent sandbox path escaped .bubblehub/agents")
      else if h.deletes root agent_id
      then emit (sandbox_removed agent_id)
      else moved agent_id (tombstone_agent_path (h.taken root) agent_id)

  abbrev pub removed_manifest : String → ManifestEntry → M (Unit {0})
  removed_manifest agent_id absent = pure tt
  removed_manifest agent_id here = emit (manifest_removed agent_id)
  removed_manifest agent_id escaped =
      raise (bad_parameter "access manifest path escaped sandboxes state directory")

  -- `_remove_access_manifest_state`
  unfoldable pub remove_access_manifest_state : String → M (Unit {0})
  unfolding is_valid_agent_id
  remove_access_manifest_state agent_id =
      if is_valid_agent_id agent_id
      then removed_manifest agent_id (h.manifest agent_id)
      else raise (bad_parameter "invalid agent id for access manifest cleanup")

  abbrev pub select_found : FilePath → Bool → Option String → M (Option String)
  select_found root force_new none = pure none
  select_found root false (some agent_id) = pure (some agent_id)
  select_found root true (some agent_id) = do
    remove_persistent_agent root agent_id
    remove_access_manifest_state agent_id
    pure none

  -- `_select_persistent_sandbox`: the id of the sandbox that is used again
  unfoldable pub select_persistent_sandbox : Option FilePath → Bool → M (Option String)
  unfolding find_persistent_agent_id remove_persistent_agent remove_access_manifest_state
  select_persistent_sandbox none force_new = pure none
  select_persistent_sandbox (some root) force_new =
      select_found root force_new (find_persistent_agent_id (h.hub root))

  abbrev pub id_or_new : Option String → String
  id_or_new none = h.new_id
  id_or_new (some agent_id) = if agent_id == "" then h.new_id else agent_id

  -- `client.register_agent`
  unfoldable pub register_agent : Option String → M String
  register_agent persistent =
      if h.registers (id_or_new persistent)
      then (emit (registered (id_or_new persistent)) >> pure (id_or_new persistent))
      else raise failed

  -- `_record_persistent_sandbox`
  abbrev pub record_persistent_sandbox : Option FilePath → String → M (Unit {0})
  record_persistent_sandbox none agent_id = pure tt
  record_persistent_sandbox (some root) agent_id = emit (marker_written agent_id)

  -- the metadata are refused for an id that is not valid
  abbrev pub write_metadata : String → Option String → M (Unit {0})
  write_metadata agent_id name =
      if is_valid_agent_id agent_id then emit (metadata_written agent_id name) else raise failed

  -- a directory of the overlay
  abbrev pub make_directory : FilePath → M (Unit {0})
  make_directory path =
      if h.places.is_symlink path
      then raise (bad_parameter "persistent sandbox path cannot be a symlink")
      else emit (made_directory path)

  abbrev pub overlay_in : FilePath → String → M (Option (FilePath × FilePath))
  overlay_in root agent_id = do
    let agent_dir = root ++ ".bubblehub" ∷ "agents" ∷ agent_id ∷ []
    let overlay = agent_dir ++ "overlay" ∷ []
    let upper = overlay ++ "upper" ∷ []
    let work = overlay ++ "work" ∷ []
    make_directory agent_dir
    make_directory overlay
    make_directory upper
    make_directory work
    pure (some (h.places.files.resolve upper, h.places.files.resolve work))

  -- `_prepare_overlay_paths`
  unfoldable pub prepare_overlay_paths :
      Option FilePath → String → Option FilePath → M (Option (FilePath × FilePath))
  unfolding is_valid_agent_id
  prepare_overlay_paths (some root) agent_id (some rootfs) =
      if is_valid_agent_id agent_id
      then overlay_in root agent_id
      else raise (bad_parameter "invalid agent id for persistent overlay")
  prepare_overlay_paths _ agent_id _ = pure none

  abbrev pub put_given : Dict String → String → Option String → Dict String
  put_given env k none = env
  put_given env k (some v) = Dict.put env k v

  -- `if os.environ.get(k): env[k] = os.environ[k]`
  abbrev pub copied : Dict String → String → Dict String
  copied env k = let v = text_at h.places.environ k in if v == "" then env else Dict.put env k v

  abbrev pub shown : Option FilePath → Option String
  shown none = none
  shown (some path) = some (h.places.show path)

  -- the environment before the endpoint is known
  unfoldable pub agent_env : String → Option String → ℤ → Bool → Dict String
  unfolding Dict.put Dict.get show_int show_nat bubblehub_site_packages
  agent_env agent_id name niceness has_rootfs =
      let environ = h.places.environ in
      let env = Dict.put [] "BUBBLEHUB_AGENT_ID" agent_id in
      let env = put_given env "BUBBLEHUB_AGENT_NAME" name in
      let env = Dict.put env "BUBBLEHUB_NICENESS" (show_int niceness) in
      let env = Dict.put env "BUBBLEHUB_HOST_UID" (show_nat h.uid) in
      let env = Dict.put env "BUBBLEHUB_HOST_GID" (show_nat h.gid) in
      let env = Dict.put env "BUBBLEHUB_LOG_FILE" (text_at environ "BUBBLEHUB_LOG_FILE") in
      let env = Dict.put env "BUBBLEHUB_LOG_LEVEL" (text_at environ "BUBBLEHUB_LOG_LEVEL") in
      let env =
        Dict.put env "BUBBLEHUB_ENABLE_SECCOMP" (text_at environ "BUBBLEHUB_ENABLE_SECCOMP") in
      let env = copied env "BUBBLEHUB_STATE_DIR" in
      let env = copied env "XDG_STATE_HOME" in
      let env = copied env "HOME" in
      let env = copied env "BUBBLEHUB_SANDBOX_HELPER" in
      let env = copied env "LD_LIBRARY_PATH" in
      let env = put_given env "BUBBLEHUB_PYTHONPATH" (shown (bubblehub_site_packages h.places)) in
      if has_rootfs then Dict.put env "BUBBLEHUB_ROOTFS_RELEASE" "ubuntu-26.04" else env

  abbrev pub memory_of : Limit → M ℤ
  memory_of (bytes n) = pure n
  memory_of empty_limit = raise (bad_parameter "memory limit cannot be empty")
  memory_of invalid_limit = raise (bad_parameter "invalid memory limit")

  -- `_run_native_sandbox`: the exit code
  abbrev pub start_sandbox : Launch → M ℤ
  start_sandbox launch = emit (launched launch) >> given failed (h.sandbox launch)
