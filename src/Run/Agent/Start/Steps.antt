-- ===== src/Run/Agent/Start/Steps.antt =====
-- The steps of `run_agent`, bubblehub/cli/run.py, launch nothing before the `try`.
use bubble_hub.Prelude.{
  String, Bool, true, false, not, Option, none, some, ◌≡◌, refl, ◌∷◌, if◌then◌else◌,
}
use bubble_hub.Agents.{is_valid_agent_id}
use bubble_hub.Run.Persistent.{find_persistent_agent_id, tombstone_agent_path}
use bubble_hub.Run.Agent.{
  Event, Event.manifest_made, Event.called, Event.launched, Stop, Result, ok, stop, Options, Host,
  Trace, M, continue, ◌>>=◌, pure, raise, emit, given, of_paths, remove_persistent_agent,
  remove_access_manifest_state, select_persistent_sandbox, register_agent,
  record_persistent_sandbox, write_metadata, prepare_overlay_paths, moved, removed_manifest,
  select_found, make_directory, overlay_in, id_or_new, ManifestEntry, absent, here, escaped,
  sandbox_removed, manifest_removed, registered, marker_written, sandbox_moved, metadata_written,
  made_directory,
}
use bubble_hub.Run.Agent.Start.{prepare_agent}
use bubble_hub.Run.Paths.{FilePath}
use bubble_hub.Run.Paths

-- an event before the launch
abbrev pub Quiet : Event → Type 0
Quiet (launched launch) = ⊥
Quiet (called args cwd env) = ⊥
Quiet _ = Unit

-- `m` keeps what `P` says of the events, also where it raises
pub record Adds {ℓ} (P : Trace → Type 0) {A : Type ℓ} (m : M A) : Type ℓ where
  pub adds : (events : Trace) → P events → P (m events).1

module _ (P : Trace → Type 0) where
  pub Adds-continue {ℓ μ} :
      {A : Type ℓ} {B : Type μ} (f : A → M B)
      → ((a : A) → Adds P (f a))
      → (x : Result A × Trace) → P x.1
      → P (continue f x).1
  Adds-continue f next (ok a, later) p = (next a).adds later p
  Adds-continue f next (stop e, later) p = p

  pub Adds-bind {ℓ μ} :
      {A : Type ℓ} {B : Type μ} {m : M A} {f : A → M B}
      → Adds P m
      → ((a : A) → Adds P (f a))
      → Adds P (m >>= f)
  unfolding ◌>>=◌
  Adds-bind {m = m} {f} h next = record {
    adds = λ events p. Adds-continue f next (m events) (h.adds events p);
  }

  pub Adds-pure {ℓ} : {A : Type ℓ} (a : A) → Adds P (pure a)
  unfolding pure
  Adds-pure a = record { adds = λ events p. p }

  pub Adds-raise {ℓ} : {A : Type ℓ} (e : Stop) → Adds P (raise {A = A} e)
  unfolding raise
  Adds-raise e = record { adds = λ events p. p }

  pub Adds-emit :
      {event : Event} → ((events : Trace) → P events → P (event ∷ events)) → Adds P (emit event)
  unfolding emit
  Adds-emit q = record { adds = q }

  pub Adds-given {ℓ} : {A : Type ℓ} (e : Stop) (a : Option A) → Adds P (given e a)
  Adds-given e none = Adds-raise _
  Adds-given e (some a) = Adds-pure _

  pub Adds-of_paths {ℓ} : {A : Type ℓ} (r : Paths.Result A) → Adds P (of_paths r)
  Adds-of_paths (Paths.Result.ok a) = Adds-pure _
  Adds-of_paths (Paths.Result.refused r) = Adds-raise _

  pub Adds-if {ℓ} :
      {A : Type ℓ} (b : Bool) {m n : M A} → Adds P m → Adds P n → Adds P (if b then m else n)
  Adds-if true adds adds' = adds
  Adds-if false adds adds' = adds'

  pub Adds-if_eq {ℓ} :
      {A : Type ℓ} (b : Bool) {m n : M A}
      → (b ≡ true → Adds P m)
      → (b ≡ false → Adds P n)
      → Adds P (if b then m else n)
  Adds-if_eq true adds adds' = adds refl
  Adds-if_eq false adds adds' = adds' refl

  pub Adds-pure_bind {ℓ μ} :
      {A : Type ℓ} {B : Type μ} (a : A) (f : A → M B) → Adds P (f a) → Adds P (pure a >>= f)
  unfolding ◌>>=◌ pure
  Adds-pure_bind a f h = record { adds = h.adds }

  pub Adds-raise_bind {ℓ μ} :
      {A : Type ℓ} {B : Type μ} (e : Stop) (f : A → M B) → Adds P (raise e >>= f)
  unfolding ◌>>=◌ raise
  Adds-raise_bind e f = record { adds = λ events p. p }

-- the steps before the launch
module _ (P : Trace → Type 0)
    (quiet : (event : Event) → Quiet event → (events : Trace) → P events → P (event ∷ events))
    (h : Host) where
  moved-Adds : (agent_id : String) (name : Option String) → Adds P (moved h agent_id name)
  moved-Adds agent_id none = Adds-raise P _
  moved-Adds agent_id (some name) = Adds-emit P (quiet (sandbox_moved agent_id name) tt)

  remove_persistent_agent-Adds :
      (root : FilePath) (agent_id : String) → Adds P (remove_persistent_agent h root agent_id)
  unfolding remove_persistent_agent
  remove_persistent_agent-Adds root agent_id =
      Adds-if P (not (h.stays root agent_id)) (Adds-raise P _) (
        Adds-if P (h.deletes root agent_id) (Adds-emit P (quiet (sandbox_removed agent_id) tt))
          (moved-Adds agent_id (tombstone_agent_path (h.taken root) agent_id)))

  removed_manifest-Adds :
      (agent_id : String) (entry : ManifestEntry) → Adds P (removed_manifest h agent_id entry)
  removed_manifest-Adds agent_id absent = Adds-pure P _
  removed_manifest-Adds agent_id here = Adds-emit P (quiet (manifest_removed agent_id) tt)
  removed_manifest-Adds agent_id escaped = Adds-raise P _

  remove_access_manifest_state-Adds :
      (agent_id : String) → Adds P (remove_access_manifest_state h agent_id)
  unfolding remove_access_manifest_state
  remove_access_manifest_state-Adds agent_id =
      Adds-if P (is_valid_agent_id agent_id) (removed_manifest-Adds agent_id (h.manifest agent_id))
        (Adds-raise P _)

  select_found-Adds :
      (root : FilePath) (force_new : Bool) (found : Option String)
      → Adds P (select_found h root force_new found)
  select_found-Adds root force_new none = Adds-pure P _
  select_found-Adds root false (some agent_id) = Adds-pure P _
  select_found-Adds root true (some agent_id) =
      Adds-bind P (remove_persistent_agent-Adds root agent_id)
        λ _. Adds-bind P (remove_access_manifest_state-Adds agent_id) λ _. Adds-pure P _

  pub select_persistent_sandbox-Adds :
      (root : Option FilePath) (force_new : Bool)
      → Adds P (select_persistent_sandbox h root force_new)
  unfolding select_persistent_sandbox
  select_persistent_sandbox-Adds none force_new = Adds-pure P _
  select_persistent_sandbox-Adds (some root) force_new =
      select_found-Adds root force_new (find_persistent_agent_id (h.hub root))

  register_agent-Adds : (persistent : Option String) → Adds P (register_agent h persistent)
  unfolding register_agent
  register_agent-Adds persistent =
      let agent_id = id_or_new h persistent in
      Adds-if P (h.registers agent_id)
        (Adds-bind P (Adds-emit P (quiet (registered agent_id) tt)) λ _. Adds-pure P _)
        (Adds-raise P _)

  pub record_persistent_sandbox-Adds :
      (root : Option FilePath) (agent_id : String)
      → Adds P (record_persistent_sandbox h root agent_id)
  record_persistent_sandbox-Adds none agent_id = Adds-pure P _
  record_persistent_sandbox-Adds (some root) agent_id =
      Adds-emit P (quiet (marker_written agent_id) tt)

  pub write_metadata-Adds :
      (agent_id : String) (name : Option String) → Adds P (write_metadata h agent_id name)
  write_metadata-Adds agent_id name =
      Adds-if P (is_valid_agent_id agent_id)
        (Adds-emit P (quiet (metadata_written agent_id name) tt)) (Adds-raise P _)

  make_directory-Adds : (path : FilePath) → Adds P (make_directory h path)
  make_directory-Adds path =
      Adds-if P (h.places.is_symlink path) (Adds-raise P _)
        (Adds-emit P (quiet (made_directory path) tt))

  overlay_in-Adds : (root : FilePath) (agent_id : String) → Adds P (overlay_in h root agent_id)
  overlay_in-Adds root agent_id = Adds-bind P (make_directory-Adds _) λ _.
      Adds-bind P (make_directory-Adds _) λ _.
        Adds-bind P (make_directory-Adds _)
          λ _. Adds-bind P (make_directory-Adds _) λ _. Adds-pure P _

  pub prepare_overlay_paths-Adds :
      (root : Option FilePath) (agent_id : String) (rootfs : Option FilePath)
      → Adds P (prepare_overlay_paths h root agent_id rootfs)
  unfolding prepare_overlay_paths
  prepare_overlay_paths-Adds none agent_id none = Adds-pure P _
  prepare_overlay_paths-Adds none agent_id (some rootfs) = Adds-pure P _
  prepare_overlay_paths-Adds (some root) agent_id none = Adds-pure P _
  prepare_overlay_paths-Adds (some root) agent_id (some rootfs) =
      Adds-if P (is_valid_agent_id agent_id) (overlay_in-Adds root agent_id) (Adds-raise P _)

  pub prepare_agent-Adds : (o : Options) → Adds P (prepare_agent h o)
  unfolding prepare_agent
  prepare_agent-Adds o = Adds-bind P (Adds-of_paths P _) λ paths.
      Adds-bind P (Adds-given P _ _) λ rootfs. Adds-bind P (Adds-given P _ _) λ binary.
        Adds-bind P (select_persistent_sandbox-Adds _ _) λ persistent.
          Adds-bind P (register_agent-Adds persistent) λ agent_id.
            Adds-bind P (record_persistent_sandbox-Adds _ agent_id) λ _.
              Adds-bind P (write_metadata-Adds agent_id _) λ _.
                Adds-bind P (Adds-of_paths P _) λ prepared.
                  Adds-bind P (prepare_overlay_paths-Adds _ agent_id rootfs) λ overlay.
                    Adds-bind P (Adds-emit P (quiet (manifest_made agent_id) tt))
                      λ _. Adds-bind P (Adds-given P _ _) λ endpoint. Adds-pure P _
