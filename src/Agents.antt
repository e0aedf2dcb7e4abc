-- ===== src/Agents.antt =====
-- The host's agents, bubblehub/app/agents.py: their metadata files, access manifests and persistent
-- sandboxes, and how an agent is stopped and deleted. The scheduler's `deregister_agent` and
-- `os.kill` are arguments; that a file or a directory cannot be deleted is not modelled.
pub mod Kept
pub mod Laws
pub mod Views
pub mod Known
pub mod Shown
mod Examples
use Prim.Native.Char.{Char, code}
use Prim.Native.String.{[], ◌∷◌}
use bubble_hub.Prelude.{
  ℕ, String, Bool, true, false, not, ◌&&◌, ◌||◌, Option, none, some, List, [], ◌∷◌, ◌==◌, nat_eq,
  string_eq, if◌then◌else◌, leb,
}
use bubble_hub.Prelude.Dict.{Dict}
use bubble_hub.Prelude.Dict
use bubble_hub.Prelude.Int.{ℤ, pos, is_positive}
use bubble_hub.Prelude.Text.{strip_prefix, strip, concat, is_digit}
use bubble_hub.Value.{
  Value, dict, str, to_dict, get, truthy, ◌or◌, str_of, Conversion, number, type_or_value_error,
  overflow_error, int_of,
}

-- `[A-Za-z0-9_-]`
abbrev pub is_id_char : Char → Bool
is_id_char c =
    let n = code c in
    leb 65 n && leb n 90 || leb 97 n && leb n 122 || is_digit c || n == 95 || n == 45

unfoldable pub are_id_chars : String → Bool
are_id_chars [] = true
are_id_chars (c ∷ s) = is_id_char c && are_id_chars s

abbrev is_id_tail : Option String → Bool
is_id_tail none = false
is_id_tail (some s) = not (s == "") && are_id_chars s

-- `_AGENT_ID_RE.fullmatch(agent_id)`
unfoldable pub is_valid_agent_id : String → Bool
unfolding strip_prefix are_id_chars
is_valid_agent_id agent_id = is_id_tail (strip_prefix "agt-" agent_id)

-- `.bubblehub/agents/<name>` of a root; `stays` says that it resolves to a child of the directory
pub record AgentDir : Type 0 where
  pub is_dir : Bool
  pub is_symlink : Bool
  pub home_is_dir : Bool
  pub home_is_symlink : Bool
  pub stays : Bool

-- `.bubblehub` of a root; `marker` is the text of `current-agent`, if it can be read
pub record Home : Type 0 where
  pub marker : Option String
  pub agents : Dict AgentDir

-- `sandboxes/<name>` of the state directory
pub data Manifest : Type 0 where
  directory symlink : Manifest

-- What the functions read and write. A metadata file has what `json.loads` makes of it, `none`
-- where it cannot be read or parsed; the scheduler's agents are the snapshot's list.
pub record State : Type 0 where
  pub metadata : Dict (Option Value)
  pub manifests : Dict Manifest
  pub homes : Dict Home
  pub agents : List Value
  pub signalled : List ℤ

pub data Failure : Type 0 where
  value_error : String → Failure
  overflow permission : Failure

pub data Result {ℓ} (A : Type ℓ) : Type ℓ where
  ok : A → Result A
  raise : Failure → Result A

-- what an operation leaves behind, also where it raises
abbrev pub Outcome : Type 0 → Type 0
Outcome A = State × Result A

abbrev pub and_then : {A B : Type 0} → Outcome A → (A → State → Outcome B) → Outcome B
and_then (s, ok a) f = f a s
and_then (s, raise e) f = (s, raise e)

pub data Kill : Type 0 where
  sent no_process not_permitted : Kill

-- what the operations call
pub record Host : Type 0 where
  pub deregister : String → List Value → List Value
  pub kill : ℤ → Kill
  pub repr : Value → String

abbrev pub object_or_empty : Option (Option Value) → Dict Value
object_or_empty (some (some (dict fs))) = to_dict fs
object_or_empty _ = []

unfoldable pub read_agent_metadata : State → String → Dict Value
unfolding is_valid_agent_id Dict.get
read_agent_metadata s agent_id =
    if is_valid_agent_id agent_id then object_or_empty (Dict.get s.metadata agent_id) else []

abbrev pub is_text : String → Value → Bool
is_text t (str s) = s == t
is_text t _ = false

-- `isinstance(item, dict) and item.get("agent_id") == agent_id`
abbrev pub is_agent : String → Value → Bool
is_agent agent_id (dict fs) = is_text agent_id (get (to_dict fs) "agent_id")
is_agent agent_id _ = false

unfoldable pub agent_from_snapshot : String → List Value → Option Value
unfolding get
agent_from_snapshot agent_id [] = none
agent_from_snapshot agent_id (item ∷ agents) =
    if is_agent agent_id item then some item else agent_from_snapshot agent_id agents

abbrev pub field_of : Value → String → Value
field_of (dict fs) k = get (to_dict fs) k
field_of v k = v

-- `_int_or_zero`, which lets an `OverflowError` pass
abbrev pub int_or_zero : Conversion → Result ℤ
int_or_zero (number n) = ok n
int_or_zero type_or_value_error = ok (pos 0)
int_or_zero overflow_error = raise overflow

pub record Stopped : Type 0 where
  pub pid : ℤ
  pub stopped : Bool

pub record Deleted : Type 0 where
  pub root_dir : String
  pub deleted : Bool
  pub manifest_deleted : Bool

abbrev pub is_persistent_agent_dir : String → Option AgentDir → Bool
is_persistent_agent_dir name none = false
is_persistent_agent_dir name (some d) =
    d.is_dir && not d.is_symlink && is_valid_agent_id name && d.home_is_dir && not d.home_is_symlink

abbrev pub home_or_empty : Option Home → Home
home_or_empty none = record { marker = none; agents = [] }
home_or_empty (some h) = h

abbrev pub home_at : State → String → Home
home_at s root = home_or_empty (Dict.get s.homes root)

abbrev pub put_home : State → String → Home → State
put_home s root h = record s { homes = Dict.put s.homes root h }

abbrev remove_dir : State → String → Home → String → Option AgentDir → Outcome Bool
remove_dir s root h agent_id none = (s, ok false)
remove_dir s root h agent_id (some d) =
    if is_persistent_agent_dir agent_id (some d)
    then (if d.stays
        then (put_home s root (record h { agents = Dict.remove h.agents agent_id }), ok true)
        else (s, raise (value_error "persistent sandbox path escaped .bubblehub/agents")))
    else (s, ok false)

unfoldable pub remove_persistent_agent : State → String → String → Outcome Bool
unfolding Dict.get Dict.put Dict.remove is_valid_agent_id
remove_persistent_agent s root agent_id =
    remove_dir s root (home_at s root) agent_id (Dict.get (home_at s root).agents agent_id)

abbrev marker_is : String → Option String → Bool
marker_is agent_id none = false
marker_is agent_id (some text) = strip text == agent_id

unfoldable pub remove_current_agent_marker : State → String → String → State
unfolding Dict.get Dict.put strip
remove_current_agent_marker s root agent_id =
    let h = home_at s root in
    if marker_is agent_id h.marker then put_home s root (record h { marker = none }) else s

abbrev drop_manifest : State → String → Option Manifest → State × Bool
drop_manifest s agent_id (some directory) =
    (record s { manifests = Dict.remove s.manifests agent_id }, true)
drop_manifest s agent_id _ = (s, false)

unfoldable pub remove_access_manifest : State → String → State × Bool
unfolding Dict.get Dict.remove
remove_access_manifest s agent_id = drop_manifest s agent_id (Dict.get s.manifests agent_id)

abbrev pub removed_dir : State → String → String → Outcome Bool
removed_dir s root agent_id =
    if root == "" then (s, ok false) else remove_persistent_agent s root agent_id

abbrev pub removed_marker : State → String → String → State
removed_marker s root agent_id =
    if root == "" then s else remove_current_agent_marker s root agent_id

-- what `delete_agent` does once the agent is stopped and its directory removed
abbrev pub delete_rest : String → String → Bool → State → Outcome Deleted
delete_rest root agent_id deleted s =
    let (t, manifest_deleted) = remove_access_manifest s agent_id in
    let u = removed_marker t root agent_id in
    (
      record u { metadata = Dict.remove u.metadata agent_id },
      ok (record { root_dir = root; deleted = deleted; manifest_deleted = manifest_deleted }),
    )

module _ (host : Host) where
  abbrev deregistered : State → String → State
  deregistered s agent_id = record s { agents = host.deregister agent_id s.agents }

  abbrev killed : State → String → ℤ → Kill → Outcome Stopped
  killed s agent_id pid sent =
      let t = record s { signalled = pid ∷ s.signalled } in
      (deregistered t agent_id, ok (record { pid = pid; stopped = true }))
  killed s agent_id pid no_process =
      (deregistered s agent_id, ok (record { pid = pid; stopped = false }))
  killed s agent_id pid not_permitted = (s, raise permission)

  abbrev stop_pid : State → String → Result ℤ → Outcome Stopped
  stop_pid s agent_id (raise e) = (s, raise e)
  stop_pid s agent_id (ok pid) =
      if is_positive pid
      then killed s agent_id pid (host.kill pid)
      else killed s agent_id pid no_process

  abbrev pub stop_found : State → String → Option Value → Outcome Stopped
  stop_found s agent_id none =
      (s, raise (value_error (concat ("agent not found: " ∷ agent_id ∷ []))))
  stop_found s agent_id (some agent) =
      stop_pid s agent_id (int_or_zero (int_of (field_of agent "pid")))

  unfoldable pub stop_agent : State → String → Outcome Stopped
  unfolding is_valid_agent_id agent_from_snapshot
  stop_agent s agent_id =
      if is_valid_agent_id agent_id
      then stop_found s agent_id (agent_from_snapshot agent_id s.agents)
      else (s, raise (value_error (concat ("invalid agent id: " ∷ agent_id ∷ []))))

  -- `str(metadata.get("root_dir") or "")`
  abbrev pub root_of : State → String → String
  root_of s agent_id = str_of host.repr (get (read_agent_metadata s agent_id) "root_dir" or str "")

  abbrev pub stop_if_running : State → String → Outcome (Unit {0})
  stop_if_running s agent_id = elim (agent_from_snapshot agent_id s.agents) [
    | none ↦ (s, ok tt)
    | some a ↦ and_then (stop_agent s agent_id) (λ stopped t. (t, ok tt))
  ]

  -- what `delete_agent` does once the agent is stopped
  unfoldable pub delete_stopped : String → State → Outcome Deleted
  unfolding read_agent_metadata remove_persistent_agent remove_access_manifest
      remove_current_agent_marker
  delete_stopped agent_id s =
      let root = root_of s agent_id in
      and_then (removed_dir s root agent_id) (delete_rest root agent_id)

  unfoldable pub delete_agent : State → String → Outcome Deleted
  delete_agent s agent_id =
      if is_valid_agent_id agent_id
      then and_then (stop_if_running s agent_id) (λ _ t. delete_stopped agent_id t)
      else (s, raise (value_error (concat ("invalid agent id: " ∷ agent_id ∷ []))))
