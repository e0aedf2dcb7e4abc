-- ===== src/Api.antt =====
-- The control API, bubblehub/app/api.py: which handler a request reaches, and what the handlers of
-- POST change. The agents and the user's models.yaml are those of Agents and Models. The parts of a
-- URL that `urllib` gives and `Path(path).name` come with the request; the scheduler, the native
-- library and the files are fields of `Server`. The socket server is not modelled.
pub mod Handler
pub mod Pages
pub mod Laws
pub mod Forgets
mod Examples
use Prim.Native.Char.{code}
use Prim.Native.String.{[], ◌∷◌}
use bubble_hub.Prelude.{
  ℕ, zero, suc, ◌-◌, String, Bool, true, false, not, ◌&&◌, ◌||◌, Option, none, some, List, [], ◌∷◌,
  ◌==◌, nat_eq, string_eq, if◌then◌else◌, any,
}
use bubble_hub.Prelude.Dict.{Dict}
use bubble_hub.Prelude.Int.{ℤ}
use bubble_hub.Prelude.Text.{strip_prefix, starts_with, rstrip_slash}
use bubble_hub.Value.{Value}
use bubble_hub.Agents
use bubble_hub.Telemetry.{Snapshot, Floats}
use bubble_hub.Telemetry.Proc.{ProcFiles}
use bubble_hub.Models.Overview.{View}
use bubble_hub.Models

-- an access policy that was applied, with the texts that came with it
pub record Applied : Type 0 where
  pub agent_id : String
  pub kind : String
  pub subject : String
  pub method : String
  pub path : String
  pub policy : String

-- what the handlers change; the newest policy and the newest eviction stand first
pub record State (Text : Type 0) : Type 0 where
  pub agents : Agents.State
  pub file : Option Text
  pub applied : List Applied
  pub evicted : List String

-- an exception that is no `ValueError`
pub data Crash : Type 0 where
  of_agents : Agents.Failure → Crash
  of_models : Models.Failure → Crash
  native_error : String → Crash
  file_not_found : String → Crash
  other : String → Crash

pub data Result {ℓ} (A : Type ℓ) : Type ℓ where
  done : A → Result A
  value_error : String → Result A
  crashed : Crash → Result A

-- the bodies of the answers with status 200
pub data Payload : Type 0 where
  health : Payload
  static icon : String → Payload
  telemetry : Snapshot → Payload
  models : Dict Value → Payload
  pending : List (Dict Value) → Payload
  manifest : String → Value → Payload
  stopped : String → Agents.Stopped → Payload
  deleted : String → Agents.Deleted → Payload
  selection : String → String → Payload
  evictions : List String → Payload

pub data Response : Type 0 where
  json : Payload → Response
  error : ℕ → String → String → Response

pub record Request : Type 0 where
  pub path : String
  -- `parse_qs(query).get("speciality")`, its first value
  pub speciality : Option String
  -- `Path(path).name`
  pub name : String
  pub content_length : Option String
  -- what `json.loads` makes of so many bytes of the body, `none` where it or the decoding fails
  pub body : ℤ → Option Value

pub record Server (Text : Type 0) : Type 0 where
  pub speciality : String
  pub host : Agents.Host
  pub yaml : Models.Yaml Text
  -- the packaged models.yaml, and the file that BUBBLEHUB_MODELS_CONFIG names
  pub base : Dict Value
  pub explicit : Option Value
  pub unquote : String → String
  -- `str(exc)`
  pub describe : Crash → String
  -- a native call fails with this message
  pub snapshot : Agents.State → Option (Dict Value)
  pub status_models : Option (List Value)
  pub access_pending : Option Value
  pub access_manifest : String → Option Value
  pub applies : Applied → Bool
  pub evicts : String → Bool
  -- what the telemetry and the models' page read and show of the machine
  pub proc : ProcFiles Value
  pub floats : Floats Value
  pub leads : String → Bool
  pub view : View
  pub has_static : String → Bool
  pub has_icon : String → Bool

unfoldable pub lstrip_slash : String → String
lstrip_slash [] = []
lstrip_slash (c ∷ s) = let rest = lstrip_slash s in if code c == 47 then rest else c ∷ s

-- `path.rstrip("/") or "/"`
unfoldable pub route_path : String → String
unfolding rstrip_slash
route_path path = if rstrip_slash path == "" then "/" else rstrip_slash path

unfoldable pub ends_with : String → String → Bool
ends_with [] suffix = suffix == ""
ends_with (c ∷ s) suffix = let later = ends_with s suffix in (c ∷ s) == suffix || later

abbrev pub size : String → ℕ
size [] = 0
size (c ∷ s) = suc (size s)

unfoldable pub take_chars : ℕ → String → String
take_chars zero s = ""
take_chars (suc n) [] = ""
take_chars (suc n) (c ∷ s) = c ∷ take_chars n s

-- `s[:-len(suffix)]`
abbrev pub without_last : String → String → String
without_last s suffix = take_chars (size s - size suffix) s

abbrev pub checked_id : String → Result String
checked_id agent_id = if agent_id == "" then value_error "agent id is required" else done agent_id

abbrev pub id_in : (String → String) → String → Option String → Bool → Result String
id_in unquote suffix (some rest) true =
    checked_id (rstrip_slash (lstrip_slash (unquote (without_last rest suffix))))
id_in unquote suffix _ _ = value_error "invalid agent manifest path"

-- `_agent_id_from_path`
unfoldable pub agent_id_from_path : (String → String) → String → String → Result String
unfolding strip_prefix ends_with rstrip_slash lstrip_slash take_chars
agent_id_from_path unquote path suffix =
    id_in unquote suffix (strip_prefix "/api/agents/" path) (ends_with path suffix)

-- `_send_error`, with `status.phrase.lower().replace(" ", "_")`
abbrev pub bad_request : String → Response
bad_request message = error 400 "bad_request" message

abbrev pub not_found : String → Response
not_found message = error 404 "not_found" message

abbrev pub bad_gateway : String → Response
bad_gateway message = error 502 "bad_gateway" message
