-- ===== src/Log.antt =====
-- The global log options and levels, bubblehub/log.py.
pub mod Options
mod Examples
use bubble_hub.Prelude.{
  String, Bool, true, false, ◌||◌, Option, none, some, List, [], ◌∷◌, ◌++◌, ◌==◌, string_eq,
  if◌then◌else◌, ℕ, leb,
}
use bubble_hub.Prelude.Text.{strip, lower, strip_prefix}

-- What `extract_global_log_options` returns, or the option that lacks its value.
pub record Extracted : Type 0 where
  pub cleaned : List String
  pub log_level : Option String
  pub log_file : Option String

pub data Result : Type 0 where
  ok : Extracted → Result
  requires_value requires_path : Result

-- what one argument is to the loop
pub data Kind : Type 0 where
  separator level_option file_option other : Kind
  level_value file_value : String → Kind

abbrev file_kind : Option String → Kind
file_kind none = other
file_kind (some path) = file_value path

abbrev level_kind : Option String → String → Kind
level_kind (some level) arg = level_value level
level_kind none arg =
    if arg == "--log-file" then file_option else file_kind (strip_prefix "--log-file=" arg)

-- the tests of the loop, in their order
unfoldable pub kind : String → Kind
unfolding strip_prefix
kind arg =
    if arg == "--"
    then separator
    else if arg == "--log-level"
    then level_option
    else level_kind (strip_prefix "--log-level=" arg) arg

-- The loop, from the arguments that are left; `pending` is an option that waits for its value.
pub data Pending : Type 0 where
  ready await_level await_file : Pending

unfoldable pub extract_from : Pending → Extracted → List String → Result
unfolding kind
extract_from ready e [] = ok e
extract_from await_level e [] = requires_value
extract_from await_file e [] = requires_path
extract_from await_level e (value ∷ argv) =
    extract_from ready (record e { log_level = some value }) argv
extract_from await_file e (path ∷ argv) =
    extract_from ready (record e { log_file = some path }) argv
extract_from ready e (arg ∷ argv) = elim (kind arg) [
  | separator ↦ ok (record e { cleaned = e.cleaned ++ arg ∷ argv })
  | level_option ↦ extract_from await_level e argv
  | file_option ↦ extract_from await_file e argv
  | level_value value ↦ extract_from ready (record e { log_level = some value }) argv
  | file_value path ↦ extract_from ready (record e { log_file = some path }) argv
  | other ↦ extract_from ready (record e { cleaned = e.cleaned ++ arg ∷ [] }) argv
]

unfoldable pub extract_global_log_options : List String → Result
unfolding extract_from
extract_global_log_options argv =
    extract_from ready (record { cleaned = []; log_level = none; log_file = none }) argv

pub data LogLevel : Type 0 where
  error info debug : LogLevel

abbrev pub rank : LogLevel → ℕ
rank error = 0
rank info = 1
rank debug = 2

abbrev pub level_name : LogLevel → String
level_name error = "error"
level_name info = "info"
level_name debug = "debug"

-- the level that `configure_logging` takes from a text
unfoldable pub level_of : String → LogLevel
level_of raw = if raw == "debug" then debug else if raw == "info" then info else error

-- `level or os.environ.get("BUBBLEHUB_LOG_LEVEL", "error")`
abbrev raw_level : Option String → Option String → String
raw_level (some level) env =
    if level == "" then (elim env [ none ↦ "error" | some e ↦ e ]) else level
raw_level none env = elim env [ none ↦ "error" | some e ↦ e ]

-- the level of `configure_logging`; its name is what the environment variable is set to
unfoldable pub configured_level : Option String → Option String → LogLevel
unfolding level_of
configured_level level env = level_of (lower (strip (raw_level level env)))

-- the module's globals
pub record State : Type 0 where
  pub current_level : LogLevel
  pub configured : Bool
  pub level_env : Option String

unfoldable pub configure_logging : Option String → State → State
configure_logging level s =
    let resolved = configured_level level s.level_env in
    record { current_level = resolved; configured = true; level_env = some (level_name resolved) }

abbrev pub is_error : LogLevel → Bool
is_error error = true
is_error _ = false

-- `_should_emit`: an error is always written, and else the level is read from the environment once
unfoldable pub should_emit : LogLevel → State → Bool × State
unfolding configure_logging
should_emit level s =
    if is_error level
    then (true, s)
    else let t = if s.configured then s else configure_logging none s in
      (leb (rank level) (rank t.current_level), t)
