-- ===== src/Inference.antt =====
-- The shared inference endpoint, bubblehub/inference.py: its configuration, how it is started and
-- waited for, and the variables that an agent gets. The configuration file as a dict, the health
-- checks and the start of the daemon are arguments.
pub mod Laws
mod Examples
use bubble_hub.Prelude.{
  ℕ, zero, suc, String, Bool, true, false, not, ◌||◌, Option, none, some, List, [], ◌∷◌, ◌==◌,
  string_eq, if◌then◌else◌,
}
use bubble_hub.Prelude.Dict.{Dict}
use bubble_hub.Prelude.Dict
use bubble_hub.Prelude.Int.{ℤ, pos, is_positive}
use bubble_hub.Prelude.Text.{concat, show_int}
use bubble_hub.Value.{
  Value, str, dict, to_dict, get, ◌or◌, str_of, Conversion, number, type_or_value_error,
  overflow_error, int_of,
}
use bubble_hub.Run.Environment.{append_no_proxy, text_at}

pub record InferenceConfig : Type 0 where
  pub host : String
  pub port : ℤ
  pub default_specialty : String

pub data Result {ℓ} (T : Type ℓ) : Type ℓ where
  overflow unhealthy : Result T
  ok : T → Result T

abbrev pub positive_or_none : Conversion → Result (Option ℤ)
positive_or_none (number n) = ok (if is_positive n then some n else none)
positive_or_none type_or_value_error = ok none
positive_or_none overflow_error = overflow

-- `_optional_int`; `int(None)` raises what is caught too
unfoldable pub optional_int : Value → Result (Option ℤ)
unfolding int_of
optional_int v = positive_or_none (int_of v)

-- `os.environ.get(k)`
abbrev pub env_value : Dict String → String → Value
env_value env k = elim (Dict.get env k) [ none ↦ Value.null | some s ↦ str s ]

-- `a or b` on what `_optional_int` returns: `b` is looked at only where `a` gives nothing
abbrev pub or_int : Result (Option ℤ) → Result (Option ℤ) → Result (Option ℤ)
or_int (ok none) later = later
or_int first later = first

abbrev pub or_8000 : Result (Option ℤ) → Result ℤ
or_8000 (ok (some n)) = ok n
or_8000 (ok none) = ok (pos 8000)
or_8000 overflow = overflow
or_8000 unhealthy = unhealthy

abbrev pub port_of : Dict String → Dict Value → Result ℤ
port_of env inference = or_8000 (
    or_int (optional_int (env_value env "BUBBLEHUB_INFERENCE_PORT"))
      (optional_int (get inference "port")))

-- `data.get("inference", {})`, if that is a dict
abbrev pub section_of : Option Value → Dict Value
section_of (some (dict fs)) = to_dict fs
section_of _ = []

-- `a or b` on texts
abbrev pub or_text : String → String → String
or_text a b = if a == "" then b else a

abbrev pub config_at : String → String → Result ℤ → Result InferenceConfig
config_at host specialty (ok port) =
    ok (record { host = host; port = port; default_specialty = specialty })
config_at host specialty overflow = overflow
config_at host specialty unhealthy = unhealthy

-- `load_inference_config`, on the dict that `_load_models_config` returns
unfoldable pub load_inference_config :
    (Value → String) → Dict String → Dict Value → Result InferenceConfig
unfolding optional_int Dict.get get ◌or◌ str_of
load_inference_config repr env config =
    let inference = section_of (Dict.get config "inference") in
    let host =
      or_text (text_at env "BUBBLEHUB_INFERENCE_HOST")
        (str_of repr (get inference "host" or str "127.0.0.1")) in
    let specialty = or_text (text_at env "BUBBLEHUB_INFERENCE_SPECIALTY") (
      or_text (text_at env "BUBBLEHUB_SPECIALITY")
        (str_of repr (get inference "default_specialty" or str "default-instruct"))) in
    config_at host specialty (port_of env inference)

-- `base_url`
unfoldable pub base_url : InferenceConfig → String
unfolding show_int
base_url config = concat ("http://" ∷ config.host ∷ ":" ∷ show_int config.port ∷ [])

abbrev pub counted : Result ℕ → Result ℕ
counted (ok n) = ok (suc n)
counted overflow = overflow
counted unhealthy = unhealthy

-- The rounds of `wait_until_healthy` before its deadline, by what each health check says; the
-- number of checks that were made, or `unhealthy` where it raises.
unfoldable pub wait_until_healthy : List Bool → Result ℕ
wait_until_healthy [] = unhealthy
wait_until_healthy (true ∷ checks) = ok 1
wait_until_healthy (false ∷ checks) = counted (wait_until_healthy checks)

-- what `urlparse` says of a URL; `port` is `none` where reading it raises `ValueError`
pub record Url : Type 0 where
  pub scheme : String
  pub hostname : Option String
  pub port : Option (Option ℤ)

abbrev pub or_host : Option String → String → String
or_host none fallback = fallback
or_host (some host) fallback = or_text host fallback

-- `parsed.port or fallback.port`
abbrev pub or_port : Option ℤ → ℤ → ℤ
or_port none fallback = fallback
or_port (some n) fallback = if is_positive n then n else fallback

abbrev pub with_port : String → String → ℤ → Option (Option ℤ) → Option InferenceConfig
with_port host specialty fallback none = none
with_port host specialty fallback (some port) =
    some (record { host = host; port = or_port port fallback; default_specialty = specialty })

-- `_config_for_base_url`, on what `urlparse` says; `none` where it raises `ValueError`
unfoldable pub config_for_base_url : Option Url → InferenceConfig → Option InferenceConfig
config_for_base_url none fallback = none
config_for_base_url (some parsed) fallback =
    if parsed.scheme == "http" || parsed.scheme == "https" || parsed.scheme == ""
    then with_port (or_host parsed.hostname fallback.host) fallback.default_specialty fallback.port
        parsed.port
    else some fallback

-- how `ensure_inference_endpoint` ends: it returns the URL, or it raises as the parts of the URL
-- are read, as the daemon is started, or as the wait is over
pub data Outcome : Type 0 where
  returned : String → Outcome
  url_error start_error not_healthy : Outcome

abbrev pub waited : String → Result ℕ → Outcome
waited url (ok n) = returned url
waited url overflow = not_healthy
waited url unhealthy = not_healthy

-- The rest of `ensure_inference_endpoint` where the first check fails: the configuration that the
-- daemon is started with, if it comes to that, and how the call ends. `start` says whether `Popen`
-- succeeds.
abbrev pub start_daemon :
    (InferenceConfig → Bool)
    → String
    → List Bool
    → Option InferenceConfig
    → Option InferenceConfig × Outcome
start_daemon start url checks none = (none, url_error)
start_daemon start url checks (some config) =
    (some config, if start config then waited url (wait_until_healthy checks) else start_error)

-- `ensure_inference_endpoint` at a URL: the first health check, and those after the start
unfoldable pub ensure_at :
    (String → Option Url)
    → (InferenceConfig → Bool)
    → InferenceConfig
    → String
    → Bool
    → List Bool
    → Option InferenceConfig × Outcome
unfolding wait_until_healthy config_for_base_url
ensure_at parse start resolved url healthy checks =
    if healthy
    then (none, returned url)
    else start_daemon start url checks (config_for_base_url (parse url) resolved)

-- `apply_inference_env`, once the endpoint is there; `trimmed` is the URL without its last slashes
unfoldable pub apply_inference_env :
    Dict String → String → String → Option String → InferenceConfig → Dict String
unfolding Dict.put Dict.get Dict.set_default append_no_proxy
apply_inference_env env url trimmed specialty config =
    let env = Dict.put env "BUBBLEHUB_API_BASE_URL" url in
    let env = Dict.put env "OPENAI_BASE_URL" (concat (trimmed ∷ "/v1" ∷ [])) in
    let env = Dict.set_default env "OPENAI_API_KEY" "bubblehub-local" in
    let wanted : String = elim specialty [ none ↦ "" | some s ↦ s ] in
    let env = Dict.put env "BUBBLEHUB_SPECIALITY" (or_text wanted config.default_specialty) in
    let env = Dict.put env "NO_PROXY" (append_no_proxy (text_at env "NO_PROXY")) in
    Dict.put env "no_proxy" (append_no_proxy (text_at env "no_proxy"))
