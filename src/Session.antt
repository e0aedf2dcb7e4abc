-- ===== src/Session.antt =====
-- A session with the engine, bubblehub/engine/session.py: how a session starts, outside and inside
-- a sandbox, and how it asks for a chat or for embeddings. The scheduler, the downloader and the
-- HTTP client are arguments.
pub mod Laws
pub mod Sandbox
mod Examples
use Prim.Native.String.{[], ◌∷◌}
use bubble_hub.Prelude.{
  ℕ, ◌*◌, ◌^◌, String, Bool, true, false, not, ◌&&◌, ◌||◌, Option, none, some, List, [], ◌∷◌, map,
  ◌==◌, nat_eq, string_eq, if◌then◌else◌, leb,
}
use bubble_hub.Prelude.Dict.{Dict}
use bubble_hub.Prelude.Dict
use bubble_hub.Prelude.Int.{ℤ, pos, negsuc, to_ℕ, is_positive}
use bubble_hub.Prelude.Text.{concat, parse_int, show_int}
use bubble_hub.Value.{
  Value, boolean, int, str, list, dict, cons, to_list, of_list, to_dict, get, str_of, Conversion,
  number, type_or_value_error, overflow_error, int_of,
}
use bubble_hub.Registry.Spec.{ModelSpec}
use bubble_hub.Registry.{ModelRegistry, Query, KeyError, key_error, resolve_candidates}
use bubble_hub.Registry
use bubble_hub.Selector.{HardwareInfo, select_tier}
use bubble_hub.Http.Messages.{Message}
use bubble_hub.Http.Payloads.{object, array}
use bubble_hub.Http.RoundTrip.{to_value}

pub data Failure : Type 0 where
  runtime_error : String → Failure
  registry_error : KeyError → Failure
  overflow missing_content : Failure
  download_error : String → Failure

pub data Result {ℓ} (A : Type ℓ) : Type ℓ where
  ok : A → Result A
  raise : Failure → Result A

infixl 5 ◌>>=◌
abbrev pub ◌>>=◌ {ℓ μ} : {X : Type ℓ} {Y : Type μ} → Result X → (X → Result Y) → Result Y
ok x >>= k = k x
raise failure >>= k = raise failure

-- what a native session sends to the scheduler
pub record InferenceRequest : Type 0 where
  pub specialty : String
  pub model_name : String
  pub backend : String
  pub model_path : String
  pub ram_gb : ℕ
  pub vram_gb : ℕ
  pub niceness : ℤ
  pub max_tokens : ℤ
  pub gpu_layers : ℤ
  pub messages : List Message

-- What a session reads and calls. `post` is `none` where `requests` raises, also for a status of
-- 400 or more.
pub record World : Type 0 where
  pub env : Dict String
  pub registry : ModelRegistry
  pub hardware : HardwareInfo
  pub limits : Dict Value
  pub ensure_model : ModelSpec → Result String
  pub inference_chat : InferenceRequest → Result (Dict Value)
  pub post : String → Value → Option Value
  pub repr : Value → String

-- the arguments of `EngineSession`
pub record Options : Type 0 where
  pub specialty : String
  pub niceness : ℤ
  pub flavor : Option String
  pub capability : Option String

-- what `__enter__` leaves in the session
pub data Session : Type 0 where
  not_started : Session
  sandboxed : String → Session
  native : ModelSpec → String → Session

abbrev pub checked_port : Option ℤ → Result ℕ
checked_port none = raise (runtime_error "BUBBLEHUB_SANDBOX_INFERENCE_PORT must be an integer")
checked_port (some n) =
    if is_positive n && leb (to_ℕ n) 65535
    then ok (to_ℕ n)
    else raise (runtime_error "BUBBLEHUB_SANDBOX_INFERENCE_PORT must be between 1 and 65535")

-- `_parse_port`
unfoldable pub parse_port : String → Result ℕ
unfolding parse_int
parse_port value = checked_port (parse_int value)

-- `os.environ.get(k) or ""`: what is not there and what is empty are both missing
abbrev pub env_text : Dict String → String → String
env_text env k = elim (Dict.get env k) [ none ↦ "" | some v ↦ v ]

unfoldable pub sandbox_inference_base_url : Dict String → Result String
unfolding Dict.get parse_port show_int
sandbox_inference_base_url env =
    let host = env_text env "BUBBLEHUB_SANDBOX_INFERENCE_HOST" in
    let port = env_text env "BUBBLEHUB_SANDBOX_INFERENCE_PORT" in
    if host == "" || port == ""
    then raise (
        runtime_error
          "BUBBLEHUB_SANDBOX_INFERENCE_HOST and BUBBLEHUB_SANDBOX_INFERENCE_PORT must be set inside the sandbox")
    else (parse_port port >>= λ n. ok (concat ("http://" ∷ host ∷ ":" ∷ show_int (pos n) ∷ [])))

abbrev pub int_or_zero : Conversion → Result ℤ
int_or_zero (number n) = ok n
int_or_zero type_or_value_error = ok (pos 0)
int_or_zero overflow_error = raise overflow

-- `limit / 1024**3`, in the registry's unit
abbrev pub gigabytes : ℕ → ℕ
gigabytes bytes = bytes * 2 ^ 1044

-- `_limit_gb`
unfoldable pub limit_gb : Value → ℕ → Result ℕ
unfolding int_of
limit_gb limit_bytes hardware_bytes = int_or_zero (int_of limit_bytes) >>= λ limit.
    ok (gigabytes (if is_positive limit then to_ℕ limit else hardware_bytes))

abbrev pub query_of : World → Options → ℕ → ℕ → Query
query_of world options ram vram = record {
  tier_order = (select_tier world.hardware).order;
  flavor = options.flavor;
  capability = options.capability;
  max_ram_gb = some ram;
  max_vram_gb = some vram;
  supported_gpu_backends = some world.hardware.gpu_backends;
}

abbrev pub chosen_of : String → Registry.Result (List ModelSpec) → Result ModelSpec
chosen_of specialty (Registry.Result.key_error e) = raise (registry_error e)
chosen_of specialty (Registry.Result.ok []) = raise (
    runtime_error
      (concat ("no model matches specialty '" ∷ specialty ∷ "' for available RAM/VRAM" ∷ [])))
chosen_of specialty (Registry.Result.ok (model ∷ _)) = ok model

-- `EngineSession.__enter__`
unfoldable pub enter : World → Options → Result Session
unfolding Dict.get sandbox_inference_base_url limit_gb get
enter world options =
    if env_text world.env "BUBBLEHUB_SANDBOX" == "1"
    then (sandbox_inference_base_url world.env >>= λ url. ok (sandboxed url))
    else do
      ram ← limit_gb (get world.limits "ram_bytes") world.hardware.ram_bytes
      vram ← limit_gb (get world.limits "vram_bytes") world.hardware.vram_bytes
      model ←
          chosen_of options.specialty
            (resolve_candidates world.registry options.specialty (query_of world options ram vram))
      path ← world.ensure_model model
      ok (native model path)

abbrev checked_default : Option ℤ → Result ℤ
checked_default none = raise (runtime_error "BUBBLEHUB_MAX_OUTPUT_TOKENS must be an integer")
checked_default (some n) =
    if is_positive n
    then ok n
    else raise (runtime_error "BUBBLEHUB_MAX_OUTPUT_TOKENS must be greater than zero")

abbrev default_of : Option String → Result ℤ
default_of none = ok (pos 512)
default_of (some value) = checked_default (parse_int value)

unfoldable pub default_max_output_tokens : Dict String → Result ℤ
unfolding Dict.get parse_int
default_max_output_tokens env = default_of (Dict.get env "BUBBLEHUB_MAX_OUTPUT_TOKENS")

-- `v[0]`; where this is a text's letter in the code, the key that is read next raises
abbrev pub at_zero : Option Value → Option Value
at_zero (some (list (cons v vs))) = some v
at_zero _ = none

-- `v[k]`
abbrev pub at_key : Option Value → String → Option Value
at_key (some (dict fs)) k = Dict.get (to_dict fs) k
at_key _ k = none

-- `data["choices"][0]["message"]["content"]`
abbrev pub content_of : Dict Value → Option Value
content_of body = at_key (at_key (at_zero (Dict.get body "choices")) "message") "content"

abbrev pub json_object : Option Value → Result (Dict Value)
json_object none = raise (runtime_error "sandbox inference request failed")
json_object (some (dict fs)) = ok (to_dict fs)
json_object (some v) = raise (runtime_error "sandbox inference returned a non-object JSON response")

abbrev pub content_text : (Value → String) → Option Value → Result String
content_text repr none =
    raise (runtime_error "sandbox inference returned an invalid chat completion response")
content_text repr (some v) = ok (str_of repr v)

abbrev pub chat_payload : String → List Message → ℤ → Value
chat_payload specialty messages max_tokens = object (
    ("model", str specialty)
    ∷ ("bubblehub_specialty", str specialty)
    ∷ ("messages", array (map to_value messages))
    ∷ ("max_tokens", int max_tokens)
    ∷ ("stream", boolean false)
    ∷ [])

-- `_sandbox_chat`, with `_post_sandbox_json`
unfoldable pub sandbox_chat : World → String → String → List Message → ℤ → Result String
unfolding Dict.get str_of
sandbox_chat world base_url specialty messages max_tokens = do
  body ← json_object (
      world.post (concat (base_url ∷ "/v1/chat/completions" ∷ []))
        (chat_payload specialty messages max_tokens))
  content_text world.repr (content_of body)

-- `list(v)`; of a text, its letters, and of a dict, its keys
unfoldable pub letters : String → List Value
letters [] = []
letters (c ∷ s) = str (c ∷ "") ∷ letters s

abbrev pub keys : Dict Value → List Value
keys d = map (λ (e : String × Value). str e.0) d

abbrev pub iterated : Option Value → Option (List Value)
iterated (some (list vs)) = some (to_list vs)
iterated (some (dict fs)) = some (keys (to_dict fs))
iterated (some (str s)) = some (letters s)
iterated _ = none

abbrev cons_both : Option (List Value) → Option (List (List Value)) → Option (List (List Value))
cons_both (some v) (some vs) = some (v ∷ vs)
cons_both _ _ = none

-- `[list(item["embedding"]) for item in items]`
unfoldable pub vectors_of : List Value → Option (List (List Value))
unfolding letters Dict.get
vectors_of [] = some []
vectors_of (item ∷ items) = cons_both (iterated (at_key (some item) "embedding")) (vectors_of items)

abbrev vectors_in : Option (List Value) → Option (List (List Value))
vectors_in none = none
vectors_in (some items) = vectors_of items

abbrev pub embedding_result : Option (List (List Value)) → Result (List (List Value))
embedding_result none =
    raise (runtime_error "sandbox inference returned an invalid embeddings response")
embedding_result (some vs) = ok vs

-- `_sandbox_embeddings`, with `_post_sandbox_json`
unfoldable pub sandbox_embeddings :
    World → String → String → List String → Result (List (List Value))
unfolding vectors_of letters Dict.get
sandbox_embeddings world base_url specialty inputs = do
  body ← json_object (
      world.post (concat (base_url ∷ "/v1/embeddings" ∷ [])) (
        object (
          ("model", str specialty)
          ∷ ("bubblehub_specialty", str specialty)
          ∷ ("input", array (map str inputs))
          ∷ [])))
  embedding_result (vectors_in (iterated (Dict.get body "data")))

-- `max_tokens or default_max_output_tokens()`
abbrev is_zero : ℤ → Bool
is_zero (pos n) = n == 0
is_zero (negsuc n) = false

abbrev pub tokens_or_default : Dict String → Option ℤ → Result ℤ
tokens_or_default env none = default_max_output_tokens env
tokens_or_default env (some n) = if is_zero n then default_max_output_tokens env else ok n

abbrev pub given_tokens : Dict String → Option ℤ → Result ℤ
given_tokens env none = default_max_output_tokens env
given_tokens env (some n) = ok n

abbrev pub layers_of : Option ℤ → ℤ
layers_of none = negsuc 999998
layers_of (some n) = n

abbrev pub request_of : Options → ModelSpec → String → List Message → ℤ → InferenceRequest
request_of options model path messages max_tokens = record {
  specialty = options.specialty;
  model_name = model.name;
  backend = model.backend;
  model_path = path;
  ram_gb = model.ram_gb;
  vram_gb = model.vram_gb;
  niceness = options.niceness;
  max_tokens = max_tokens;
  gpu_layers = layers_of model.gpu_layers;
  messages = messages;
}

abbrev answer_text : (Value → String) → Option Value → Result String
answer_text repr none = raise missing_content
answer_text repr (some v) = ok (str_of repr v)

-- `EngineSession.chat`
unfoldable pub chat : World → Options → Session → List Message → Option ℤ → Result String
unfolding Dict.get str_of default_max_output_tokens sandbox_chat
chat world options not_started messages max_tokens =
    raise (runtime_error "engine session is not started")
chat world options (sandboxed url) messages max_tokens =
    tokens_or_default world.env max_tokens >>= λ n.
    sandbox_chat world url options.specialty messages n
chat world options (native model path) messages max_tokens = do
  n ← given_tokens world.env max_tokens
  response ← world.inference_chat (request_of options model path messages n)
  answer_text world.repr (Dict.get response "content")

-- `EngineSession.embeddings`
unfoldable pub embeddings : World → Options → Session → List String → Result (List (List Value))
unfolding sandbox_embeddings
embeddings world options (sandboxed url) inputs =
    sandbox_embeddings world url options.specialty inputs
embeddings world options _ inputs = raise (runtime_error "native embeddings are not implemented")
