-- ===== src/Http/Handler.antt =====
-- `do_GET` and `do_POST` of the server, with what they ask of the engine. The engine, the ids that
-- the server draws, and JSON's reader are arguments.
pub mod Laws
pub mod Accounts
use bubble_hub.Prelude.{
  ℕ, String, Bool, true, false, Option, none, some, List, [], ◌∷◌, ◌==◌, string_eq, if◌then◌else◌,
  is_empty,
}
use bubble_hub.Prelude.Dict.{Dict}
use bubble_hub.Prelude.Int.{ℤ, pos, is_positive}
use bubble_hub.Prelude.Text.{concat, parse_int}
use bubble_hub.Value.{Value, int, str, list, dict, to_list, to_dict, get, truthy}
use bubble_hub.Registry.Spec.{Specialty}
use bubble_hub.Http.Messages.{
  Message, value_error, other_error, Result, ok, raise, ◌>>=◌, normalize_chat_messages,
  messages_from_responses_input,
}
use bubble_hub.Http.Payloads.{
  Fresh, object, chat_completion_payload, chat_completion_stream, responses_payload,
  responses_stream, embeddings_payload,
}
use bubble_hub.Http.Request.{
  max_output_tokens, specialty_from_body, model_name, normalize_embeddings_input,
}

-- `EngineSession(...).chat` and `.embeddings`
pub record Engine : Type 0 where
  pub chat : String → List Message → ℤ → Result String
  pub embeddings : String → List String → Result (List Value)

-- what a handler reads of its surroundings
pub record Server : Type 0 where
  pub repr : Value → String
  pub specialties : Dict Specialty
  pub default_specialty : String
  pub max_output_tokens_env : Option String
  pub fresh : Fresh
  pub engine : Engine

-- A request. `body` is what `json.loads` makes of the bytes, `none` where it raises.
pub record Request : Type 0 where
  pub path : String
  pub content_length : Option String
  pub body : Option Value

pub data Payload : Type 0 where
  json : Value → Payload
  events : List Value → Payload

pub data Status : Type 0 where
  success bad_request not_found bad_gateway : Status

pub record Response : Type 0 where
  pub status : Status
  pub payload : Payload

pub record ChatCall : Type 0 where
  pub specialty : String
  pub messages : List Message
  pub max_tokens : ℤ

pub record EmbeddingsCall : Type 0 where
  pub specialty : String
  pub inputs : List String

-- a call of the engine
pub data Call : Type 0 where
  chat_call : ChatCall → Call
  embeddings_call : EmbeddingsCall → Call

abbrev pub code_of : Status → ℕ
code_of success = 200
code_of bad_request = 400
code_of not_found = 404
code_of bad_gateway = 502

-- `status.phrase.lower().replace(" ", "_")`
abbrev pub type_of : Status → String
type_of success = "ok"
type_of bad_request = "bad_request"
type_of not_found = "not_found"
type_of bad_gateway = "bad_gateway"

-- `_send_error`
unfoldable pub send_error : Status → String → Response
send_error status message = record {
  status = status;
  payload = json (
      object (
        (
          "error",
          object (
              ("message", str message)
              ∷ ("type", str (type_of status))
              ∷ ("code", int (pos (code_of status)))
              ∷ []),
        )
        ∷ []));
}

abbrev pub send_json : Value → Response
send_json v = record { status = success; payload = json v }

abbrev pub send_sse : List Value → Response
send_sse vs = record { status = success; payload = events vs }

abbrev pub object_body : Option Value → Result (Dict Value)
object_body none = raise (value_error "invalid JSON")
object_body (some (dict fs)) = ok (to_dict fs)
object_body (some v) = raise (value_error "request body must be a JSON object")

abbrev pub sized_body : Option ℤ → Option Value → Result (Dict Value)
sized_body none body = raise (value_error "invalid literal for int()")
sized_body (some n) body =
    if is_positive n then object_body body else raise (value_error "request body is required")

abbrev pub length_text : Option String → String
length_text none = "0"
length_text (some s) = s

-- `_read_json`
unfoldable pub read_json : Request → Result (Dict Value)
unfolding parse_int
read_json request = sized_body (parse_int (length_text request.content_length)) request.body

abbrev pub message_list : Value → Result (List Value)
message_list (list vs) =
    if is_empty (to_list vs)
    then raise (value_error "messages must be a non-empty list")
    else ok (to_list vs)
message_list v = raise (value_error "messages must be a non-empty list")

module _ (server : Server) where
  abbrev pub specialty_of : Dict Value → String
  specialty_of body =
      specialty_from_body server.repr server.specialties body server.default_specialty

  abbrev pub tokens_of : Dict Value → List String → Result ℤ
  tokens_of body names = max_output_tokens server.max_output_tokens_env body names

  -- what `_handle_chat_completions` does before it calls the engine
  unfoldable pub prepare_chat : Dict Value → Result ChatCall
  prepare_chat body = do
    messages ← message_list (get body "messages")
    normalized ← normalize_chat_messages server.repr messages
    max_tokens ← tokens_of body ("max_tokens" ∷ "max_completion_tokens" ∷ [])
    ok (record { specialty = specialty_of body; messages = normalized; max_tokens = max_tokens })

  -- what `_handle_responses` does before it calls the engine
  unfoldable pub prepare_responses : Dict Value → Result ChatCall
  prepare_responses body = do
    messages ← messages_from_responses_input server.repr (get body "input")
    max_tokens ← tokens_of body ("max_output_tokens" ∷ "max_tokens" ∷ [])
    ok (record { specialty = specialty_of body; messages = messages; max_tokens = max_tokens })

  -- what `_handle_embeddings` does before it calls the engine
  unfoldable pub prepare_embeddings : Dict Value → Result EmbeddingsCall
  prepare_embeddings body = do
    inputs ← normalize_embeddings_input server.repr (get body "input")
    ok (record { specialty = specialty_of body; inputs = inputs })

  abbrev pub call_chat : ChatCall → Result String
  call_chat c = server.engine.chat c.specialty c.messages c.max_tokens

  -- the engine's answer to a call, and the response that is sent
  unfoldable pub answer_chat : Dict Value → ChatCall → Result Response
  answer_chat body c = do
    content ← call_chat c
    let model = model_name server.repr body c.specialty
    ok (
        if truthy (get body "stream")
        then send_sse (chat_completion_stream model content server.fresh)
        else send_json (chat_completion_payload model content server.fresh))

  unfoldable pub answer_responses : Dict Value → ChatCall → Result Response
  answer_responses body c = do
    content ← call_chat c
    let model = model_name server.repr body c.specialty
    ok (
        if truthy (get body "stream")
        then send_sse (responses_stream model content server.fresh)
        else send_json (responses_payload model content server.fresh))

  unfoldable pub answer_embeddings : Dict Value → EmbeddingsCall → Result Response
  answer_embeddings body c = do
    vectors ← server.engine.embeddings c.specialty c.inputs
    let model = model_name server.repr body c.specialty
    ok (send_json (embeddings_payload model vectors c.inputs))

  -- the calls that are made, and the response or the exception
  abbrev pub Outcome : Type 0
  Outcome = List Call × Result Response

  abbrev pub serve {ℓ} : {C : Type ℓ} → Result C → (C → Call) → (C → Result Response) → Outcome
  serve (raise e) call answer = ([], raise e)
  serve (ok c) call answer = (call c ∷ [], answer c)

  unfoldable pub route : String → Dict Value → Outcome
  unfolding prepare_chat prepare_responses prepare_embeddings answer_chat answer_responses
      answer_embeddings
  route path body =
      if path == "/v1/chat/completions"
      then serve (prepare_chat body) chat_call (answer_chat body)
      else if path == "/v1/responses"
      then serve (prepare_responses body) chat_call (answer_responses body)
      else if path == "/v1/embeddings"
      then serve (prepare_embeddings body) embeddings_call (answer_embeddings body)
      else ([], ok (send_error not_found (concat ("unknown endpoint: " ∷ path ∷ []))))

  abbrev pub handle : String → Result (Dict Value) → Outcome
  handle path (raise e) = ([], raise e)
  handle path (ok body) = route path body

  -- the two `except` clauses
  abbrev pub caught : Result Response → Response
  caught (ok r) = r
  caught (raise (value_error message)) = send_error bad_request message
  caught (raise (other_error message)) = send_error bad_gateway message

  unfoldable pub do_post : Request → List Call × Response
  unfolding route
  do_post request =
      let (calls, result) = handle request.path (read_json request) in (calls, caught result)

  unfoldable pub do_get : Request → Response
  do_get request =
      if request.path == "/health"
      then send_json (object (("status", str "ok") ∷ []))
      else send_error not_found (concat ("unknown endpoint: " ∷ request.path ∷ []))
