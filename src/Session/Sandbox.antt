-- ===== src/Session/Sandbox.antt =====
-- A session inside a sandbox, whose HTTP requests the server of bubblehub/http_api.py answers.
use bubble_hub.Prelude.{
  String, ◌≡◌, ◌≢◌, refl, true, false, Option, none, some, List, [], ◌∷◌, map, All, arith, ◌==◌,
  nat_eq, string_eq, ap, ◌∙◌,
}
use bubble_hub.Prelude.Dict.{Dict}
use bubble_hub.Prelude.Int.{ℤ, is_positive}
use bubble_hub.Prelude.Text.{parse_int, concat}
use bubble_hub.Value.{Value, str, int, list, boolean, to_list, of_list, get, truthy, int_of}
use bubble_hub.Registry.Spec.{Specialty}
use bubble_hub.Http.Messages.{Message, normalize_chat_messages}
use bubble_hub.Http.Messages
use bubble_hub.Http.Order.{IsConversation}
use bubble_hub.Http.RoundTrip.{IsClean, to_value, normalize_chat_messages-to_value}
use bubble_hub.Http.Request.{
  is_known, resolve_specialty_alias, specialty_from_body, max_output_tokens, model_name,
}
use bubble_hub.Http.Payloads.{chat_completion_payload}
use bubble_hub.Http.Handler.{
  Server, Request, Status, success, Payload, json, ChatCall, chat_call, do_post, prepare_chat,
  read_json, answer_chat, route, message_list,
}
use bubble_hub.Session.{
  World, ok, chat_payload, sandbox_chat, content_of, content_text, json_object, ◌>>=◌,
}

-- what `requests` makes of a response: an error status raises, and so does a body that is no JSON
abbrev pub received : Status → Payload → Option Value
received success (json v) = some v
received _ _ = none

-- the HTTP client and the server, with a request whose length is written in its header
abbrev pub request_of : String → String → Value → Request
request_of content_length path body = record {
  path = path;
  content_length = some content_length;
  body = some body;
}

abbrev pub posted : Server → String → String → Value → Option Value
posted server content_length path body =
    let response = (do_post server (request_of content_length path body)).1 in
    received response.status response.payload

to_list-of_list : (vs : List Value) → to_list (of_list vs) ≡ vs
to_list-of_list [] = refl
to_list-of_list (v ∷ vs) = ap (◌∷◌ v) (to_list-of_list vs)

message_list-sent :
    (ms : List Message)
    → ms ≢ []
    → message_list (list (of_list (map to_value ms))) ≡ Messages.ok (map to_value ms)
message_list-sent [] n = absurd (n refl)
message_list-sent (m ∷ ms) n = ap Messages.ok (to_list-of_list (map to_value (m ∷ ms)))

known_alias :
    (specialties : Dict Specialty) (value default : String)
    → is_known specialties value ≡ true
    → resolve_specialty_alias specialties value default ≡ value
unfolding resolve_specialty_alias
known_alias specialties value default known = rw known refl

module _ (server : Server) (specialty : String) (messages : List Message) (n : ℤ) where
  abbrev sent : Dict Value
  sent =
      ("model", str specialty)
      ∷ ("bubblehub_specialty", str specialty)
      ∷ ("messages", list (of_list (map to_value messages)))
      ∷ ("max_tokens", int n)
      ∷ ("stream", boolean false)
      ∷ []

  abbrev call : ChatCall
  call = record { specialty = specialty; messages = messages; max_tokens = n }

  sent_specialty :
      (specialty == "") ≡ false
      → is_known server.specialties specialty ≡ true
      → specialty_from_body server.repr server.specialties sent server.default_specialty ≡ specialty
  unfolding specialty_from_body get
  sent_specialty full known =
      ap (λ v. resolve_specialty_alias server.specialties v server.default_specialty) (ground arith)
      ∙ known_alias server.specialties specialty server.default_specialty known

  sent_tokens :
      is_positive n ≡ true
      → max_output_tokens server.max_output_tokens_env sent
          ("max_tokens" ∷ "max_completion_tokens" ∷ [])
        ≡ Messages.ok n
  unfolding max_output_tokens get int_of
  sent_tokens positive = rw positive refl

  prepare_sent :
      messages ≢ []
      → IsConversation messages
      → All IsClean messages
      → (specialty == "") ≡ false
      → is_known server.specialties specialty ≡ true
      → is_positive n ≡ true
      → prepare_chat server sent ≡ Messages.ok call
  unfolding prepare_chat get
  prepare_sent some_sent order clean full known positive =
      rw
        (
          message_list-sent messages some_sent,
          normalize_chat_messages-to_value server.repr messages some_sent order clean,
          sent_tokens positive,
          sent_specialty full known,
        )
        refl

  answer_sent :
      (answer : String)
      → server.engine.chat specialty messages n ≡ Messages.ok answer
      → answer_chat server sent call
        ≡ Messages.ok (record {
          status = success;
          payload =
              json (
                chat_completion_payload
                  (model_name server.repr sent specialty)
                  answer
                  server.fresh);
        })
  unfolding answer_chat get truthy
  answer_sent answer answered = rw answered refl

  route-sent :
      (answer : String)
      → server.engine.chat specialty messages n ≡ Messages.ok answer
      → prepare_chat server sent ≡ Messages.ok call
      → route server "/v1/chat/completions" sent
        ≡ (chat_call call ∷ [], answer_chat server sent call)
  unfolding route
  route-sent answer answered prepared = rw prepared refl

  read_sent :
      (content_length : String) (size : ℤ)
      → parse_int content_length ≡ some size
      → is_positive size ≡ true
      → read_json
          (request_of content_length "/v1/chat/completions" (chat_payload specialty messages n))
        ≡ Messages.ok sent
  unfolding read_json
  read_sent content_length size parsed positive = rw (parsed, positive) refl

  served :
      (answer content_length : String) (size : ℤ)
      → parse_int content_length ≡ some size
      → is_positive size ≡ true
      → server.engine.chat specialty messages n ≡ Messages.ok answer
      → prepare_chat server sent ≡ Messages.ok call
      → do_post server
          (request_of content_length "/v1/chat/completions" (chat_payload specialty messages n))
        ≡ (
          chat_call call ∷ [],
          record {
            status = success;
            payload = json (
                chat_completion_payload
                  (model_name server.repr sent specialty)
                  answer
                  server.fresh);
          },
        )
  unfolding do_post
  served answer content_length size parsed positive answered prepared =
      rw
        (
          read_sent content_length size parsed positive,
          route-sent answer answered prepared,
          answer_sent answer answered,
        )
        refl

  -- A session in a sandbox gets the engine's answer: if its HTTP requests reach the server, then a
  -- chat of messages in order, with texts that stay as they are, for a specialty that the server's
  -- registry knows and with a positive limit on the output, makes the server call its engine once,
  -- with just that specialty, these messages and this limit, and returns the text that the engine
  -- returns.
  pub sandbox_chat-served :
      (world : World) (base_url answer content_length : String) (size : ℤ)
      → ((body : Value)
          → world.post (concat (base_url ∷ "/v1/chat/completions" ∷ [])) body
            ≡ posted server content_length "/v1/chat/completions" body)
      → parse_int content_length ≡ some size
      → is_positive size ≡ true
      → messages ≢ []
      → IsConversation messages
      → All IsClean messages
      → (specialty == "") ≡ false
      → is_known server.specialties specialty ≡ true
      → is_positive n ≡ true
      → server.engine.chat specialty messages n ≡ Messages.ok answer
      → (sandbox_chat world base_url specialty messages n ≡ ok answer)
        × ((do_post server (
              request_of content_length "/v1/chat/completions"
                (chat_payload specialty messages n))).0
            ≡ chat_call call ∷ [])
  unfolding sandbox_chat chat_completion_payload
  sandbox_chat-served world base_url answer content_length size reaches parsed sized some_sent order
        clean full known positive answered =
      let done =
        served answer content_length size parsed sized answered
          (prepare_sent some_sent order clean full known positive) in
      (
        ap (λ o. json_object o >>= λ body. content_text world.repr (content_of body))
            (reaches (chat_payload specialty messages n)
              ∙ ap (λ r. received r.1.status r.1.payload) done),
        ap (λ r. r.0) done,
      )
