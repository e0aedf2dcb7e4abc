-- ===== src/Http/Examples.antt =====
-- The theorems on the server, at a server with one specialty and small requests.
use bubble_hub.Prelude.{String, ◌≡◌, ◌≢◌, refl, none, some, List, [], ◌∷◌, map}
use bubble_hub.Prelude.Dict.{Dict}
use bubble_hub.Prelude.Int.{pos}
use bubble_hub.Prelude.Text.{strip}
use bubble_hub.Value.{Value, null, int, str, get}
use bubble_hub.Registry.Spec.{Specialty}
use bubble_hub.Http.Messages.{
  Role, system, user, assistant, Message, ok, normalize_chat_messages, read_item,
  is_failed_assistant_content,
}
use bubble_hub.Http.Payloads.{object, array}
use bubble_hub.Http.Order.{IsConversation, normalize_chat_messages-IsConversation}
use bubble_hub.Http.RoundTrip.{to_value, normalize_chat_messages-to_value}
use bubble_hub.Http.Request.{max_output_tokens}
use bubble_hub.Http.Handler.{Server, Request, success, do_post, read_json}
use bubble_hub.Http.Handler.Laws.{AreSound, do_post-AreSound}
use bubble_hub.Http.Handler.Accounts.{Accounted, do_post-Accounted}

abbrev repr : Value → String
repr v = "[]"

abbrev message : Role → String → Message
message role content = record { role = role; content = content }

abbrev conversation : List Message
conversation =
    message system "Be brief."
    ∷ message user "Hi"
    ∷ message assistant "Hello"
    ∷ message user "Bye"
    ∷ []

-- an assistant's message that comes too early, and two texts of the user in a row
abbrev sent : List Value
sent =
    object (("role", str "assistant") ∷ ("content", str "Hello") ∷ [])
    ∷ str " Hi "
    ∷ object (("content", str "there") ∷ [])
    ∷ object (("role", str "developer") ∷ ("content", str "Be brief.") ∷ [])
    ∷ []

normalize_chat_messages-IsConversation_example : (conversation ≢ []) × IsConversation conversation
unfolding normalize_chat_messages read_item strip is_failed_assistant_content
normalize_chat_messages-IsConversation_example =
    normalize_chat_messages-IsConversation repr (map to_value conversation) conversation refl

normalize_chat_messages_runs :
    normalize_chat_messages repr sent
    ≡ ok (message system "Be brief." ∷ message user "Hi\n\nthere" ∷ [])
unfolding normalize_chat_messages read_item strip is_failed_assistant_content
normalize_chat_messages_runs = refl

normalize_chat_messages-to_value_example :
    normalize_chat_messages repr (map to_value conversation) ≡ ok conversation
unfolding strip is_failed_assistant_content
normalize_chat_messages-to_value_example =
    normalize_chat_messages-to_value repr conversation (λ e. cc) ((λ e. cc), (tt, (tt, (tt, tt))))
      ((refl, refl, refl), ((refl, refl, refl), ((refl, refl, refl), ((refl, refl, refl), tt))))

abbrev limits : Dict Value
limits = ("max_tokens", null) ∷ ("max_completion_tokens", int (pos 64)) ∷ []

abbrev specialty : Specialty
specialty = record {
  name = "coder";
  capability = "text";
  flavor = none;
  lora = none;
  min_context_tokens = none;
  model = none;
}

abbrev specialties : Dict Specialty
specialties = ("coder", specialty) ∷ []

abbrev fields : Dict Value
fields = ("model", str "openai/coder") ∷ ("messages", array sent) ∷ []

abbrev server : Server
server = record {
  repr = repr;
  specialties = specialties;
  default_specialty = "default";
  max_output_tokens_env = none;
  fresh = record { response_id = "r"; output_id = "o"; text_id = "t"; created = 7 };
  engine = record {
    chat = λ specialty messages limit. ok "done";
    embeddings = λ specialty inputs. ok [];
  };
}

abbrev request : Request
request = record {
  path = "/v1/chat/completions";
  content_length = some "120";
  body = some (object fields);
}

do_post_runs : (do_post server request).1.status ≡ success
unfolding do_post get read_item strip is_failed_assistant_content read_json normalize_chat_messages
    max_output_tokens
do_post_runs = refl

do_post-AreSound_example : AreSound server (do_post server request).0
do_post-AreSound_example = do_post-AreSound server request

do_post-Accounted_example :
    let (calls, response) = do_post server request in
    Accounted server request.path calls response.status
do_post-Accounted_example = do_post-Accounted server request
