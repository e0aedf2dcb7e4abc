-- ===== src/Session/Examples.antt =====
-- The theorems on sessions, at a machine with one model and at a server with one specialty.
use bubble_hub.Prelude.{◌*◌, ◌^◌, ◌≤◌, ◌≡◌, refl, none, some, List, [], ◌∷◌, filter, any}
use bubble_hub.Prelude.Dict
use bubble_hub.Prelude.Int.{pos}
use bubble_hub.Prelude.Sort.{sorted}
use bubble_hub.Prelude.Text.{parse_int, strip}
use bubble_hub.Value.{Value, int}
use bubble_hub.Value
use bubble_hub.Registry.Spec.{ModelSpec, Specialty}
use bubble_hub.Registry.{resolve_candidates}
use bubble_hub.Http.Messages.{Message, user, is_failed_assistant_content}
use bubble_hub.Http.Messages
use bubble_hub.Http.Request.{is_known}
use bubble_hub.Http.Handler.{Server, chat_call, do_post}
use bubble_hub.Session.{World, Options, ok, parse_port, limit_gb, enter, sandbox_chat, chat_payload}
use bubble_hub.Session.Laws.{parse_port-bounds, Fits, enter-Fits}
use bubble_hub.Session.Sandbox.{posted, request_of, sandbox_chat-served}

parse_port-bounds_example : (1 ≤ 8000) × (8000 ≤ 65535)
unfolding parse_port
parse_port-bounds_example = parse_port-bounds " 8000 " 8000 refl

abbrev model : ModelSpec
model = record {
  name = "tiny";
  flavor = "instruct";
  capability = "text";
  tier = "tiny";
  backend = "llama";
  repo_id = "org/tiny";
  filename = some "tiny.gguf";
  ram_gb = 2 * 2 ^ 1074;
  vram_gb = 0;
  context_tokens = 4096;
  placement = "auto";
  gpu_backends = [];
  gpu_layers = none;
}

abbrev specialty : Specialty
specialty = record {
  name = "chat";
  capability = "text";
  flavor = none;
  lora = none;
  min_context_tokens = none;
  model = none;
}

abbrev server : Server
server = record {
  repr = λ v. "";
  specialties = ("chat", specialty) ∷ [];
  default_specialty = "chat";
  max_output_tokens_env = none;
  fresh = record { response_id = "r"; output_id = "o"; text_id = "t"; created = 7 };
  engine = record {
    chat = λ specialty messages limit. Messages.ok "Hello";
    embeddings = λ specialty inputs. Messages.ok [];
  };
}

abbrev world : World
world = record {
  env = [];
  registry = record { models = model ∷ []; specialties = ("chat", specialty) ∷ [] };
  hardware = record { ram_bytes = 8 * 2 ^ 30; vram_bytes = 0; gpu_backends = [] };
  limits = ("ram_bytes", int (pos (4 * 2 ^ 30))) ∷ [];
  ensure_model = λ m. ok "/models/tiny.gguf";
  inference_chat = λ request. ok [];
  post = λ url body. posted server "200" "/v1/chat/completions" body;
  repr = λ v. "";
}

abbrev options : Options
options = record { specialty = "chat"; niceness = pos 0; flavor = none; capability = none }

enter-Fits_example : Fits world options specialty model
unfolding enter Dict.get resolve_candidates filter sorted any limit_gb Value.get
enter-Fits_example = enter-Fits world options specialty model "/models/tiny.gguf" refl refl refl

abbrev messages : List Message
messages = record { role = user; content = "Hi" } ∷ []

sandbox_chat-served_example :
    (sandbox_chat world "http://127.0.0.1:8000" "chat" messages (pos 64) ≡ ok "Hello")
    × ((do_post server
          (request_of "200" "/v1/chat/completions" (chat_payload "chat" messages (pos 64)))).0
        ≡ chat_call (record { specialty = "chat"; messages = messages; max_tokens = pos 64 }) ∷ [])
unfolding parse_int strip is_failed_assistant_content is_known
sandbox_chat-served_example =
    sandbox_chat-served server "chat" messages (pos 64) world "http://127.0.0.1:8000" "Hello" "200"
      (pos 200) (λ body. refl) refl refl (λ e. cc) ((λ e. cc), tt) ((refl, refl, refl), tt) refl
      refl refl refl
