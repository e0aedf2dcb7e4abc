-- ===== src/Structured/Examples.antt =====
-- A structured prompt at small inputs: a codec that knows the empty object, and a model that answers
-- with a sentence first.
use bubble_hub.Prelude.{
  String, ◌≡◌, refl, Option, none, some, List, [], ◌∷◌, ◌==◌, string_eq, if◌then◌else◌, All,
}
use bubble_hub.Prelude.Text.{strip}
use bubble_hub.Value.{Fields, dict, end}
use bubble_hub.Http.Messages.{Message}
use bubble_hub.Http.Order.{IsConversation}
use bubble_hub.Structured.{Codec, ok, load_example_schema, object_in, parse_json_output, run_prompt}
use bubble_hub.Structured.Laws.{IsAsked, run_prompt-IsAsked}
use bubble_hub.Structured.Fence.{fenced, parse_json_output-fenced}

abbrev object : Fields
object = end

abbrev codec : Codec
codec = record {
  loads = λ text. if text == "{}" then some (dict object) else none;
  dumps = λ v. "{}";
}

abbrev chat : List (List Message) → List Message → Option String
chat [] messages = some "It is empty."
chat (call ∷ calls) messages = some "```json\n{}\n```"

run_prompt-IsAsked_example :
    IsAsked codec chat "Which ones?" object (run_prompt codec chat (some "{}") "Which ones?")
    × All IsConversation (run_prompt codec chat (some "{}") "Which ones?").calls
unfolding load_example_schema
run_prompt-IsAsked_example = run_prompt-IsAsked codec chat "Which ones?" "{}" object refl

parse_json_output-fenced_example :
    parse_json_output codec (fenced "\n{}\n") ≡ object_in (codec.loads (strip "\n{}\n"))
parse_json_output-fenced_example =
    parse_json_output-fenced codec "\n{}\n" (refl, (refl, (refl, (refl, tt))))

-- the second answer is read, and printed
returned : (run_prompt codec chat (some "{}") "Which ones?").result ≡ ok "{}"
unfolding run_prompt parse_json_output
returned = refl
