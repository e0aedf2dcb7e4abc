-- ===== src/Structured.antt =====
-- A prompt whose answer is a JSON object: bubblehub/engine/structured.py and `_run_prompt` of
-- bubblehub/cli/prompt.py. `json.loads`, `json.dumps` and the session's chat are arguments; the chat
-- may depend on the calls before.
pub mod Laws
pub mod Fence
mod Examples
use Prim.Native.String.{[], ◌∷◌}
use bubble_hub.Prelude.{
  String, Bool, true, false, Option, none, some, List, [], ◌∷◌, ◌++◌, ◌==◌, string_eq,
  if◌then◌else◌,
}
use bubble_hub.Prelude.Text.{concat, strip, lower, starts_with}
use bubble_hub.Value.{Value, Fields, dict}
use bubble_hub.Http.Messages.{Message, system, user}

-- `json.loads`, `none` where it raises, and `json.dumps(…, indent=2, sort_keys=True)`
pub record Codec : Type 0 where
  pub loads : String → Option Value
  pub dumps : Value → String

pub data Failure : Type 0 where
  no_json no_object chat_failed : Failure

pub data Result {ℓ} (A : Type ℓ) : Type ℓ where
  ok : A → Result A
  failed : Failure → Result A

abbrev pub object_in : Option Value → Result Fields
object_in none = failed no_json
object_in (some (dict fs)) = ok fs
object_in (some v) = failed no_object

-- the text before the first fence
unfoldable pub before_fence : String → Option String
unfolding starts_with
before_fence [] = none
before_fence (c ∷ s) =
    let rest : Option String = elim (before_fence s) [ none ↦ none | some t ↦ some (c ∷ t) ] in
    if starts_with (c ∷ s) "```" then some "" else rest

-- `(?:json)?`, where the case does not matter
unfoldable pub without_tag : String → String
unfolding lower
without_tag (a ∷ b ∷ c ∷ d ∷ s) =
    if lower (a ∷ b ∷ c ∷ d ∷ "") == "json" then s else a ∷ b ∷ c ∷ d ∷ s
without_tag s = s

-- `cleaned`, once a text that starts with a fence is searched for its block
abbrev pub block_in : String → Option String → String
block_in cleaned none = cleaned
block_in cleaned (some block) = strip block

unfoldable pub unfenced : String → String
unfolding without_tag before_fence strip
unfenced (a ∷ b ∷ c ∷ s) =
    if concat ((a ∷ b ∷ c ∷ "") ∷ []) == "```"
    then block_in (a ∷ b ∷ c ∷ s) (before_fence (without_tag s))
    else a ∷ b ∷ c ∷ s
unfenced s = s

module _ (codec : Codec) where
  -- `load_example_schema`, of the file's text
  unfoldable pub load_example_schema : String → Result Fields
  load_example_schema text = object_in (codec.loads text)

  unfoldable pub build_structured_messages : Fields → String → List Message
  build_structured_messages example text =
      record {
        role = system;
        content = concat (
            "Return only valid JSON matching the shape and value types of this example. "
            ∷ "Do not include markdown fences or explanation.\n\n"
            ∷ codec.dumps (dict example)
            ∷ []);
      }
      ∷ record { role = user; content = text }
      ∷ []

  unfoldable pub build_repair_messages : Fields → String → String → List Message
  build_repair_messages example original_text invalid_output =
      record {
        role = system;
        content = concat (
            "Repair the assistant output into valid JSON only. It must match this example structure "
            ∷ "and value types:\n\n"
            ∷ codec.dumps (dict example)
            ∷ []);
      }
      ∷ record {
        role = user;
        content =
            concat (
              "Original request:\n" ∷ original_text ∷ "\n\nInvalid output:\n" ∷ invalid_output
              ∷ []);
      }
      ∷ []

  unfoldable pub parse_json_output : String → Result Fields
  unfolding strip unfenced
  parse_json_output text = object_in (codec.loads (unfenced (strip text)))

  abbrev pub dumped : Result Fields → Result String
  dumped (ok fs) = ok (codec.dumps (dict fs))
  dumped (failed e) = failed e

-- the calls of the chat, in order, and what is returned
pub record Asked : Type 0 where
  pub calls : List (List Message)
  pub result : Result String

abbrev pub given : Option String → Result String
given none = failed chat_failed
given (some answer) = ok answer

module _ (codec : Codec) (chat : List (List Message) → List Message → Option String) where
  abbrev pub repaired : Option String → Result String
  repaired none = failed chat_failed
  repaired (some answer) = dumped codec (parse_json_output codec answer)

  -- what comes of the first answer: it is parsed, or the model is asked to repair it
  abbrev pub parsed_or_repaired : Fields → String → List Message → String → Result Fields → Asked
  parsed_or_repaired example text first raw (ok fs) = record {
    calls = first ∷ [];
    result = ok (codec.dumps (dict fs));
  }
  parsed_or_repaired example text first raw (failed e) =
      let second = build_repair_messages codec example text raw in
      record { calls = first ∷ second ∷ []; result = repaired (chat (first ∷ []) second) }

  abbrev pub answered : Fields → String → List Message → Option String → Asked
  answered example text first none = record { calls = first ∷ []; result = failed chat_failed }
  answered example text first (some raw) =
      parsed_or_repaired example text first raw (parse_json_output codec raw)

  abbrev pub with_example : String → Result Fields → Asked
  with_example text (failed e) = record { calls = []; result = failed e }
  with_example text (ok example) =
      let first = build_structured_messages codec example text in
      answered example text first (chat [] first)

  -- `_run_prompt`; `structure` is the text of the example's file
  unfoldable pub run_prompt : Option String → String → Asked
  unfolding load_example_schema build_structured_messages build_repair_messages parse_json_output
  run_prompt none text =
      let messages : List Message = record { role = user; content = text } ∷ [] in
      record { calls = messages ∷ []; result = given (chat [] messages) }
  run_prompt (some structure) text = with_example text (load_example_schema codec structure)
