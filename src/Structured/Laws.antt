-- ===== src/Structured/Laws.antt =====
-- What `_run_prompt` of bubblehub/cli/prompt.py asks and returns, and which answers
-- `parse_json_output` of bubblehub/engine/structured.py reads.
use Prim.Native.String.{[], ◌∷◌}
use bubble_hub.Prelude.{
  String, ◌≡◌, refl, sym, Option, none, some, List, [], ◌∷◌, ◌++◌, string_eq, nat_eq, All, subst,
}
use bubble_hub.Value.{Fields, dict}
use bubble_hub.Http.Messages.{Message, system, user}
use bubble_hub.Prelude.Text.{concat}
use bubble_hub.Http.Order.{IsConversation}
use bubble_hub.Structured.{
  Codec, Failure, chat_failed, Result, ok, failed, Asked, load_example_schema,
  build_structured_messages, build_repair_messages, parse_json_output, dumped, repaired,
  parsed_or_repaired, answered, with_example, run_prompt,
}

module _ (codec : Codec) (chat : List (List Message) → List Message → Option String)
    (text : String) where
  -- the answer of the last call is an object, which is printed
  pub record IsParsed (earlier : List (List Message)) (last : List Message) (out : String)
      : Type 0 where
    pub answer : String
    pub object : Fields
    pub came : chat earlier last ≡ some answer
    pub parsed : parse_json_output codec answer ≡ ok object
    pub printed : out ≡ codec.dumps (dict object)

  -- what comes of a call
  pub data IsResult (earlier : List (List Message)) (last : List Message)
      : Result String → Type 0 where
    printed : (out : String) → IsParsed earlier last out → IsResult earlier last (ok out)
    refused :
        (answer : String) (e : Failure)
        → chat earlier last ≡ some answer
        → parse_json_output codec answer ≡ failed e
        → IsResult earlier last (failed e)
    raised : chat earlier last ≡ none → IsResult earlier last (failed chat_failed)

  -- messages that show the example, and then say something as the user
  pub record Asks (example : Fields) (content : String) (messages : List Message) : Type 0 where
    pub lead : List String
    pub asked :
        messages
        ≡ record { role = system; content = concat (lead ++ codec.dumps (dict example) ∷ []) }
          ∷ record { role = user; content = content }
          ∷ []

  -- One call with the prompt, whose answer is read or that raises; or a second one after an answer
  -- that is refused, with the prompt and that answer in it.
  pub data IsAsked (example : Fields) : Asked → Type 0 where
    read_at_once :
        (first : List Message) (out : String)
        → Asks example text first
        → IsParsed [] first out
        → IsAsked example (record { calls = first ∷ []; result = ok out })
    raised_at_once :
        (first : List Message)
        → Asks example text first
        → chat [] first ≡ none
        → IsAsked example (record { calls = first ∷ []; result = failed chat_failed })
    asked_again :
        (first second : List Message) (raw before between : String) (e : Failure)
        (result : Result String)
        → Asks example text first
        → chat [] first ≡ some raw
        → parse_json_output codec raw ≡ failed e
        → Asks example (concat (before ∷ text ∷ between ∷ raw ∷ [])) second
        → IsResult (first ∷ []) second result
        → IsAsked example (record { calls = first ∷ second ∷ []; result = result })

  first-Asks : (example : Fields) → Asks example text (build_structured_messages codec example text)
  unfolding build_structured_messages
  first-Asks example = record { lead = _ ∷ _ ∷ []; asked = refl }

  second-Asks :
      (example : Fields) (raw : String)
      → Asks example
          (concat ("Original request:\n" ∷ text ∷ "\n\nInvalid output:\n" ∷ raw ∷ []))
          (build_repair_messages codec example text raw)
  unfolding build_repair_messages
  second-Asks example raw = record { lead = _ ∷ _ ∷ []; asked = refl }

  dumped-IsResult :
      (earlier : List (List Message)) (last : List Message) (answer : String) (r : Result Fields)
      → chat earlier last ≡ some answer
      → parse_json_output codec answer ≡ r
      → IsResult earlier last (dumped codec r)
  dumped-IsResult earlier last answer (ok fs) came parsed =
      printed _
        (record { answer = answer; object = fs; came = came; parsed = parsed; printed = refl })
  dumped-IsResult earlier last answer (failed e) came parsed = refused answer e came parsed

  repaired-IsResult :
      (earlier : List (List Message)) (last : List Message) (answer : Option String)
      → chat earlier last ≡ answer
      → IsResult earlier last (repaired codec chat answer)
  repaired-IsResult earlier last none came = raised came
  repaired-IsResult earlier last (some answer) came =
      dumped-IsResult earlier last answer (parse_json_output codec answer) came refl

  parsed_or_repaired-IsAsked :
      (example : Fields) (raw : String) (r : Result Fields)
      → chat [] (build_structured_messages codec example text) ≡ some raw
      → parse_json_output codec raw ≡ r
      → IsAsked example (
          parsed_or_repaired codec chat example text
            (build_structured_messages codec example text)
            raw
            r)
  parsed_or_repaired-IsAsked example raw (ok fs) came parsed =
      read_at_once _ _ (first-Asks example)
        (record { answer = raw; object = fs; came = came; parsed = parsed; printed = refl })
  parsed_or_repaired-IsAsked example raw (failed e) came parsed =
      asked_again _ _ raw _ _ e _ (first-Asks example) came parsed (second-Asks example raw)
        (repaired-IsResult _ _ _ refl)

  answered-IsAsked :
      (example : Fields) (answer : Option String)
      → chat [] (build_structured_messages codec example text) ≡ answer
      → IsAsked example
          (answered codec chat example text (build_structured_messages codec example text) answer)
  answered-IsAsked example none came = raised_at_once _ (first-Asks example) came
  answered-IsAsked example (some raw) came = parsed_or_repaired-IsAsked example raw _ came refl

  Asks-IsConversation :
      (example : Fields) (content : String) (messages : List Message)
      → Asks example content messages
      → IsConversation messages
  Asks-IsConversation example content messages asks =
      subst IsConversation (sym asks.asked) (cc, (tt, tt))

  calls-IsConversation :
      (example : Fields) (asked : Asked) → IsAsked example asked → All IsConversation asked.calls
  calls-IsConversation example asked (read_at_once first out a p) =
      (Asks-IsConversation example text first a, tt)
  calls-IsConversation example asked (raised_at_once first a p) =
      (Asks-IsConversation example text first a, tt)
  calls-IsConversation example asked (asked_again first second raw x y e result a came parsed b p) =
      (Asks-IsConversation example text first a, (Asks-IsConversation example _ second b, tt))

  -- With an example that is an object, the model is asked once, with the example and the prompt,
  -- unless its answer is refused: then it is asked a second time, with the example, the prompt and
  -- that answer, and no more. The messages of each call are a conversation in order. What is
  -- returned is the print of the object that the last answer reads as; the prompt fails where the
  -- last call raises or its answer is refused too.
  pub run_prompt-IsAsked :
      (structure : String) (example : Fields)
      → load_example_schema codec structure ≡ ok example
      → IsAsked example (run_prompt codec chat (some structure) text)
        × All IsConversation (run_prompt codec chat (some structure) text).calls
  unfolding run_prompt
  run_prompt-IsAsked structure example loaded =
      let h =
        subst (λ r. IsAsked example (with_example codec chat text r)) (sym loaded)
          (answered-IsAsked example _ refl) in
      (h, calls-IsConversation example _ h)
