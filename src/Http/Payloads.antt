-- ===== src/Http/Payloads.antt =====
-- The bodies of the server's responses, as JSON.
use bubble_hub.Prelude.{ℕ, suc, ◌+◌, String, Bool, false, not, List, [], ◌∷◌, if◌then◌else◌}
use bubble_hub.Prelude.Int.{pos}
use bubble_hub.Prelude.Text.{is_space}
use bubble_hub.Value.{Value, null, int, str, list, dict, of_list, of_dict}

-- what `uuid4` and `time` give for one response
pub record Fresh : Type 0 where
  pub response_id : String
  pub output_id : String
  pub text_id : String
  pub created : ℕ

abbrev pub object : List (String × Value) → Value
object d = dict (of_dict d)

abbrev pub array : List Value → Value
array vs = list (of_list vs)

unfoldable pub chat_completion_payload : String → String → Fresh → Value
chat_completion_payload model content fresh = object (
    ("id", str fresh.response_id)
    ∷ ("object", str "chat.completion")
    ∷ ("created", int (pos fresh.created))
    ∷ ("model", str model)
    ∷ (
      "choices",
      array (
          object (
            ("index", int (pos 0))
            ∷ ("message", object (("role", str "assistant") ∷ ("content", str content) ∷ []))
            ∷ ("finish_reason", str "stop")
            ∷ [])
          ∷ []),
    )
    ∷ [])

abbrev pub response_output : String → Fresh → Value
response_output content fresh = object (
    ("id", str fresh.output_id)
    ∷ ("type", str "message")
    ∷ ("role", str "assistant")
    ∷ ("status", str "completed")
    ∷ (
      "content",
      array (
          object
            (("id", str fresh.text_id) ∷ ("type", str "output_text") ∷ ("text", str content) ∷ [])
          ∷ []),
    )
    ∷ [])

abbrev pub response_fields : String → String → Fresh → List Value → Value
response_fields model content fresh output = object (
    ("id", str fresh.response_id)
    ∷ ("object", str "response")
    ∷ ("created_at", int (pos fresh.created))
    ∷ ("status", str "completed")
    ∷ ("model", str model)
    ∷ ("output", array output)
    ∷ ("output_text", str content)
    ∷ [])

unfoldable pub responses_payload : String → String → Fresh → Value
responses_payload model content fresh =
    response_fields model content fresh (response_output content fresh ∷ [])

-- `len(s.split())`: the words that white space parts; `inside` says that a word has begun
unfoldable pub count_words : Bool → String → ℕ
unfolding is_space
count_words inside String.[] = 0
count_words inside (String.◌∷◌ c s) =
    let after = count_words (not (is_space c)) s in
    if is_space c then after else if inside then after else suc after

unfoldable pub total_words : List String → ℕ
unfolding count_words
total_words [] = 0
total_words (s ∷ inputs) = count_words false s + total_words inputs

unfoldable pub embedding_items : ℕ → List Value → List Value
embedding_items index [] = []
embedding_items index (vector ∷ vectors) =
    object (("object", str "embedding") ∷ ("index", int (pos index)) ∷ ("embedding", vector) ∷ [])
    ∷ embedding_items (suc index) vectors

unfoldable pub embeddings_payload : String → List Value → List String → Value
unfolding total_words embedding_items
embeddings_payload model vectors inputs = object (
    ("object", str "list")
    ∷ ("model", str model)
    ∷ ("data", array (embedding_items 0 vectors))
    ∷ (
      "usage",
      object (
          ("prompt_tokens", int (pos (total_words inputs)))
          ∷ ("total_tokens", int (pos (total_words inputs)))
          ∷ []),
    )
    ∷ [])

abbrev pub chunk : String → Fresh → List (String × Value) → Value → Value
chunk model fresh delta reason = object (
    ("id", str fresh.response_id)
    ∷ ("object", str "chat.completion.chunk")
    ∷ ("created", int (pos fresh.created))
    ∷ ("model", str model)
    ∷ (
      "choices",
      array (
          object (("index", int (pos 0)) ∷ ("delta", object delta) ∷ ("finish_reason", reason) ∷ [])
          ∷ []),
    )
    ∷ [])

unfoldable pub chat_completion_stream : String → String → Fresh → List Value
chat_completion_stream model content fresh =
    chunk model fresh (("role", str "assistant") ∷ []) null
    ∷ chunk model fresh (("content", str content) ∷ []) null
    ∷ chunk model fresh [] (str "stop")
    ∷ []

unfoldable pub responses_stream : String → String → Fresh → List Value
unfolding responses_payload
responses_stream model content fresh =
    object
      (("type", str "response.created") ∷ ("response", response_fields model content fresh []) ∷ [])
    ∷ object (
        ("type", str "response.output_text.delta")
        ∷ ("item_id", str fresh.output_id)
        ∷ ("output_index", int (pos 0))
        ∷ ("content_index", int (pos 0))
        ∷ ("delta", str content)
        ∷ [])
    ∷ object (
        ("type", str "response.completed")
        ∷ ("response", responses_payload model content fresh)
        ∷ [])
    ∷ []
