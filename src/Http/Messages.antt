-- ===== src/Http/Messages.antt =====
-- How chat messages are read and put in order: `normalize_chat_messages` and what it calls.
-- `repr` is Python's text of a list or a dict, which stands in a message only where a client sends
-- one in place of a text.
use bubble_hub.Prelude.{
  String, Bool, true, false, ◌&&◌, ◌||◌, not, Option, none, some, List, [], ◌∷◌, ◌++◌, map, ◌==◌,
  string_eq, if◌then◌else◌, filter, any,
}
use bubble_hub.Prelude.Dict
use bubble_hub.Prelude.Text.{concat, join, strip, lower}
use bubble_hub.Value.{Value, Fields, str, list, dict, to_list, to_dict, get, ◌or◌, str_of}

pub data Role : Type 0 where
  system user assistant : Role

pub record Message : Type 0 where
  pub role : Role
  pub content : String

-- an exception: `ValueError` (and its subclasses), or any other
pub data Failure : Type 0 where
  value_error : String → Failure
  other_error : String → Failure

pub data Result {ℓ} (A : Type ℓ) : Type ℓ where
  ok : A → Result A
  raise : Failure → Result A

infixl 5 ◌>>=◌
abbrev pub ◌>>=◌ {ℓ μ} : {X : Type ℓ} {Y : Type μ} → Result X → (X → Result Y) → Result Y
ok x >>= k = k x
raise failure >>= k = raise failure

abbrev role_of : String → Role
role_of name =
    if name == "developer"
    then system
    else if name == "system"
    then system
    else if name == "assistant"
    then assistant
    else user

abbrev pub is_role : Role → Role → Bool
is_role system system = true
is_role user user = true
is_role assistant assistant = true
is_role _ _ = false

unfoldable pub is_failed_assistant_content : String → Bool
unfolding strip lower
is_failed_assistant_content content =
    let normalized = lower (strip content) in
    normalized == "[assistant turn failed before producing content]"
    || normalized
      == "context overflow: prompt too large for the model. try /reset (or /new) to start a fresh session, or use a larger-context model."

module _ (repr : Value → String) where
  unfoldable pub normalize_role : Value → Role
  unfolding lower str_of ◌or◌
  normalize_role value = role_of (lower (str_of repr (value or str "user")))

  -- `str(value.get("text") or value.get("input_text") or value.get("output_text") or "")`
  unfoldable pub text_field : Fields → String
  unfolding get str_of ◌or◌
  text_field fs =
      let d = to_dict fs in
      str_of repr (get d "text" or get d "input_text" or get d "output_text" or str "")

  abbrev pub part : Value → String
  part (dict fs) = text_field fs
  part v = str_of repr v

  unfoldable pub content_to_text : Value → String
  unfolding text_field join filter str_of
  content_to_text (str s) = s
  content_to_text (dict fs) = text_field fs
  content_to_text (list vs) = join "\n" (filter (λ s. not (s == "")) (map part (to_list vs)))
  content_to_text v = str_of repr v

  -- `item.get(k, default)`
  abbrev pub get_default : Fields → String → Value → Value
  get_default fs k v = elim (Dict.get (to_dict fs) k) [ none ↦ v | some w ↦ w ]

  abbrev pub is_tool_role : Fields → Bool
  is_tool_role fs =
      let name = lower (str_of repr (get_default fs "role" (str ""))) in
      name == "tool" || name == "function"

  unfoldable pub tool_result : Fields → String → String
  unfolding get str_of ◌or◌
  tool_result fs content =
      let d = to_dict fs in
      let name = get d "name" or get d "tool_call_id" or str "tool" in
      concat ("Tool result (" ∷ str_of repr name ∷ "):\n" ∷ content ∷ [])

  -- what one dict of the list adds: nothing, a system text or a message
  unfoldable pub read_message : Fields → Option Message
  unfolding normalize_role content_to_text tool_result
  read_message fs =
      let role = normalize_role (get (to_dict fs) "role") in
      let content = strip (content_to_text (get_default fs "content" (str ""))) in
      if content == "" && is_role role assistant
      then none
      else if is_role role assistant && is_failed_assistant_content content
      then none
      else if content == ""
      then none
      else some (record {
        role = role;
        content = if is_tool_role fs then tool_result fs content else content;
      })

  unfoldable pub read_item : Value → Option Message
  unfolding read_message
  read_item (str s) =
      if strip s == "" then none else some (record { role = user; content = strip s })
  read_item (dict fs) = read_message fs
  read_item _ = none

-- the lists `messages` and `system_parts` of the loop
pub record Sorted : Type 0 where
  pub messages : List Message
  pub system_parts : List String

abbrev pub add_message : Sorted → Message → Sorted
add_message s m =
    if is_role m.role system
    then record s { system_parts = s.system_parts ++ m.content ∷ [] }
    else record s { messages = s.messages ++ m ∷ [] }

abbrev pub add : Sorted → Option Message → Sorted
add s none = s
add s (some m) = add_message s m

unfoldable pub collect : (Value → String) → Sorted → List Value → Sorted
collect repr s [] = s
collect repr s (item ∷ items) = collect repr (add s (read_item repr item)) items

abbrev pub merge : Message → Message → Message
merge a b = record a { content = concat (a.content ∷ "\n\n" ∷ b.content ∷ []) }

-- joins a message to the last one, if that has its role, or adds it behind it
unfoldable pub push_message : List Message → Message → List Message
push_message [] m = m ∷ []
push_message (x ∷ []) m = if is_role x.role m.role then merge x m ∷ [] else x ∷ m ∷ []
push_message (x ∷ y ∷ rest) m = x ∷ push_message (y ∷ rest) m

abbrev pub has_user : List Message → Bool
has_user ordered = any (λ m. is_role m.role user) ordered

-- one round of the loop of `_normalize_message_order`
unfoldable pub order_message : List Message → Message → List Message
unfolding push_message any
order_message ordered m =
    if is_role m.role assistant && not (has_user ordered) then ordered else push_message ordered m

unfoldable pub order_messages : List Message → List Message → List Message
unfolding order_message
order_messages ordered [] = ordered
order_messages ordered (m ∷ messages) = order_messages (order_message ordered m) messages

abbrev pub system_message : List String → List Message
system_message [] = []
system_message (p ∷ parts) = record { role = system; content = join "\n\n" (p ∷ parts) } ∷ []

unfoldable pub normalize_message_order : List Message → List String → List Message
unfolding order_messages join
normalize_message_order messages system_parts =
    order_messages (system_message system_parts) messages

abbrev pub nonempty : List Message → Result (List Message)
nonempty [] = raise (value_error "messages must contain at least one text message")
nonempty (m ∷ ms) = ok (m ∷ ms)

unfoldable pub normalize_chat_messages : (Value → String) → List Value → Result (List Message)
unfolding collect normalize_message_order
normalize_chat_messages repr value =
    let s = collect repr (record { messages = []; system_parts = [] }) value in
    nonempty (normalize_message_order s.messages s.system_parts)

unfoldable pub messages_from_responses_input : (Value → String) → Value → Result (List Message)
unfolding normalize_chat_messages
messages_from_responses_input repr (str s) = ok (record { role = user; content = s } ∷ [])
messages_from_responses_input repr (list vs) = normalize_chat_messages repr (to_list vs)
messages_from_responses_input repr _ =
    raise (value_error "responses input must be a string or a list of messages")
