-- ===== src/Http/RoundTrip.antt =====
-- Messages in order pass through `normalize_chat_messages` as they are.
use mathlib.Core.List.{append-nil, append_assoc}
use bubble_hub.Prelude.{
  String, ◌≡◌, refl, true, false, some, List, [], ◌∷◌, ◌++◌, arith, All, any, Bool-cases, inl, inr,
  ◌≢◌, sym, ◌∙◌, ap, map, ◌==◌, string_eq,
}
use bubble_hub.Prelude.Dict
use bubble_hub.Prelude.Text.{strip, lower}
use bubble_hub.Value.{Value, str, dict, field, end}
use bubble_hub.Http.Messages.{
  Role, system, user, assistant, Message, Result, ok, Sorted, is_role, add, add_message, read_item,
  collect, push_message, has_user, order_message, order_messages, is_failed_assistant_content,
  normalize_message_order, nonempty, normalize_chat_messages,
}
use bubble_hub.Http.Order.{Follows, Turns, IsConversation}

abbrev pub role_name : Role → String
role_name system = "system"
role_name user = "user"
role_name assistant = "assistant"

-- a message as a client sends it
abbrev pub to_value : Message → Value
to_value m = dict (field "role" (str (role_name m.role)) (field "content" (str m.content) end))

-- a message with a text that stays as it is
abbrev pub IsClean : Message → Type 0
IsClean m =
    ((m.content == "") ≡ false)
    × (strip m.content ≡ m.content)
    × (is_failed_assistant_content m.content ≡ false)

read_clean :
    (repr : Value → String) (role : Role) (content : String)
    → (content == "") ≡ false
    → strip content ≡ content
    → is_failed_assistant_content content ≡ false
    → read_item repr (to_value (record { role = role; content = content }))
      ≡ some (record { role = role; content = content })
unfolding read_item Dict.get lower
read_clean repr system content full stripped fine = rw (stripped, full)
read_clean repr user content full stripped fine = rw (stripped, full)
read_clean repr assistant content full stripped fine = rw (stripped, full, fine)

collect_next :
    (repr : Value → String) (s : Sorted) (m : Message) (ms : List Message)
    → IsClean m
    → collect repr s (map to_value (m ∷ ms)) ≡ collect repr (add_message s m) (map to_value ms)
unfolding collect
collect_next repr s m ms h =
    ap (λ o. collect repr (add s o) (map to_value ms))
      (read_clean repr m.role m.content h.0 h.1 h.2)

collect_clean :
    (repr : Value → String) (s : Sorted) (ms : List Message)
    → All IsClean ms
    → All (λ m. is_role m.role system ≡ false) ms
    → collect repr s (map to_value ms) ≡ record s { messages = s.messages ++ ms }
unfolding collect
collect_clean repr s [] h k = ap (λ l. record s { messages = l }) (sym (append-nil s.messages))
collect_clean repr s (m ∷ ms) h k =
    collect_next repr s m ms h.0
    ∙ ap (λ t. collect repr t (map to_value ms)) (rw k.0)
    ∙ collect_clean repr (record s { messages = s.messages ++ m ∷ [] }) ms h.1 k.1
    ∙ ap (λ l. record s { messages = l }) (append_assoc s.messages (m ∷ []) ms)

push_other :
    (init : List Message) (x m : Message)
    → is_role x.role m.role ≡ false
    → push_message (init ++ x ∷ []) m ≡ init ++ x ∷ m ∷ []
unfolding push_message
push_other [] x m d = rw d
push_other (y ∷ []) x m d = rw d
push_other (y ∷ z ∷ init) x m d = ap (◌∷◌ y) (push_other (z ∷ init) x m d)

has_user_last :
    (init : List Message) (x : Message) → x.role ≡ user → has_user (init ++ x ∷ []) ≡ true
unfolding any
has_user_last [] x e = rw e
has_user_last (y ∷ init) x e = ground (arith, has_user_last init x e)

Follows-ne : (a b : Role) → Follows a b → is_role a b ≡ false
Follows-ne system user f = refl
Follows-ne a b f = ground arith

Follows-assistant : (a b : Role) → Follows a b → is_role b assistant ≡ true → a ≡ user
Follows-assistant user assistant f e = refl
Follows-assistant a b f e = ground arith

Follows-system : (a b : Role) → Follows a b → is_role b system ≡ false
Follows-system system user f = refl
Follows-system a b f = ground arith

order_next :
    (init : List Message) (x m : Message)
    → Follows x.role m.role
    → order_message (init ++ x ∷ []) m ≡ init ++ x ∷ m ∷ []
unfolding order_message
order_next init x m f = elim (Bool-cases (is_role m.role assistant)) [
  | inl a ↦
      rw (a, has_user_last init x (Follows-assistant x.role m.role f a))
        (push_other init x m (Follows-ne x.role m.role f))
  | inr n ↦ rw n (push_other init x m (Follows-ne x.role m.role f))
]

order-Turns :
    (init : List Message) (x : Message) (rest : List Message)
    → Turns x.role rest
    → order_messages (init ++ x ∷ []) rest ≡ init ++ x ∷ rest
unfolding order_messages
order-Turns init x [] t = refl
order-Turns init x (m ∷ rest) t =
    rw (order_next init x m t.0, ← append_assoc init (x ∷ []) (m ∷ []))
      (order-Turns (init ++ x ∷ []) m rest t.1 ∙ append_assoc init (x ∷ []) (m ∷ rest))

-- the roles behind the first message of a conversation
Turns-role :
    (before : Role) (ms : List Message)
    → Turns before ms
    → All (λ m. is_role m.role system ≡ false) ms
Turns-role before [] t = tt
Turns-role before (m ∷ ms) t = (Follows-system before m.role t.0, Turns-role m.role ms t.1)

-- what is done with the two lists of the loop
abbrev accept : Sorted → Result (List Message)
accept s = nonempty (normalize_message_order s.messages s.system_parts)

normalize_clean :
    (repr : Value → String) (role : Role) (content : String) (rest : List Message)
    → IsConversation (record { role = role; content = content } ∷ rest)
    → All IsClean (record { role = role; content = content } ∷ rest)
    → normalize_chat_messages repr (map to_value (record { role = role; content = content } ∷ rest))
      ≡ ok (record { role = role; content = content } ∷ rest)
unfolding normalize_chat_messages normalize_message_order
normalize_clean repr assistant content rest c h = absurd (c.0 refl)
normalize_clean repr system content rest c h =
    let first : Message = record { role = system; content = content } in
    let s : Sorted = record { messages = []; system_parts = content ∷ [] } in
    let start : Sorted = record { messages = []; system_parts = [] } in
    ap accept (
      collect_next repr start first rest h.0
      ∙ collect_clean repr s rest h.1 (Turns-role system rest c.1))
    ∙ ap nonempty (order-Turns [] first rest c.1)
normalize_clean repr user content rest c h =
    let first : Message = record { role = user; content = content } in
    let s : Sorted = record { messages = []; system_parts = [] } in
    ap accept (collect_clean repr s (first ∷ rest) h (refl, Turns-role user rest c.1))
    ∙ ap nonempty (order-Turns [] first rest c.1)

-- A conversation whose texts are not empty, are stripped and are no failed assistant turns, sent
-- as a list of objects with `role` and `content`, is accepted as it is.
pub normalize_chat_messages-to_value :
    (repr : Value → String) (ms : List Message)
    → ms ≢ []
    → IsConversation ms
    → All IsClean ms
    → normalize_chat_messages repr (map to_value ms) ≡ ok ms
normalize_chat_messages-to_value repr [] n c h = absurd (n refl)
normalize_chat_messages-to_value repr (m ∷ rest) n c h =
    normalize_clean repr m.role m.content rest c h
