-- ===== src/Http/Order.antt =====
-- The order of the messages that the backend is given.
use bubble_hub.Prelude.{
  String, ◌≡◌, refl, false, Option, none, some, List, [], ◌∷◌, arith, All, All-append, Bool-cases,
  inl, inr, ◌≢◌, ◌&&◌, ◌||◌, not, subst, sym,
}
use bubble_hub.Value.{Value}
use bubble_hub.Http.Messages.{
  Role, system, user, assistant, Message, ok, Sorted, is_role, add, read_item, collect,
  push_message, has_user, order_message, order_messages, system_message, normalize_message_order,
  nonempty, normalize_chat_messages,
}

-- which role may follow which
abbrev pub Follows : Role → Role → Type 0
Follows system user = Unit
Follows user assistant = Unit
Follows assistant user = Unit
Follows _ _ = ⊥

abbrev pub Turns : Role → List Message → Type 0
Turns before [] = Unit
Turns before (m ∷ rest) = Follows before m.role × Turns m.role rest

-- An optional system message, then user and assistant in turn, the user first.
abbrev pub IsConversation : List Message → Type 0
IsConversation [] = Unit
IsConversation (m ∷ rest) = (m.role ≢ assistant) × Turns m.role rest

-- a message of another role may follow one that follows something
Follows-next :
    (a b c : Role) → Follows a b → is_role b c ≡ false → is_role c system ≡ false → Follows b c
Follows-next system user assistant f d n = tt
Follows-next assistant user assistant f d n = tt
Follows-next user assistant user f d n = tt
Follows-next a b c f d n = ground arith

push_message-Turns :
    (before : Role) (x : Message) (rest : List Message) (m : Message)
    → is_role m.role system ≡ false
    → Turns before (x ∷ rest)
    → Turns before (push_message (x ∷ rest) m)
unfolding push_message
push_message-Turns before x [] m r t = elim (Bool-cases (is_role x.role m.role)) [
  | inl same ↦ rw same t
  | inr other ↦ rw other (t.0, (Follows-next before x.role m.role t.0 other r, tt))
]
push_message-Turns before x (y ∷ rest) m r t = (t.0, push_message-Turns x.role y rest m r t.1)

-- the first message of all may be followed by a message that is not dropped
Follows-first :
    (b c : Role)
    → b ≢ assistant
    → is_role b c ≡ false
    → is_role c system ≡ false
    → (is_role c assistant && not (is_role b user || false)) ≡ false
    → Follows b c
Follows-first system user n d r k = tt
Follows-first user assistant n d r k = tt
Follows-first assistant c n d r k = absurd (n refl)
Follows-first b c n d r k = ground arith

order_message-IsConversation :
    (ordered : List Message) (m : Message)
    → is_role m.role system ≡ false
    → IsConversation ordered
    → IsConversation (order_message ordered m)
unfolding order_message
order_message-IsConversation [] m r c = ground arith
order_message-IsConversation (x ∷ []) m r c =
    elim (Bool-cases (is_role m.role assistant && not (has_user (x ∷ [])))) [
      | inl skip ↦ rw skip c
      | inr keep ↦ rw keep (elim (Bool-cases (is_role x.role m.role)) [
        | inl same ↦ rw same c
        | inr other ↦ rw other (c.0, (Follows-first x.role m.role c.0 other r keep, tt))
      ])
    ]
order_message-IsConversation (x ∷ y ∷ rest) m r c =
    elim (Bool-cases (is_role m.role assistant && not (has_user (x ∷ y ∷ rest)))) [
      | inl skip ↦ rw skip c
      | inr keep ↦ rw keep (c.0, push_message-Turns x.role y rest m r c.1)
    ]

order_messages-IsConversation :
    (ordered messages : List Message)
    → All (λ m. is_role m.role system ≡ false) messages
    → IsConversation ordered
    → IsConversation (order_messages ordered messages)
unfolding order_messages
order_messages-IsConversation ordered [] h c = c
order_messages-IsConversation ordered (m ∷ messages) h c =
    order_messages-IsConversation (order_message ordered m) messages h.1
      (order_message-IsConversation ordered m h.0 c)

add-role :
    (s : Sorted) (o : Option Message)
    → All (λ m. is_role m.role system ≡ false) s.messages
    → All (λ m. is_role m.role system ≡ false) (add s o).messages
add-role s none h = h
add-role s (some m) h = elim (Bool-cases (is_role m.role system)) [
  | inl t ↦ rw t h
  | inr f ↦ rw f (All-append (λ m. is_role m.role system ≡ false) s.messages (m ∷ []) h (f, tt))
]

collect-role :
    (repr : Value → String) (s : Sorted) (items : List Value)
    → All (λ m. is_role m.role system ≡ false) s.messages
    → All (λ m. is_role m.role system ≡ false) (collect repr s items).messages
unfolding collect
collect-role repr s [] h = h
collect-role repr s (item ∷ items) h =
    collect-role repr (add s (read_item repr item)) items (add-role s (read_item repr item) h)

system_message-IsConversation : (parts : List String) → IsConversation (system_message parts)
system_message-IsConversation [] = tt
system_message-IsConversation (p ∷ parts) = (λ e. cc, tt)

nonempty-ok :
    (ms : List Message) {out : List Message} → nonempty ms ≡ ok out → (out ≡ ms) × (out ≢ [])
nonempty-ok [] h = cc
nonempty-ok (m ∷ ms) h = (cc, λ e. cc)

-- Whatever a client sends, messages that are accepted are not empty, and consist of at most one
-- system message, which stands first, and then user and assistant messages in turn, the first of
-- them a user's.
pub normalize_chat_messages-IsConversation :
    (repr : Value → String) (value : List Value) (out : List Message)
    → normalize_chat_messages repr value ≡ ok out
    → (out ≢ []) × IsConversation out
unfolding normalize_chat_messages normalize_message_order
normalize_chat_messages-IsConversation repr value out h =
    let s = collect repr (record { messages = []; system_parts = [] }) value in
    let (same, full) = nonempty-ok (normalize_message_order s.messages s.system_parts) h in
    (
      full,
      subst IsConversation (sym same) (
          order_messages-IsConversation (system_message s.system_parts) s.messages
            (collect-role repr (record { messages = []; system_parts = [] }) value tt)
            (system_message-IsConversation s.system_parts)),
    )
