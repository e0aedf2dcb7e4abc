-- ===== src/Http/Handler/Laws.antt =====
-- What `do_POST` asks of the engine, and how it answers.
use bubble_hub.Prelude.{
  ◌≤◌, String, ◌≡◌, ◌≢◌, refl, ◌⊎◌, inl, inr, true, List, [], ◌∷◌, arith, All, length, ◌==◌,
  string_eq, Bool-cases, subst,
}
use bubble_hub.Prelude.Dict.{Dict}
use bubble_hub.Prelude.Int.{is_positive}
use bubble_hub.Value.{Value, str, list, to_list, get}
use bubble_hub.Http.Messages.{
  Message, Failure, Result, ok, raise, ◌>>=◌, normalize_chat_messages,
  messages_from_responses_input,
}
use bubble_hub.Http.Order.{IsConversation, normalize_chat_messages-IsConversation}
use bubble_hub.Http.Request.{
  is_known, normalize_embeddings_input, max_output_tokens-positive, specialty_from_body-known,
}
use bubble_hub.Http.Handler.{
  Server, Request, Response, Call, ChatCall, EmbeddingsCall, chat_call, embeddings_call,
  message_list, specialty_of, tokens_of, prepare_chat, prepare_responses, prepare_embeddings, serve,
  route, read_json, do_post,
}

module _ (server : Server) where
  -- a specialty that the engine can be asked for
  abbrev pub IsServed : String → Type 0
  IsServed specialty =
      (is_known server.specialties specialty ≡ true) ⊎ (specialty ≡ server.default_specialty)

  -- a call that the engine can work with
  abbrev pub IsSound : Call → Type 0
  IsSound (chat_call c) =
      IsServed c.specialty
      × (c.messages ≢ [])
      × IsConversation c.messages
      × (is_positive c.max_tokens ≡ true)
  IsSound (embeddings_call c) = IsServed c.specialty

pub >>=-succeeds :
    {X Y : Type 0} (first : Result X) (next : X → Result Y) {y : Y}
    → (first >>= next) ≡ ok y
    → (x : X) × (first ≡ ok x) × (next x ≡ ok y)
>>=-succeeds (raise failure) next raised = cc
>>=-succeeds (ok x) next passed = (x, refl, passed)

pub Result-cases :
    {A : Type 0} (r : Result A) → ((e : Failure) × (r ≡ raise e)) ⊎ ((a : A) × (r ≡ ok a))
Result-cases (ok a) = inr (a, refl)
Result-cases (raise e) = inl (e, refl)

pub ok-injective : {A : Type 0} {a b : A} → ok a ≡ ok b → a ≡ b
ok-injective h = cc

module _ (server : Server) where
  responses-IsConversation :
      (value : Value) (messages : List Message)
      → messages_from_responses_input server.repr value ≡ ok messages
      → (messages ≢ []) × IsConversation messages
  unfolding messages_from_responses_input
  responses-IsConversation (str s) messages h =
      subst (λ l. (l ≢ []) × IsConversation l) (ok-injective h) (λ e. cc, (λ e. cc, tt))
  responses-IsConversation (list vs) messages h =
      normalize_chat_messages-IsConversation server.repr (to_list vs) messages h
  responses-IsConversation _ messages h = cc

  chat-IsSound :
      (body : Dict Value) (names : List String) (c : ChatCall) (messages : Result (List Message))
      → ((l : List Message) → messages ≡ ok l → (l ≢ []) × IsConversation l)
      → (messages >>= λ l. tokens_of server body names >>= λ n.
          ok (record { specialty = specialty_of server body; messages = l; max_tokens = n }))
        ≡ ok c
      → IsSound server (chat_call c)
  chat-IsSound body names c messages conv h =
      let (l, l_ok, h₁) = >>=-succeeds messages _ h in
      let (n, n_ok, h₂) = >>=-succeeds (tokens_of server body names) _ h₁ in
      let (full, order) = conv l l_ok in
      subst (λ d. IsSound server (chat_call d)) (ok-injective h₂)
        (
          specialty_from_body-known server.repr server.specialties body server.default_specialty,
          full,
          order,
          max_output_tokens-positive server.max_output_tokens_env body names n n_ok,
        )

  prepare_chat-IsSound :
      (body : Dict Value) (c : ChatCall)
      → prepare_chat server body ≡ ok c
      → IsSound server (chat_call c)
  unfolding prepare_chat
  prepare_chat-IsSound body c h =
      let (vs, vs_ok, h₁) = >>=-succeeds (message_list (get body "messages")) _ h in
      chat-IsSound body ("max_tokens" ∷ "max_completion_tokens" ∷ []) c
        (normalize_chat_messages server.repr vs)
        (normalize_chat_messages-IsConversation server.repr vs) h₁

  prepare_responses-IsSound :
      (body : Dict Value) (c : ChatCall)
      → prepare_responses server body ≡ ok c
      → IsSound server (chat_call c)
  unfolding prepare_responses
  prepare_responses-IsSound body c h =
      chat-IsSound body ("max_output_tokens" ∷ "max_tokens" ∷ []) c
        (messages_from_responses_input server.repr (get body "input"))
        (responses-IsConversation (get body "input")) h

  prepare_embeddings-IsSound :
      (body : Dict Value) (c : EmbeddingsCall)
      → prepare_embeddings server body ≡ ok c
      → IsSound server (embeddings_call c)
  unfolding prepare_embeddings
  prepare_embeddings-IsSound body c h =
      let (inputs, inputs_ok, h₁) =
        >>=-succeeds (normalize_embeddings_input server.repr (get body "input")) _ h in
      subst (λ d. IsSound server (embeddings_call d)) (ok-injective h₁)
        (specialty_from_body-known server.repr server.specialties body server.default_specialty)

  -- the calls that were made, if they were at most one, and sound
  abbrev pub AreSound : List Call → Type 0
  AreSound calls = (length calls ≤ 1) × All (IsSound server) calls

  serve-AreSound :
      {C : Type 0} (prepared : Result C) (call : C → Call) (answer : C → Result Response)
      → ((c : C) → prepared ≡ ok c → IsSound server (call c))
      → AreSound (serve server prepared call answer).0
  serve-AreSound (raise e) call answer h = (omega arith, tt)
  serve-AreSound (ok c) call answer h = (omega arith, (h c refl, tt))

  route-AreSound : (path : String) (body : Dict Value) → AreSound (route server path body).0
  unfolding route
  route-AreSound path body = elim (Bool-cases (path == "/v1/chat/completions")) [
    | inl t ↦ rw t (serve-AreSound (prepare_chat server body) _ _ (prepare_chat-IsSound body))
    | inr f ↦ rw f (elim (Bool-cases (path == "/v1/responses")) [
      | inl t ↦
          rw t (serve-AreSound (prepare_responses server body) _ _ (prepare_responses-IsSound body))
      | inr g ↦ rw g (elim (Bool-cases (path == "/v1/embeddings")) [
        | inl t ↦
            rw t (
              serve-AreSound (prepare_embeddings server body) _ _ (prepare_embeddings-IsSound body))
        | inr k ↦ rw k (omega arith, tt)
      ])
    ])
  ]

  -- For every request the engine is called at most once, and then with a specialty that the
  -- registry knows or the default, and for a chat with messages that are a conversation in order
  -- and a positive limit on the output.
  pub do_post-AreSound : (request : Request) → AreSound (do_post server request).0
  unfolding do_post
  do_post-AreSound request = elim (Result-cases (read_json request)) [
    | inl (e, raised) ↦ rw raised (omega arith, tt)
    | inr (body, read) ↦ rw read (route-AreSound request.path body)
  ]
