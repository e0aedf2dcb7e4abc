-- ===== src/Http/Handler/Accounts.antt =====
-- How the status of a response goes with the engine's calls.
use bubble_hub.Prelude.{
  String, ◌≡◌, ◌≢◌, refl, inl, inr, List, [], ◌∷◌, length, ◌==◌, string_eq, eq_iff, Bool-cases,
  arith,
}
use bubble_hub.Prelude.Dict.{Dict}
use bubble_hub.Value.{Value}
use bubble_hub.Http.Messages.{value_error, other_error, Result, ok, raise}
use bubble_hub.Http.Handler.{
  Server, Request, Response, Status, success, not_found, Call, ChatCall, EmbeddingsCall,
  answer_chat, answer_responses, answer_embeddings, serve, route, caught, read_json, do_post,
  send_error,
}
use bubble_hub.Http.Handler.Laws.{Result-cases}

module _ (server : Server) where
  -- what a status says of the calls that were made before the response, and of the path
  abbrev pub Accounted : String → List Call → Status → Type 0
  Accounted path calls status =
      (status ≡ success → length calls ≡ 1)
      × (status ≡ not_found
          → (calls ≡ [])
            × (path ≢ "/v1/chat/completions")
            × (path ≢ "/v1/responses")
            × (path ≢ "/v1/embeddings"))

  caught-Accounted :
      (path : String) (call : Call) (result : Result Response)
      → ((r : Response) → result ≡ ok r → r.status ≡ success)
      → Accounted path (call ∷ []) (caught server result).status
  unfolding send_error
  caught-Accounted path call (ok r) h = (λ e. refl, λ e. absurd (cc (h r refl)))
  caught-Accounted path call (raise (value_error m)) h = (λ e. refl, λ e. absurd (cc))
  caught-Accounted path call (raise (other_error m)) h = (λ e. refl, λ e. absurd (cc))

  raised-Accounted :
      (path : String) (result : Result Response)
      → ((r : Response) → result ≢ ok r)
      → Accounted path [] (caught server result).status
  unfolding send_error
  raised-Accounted path (ok r) h = absurd (h r refl)
  raised-Accounted path (raise (value_error m)) h = (λ e. absurd (cc), λ e. absurd (cc))
  raised-Accounted path (raise (other_error m)) h = (λ e. absurd (cc), λ e. absurd (cc))

  serve-Accounted :
      {C : Type 0} (path : String) (prepared : Result C) (call : C → Call)
      (answer : C → Result Response)
      → ((c : C) (r : Response) → answer c ≡ ok r → r.status ≡ success)
      → let (calls, result) = serve server prepared call answer in
        Accounted path calls (caught server result).status
  serve-Accounted path (raise e) call answer h = raised-Accounted path (raise e) (λ r k. cc)
  serve-Accounted path (ok c) call answer h = caught-Accounted path (call c) (answer c) (h c)

  answer_chat-success :
      (body : Dict Value) (c : ChatCall) (r : Response)
      → answer_chat server body c ≡ ok r
      → r.status ≡ success
  unfolding answer_chat
  answer_chat-success body c r h = ground arith

  answer_responses-success :
      (body : Dict Value) (c : ChatCall) (r : Response)
      → answer_responses server body c ≡ ok r
      → r.status ≡ success
  unfolding answer_responses
  answer_responses-success body c r h = ground arith

  answer_embeddings-success :
      (body : Dict Value) (c : EmbeddingsCall) (r : Response)
      → answer_embeddings server body c ≡ ok r
      → r.status ≡ success
  unfolding answer_embeddings
  answer_embeddings-success body c r h = ground arith

  route-Accounted :
      (path : String) (body : Dict Value)
      → let (calls, result) = route server path body in
        Accounted path calls (caught server result).status
  unfolding route send_error
  route-Accounted path body = elim (Bool-cases (path == "/v1/chat/completions")) [
    | inl t ↦ rw t (serve-Accounted path _ _ _ (answer_chat-success body))
    | inr f ↦ rw f (elim (Bool-cases (path == "/v1/responses")) [
      | inl t ↦ rw t (serve-Accounted path _ _ _ (answer_responses-success body))
      | inr g ↦ rw g (elim (Bool-cases (path == "/v1/embeddings")) [
        | inl t ↦ rw t (serve-Accounted path _ _ _ (answer_embeddings-success body))
        | inr k ↦ rw k (
          λ e. absurd (cc),
          λ e. (
            refl,
            λ p. cc (f, (eq_iff path "/v1/chat/completions").1 p),
            λ p. cc (g, (eq_iff path "/v1/responses").1 p),
            λ p. cc (k, (eq_iff path "/v1/embeddings").1 p),
          ),
        )
      ])
    ])
  ]

  -- A response with status 200 comes after exactly one call of the engine, and a response with
  -- status 404 after none, and only for a path that is none of the three endpoints.
  pub do_post-Accounted :
      (request : Request)
      → let (calls, response) = do_post server request in
        Accounted request.path calls response.status
  unfolding do_post
  do_post-Accounted request = elim (Result-cases (read_json request)) [
    | inl (e, raised) ↦ rw raised (raised-Accounted request.path (raise e) (λ r k. cc))
    | inr (body, read) ↦ rw read (route-Accounted request.path body)
  ]
