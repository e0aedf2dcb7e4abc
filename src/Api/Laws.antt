-- ===== src/Api/Laws.antt =====
-- What a POST to the control API may change.
use bubble_hub.Prelude.{
  String, ◌≡◌, refl, sym, subst, Bool, true, false, Bool-cases, inl, inr, ◌⊎◌, List, [], ◌∷◌, ◌==◌,
  string_eq, if◌then◌else◌,
}
use bubble_hub.Prelude.Dict.{Dict}
use bubble_hub.Value.{Value}
use bubble_hub.Models.{select_model_for_speciality}
use bubble_hub.Models
use bubble_hub.Api.{
  Applied, State, Crash, Result, done, value_error, crashed, Response, Request, Server, route_path,
  agent_id_from_path,
}
use bubble_hub.Api.Handler.{
  read_json, is_policy, applied_of, apply_policy, with_id, apply_manifest_policy, stop, delete,
  selected_result, select, chosen_model, chosen_speciality, evict_from, evict_names, names_in,
  evict_models, is_agent_path, route_post, responded, post_body, do_post,
}

pub if-holds {ℓ μ} :
    {A : Type ℓ} (P : A → Type μ) (b : Bool) {x y : A} → P x → P y → P (if b then x else y)
if-holds P true h k = h
if-holds P false h k = k

module _ {Text : Type 0} (server : Server Text) where
  -- at most one policy is applied: one of the three, that the native library accepted
  abbrev pub Applies : State Text → State Text → Type 0
  Applies s t =
      (t.applied ≡ s.applied)
      ⊎ ((a : Applied) × (t.applied ≡ a ∷ s.applied)
          × (is_policy server a.policy ≡ true)
          × (server.applies a ≡ true))

  pub with_id-holds :
      (P : State Text × Result Response → Type 0) (s : State Text) (r : Result String)
      (f : String → State Text × Result Response)
      → ((m : String) → P (s, value_error m))
      → ((c : Crash) → P (s, crashed c))
      → ((agent_id : String) → P (f agent_id))
      → P (with_id server s r f)
  with_id-holds P s (done agent_id) f v c h = h agent_id
  with_id-holds P s (value_error m) f v c h = v m
  with_id-holds P s (crashed x) f v c h = c x

  with_id-Applies :
      (s : State Text) (r : Result String) (f : String → State Text × Result Response)
      → ((agent_id : String) → Applies s (f agent_id).0)
      → Applies s (with_id server s r f).0
  with_id-Applies s r f = with_id-holds (λ o. Applies s o.0) s r f (λ m. inl refl) (λ c. inl refl)

  apply_policy-Applies :
      (s : State Text) (agent_id : String) (a : Applied)
      → Applies s (apply_policy server s agent_id a).0
  apply_policy-Applies s agent_id a = elim (Bool-cases (is_policy server a.policy)) [
    | inr f ↦ rw f (inl refl)
    | inl t ↦ elim (Bool-cases (server.applies a)) [
      | inr f ↦ rw (t, f) (inl refl)
      | inl u ↦ rw (t, u) (inr (a, refl, t, u))
    ]
  ]

  selected_result-Applies :
      (s : State Text) (speciality : String) (r : Models.Result (Models.Selection Text))
      → Applies s (selected_result server s speciality r).0
  selected_result-Applies s speciality (Models.Result.returns x) = inl refl
  selected_result-Applies s speciality (Models.Result.raises (Models.Failure.value_error m)) =
      inl refl
  selected_result-Applies s speciality (Models.Result.raises (Models.Failure.key_error e)) =
      inl refl
  selected_result-Applies s speciality (Models.Result.raises Models.Failure.type_error) = inl refl
  selected_result-Applies s speciality (Models.Result.raises Models.Failure.yaml_error) = inl refl
  selected_result-Applies s speciality (Models.Result.raises Models.Failure.attribute_error) =
      inl refl
  selected_result-Applies s speciality (Models.Result.raises Models.Failure.untyped) = inl refl

  evict_from-applied :
      (s : State Text) (names : List String) → (evict_from server s names).1.applied ≡ s.applied
  unfolding evict_from
  evict_from-applied s [] = refl
  evict_from-applied s (name ∷ names) = elim (Bool-cases (server.evicts name)) [
    | inl t ↦ rw t (evict_from-applied (record s { evicted = name ∷ s.evicted }) names)
    | inr f ↦ rw f refl
  ]

  evict_names-Applies :
      (s : State Text) (r : Result (List String)) → Applies s (evict_names server s r).0
  evict_names-Applies s (done names) = inl (evict_from-applied s names)
  evict_names-Applies s (value_error m) = inl refl
  evict_names-Applies s (crashed c) = inl refl

  select-Applies : (s : State Text) (body : Dict Value) → Applies s (select server s body).0
  unfolding select
  select-Applies s body =
      if-holds (λ (o : State Text × Result Response). Applies s o.0)
        (chosen_model server body == "") (inl refl)
        (selected_result-Applies s (chosen_speciality server body) (
          select_model_for_speciality server.yaml server.base server.explicit s.file
            (chosen_speciality server body) (chosen_model server body)))

  stop-Applies : (s : State Text) (path : String) → Applies s (stop server s path).0
  unfolding stop
  stop-Applies s path =
      with_id-Applies s (agent_id_from_path server.unquote path "/stop") _ (λ agent_id. inl refl)

  delete-Applies : (s : State Text) (path : String) → Applies s (delete server s path).0
  unfolding delete
  delete-Applies s path =
      with_id-Applies s (agent_id_from_path server.unquote path "/delete") _ (λ agent_id. inl refl)

  policies-Applies :
      (s : State Text) (path : String) (body : Dict Value)
      → Applies s (apply_manifest_policy server s path body).0
  unfolding apply_manifest_policy
  policies-Applies s path body =
      with_id-Applies s (agent_id_from_path server.unquote path "/manifest/policies") _
        (λ agent_id. apply_policy-Applies s agent_id (applied_of server agent_id body))

  evict_models-Applies :
      (s : State Text) (body : Dict Value) → Applies s (evict_models server s body).0
  unfolding evict_models
  evict_models-Applies s body = evict_names-Applies s (names_in server body)

  route_post-Applies :
      (s : State Text) (path : String) (body : Dict Value)
      → Applies s (route_post server s path body).0
  unfolding route_post
  route_post-Applies s path body =
      let P : State Text × Result Response → Type 0 = λ o. Applies s o.0 in
      if-holds P (is_agent_path server path "/stop") (stop-Applies s path) (
        if-holds P (is_agent_path server path "/delete") (delete-Applies s path) (
          if-holds P (is_agent_path server path "/manifest/policies") (policies-Applies s path body)
            (if-holds P (path == "/api/models/select") (select-Applies s body)
              (if-holds P (path == "/api/models/evict") (evict_models-Applies s body) (inl refl)))))

  post_body-Applies :
      (s : State Text) (path : String) (r : Result (Dict Value))
      → Applies s (post_body server s path r).0
  post_body-Applies s path (done body) = route_post-Applies s path body
  post_body-Applies s path (value_error m) = inl refl
  post_body-Applies s path (crashed c) = inl refl

  responded-state : (o : State Text × Result Response) → (responded server o).0 ≡ o.0
  responded-state (s, done r) = refl
  responded-state (s, value_error m) = refl
  responded-state (s, crashed c) = refl

  -- Whatever is posted, at most one access policy is applied: always, never or ask, and the native
  -- library accepted it; the policies that were applied before are kept.
  pub do_post-Applies :
      (s : State Text) (request : Request) → Applies s (do_post server s request).0
  unfolding do_post
  do_post-Applies s request =
      let o = post_body server s (route_path request.path) (read_json request) in
      subst (Applies s) (sym (responded-state o))
        (post_body-Applies s (route_path request.path) (read_json request))
