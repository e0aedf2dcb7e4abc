-- ===== src/Api/Forgets.antt =====
-- An agent that a POST to the control API reports as deleted is forgotten.
use bubble_hub.Prelude.{
  String, ◌≡◌, refl, ap, subst, not, inl, inr, Option-cases, none, List, ◌∷◌, ◌==◌, string_eq,
}
use bubble_hub.Prelude.Dict.{Dict}
use bubble_hub.Value.{Value}
use bubble_hub.Agents.{agent_from_snapshot, delete_agent, stop_agent}
use bubble_hub.Agents
use bubble_hub.Agents.Kept.{IsForgotten}
use bubble_hub.Agents.Laws.{Deregisters, delete_agent-forgets}
use bubble_hub.Models.{select_model_for_speciality}
use bubble_hub.Models
use bubble_hub.Api.{
  Applied, State, Result, done, value_error, crashed, stopped, deleted, evictions, Response, json,
  Request, Server, route_path, agent_id_from_path,
}
use bubble_hub.Api.Handler.{
  and_then, read_json, manifest_of, is_policy, applied_of, apply_policy, apply_manifest_policy,
  with_agents, stop, delete, selected_result, select, chosen_model, chosen_speciality, evict_from,
  evict_names, names_in, evict_models, is_agent_path, route_post, responded, post_body, do_post,
}
use bubble_hub.Api.Laws.{if-holds, with_id-holds}

module _ {Text : Type 0} (server : Server Text) where
  -- what an answer says of a deleted agent
  abbrev Forgets : State Text → State Text × Result Response → Type 0
  Forgets s (t, done (json (deleted agent_id d))) =
      IsForgotten s.agents agent_id t.agents × (agent_from_snapshot agent_id t.agents.agents ≡ none)
  Forgets s _ = Unit

  delete_with-Forgets :
      Deregisters server.host
      → (s : State Text) (agent_id : String) (o : Agents.Outcome Agents.Deleted)
      → delete_agent server.host s.agents agent_id ≡ o
      → Forgets s (with_agents server s (deleted agent_id) o)
  delete_with-Forgets h s agent_id (t, Agents.Result.ok d) e =
      delete_agent-forgets server.host h s.agents agent_id t d e
  delete_with-Forgets h s agent_id (t, Agents.Result.raise (Agents.Failure.value_error m)) e = tt
  delete_with-Forgets h s agent_id (t, Agents.Result.raise Agents.Failure.overflow) e = tt
  delete_with-Forgets h s agent_id (t, Agents.Result.raise Agents.Failure.permission) e = tt

  manifest_of-Forgets :
      (s t : State Text) (agent_id : String) → Forgets s (t, manifest_of server agent_id)
  manifest_of-Forgets s t agent_id = elim (Option-cases (server.access_manifest agent_id)) [
    | inl e ↦ rw e tt
    | inr (m, e) ↦ rw e tt
  ]

  apply_policy-Forgets :
      (s : State Text) (agent_id : String) (a : Applied)
      → Forgets s (apply_policy server s agent_id a)
  apply_policy-Forgets s agent_id a = if-holds (Forgets s) (not (is_policy server a.policy)) tt (
      if-holds (Forgets s) (server.applies a)
        (manifest_of-Forgets s (record s { applied = a ∷ s.applied }) agent_id) tt)

  stop_with-Forgets :
      (s : State Text) (agent_id : String) (o : Agents.Outcome Agents.Stopped)
      → Forgets s (with_agents server s (stopped agent_id) o)
  stop_with-Forgets s agent_id (t, Agents.Result.ok x) = tt
  stop_with-Forgets s agent_id (t, Agents.Result.raise (Agents.Failure.value_error m)) = tt
  stop_with-Forgets s agent_id (t, Agents.Result.raise Agents.Failure.overflow) = tt
  stop_with-Forgets s agent_id (t, Agents.Result.raise Agents.Failure.permission) = tt

  selected_result-Forgets :
      (s : State Text) (speciality : String) (r : Models.Result (Models.Selection Text))
      → Forgets s (selected_result server s speciality r)
  selected_result-Forgets s speciality (Models.Result.returns x) = tt
  selected_result-Forgets s speciality (Models.Result.raises (Models.Failure.value_error m)) = tt
  selected_result-Forgets s speciality (Models.Result.raises (Models.Failure.key_error e)) = tt
  selected_result-Forgets s speciality (Models.Result.raises Models.Failure.type_error) = tt
  selected_result-Forgets s speciality (Models.Result.raises Models.Failure.yaml_error) = tt
  selected_result-Forgets s speciality (Models.Result.raises Models.Failure.attribute_error) = tt
  selected_result-Forgets s speciality (Models.Result.raises Models.Failure.untyped) = tt

  evict_with-Forgets :
      (s t : State Text) (names : List String) (r : Result (Unit {0}))
      → Forgets s (t, and_then r (λ u. done (json (evictions names))))
  evict_with-Forgets s t names (done u) = tt
  evict_with-Forgets s t names (value_error m) = tt
  evict_with-Forgets s t names (crashed c) = tt

  evict_names-Forgets :
      (s : State Text) (r : Result (List String)) → Forgets s (evict_names server s r)
  evict_names-Forgets s (done names) =
      let (r, t) = evict_from server s names in evict_with-Forgets s t names r
  evict_names-Forgets s (value_error m) = tt
  evict_names-Forgets s (crashed c) = tt

  module _ (h : Deregisters server.host) where
    route_post-Forgets :
        (s : State Text) (path : String) (body : Dict Value)
        → Forgets s (route_post server s path body)
    unfolding route_post stop delete apply_manifest_policy select evict_models
    route_post-Forgets s path body =
        let id_of : String → Result String = agent_id_from_path server.unquote path in
        if-holds (Forgets s) (is_agent_path server path "/stop")
          (with_id-holds server (Forgets s) s (id_of "/stop") _ (λ m. tt) (λ c. tt)
            (λ agent_id. stop_with-Forgets s agent_id (stop_agent server.host s.agents agent_id)))
          (if-holds (Forgets s) (is_agent_path server path "/delete")
            (with_id-holds server (Forgets s) s (id_of "/delete") _ (λ m. tt) (λ c. tt)
              (λ agent_id.
                delete_with-Forgets h s agent_id (delete_agent server.host s.agents agent_id) refl))
            (if-holds (Forgets s) (is_agent_path server path "/manifest/policies")
              (with_id-holds server (Forgets s) s (id_of "/manifest/policies") _ (λ m. tt) (λ c. tt)
                (λ agent_id. apply_policy-Forgets s agent_id (applied_of server agent_id body)))
              (if-holds (Forgets s) (path == "/api/models/select")
                (if-holds (Forgets s) (chosen_model server body == "") tt (
                  selected_result-Forgets s (chosen_speciality server body) (
                    select_model_for_speciality server.yaml server.base server.explicit s.file
                      (chosen_speciality server body) (chosen_model server body))))
                (if-holds (Forgets s) (path == "/api/models/evict")
                  (evict_names-Forgets s (names_in server body)) tt))))

    post_body-Forgets :
        (s : State Text) (path : String) (r : Result (Dict Value))
        → Forgets s (post_body server s path r)
    post_body-Forgets s path (done body) = route_post-Forgets s path body
    post_body-Forgets s path (value_error m) = tt
    post_body-Forgets s path (crashed c) = tt

    responded-Forgets :
        (s t : State Text) (o : State Text × Result Response) (agent_id : String)
        (d : Agents.Deleted)
        → Forgets s o
        → responded server o ≡ (t, json (deleted agent_id d))
        → Forgets s (t, done (json (deleted agent_id d)))
    responded-Forgets s t (u, done r) agent_id d f e =
        subst (Forgets s) (ap (λ (p : State Text × Response). (p.0, Result.done p.1)) e) f
    responded-Forgets s t (u, value_error m) agent_id d f e = let k = ap (λ p. p.1) e in cc
    responded-Forgets s t (u, crashed c) agent_id d f e = let k = ap (λ p. p.1) e in cc

    -- If the scheduler forgets an agent that is deregistered, then after a POST that answers with a
    -- deleted agent its metadata file is gone, and so is its access manifest unless it is a symbolic
    -- link; the metadata, manifests and sandboxes of all other agents are as they were, and the
    -- scheduler has the agent no longer.
    pub do_post-forgets :
        (s t : State Text) (request : Request) (agent_id : String) (d : Agents.Deleted)
        → do_post server s request ≡ (t, json (deleted agent_id d))
        → IsForgotten s.agents agent_id t.agents
          × (agent_from_snapshot agent_id t.agents.agents ≡ none)
    unfolding do_post
    do_post-forgets s t request agent_id d e =
        responded-Forgets s t (post_body server s (route_path request.path) (read_json request))
          agent_id d (post_body-Forgets s (route_path request.path) (read_json request)) e
