-- ===== src/Api/Handler.antt =====
-- `do_POST` with the handlers that it calls. The texts of the exceptions of `int` and `json.loads`
-- are not Python's.
use bubble_hub.Prelude.{
  String, Bool, not, ◌&&◌, ◌||◌, Option, none, some, List, [], ◌∷◌, ◌==◌, string_eq, if◌then◌else◌,
}
use bubble_hub.Prelude.Dict.{Dict}
use bubble_hub.Prelude.Dict
use bubble_hub.Prelude.Int.{ℤ, is_positive}
use bubble_hub.Prelude.Text.{starts_with, parse_int, concat}
use bubble_hub.Value.{Value, dict, str, to_dict, get, truthy, ◌or◌, str_of}
use bubble_hub.Agents.{stop_agent, delete_agent}
use bubble_hub.Agents
use bubble_hub.Models.{select_model_for_speciality}
use bubble_hub.Models
use bubble_hub.Api.{
  Applied, State, of_agents, of_models, native_error, Result, done, value_error, crashed, Payload,
  manifest, stopped, deleted, selection, evictions, Response, json, Request, Server, route_path,
  ends_with, agent_id_from_path, bad_request, not_found, bad_gateway,
}

abbrev pub and_then {ℓ μ} : {A : Type ℓ} {B : Type μ} → Result A → (A → Result B) → Result B
and_then (done a) f = f a
and_then (value_error m) f = value_error m
and_then (crashed c) f = crashed c

abbrev pub text_or_zero : Option String → String
text_or_zero none = "0"
text_or_zero (some s) = s

abbrev pub object : Option Value → Result (Dict Value)
object none = value_error "request body is not JSON"
object (some (dict fs)) = done (to_dict fs)
object (some _) = value_error "request body must be a JSON object"

abbrev pub body_of : Request → Option ℤ → Result (Dict Value)
body_of request none = value_error "invalid content-length"
body_of request (some length) =
    if is_positive length
    then object (request.body length)
    else value_error "request body is required"

-- `_read_json`
unfoldable pub read_json : Request → Result (Dict Value)
unfolding parse_int
read_json request = body_of request (parse_int (text_or_zero request.content_length))

module _ {Text : Type 0} (server : Server Text) where
  -- what a handler leaves and answers, also where it raises
  abbrev pub Outcome : Type 0
  Outcome = State Text × Result Response

  abbrev pub fails : State Text → Result Response → Outcome
  fails s r = (s, r)

  -- `str(body.get(k, ""))`
  abbrev field_text : Dict Value → String → String
  field_text body k = elim (Dict.get body k) [ none ↦ "" | some v ↦ str_of server.host.repr v ]

  abbrev pub native {ℓ} : {A : Type ℓ} → String → Option A → Result A
  native message none = crashed (native_error message)
  native message (some a) = done a

  abbrev pub manifest_of : String → Result Response
  manifest_of agent_id =
      and_then
        (native "native access policy failed to read manifest" (server.access_manifest agent_id))
        (λ m. done (json (manifest agent_id m)))

  abbrev pub is_policy : String → Bool
  is_policy policy = policy == "always" || policy == "never" || policy == "ask"

  abbrev pub applied_of : String → Dict Value → Applied
  applied_of agent_id body = record {
    agent_id = agent_id;
    kind = field_text body "kind";
    subject = field_text body "subject";
    method = field_text body "method";
    path = field_text body "path";
    policy = field_text body "policy";
  }

  abbrev pub apply_policy : State Text → String → Applied → Outcome
  apply_policy s agent_id applied =
      if not (is_policy applied.policy)
      then fails s (value_error "policy must be one of: always, never, ask")
      else if server.applies applied
      then (record s { applied = applied ∷ s.applied }, manifest_of agent_id)
      else fails s (crashed (native_error "native access policy failed to apply policy"))

  abbrev pub with_id : State Text → Result String → (String → Outcome) → Outcome
  with_id s (done agent_id) f = f agent_id
  with_id s (value_error m) f = fails s (value_error m)
  with_id s (crashed c) f = fails s (crashed c)

  unfoldable pub apply_manifest_policy : State Text → String → Dict Value → Outcome
  unfolding agent_id_from_path Dict.get str_of
  apply_manifest_policy s path body =
      with_id s (agent_id_from_path server.unquote path "/manifest/policies")
        (λ agent_id. apply_policy s agent_id (applied_of agent_id body))

  -- a `ValueError` of the agents' functions stays one
  abbrev pub agent_result {ℓ} : {A : Type ℓ} → (A → Payload) → Agents.Result A → Result Response
  agent_result f (Agents.Result.ok a) = done (json (f a))
  agent_result f (Agents.Result.raise (Agents.Failure.value_error m)) = value_error m
  agent_result f (Agents.Result.raise Agents.Failure.overflow) =
      crashed (of_agents Agents.Failure.overflow)
  agent_result f (Agents.Result.raise Agents.Failure.permission) =
      crashed (of_agents Agents.Failure.permission)

  abbrev pub with_agents : {A : Type 0} → State Text → (A → Payload) → Agents.Outcome A → Outcome
  with_agents s f (agents, r) = (record s { agents = agents }, agent_result f r)

  -- `_stop_agent`
  unfoldable pub stop : State Text → String → Outcome
  unfolding agent_id_from_path stop_agent
  stop s path =
      with_id s (agent_id_from_path server.unquote path "/stop")
        (λ agent_id. with_agents s (stopped agent_id) (stop_agent server.host s.agents agent_id))

  -- `_delete_agent`
  unfoldable pub delete : State Text → String → Outcome
  unfolding agent_id_from_path delete_agent
  delete s path =
      with_id s (agent_id_from_path server.unquote path "/delete")
        (λ agent_id. with_agents s (deleted agent_id) (delete_agent server.host s.agents agent_id))

  abbrev pub selected_result : State Text → String → Models.Result (Models.Selection Text) → Outcome
  selected_result s speciality (Models.Result.returns selected) = (
    record s { file = selected.file },
    done (json (selection speciality selected.selected_model)),
  )
  selected_result s speciality (Models.Result.raises (Models.Failure.value_error m)) =
      fails s (value_error m)
  selected_result s speciality (Models.Result.raises failure) =
      fails s (crashed (of_models failure))

  abbrev pub chosen_speciality : Dict Value → String
  chosen_speciality body =
      str_of server.host.repr
        (get body "speciality" or get body "specialty" or str server.speciality)

  abbrev pub chosen_model : Dict Value → String
  chosen_model body = str_of server.host.repr (get body "model_name" or get body "model" or str "")

  abbrev pub select_named : State Text → String → String → Outcome
  select_named s speciality model_name = selected_result s speciality (
      select_model_for_speciality server.yaml server.base server.explicit s.file speciality
        model_name)

  unfoldable pub select : State Text → Dict Value → Outcome
  unfolding get ◌or◌ str_of select_model_for_speciality
  select s body =
      if chosen_model body == ""
      then fails s (value_error "model_name is required")
      else select_named s (chosen_speciality body) (chosen_model body)

  -- `isinstance(item, dict) and item.get("name")`
  abbrev named : Value → Option String
  named (dict fs) =
      let name = get (to_dict fs) "name" in
      if truthy name then some (str_of server.host.repr name) else none
  named _ = none

  abbrev onto : Option String → List String → List String
  onto none names = names
  onto (some name) names = name ∷ names

  unfoldable pub names_of : List Value → List String
  unfolding get truthy str_of
  names_of [] = []
  names_of (item ∷ items) = onto (named item) (names_of items)

  -- the loop of `evict_model`, which ends at the first that fails
  unfoldable pub evict_from : State Text → List String → Result (Unit {0}) × State Text
  evict_from s [] = (done tt, s)
  evict_from s (name ∷ names) =
      let rest = evict_from (record s { evicted = name ∷ s.evicted }) names in
      if server.evicts name
      then rest
      else (crashed (native_error "native scheduler failed to evict model"), s)

  abbrev pub evict : State Text → List String → Outcome
  evict s names =
      let (r, t) = evict_from s names in (t, and_then r (λ u. done (json (evictions names))))

  abbrev pub evict_names : State Text → Result (List String) → Outcome
  evict_names s (done names) = evict s names
  evict_names s (value_error m) = fails s (value_error m)
  evict_names s (crashed c) = fails s (crashed c)

  abbrev pub names_in : Dict Value → Result (List String)
  names_in body =
      let name = str_of server.host.repr (get body "name" or get body "model_name" or str "") in
      if truthy (get body "all")
      then and_then (native "native scheduler failed to build snapshot" server.status_models)
          (λ items. done (names_of items))
      else if name == ""
      then value_error "name is required unless all=true"
      else done (name ∷ [])

  -- `_evict_models`
  unfoldable pub evict_models : State Text → Dict Value → Outcome
  unfolding get ◌or◌ str_of truthy names_of evict_from
  evict_models s body = evict_names s (names_in body)

  -- which handler a path of a POST reaches
  abbrev pub is_agent_path : String → String → Bool
  is_agent_path path suffix = starts_with path "/api/agents/" && ends_with path suffix

  unfoldable pub route_post : State Text → String → Dict Value → Outcome
  unfolding starts_with ends_with stop delete apply_manifest_policy select evict_models
  route_post s path body =
      if is_agent_path path "/stop"
      then stop s path
      else if is_agent_path path "/delete"
      then delete s path
      else if is_agent_path path "/manifest/policies"
      then apply_manifest_policy s path body
      else if path == "/api/models/select"
      then select s body
      else if path == "/api/models/evict"
      then evict_models s body
      else (s, done (not_found (concat ("unknown endpoint: " ∷ path ∷ []))))

  abbrev pub responded : Outcome → State Text × Response
  responded (s, done response) = (s, response)
  responded (s, value_error m) = (s, bad_request m)
  responded (s, crashed c) = (s, bad_gateway (server.describe c))

  abbrev pub post_body : State Text → String → Result (Dict Value) → Outcome
  post_body s path (done body) = route_post s path body
  post_body s path (value_error m) = fails s (value_error m)
  post_body s path (crashed c) = fails s (crashed c)

  unfoldable pub do_post : State Text → Request → State Text × Response
  unfolding read_json route_path route_post
  do_post s request = responded (post_body s (route_path request.path) (read_json request))
