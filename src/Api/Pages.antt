-- ===== src/Api/Pages.antt =====
-- `do_GET` of the control API: what a page or a view answers. Nothing is changed.
use bubble_hub.Prelude.{
  String, not, Option, none, some, List, [], ◌∷◌, ◌==◌, string_eq, if◌then◌else◌, any,
}
use bubble_hub.Prelude.Text.{starts_with, concat}
use bubble_hub.Prelude.Dict.{Dict}
use bubble_hub.Value.{Value}
use bubble_hub.Models
use bubble_hub.Models.Overview.{models_overview}
use bubble_hub.Telemetry.{control_snapshot, list_of_dicts}
use bubble_hub.Api.{
  of_models, State, file_not_found, Result, done, value_error, crashed, health, static, icon,
  telemetry, models, pending, Response, json, Request, Server, route_path, agent_id_from_path,
  bad_request, not_found, bad_gateway,
}
use bubble_hub.Api.Handler.{and_then, native, agent_result, manifest_of, is_agent_path}

abbrev allowed_icons : List String
allowed_icons = "bubblehub-icon.svg" ∷ "nvidia.svg" ∷ "qwen.svg" ∷ "mistral.svg" ∷ []

-- an exception that is no `ValueError` is a failure of the backend
abbrev of_view : Models.Result (Dict Value) → Result Response
of_view (Models.Result.returns page) = done (json (models page))
of_view (Models.Result.raises (Models.Failure.value_error m)) = value_error m
of_view (Models.Result.raises failure) = crashed (of_models failure)

abbrev speciality_or : Option String → String → String
speciality_or none other = other
speciality_or (some s) other = s

module _ {Text : Type 0} (server : Server Text) where
  -- `_send_static`, with the search of `_static_asset`
  abbrev pub send_static : String → Result Response
  send_static name =
      if server.has_static name
      then done (json (static name))
      else crashed (file_not_found (concat ("Desktop static asset not found: " ∷ name ∷ [])))

  -- `_send_icon`
  unfoldable pub send_icon : String → Result Response
  unfolding any
  send_icon name =
      if not (any (λ allowed. allowed == name) allowed_icons)
      then done (not_found (concat ("unknown icon: " ∷ name ∷ [])))
      else if server.has_icon name
      then done (json (icon name))
      else crashed (file_not_found (concat ("Desktop icon not found: " ∷ name ∷ [])))

  unfoldable pub route_get : State Text → String → Request → Result Response
  unfolding starts_with send_icon agent_id_from_path control_snapshot list_of_dicts models_overview
  route_get s path request =
      if path == "/"
      then send_static "index.html"
      else if path == "/app.js"
      then send_static "app.js"
      else if path == "/style.css"
      then send_static "style.css"
      else if starts_with path "/icons/"
      then send_icon request.name
      else if path == "/health"
      then done (json health)
      else if path == "/api/telemetry"
      then and_then
          (native server "native scheduler failed to build snapshot" (server.snapshot s.agents))
          (λ snapshot. agent_result server telemetry (
            control_snapshot server.proc server.floats server.host.repr server.leads s.agents
              snapshot))
      else if path == "/api/manifest/pending"
      then and_then
          (native server "native access policy failed to list pending requests"
            server.access_pending)
          (λ v. done (json (pending (list_of_dicts v))))
      else if is_agent_path server path "/manifest"
      then and_then (agent_id_from_path server.unquote path "/manifest") (manifest_of server)
      else if path == "/api/models"
      then of_view (
          models_overview server.yaml server.view server.base server.explicit s.file
            (speciality_or request.speciality server.speciality))
      else done (not_found (concat ("unknown endpoint: " ∷ path ∷ [])))

  abbrev pub response_of : Result Response → Response
  response_of (done response) = response
  response_of (value_error m) = bad_request m
  response_of (crashed c) = bad_gateway (server.describe c)

  unfoldable pub do_get : State Text → Request → Response
  unfolding route_path route_get
  do_get s request = response_of (route_get s (route_path request.path) request)
