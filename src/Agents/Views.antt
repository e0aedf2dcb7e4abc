-- ===== src/Agents/Views.antt =====
-- How the agents are shown, bubblehub/app/agents.py: an agent's name and metadata, the view of one
-- agent, and the records of the agents that do not run. That a name in `sandboxes` is a plain file
-- is not modelled; `leads` says which symbolic link there leads to a directory.
use Prim.Native.Char.{Char, code}
use Prim.Native.String.{[], ◌∷◌}
use bubble_hub.Prelude.{
  ℕ, zero, suc, String, Bool, true, false, not, ◌&&◌, ◌||◌, Option, none, some, List, [], ◌∷◌, map,
  ◌==◌, nat_eq, string_eq, if◌then◌else◌, filter, any, is_empty,
}
use bubble_hub.Prelude.Dict.{Dict}
use bubble_hub.Prelude.Dict
use bubble_hub.Prelude.Int.{pos}
use bubble_hub.Prelude.Sort.{sorted}
use bubble_hub.Prelude.Text.{strip, split, join, concat}
use bubble_hub.Prelude.TextOrder.{leb_text}
use bubble_hub.Value.{
  Value, null, boolean, int, float, str, list, dict, of_dict, of_list, get, truthy, str_of,
}
use bubble_hub.Agents.{
  State, ok, raise, value_error, Outcome, Manifest, directory, symlink, is_id_char,
  is_valid_agent_id, read_agent_metadata, is_persistent_agent_dir, home_at,
}

-- `[A-Za-z0-9_. -]`
abbrev is_safe_char : Char → Bool
is_safe_char c = is_id_char c || code c == 46 || code c == 32

-- `_SAFE_NAME_RE.sub("", s)`
unfoldable pub safe_chars : String → String
safe_chars [] = []
safe_chars (c ∷ s) = let rest = safe_chars s in if is_safe_char c then c ∷ rest else rest

unfoldable pub first_chars : ℕ → String → String
first_chars zero s = ""
first_chars (suc n) [] = ""
first_chars (suc n) (c ∷ s) = c ∷ first_chars n s

-- `s.split()`, where the space is the only white space
unfoldable pub words : String → List String
unfolding split filter
words s = filter (λ w. not (w == "")) (split 32 s)

-- `s or None`
abbrev pub text_or_none : String → Option String
text_or_none s = if s == "" then none else some s

unfoldable pub normal_name : String → String
unfolding strip safe_chars words join first_chars
normal_name name = first_chars 64 (join " " (words (safe_chars (strip name))))

unfoldable pub normalize_agent_name : Option String → Option String
unfolding normal_name
normalize_agent_name none = none
normalize_agent_name (some name) = text_or_none (normal_name name)

abbrev pub or_null : Option String → Value
or_null none = null
or_null (some s) = str s

-- the keys in the order that `json.dumps` writes them, sorted
abbrev pub metadata_of : String → Option String → Option String → Option String → String → Value
metadata_of agent_id name root_dir workdir binary = dict (
    of_dict (
      ("agent_id", str agent_id)
      ∷ ("binary", str binary)
      ∷ ("name", or_null (normalize_agent_name name))
      ∷ ("root_dir", or_null root_dir)
      ∷ ("workdir", or_null workdir)
      ∷ []))

unfoldable pub write_agent_metadata :
    State → String → Option String → Option String → Option String → String → Outcome (Unit {0})
unfolding is_valid_agent_id normalize_agent_name Dict.put
write_agent_metadata s agent_id name root_dir workdir binary =
    if is_valid_agent_id agent_id
    then (
      record s {
        metadata =
            Dict.put s.metadata agent_id (some (metadata_of agent_id name root_dir workdir binary));
      },
      ok tt,
    )
    else (s, raise (value_error (concat ("invalid agent id: " ∷ agent_id ∷ []))))

abbrev pub object : Dict Value → Value
object d = dict (of_dict d)

-- `0.0`
abbrev pub no_time : Value
no_time = float (record { truncated = some (pos 0); shown = "0.0"; nonzero = false })

abbrev pub text_at : (Value → String) → Dict Value → String → String
text_at repr d k = elim (Dict.get d k) [ none ↦ "" | some v ↦ str_of repr v ]

abbrev pub name_in : (Value → String) → Dict Value → Option String
name_in repr metadata =
    if truthy (get metadata "name")
    then normalize_agent_name (some (str_of repr (get metadata "name")))
    else none

abbrev pub with_name : Option String → Dict Value → Dict Value
with_name none view = view
with_name (some name) view = Dict.put view "name" (str name)

-- `if metadata.get(k): enriched[k] = str(metadata[k])`
abbrev pub with_text : (Value → String) → Dict Value → String → Dict Value → Dict Value
with_text repr metadata k view =
    if truthy (get metadata k) then Dict.put view k (str (str_of repr (get metadata k))) else view

-- `bool(enriched.get("running", True))`
abbrev pub is_running : Dict Value → Bool
is_running view = elim (Dict.get view "running") [ none ↦ true | some v ↦ truthy v ]

abbrev pub name_or : Option String → String → String
name_or none agent_id = agent_id
name_or (some name) agent_id = name

abbrev pub with_status : Bool → Dict Value → Dict Value
with_status running view =
    let view = Dict.put view "running" (boolean running) in
    let view = Dict.put view "status" (str (if running then "running" else "stopped")) in
    let view = Dict.put view "status_color" (str (if running then "green" else "red")) in
    Dict.put view "actions"
      (list (of_list (if running then str "stop" ∷ str "delete" ∷ [] else str "delete" ∷ [])))

-- the view with what the metadata add
unfoldable pub described : (Value → String) → Dict Value → Dict Value → String → Dict Value
unfolding normalize_agent_name truthy get str_of Dict.put
described repr metadata agent agent_id =
    let name = name_in repr metadata in
    let view = with_name name agent in
    let view = with_text repr metadata "root_dir" view in
    let view = with_text repr metadata "workdir" view in
    Dict.put view "display_name" (str (name_or name agent_id))

unfoldable pub enrich_agent_view : (Value → String) → State → Dict Value → Dict Value
unfolding Dict.get Dict.put read_agent_metadata described str_of truthy
enrich_agent_view repr s agent =
    let agent_id = text_at repr agent "agent_id" in
    let view = described repr (read_agent_metadata s agent_id) agent agent_id in
    with_status (is_running view) view

-- `str(metadata.get(k) or "")`
abbrev or_empty : (Value → String) → Dict Value → String → Value
or_empty repr d k = str (if truthy (get d k) then str_of repr (get d k) else "")

abbrev pub stopped_agent : (Value → String) → String → Dict Value → Dict Value
stopped_agent repr agent_id metadata =
    ("agent_id", str agent_id)
    ∷ ("pid", int (pos 0))
    ∷ ("binary", or_empty repr metadata "binary")
    ∷ ("niceness", str "")
    ∷ ("specialty", or_empty repr metadata "specialty")
    ∷ ("running", boolean false)
    ∷ ("root_dir", or_empty repr metadata "root_dir")
    ∷ ("workdir", or_empty repr metadata "workdir")
    ∷ ("rss_bytes", int (pos 0))
    ∷ ("cpu_time_seconds", no_time)
    ∷ (
      "resource_metrics",
      object (
          ("available", boolean false)
          ∷ ("rss_bytes", int (pos 0))
          ∷ ("cpu_time_seconds", no_time)
          ∷ ("status", str "stopped")
          ∷ []),
    )
    ∷ []

abbrev is_manifest_dir : (String → Bool) → String → Option Manifest → Bool
is_manifest_dir leads agent_id none = false
is_manifest_dir leads agent_id (some directory) = true
is_manifest_dir leads agent_id (some symlink) = leads agent_id

module _ (repr : Value → String) (leads : String → Bool) (s : State) where
  unfoldable pub stopped_agent_record : String → Dict Value → Dict Value
  unfolding enrich_agent_view Dict.get Dict.put truthy get str_of
  stopped_agent_record agent_id metadata =
      let view = enrich_agent_view repr s (stopped_agent repr agent_id metadata) in
      let view =
        Dict.put view "has_manifest"
          (boolean (is_manifest_dir leads agent_id (Dict.get s.manifests agent_id))) in
      let root_dir : String =
        if truthy (get view "root_dir") then str_of repr (get view "root_dir") else "" in
      Dict.put view "has_persistent_sandbox" (
        boolean (
          not (root_dir == "")
          && is_persistent_agent_dir agent_id (Dict.get (home_at s root_dir).agents agent_id)))

  abbrev pub is_stopped : List String → String → Bool
  is_stopped running agent_id = is_valid_agent_id agent_id && not (any (λ r. r == agent_id) running)

  -- the record of an agent that has metadata
  abbrev pub from_metadata : String → Dict Value
  from_metadata agent_id = stopped_agent_record agent_id (read_agent_metadata s agent_id)

  -- the record of an agent that has an access manifest only
  abbrev pub from_manifest : String → Dict Value
  from_manifest agent_id = stopped_agent_record agent_id (("agent_id", str agent_id) ∷ [])

  abbrev pub has_metadata : List String → String → Bool
  has_metadata running agent_id =
      is_stopped running agent_id && not (is_empty (read_agent_metadata s agent_id))

  unfoldable pub with_metadata : List String → Dict (Dict Value) → List String → Dict (Dict Value)
  with_metadata running records [] = records
  with_metadata running records (agent_id ∷ ids) =
      with_metadata running
        (if has_metadata running agent_id
          then Dict.put records agent_id (from_metadata agent_id)
          else records)
        ids

  abbrev pub is_some : Option (Dict Value) → Bool
  is_some none = false
  is_some (some r) = true

  unfoldable pub with_manifests : List String → Dict (Dict Value) → List String → Dict (Dict Value)
  with_manifests running records [] = records
  with_manifests running records (agent_id ∷ ids) =
      with_manifests running
        (if is_stopped running agent_id && not (is_some (Dict.get records agent_id))
          then Dict.put records agent_id (from_manifest agent_id)
          else records)
        ids

  -- `str(item.get("display_name") or item.get("agent_id", ""))`
  abbrev pub sort_key : Dict Value → String
  sort_key item =
      if truthy (get item "display_name")
      then str_of repr (get item "display_name")
      else text_at repr item "agent_id"

  abbrev pub le_record : Dict Value → Dict Value → Bool
  le_record a b = leb_text (sort_key a) (sort_key b)

  unfoldable pub records_of : List String → Dict (Dict Value)
  unfolding with_metadata with_manifests
  records_of running =
      with_manifests running (with_metadata running [] (map (λ kv. kv.0) s.metadata))
        (map (λ kv. kv.0) s.manifests)

  unfoldable pub known_agent_records : List String → List (Dict Value)
  unfolding records_of sorted truthy get str_of Dict.get
  known_agent_records running = sorted le_record (map (λ kv. kv.1) (records_of running))
