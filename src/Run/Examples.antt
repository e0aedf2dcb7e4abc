-- ===== src/Run/Examples.antt =====
-- The theorems on the sandbox's paths and environment and on persistent sandboxes, at small inputs.
use bubble_hub.Prelude.{ℕ, String, ◌≡◌, refl, true, false, none, some, List, [], ◌∷◌, ◌++◌, All}
use bubble_hub.Prelude.Dict.{Dict}
use bubble_hub.Prelude.Dict
use bubble_hub.Run.Environment.{
  append_no_proxy, text_at, apply_sandbox_http_proxy_env, parse_bytes, bytes,
}
use bubble_hub.Prelude.Text.{show_nat, concat}
use bubble_hub.Run.Environment.Laws.{
  IsExtended, Others, proxy_variables, apply_sandbox_http_proxy_env-kept,
}
use bubble_hub.Prelude.Int.{pos}
use bubble_hub.Prelude.{filter, string_eq}
use bubble_hub.Prelude.Sort.{sorted}
use bubble_hub.Run.Persistent.{Entry, Hub, find_persistent_agent_id, is_persistent_agent_dir}
use bubble_hub.Run.Persistent.Laws.{IsNewest, find_persistent_agent_id-IsNewest}
use bubble_hub.Run.Paths.{
  FilePath, Files, protected_roots, validate_writable_root, SandboxPaths, resolve_sandbox_paths,
  Prepared, in_workspace, same_path, is_allowed_source_workspace, bubblehub_source_tree_for,
}
use bubble_hub.Run.Paths.Laws.{
  Avoids, SparesSource, validate_writable_root-safe, resolve_sandbox_paths-inside,
}

abbrev root : FilePath
root = "home" ∷ "ana" ∷ "hub" ∷ "examples" ∷ "tidy" ∷ []

-- the program runs from a checkout in `/home/ana/hub`, and the root is below its examples
abbrev files : Files
files = record {
  exists = λ p. same_path p root;
  is_dir = λ p. same_path p root;
  resolve = λ p. p;
  cwd = "home" ∷ "ana" ∷ [];
  source_checkout_root = some ("home" ∷ "ana" ∷ "hub" ∷ []);
}

abbrev paths : SandboxPaths
paths = record {
  host_workdir = root ++ "src" ∷ [];
  sandbox_workdir = "workspace" ∷ "src" ∷ [];
  host_root_dir = some root;
}

validate_writable_root-safe_example :
    All (Avoids root) protected_roots
    × ((source : FilePath) → files.source_checkout_root ≡ some source → SparesSource root source)
unfolding validate_writable_root is_allowed_source_workspace bubblehub_source_tree_for
validate_writable_root-safe_example = validate_writable_root-safe files root refl

resolve_sandbox_paths-inside_example :
    (relative : FilePath) × (paths.host_root_dir ≡ some root)
    × (paths.host_workdir ≡ root ++ relative)
    × (paths.sandbox_workdir ≡ "workspace" ∷ relative)
    × All (Avoids root) protected_roots
unfolding resolve_sandbox_paths is_allowed_source_workspace bubblehub_source_tree_for
resolve_sandbox_paths-inside_example =
    resolve_sandbox_paths-inside files root (some (root ++ "src" ∷ [])) paths refl

abbrev script : FilePath
script = root ++ "bin" ∷ "agent" ∷ []

abbrev prepared : Prepared
prepared = record {
  paths = paths;
  binary = in_workspace "agt-1" ("bin" ∷ "agent" ∷ []);
  staging = none;
}

abbrev env : Dict String
env = ("HOME", "/home/ana") ∷ ("NO_PROXY", "intra, localhost") ∷ []

apply_sandbox_http_proxy_env-kept_example :
    let after = apply_sandbox_http_proxy_env env 18080 in
    (Dict.get after "HTTP_PROXY" ≡ some (concat ("http://127.0.0.1:" ∷ show_nat 18080 ∷ [])))
    × (Dict.get after "HTTPS_PROXY" ≡ some (concat ("http://127.0.0.1:" ∷ show_nat 18080 ∷ [])))
    × (Dict.get after "http_proxy" ≡ some (concat ("http://127.0.0.1:" ∷ show_nat 18080 ∷ [])))
    × (Dict.get after "https_proxy" ≡ some (concat ("http://127.0.0.1:" ∷ show_nat 18080 ∷ [])))
    × ((hosts : String) × (Dict.get after "NO_PROXY" ≡ some hosts)
        × IsExtended (text_at env "NO_PROXY") hosts)
    × ((hosts : String) × (Dict.get after "no_proxy" ≡ some hosts)
        × IsExtended (text_at env "no_proxy") hosts)
    × ((k : String)
        → Others k ("NO_PROXY" ∷ "no_proxy" ∷ proxy_variables)
        → Dict.get after k ≡ Dict.get env k)
apply_sandbox_http_proxy_env-kept_example = apply_sandbox_http_proxy_env-kept env 18080

-- spaces around an entry go, and the second host is there already
append_no_proxy_runs : append_no_proxy "intra, localhost" ≡ "intra,localhost,127.0.0.1"
unfolding append_no_proxy
append_no_proxy_runs = refl

parse_bytes_runs : parse_bytes " 2G " ≡ bytes (pos 2147483648)
unfolding parse_bytes
parse_bytes_runs = refl

abbrev entry : String → ℕ → Entry
entry name mtime = record {
  name = name;
  is_dir = true;
  is_symlink = false;
  home_is_dir = true;
  home_is_symlink = false;
  mtime_ns = mtime;
}

abbrev listed : List Entry
listed = entry "agt-a" 5 ∷ entry ".removed-agt-c" 9 ∷ entry "agt-b" 7 ∷ []

abbrev hub : Hub
hub = record { marker = none; agents = some listed; entry_at = λ text. none }

find_persistent_agent_id-IsNewest_example : IsNewest listed "agt-b"
unfolding find_persistent_agent_id sorted filter is_persistent_agent_dir
find_persistent_agent_id-IsNewest_example =
    find_persistent_agent_id-IsNewest hub listed "agt-b" refl refl refl
