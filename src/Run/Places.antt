-- ===== src/Run/Places.antt =====
-- Where `bubble run` finds the binary, the rootfs and the interpreter, and the endpoint that a
-- sandbox reaches. The paths that a text stands for, `shutil.which`, the globs and `urlparse` are
-- arguments.
use bubble_hub.Prelude.{
  ℕ, String, Bool, not, ◌&&◌, ◌||◌, Option, none, some, List, [], ◌∷◌, ◌++◌, ◌==◌, string_eq,
  if◌then◌else◌,
}
use bubble_hub.Prelude.Dict.{Dict}
use bubble_hub.Prelude.Dict
use bubble_hub.Run.Environment.{text_at}
use bubble_hub.Run.Paths.{FilePath, Files}

-- the binary as it is given: a command name, or a path
pub data Binary : Type 0 where
  named : String → Binary
  absolute relative : FilePath → Binary

-- what `urlparse` finds
pub record Url : Type 0 where
  pub scheme : String
  pub hostname : Option String
  pub port : Option ℕ

pub record Places : Type 0 where
  pub files : Files
  pub is_file : FilePath → Bool
  pub is_symlink : FilePath → Bool
  pub which : String → Option FilePath
  pub environ : Dict String
  -- `Path(text).expanduser()` and `str(path)`
  pub expand : String → FilePath
  pub show : FilePath → String
  -- `path.suffix`
  pub suffix : FilePath → String
  -- what the two globs for `site-packages` find, sorted in reverse
  pub installed_sites : List FilePath
  pub runtime_sites : List FilePath
  pub executable : FilePath
  pub parse_url : String → Url

module _ (p : Places) where
  unfoldable pub first_file : List FilePath → Option FilePath
  first_file [] = none
  first_file (path ∷ paths) =
      let resolved = p.files.resolve path in
      if p.files.exists resolved && p.is_file resolved then some resolved else first_file paths

  abbrev resolved_which : Option FilePath → Option FilePath
  resolved_which none = none
  resolved_which (some found) = some (p.files.resolve found)

  -- `_resolve_binary`, `none` where it raises
  unfoldable pub resolve_binary : Binary → FilePath → Option FilePath
  unfolding first_file
  resolve_binary (absolute path) cwd = first_file (path ∷ [])
  resolve_binary (relative path) cwd = first_file ((p.files.cwd ++ path) ∷ (cwd ++ path) ∷ [])
  resolve_binary (named name) cwd =
      let local_bin = cwd ++ "node_modules" ∷ ".bin" ∷ name ∷ [] in
      if p.files.exists local_bin && p.is_file local_bin
      then some (p.files.resolve local_bin)
      else resolved_which (p.which name)

  abbrev pub default_rootfs : FilePath
  default_rootfs = "opt" ∷ "bubblehub" ∷ "rootfs" ∷ "ubuntu-26.04" ∷ []

  -- `_resolve_rootfs_dir`: `none` where it raises, and `some none` where there is no rootfs
  unfoldable pub resolve_rootfs_dir : Option (Option FilePath)
  unfolding Dict.get
  resolve_rootfs_dir =
      let configured = text_at p.environ "BUBBLEHUB_ROOTFS_DIR" in
      let rootfs = if configured == "" then default_rootfs else p.expand configured in
      if text_at p.environ "BUBBLEHUB_DISABLE_ROOTFS" == "1"
      then some none
      else if not (p.files.exists rootfs)
      then (if configured == "" then some none else none)
      else if not (p.files.is_dir rootfs)
      then none
      else some (some (p.files.resolve rootfs))

  -- `_bubblehub_python`
  unfoldable pub bubblehub_python : FilePath
  unfolding Dict.get
  bubblehub_python =
      let python : FilePath = elim (Dict.get p.environ "BUBBLEHUB_PYTHON") [
        | none ↦ "opt" ∷ "bubblehub" ∷ "bin" ∷ "python" ∷ []
        | some text ↦ p.expand text
      ] in
      if p.files.exists python then python else p.executable

  -- `_argv_for_binary`
  unfoldable pub argv_for_binary : FilePath → List String
  unfolding bubblehub_python
  argv_for_binary binary =
      if p.suffix binary == ".py"
      then p.show bubblehub_python ∷ p.show binary ∷ []
      else p.show binary ∷ []

  unfoldable pub first_site : List FilePath → Option FilePath
  first_site [] = none
  first_site (candidate ∷ candidates) =
      if p.files.is_dir (candidate ++ "bubblehub" ∷ [])
      then some candidate
      else first_site candidates

  -- `_bubblehub_site_packages`
  unfoldable pub bubblehub_site_packages : Option FilePath
  unfolding first_site
  bubblehub_site_packages = first_site (p.installed_sites ++ p.runtime_sites)

-- what a sandbox reaches the endpoint by
pub record SandboxInferenceEndpoint : Type 0 where
  pub host : String
  pub port : ℕ

abbrev host_or : Option String → String
host_or none = "127.0.0.1"
host_or (some host) = if host == "" then "127.0.0.1" else host

abbrev port_or : Option ℕ → ℕ
port_or none = 80
port_or (some ℕ.zero) = 80
port_or (some port) = port

-- `_sandbox_inference_endpoint`, `none` where it raises
unfoldable pub sandbox_inference_endpoint : Url → Option SandboxInferenceEndpoint
sandbox_inference_endpoint url =
    if url.scheme == "http" || url.scheme == ""
    then some (record { host = host_or url.hostname; port = port_or url.port })
    else none
