-- ===== src/Run/Paths.antt =====
-- Paths, the sandbox's root and working directory, and the place of the binary. A path is absolute
-- and resolved, and is held as its parts: `/usr/bin` is `usr`, `bin`. The file system is read
-- through `Files`.
pub mod Laws
use bubble_hub.Prelude.{
  ℕ, String, Bool, true, false, not, ◌&&◌, ◌||◌, Option, none, some, List, [], ◌∷◌, ◌++◌, map, ◌==◌,
  string_eq, if◌then◌else◌, any, is_empty,
}

abbrev pub FilePath : Type 0
FilePath = List String

pub record Files : Type 0 where
  pub exists : FilePath → Bool
  pub is_dir : FilePath → Bool
  pub resolve : FilePath → FilePath
  pub cwd : FilePath
  pub source_checkout_root : Option FilePath

-- the `typer.BadParameter`s
pub data Refusal : Type 0 where
  root_not_found workdir_outside_root source_tree_included inside_source_tree : Refusal
  binary_outside_root binary_not_found sandbox_unavailable : Refusal
  protected_path : FilePath → Refusal

pub data Result {ℓ} (A : Type ℓ) : Type ℓ where
  ok : A → Result A
  refused : Refusal → Result A

infixl 5 ◌>>◌ ◌>>=◌
abbrev pub ◌>>=◌ {ℓ μ} : {X : Type ℓ} {Y : Type μ} → Result X → (X → Result Y) → Result Y
refused refusal >>= k = refused refusal
ok x >>= k = k x

abbrev pub ◌>>◌ {μ} : {Y : Type μ} → Result (Unit {0}) → Result Y → Result Y
first >> next = first >>= λ _. next

abbrev pub guard : Bool → Refusal → Result (Unit {0})
guard holds refusal = if holds then ok tt else refused refusal

-- `path.relative_to(parent)`, `none` where it raises `ValueError`
unfoldable pub relative_to : FilePath → FilePath → Option FilePath
relative_to path [] = some path
relative_to [] (q ∷ parent) = none
relative_to (p ∷ path) (q ∷ parent) = if p == q then relative_to path parent else none

unfoldable pub is_relative_to : FilePath → FilePath → Bool
unfolding relative_to
is_relative_to path parent = elim (relative_to path parent) [ none ↦ false | some r ↦ true ]

-- `a == b`
unfoldable pub same_path : FilePath → FilePath → Bool
same_path [] [] = true
same_path (p ∷ a) (q ∷ b) = p == q && same_path a b
same_path _ _ = false

abbrev pub protected_roots : List FilePath
protected_roots =
    []
    ∷ ("usr" ∷ [])
    ∷ ("bin" ∷ [])
    ∷ ("sbin" ∷ [])
    ∷ ("lib" ∷ [])
    ∷ ("lib64" ∷ [])
    ∷ ("opt" ∷ [])
    ∷ ("etc" ∷ [])
    ∷ ("var" ∷ [])
    ∷ ("proc" ∷ [])
    ∷ ("sys" ∷ [])
    ∷ ("dev" ∷ [])
    ∷ ("run" ∷ [])
    ∷ []

-- the loop over the protected paths
unfoldable pub check_protected : FilePath → List FilePath → Result (Unit {0})
unfolding same_path is_relative_to
check_protected root [] = ok tt
check_protected root (p ∷ rest) =
    if same_path root p || not (is_empty p) && is_relative_to root p
    then refused (protected_path p)
    else check_protected root rest

unfoldable pub is_allowed_source_workspace : FilePath → FilePath → Bool
unfolding same_path is_relative_to
is_allowed_source_workspace root source_root =
    let examples = source_root ++ "examples" ∷ [] in
    same_path root examples || is_relative_to root examples

abbrev pub includes_source : FilePath → FilePath → Bool
includes_source root source =
    same_path root source
    || (is_relative_to source root
        || is_relative_to root source && not (is_allowed_source_workspace root source))

-- `(root, *root.parents)`
unfoldable pub ancestors : FilePath → List FilePath
ancestors [] = [] ∷ []
ancestors (p ∷ path) = map (◌∷◌ p) (ancestors path) ++ [] ∷ []

abbrev pub is_source_tree : Files → FilePath → Bool
is_source_tree files candidate =
    files.exists (candidate ++ "pyproject.toml" ∷ [])
    && (files.exists (candidate ++ "bubblehub" ∷ "cli" ∷ "run.py" ∷ [])
        && files.exists (candidate ++ "libbubble" ∷ "sandbox.c" ∷ []))

unfoldable pub first_source_tree : Files → List FilePath → Option FilePath
first_source_tree files [] = none
first_source_tree files (c ∷ rest) =
    if is_source_tree files c then some c else first_source_tree files rest

unfoldable pub bubblehub_source_tree_for : Files → FilePath → Option FilePath
unfolding first_source_tree ancestors
bubblehub_source_tree_for files root = first_source_tree files (ancestors root)

abbrev pub outside_checkout : FilePath → Option FilePath → Bool
outside_checkout root none = true
outside_checkout root (some source) = not (includes_source root source)

abbrev pub outside_tree : FilePath → Option FilePath → Bool
outside_tree root none = true
outside_tree root (some source) = is_allowed_source_workspace root source

unfoldable pub validate_writable_root : Files → FilePath → Result (Unit {0})
unfolding check_protected
validate_writable_root files root = do
  check_protected root protected_roots
  guard (outside_checkout root files.source_checkout_root) source_tree_included
  guard (outside_tree root (bubblehub_source_tree_for files root)) inside_source_tree

-- `sandbox_workdir` is a path of the sandbox, held as its parts too
pub record SandboxPaths : Type 0 where
  pub host_workdir : FilePath
  pub sandbox_workdir : FilePath
  pub host_root_dir : Option FilePath

abbrev pub resolved_or : Files → FilePath → Option FilePath → FilePath
resolved_or files root none = root
resolved_or files root (some workdir) = files.resolve workdir

abbrev pub inside_root : FilePath → FilePath → Option FilePath → Result SandboxPaths
inside_root root workdir none = refused workdir_outside_root
inside_root root workdir (some relative) = ok (record {
  host_workdir = workdir;
  sandbox_workdir = "workspace" ∷ relative;
  host_root_dir = some root;
})

abbrev workdir_or_cwd : Files → Option FilePath → FilePath
workdir_or_cwd files none = files.cwd
workdir_or_cwd files (some workdir) = workdir

unfoldable pub resolve_sandbox_paths :
    Files → Option FilePath → Option FilePath → Result SandboxPaths
unfolding validate_writable_root
resolve_sandbox_paths files none workdir = ok (record {
  host_workdir = workdir_or_cwd files workdir;
  sandbox_workdir = "workspace" ∷ [];
  host_root_dir = none;
})
resolve_sandbox_paths files (some root_dir) workdir = do
  let root = files.resolve root_dir
  guard (files.exists root && files.is_dir root) root_not_found
  validate_writable_root files root
  let resolved_workdir = resolved_or files root workdir
  inside_root root resolved_workdir (relative_to resolved_workdir root)

abbrev pub system_prefixes : List FilePath
system_prefixes = ("usr" ∷ []) ∷ ("bin" ∷ []) ∷ ("sbin" ∷ []) ∷ ("opt" ∷ "bubblehub" ∷ []) ∷ []

unfoldable pub is_sandbox_system_binary : Files → FilePath → Bool
unfolding any is_relative_to
is_sandbox_system_binary files path =
    any (λ prefix. is_relative_to (files.resolve path) prefix) system_prefixes

-- where a file of the workspace stands in the sandbox
abbrev pub in_workspace : String → FilePath → FilePath
in_workspace agent_id relative = "home" ∷ agent_id ∷ "workspace" ∷ relative

-- `resolved_binary.name`
unfoldable pub name_of : FilePath → String
name_of [] = ""
name_of (p ∷ []) = p
name_of (p ∷ q ∷ path) = name_of (q ∷ path)

pub record Prepared : Type 0 where
  pub paths : SandboxPaths
  pub binary : FilePath
  -- the temporary directory with a copy of the binary
  pub staging : Option FilePath

abbrev pub placed : SandboxPaths → String → Option FilePath → Result Prepared
placed paths agent_id none = refused binary_outside_root
placed paths agent_id (some relative) =
    ok (record { paths = paths; binary = in_workspace agent_id relative; staging = none })

abbrev pub prepare_in :
    SandboxPaths → FilePath → String → FilePath → Option FilePath → Result Prepared
prepare_in paths binary agent_id temporary (some root) =
    placed paths agent_id (relative_to binary root)
prepare_in paths binary agent_id temporary none = ok (record {
  paths = record {
    host_workdir = temporary;
    sandbox_workdir = "workspace" ∷ [];
    host_root_dir = some temporary;
  };
  binary = in_workspace agent_id (name_of binary ∷ []);
  staging = some temporary;
})

-- `_prepare_sandbox_binary`; `temporary` is the directory that `TemporaryDirectory` makes
unfoldable pub prepare_sandbox_binary :
    Files → FilePath → SandboxPaths → String → FilePath → Result Prepared
unfolding is_sandbox_system_binary relative_to name_of
prepare_sandbox_binary files binary paths agent_id temporary =
    if is_sandbox_system_binary files binary
    then ok (record { paths = paths; binary = binary; staging = none })
    else prepare_in paths binary agent_id temporary paths.host_root_dir
