-- ===== src/Run/Paths/Laws.antt =====
-- What is refused as a root, and that nothing outside the root is reached.
use mathlib.Core.Bool.{false≢true}
use mathlib.Core.List.{append-nil}
use bubble_hub.Prelude.{
  ◌≡◌, ◌≢◌, refl, inl, inr, Bool, true, false, not, Option, none, some, List, [], ◌∷◌, ◌++◌, arith,
  string_eq, eq_iff, Bool-cases, ap, sym, ◌∙◌, subst, All, is_empty, ◌&&◌, ◌||◌, Option-cases,
}
use bubble_hub.Run.Paths.{
  FilePath, Files, Refusal, Result, ok, refused, ◌>>◌, guard, relative_to, is_relative_to,
  same_path, is_allowed_source_workspace, includes_source, protected_roots, check_protected,
  outside_checkout, validate_writable_root, SandboxPaths, resolved_or, inside_root,
  resolve_sandbox_paths, source_tree_included, root_not_found,
}

-- `relative_to` undoes putting a relative path behind the parent, and finds no other.
pub relative_to-append : (parent rest : FilePath) → relative_to (parent ++ rest) parent ≡ some rest
unfolding relative_to
relative_to-append [] rest = refl
relative_to-append (p ∷ parent) rest = rw ((eq_iff p p).1 refl) (relative_to-append parent rest)

pub append_of_relative_to :
    (path parent rest : FilePath) → relative_to path parent ≡ some rest → path ≡ parent ++ rest
unfolding relative_to
append_of_relative_to path [] rest h = ground arith
append_of_relative_to [] (q ∷ parent) rest h = cc
append_of_relative_to (p ∷ path) (q ∷ parent) rest h =
    ground (arith, eq_iff p q, append_of_relative_to path parent rest)

is_relative_to-append : (p rest : FilePath) → is_relative_to (p ++ rest) p ≡ true
unfolding is_relative_to
is_relative_to-append p rest = rw (relative_to-append p rest, is_relative_to)

append_of_is_relative_to :
    (path parent : FilePath)
    → is_relative_to path parent ≡ true
    → (rest : FilePath) × (path ≡ parent ++ rest)
unfolding is_relative_to
append_of_is_relative_to path parent h = elim (Option-cases (relative_to path parent)) [
  | inl e ↦ absurd (false≢true (rw (e, is_relative_to) at h))
  | inr (rest, e) ↦ (rest, append_of_relative_to path parent rest e)
]

same_path_refl : (a : FilePath) → same_path a a ≡ true
unfolding same_path
same_path_refl [] = refl
same_path_refl (p ∷ a) = rw ((eq_iff p p).1 refl, same_path_refl a)

eq_of_same_path : (a b : FilePath) → same_path a b ≡ true → a ≡ b
unfolding same_path
eq_of_same_path [] [] h = refl
eq_of_same_path [] (q ∷ b) h = cc
eq_of_same_path (p ∷ a) [] h = cc
eq_of_same_path (p ∷ a) (q ∷ b) h = ground (arith, eq_iff p q, eq_of_same_path a b)

-- `root` is not the path `p`, and does not lie below it, unless `p` is the top of the file system
abbrev pub Avoids : FilePath → FilePath → Type 0
Avoids root p = (root ≢ p) × (p ≢ [] → (rest : FilePath) → root ≢ p ++ rest)

avoids :
    (root p : FilePath)
    → (same_path root p || not (is_empty p) && is_relative_to root p) ≡ false
    → Avoids root p
unfolding same_path
avoids root [] h = (λ e. false≢true (sym h ∙ (rw e (same_path_refl []))), λ n. absurd (n refl))
avoids root (q ∷ p) h = (
  λ e. ground (arith, subst (λ r. same_path r (q ∷ p) ≡ true) (sym e) (same_path_refl (q ∷ p))),
  λ n rest e. ground (
    arith,
    subst (λ r. is_relative_to r (q ∷ p) ≡ true) (sym e) (is_relative_to-append (q ∷ p) rest),
  ),
)

check_protected-Avoids :
    (root : FilePath) (paths : List FilePath)
    → check_protected root paths ≡ ok tt
    → All (Avoids root) paths
unfolding check_protected
check_protected-Avoids root [] h = tt
check_protected-Avoids root (p ∷ rest) h =
    elim (Bool-cases (same_path root p || not (is_empty p) && is_relative_to root p)) [
      | inl t ↦ let h' = rw t at h in cc
      | inr f ↦ (avoids root p f, check_protected-Avoids root rest (rw f at h))
    ]

both_passed :
    {B : Type 0} {b : B} (m : Result (Unit {0})) (k : Result B)
    → m >> k ≡ ok b
    → (m ≡ ok tt) × (k ≡ ok b)
both_passed (ok tt) k h = (refl, h)
both_passed (refused e) k h = cc

ok_injective : {A : Type 0} {a b : A} → ok a ≡ ok b → a ≡ b
ok_injective h = cc

guard_passed : (b : Bool) (e : Refusal) → guard b e ≡ ok tt → b ≡ true
guard_passed b e h = ground arith

-- the root and a source checkout: the root does not hold it, and lies in it only below `examples`
abbrev pub SparesSource : FilePath → FilePath → Type 0
SparesSource root source =
    ((rest : FilePath) → source ≢ root ++ rest)
    × ((rest : FilePath)
        → root ≡ source ++ rest
        → (inner : FilePath) × (root ≡ (source ++ "examples" ∷ []) ++ inner))

allowed_inner :
    (root source : FilePath)
    → is_allowed_source_workspace root source ≡ true
    → (inner : FilePath) × (root ≡ (source ++ "examples" ∷ []) ++ inner)
unfolding is_allowed_source_workspace
allowed_inner root source h = elim (Bool-cases (same_path root (source ++ "examples" ∷ []))) [
  | inl t ↦ (
    [],
    eq_of_same_path root (source ++ "examples" ∷ []) t
        ∙ sym (append-nil (source ++ "examples" ∷ [])),
  )
  | inr f ↦ append_of_is_relative_to root (source ++ "examples" ∷ []) (rw f at h)
]

spares : (root source : FilePath) → includes_source root source ≡ false → SparesSource root source
spares root source h = (
  λ rest e.
      ground (
        arith,
        subst (λ r. is_relative_to r root ≡ true) (sym e) (is_relative_to-append root rest),
      ),
  λ rest e. allowed_inner root source (
      ground (
        arith,
        subst (λ r. is_relative_to r source ≡ true) (sym e) (is_relative_to-append source rest),
      )),
)

spares_checkout :
    (root : FilePath) (checkout : Option FilePath)
    → outside_checkout root checkout ≡ true
    → (source : FilePath) → checkout ≡ some source
    → SparesSource root source
spares_checkout root checkout h source e =
    spares root source (ground (arith, subst (λ c. outside_checkout root c ≡ true) e h))

-- A root that is accepted is none of the protected system paths and lies below none of them but
-- the top; and if the program runs from a source checkout, the root does not contain the checkout,
-- and lies inside it only below its `examples`.
pub validate_writable_root-safe :
    (files : Files) (root : FilePath)
    → validate_writable_root files root ≡ ok tt
    → All (Avoids root) protected_roots
      × ((source : FilePath) → files.source_checkout_root ≡ some source → SparesSource root source)
unfolding validate_writable_root
validate_writable_root-safe files root h =
    let (p, h₁) = both_passed (check_protected root protected_roots) _ h in
    let (q, _) =
      both_passed (guard (outside_checkout root files.source_checkout_root) source_tree_included) _
        h₁ in
    (
      check_protected-Avoids root protected_roots p,
      spares_checkout root files.source_checkout_root (guard_passed _ _ q),
    )

inside_root-inside :
    (root workdir : FilePath) (r : Option FilePath) (paths : SandboxPaths)
    → relative_to workdir root ≡ r
    → inside_root root workdir r ≡ ok paths
    → (relative : FilePath) × (paths.host_root_dir ≡ some root)
      × (paths.host_workdir ≡ root ++ relative)
      × (paths.sandbox_workdir ≡ "workspace" ∷ relative)
inside_root-inside root workdir none paths e h = cc
inside_root-inside root workdir (some relative) paths e h =
    let q = ok_injective h in
    (
      relative,
      ap (λ p. p.host_root_dir) (sym q),
      ap (λ p. p.host_workdir) (sym q) ∙ append_of_relative_to workdir root relative e,
      ap (λ p. p.sandbox_workdir) (sym q),
    )

-- With a root directory, whatever is accepted as sandbox paths has a working directory on the host
-- that lies in the resolved root, and the working directory in the sandbox stands at the same place
-- below `/workspace`.
pub resolve_sandbox_paths-inside :
    (files : Files) (root_dir : FilePath) (workdir : Option FilePath) (paths : SandboxPaths)
    → resolve_sandbox_paths files (some root_dir) workdir ≡ ok paths
    → (relative : FilePath) × (paths.host_root_dir ≡ some (files.resolve root_dir))
      × (paths.host_workdir ≡ files.resolve root_dir ++ relative)
      × (paths.sandbox_workdir ≡ "workspace" ∷ relative)
      × All (Avoids (files.resolve root_dir)) protected_roots
unfolding resolve_sandbox_paths
resolve_sandbox_paths-inside files root_dir workdir paths h =
    let root = files.resolve root_dir in
    let (_, h₁) = both_passed (guard (files.exists root && files.is_dir root) root_not_found) _ h in
    let (v, h₂) = both_passed (validate_writable_root files root) _ h₁ in
    let work = resolved_or files root workdir in
    let (relative, r, w, b) = inside_root-inside root work (relative_to work root) paths refl h₂ in
    (relative, r, w, b, (validate_writable_root-safe files root v).0)
