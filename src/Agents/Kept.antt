-- ===== src/Agents/Kept.antt =====
-- What the steps of `delete_agent`, bubblehub/app/agents.py, leave of an agent and of all others.
use bubble_hub.Prelude.{
  String, ◌≡◌, ◌≢◌, refl, inl, inr, Bool, Option, none, some, arith, ◌==◌, string_eq, eq_iff, true,
  false, if◌then◌else◌, Bool-cases, ap, sym, ◌∙◌, subst,
}
use bubble_hub.Prelude.Dict.{Dict, get-put, get-remove}
use bubble_hub.Prelude.Dict
use bubble_hub.Value.{Value}
use bubble_hub.Agents.{
  AgentDir, Home, Manifest, directory, symlink, State, remove_persistent_agent,
  remove_current_agent_marker, remove_access_manifest, removed_dir, removed_marker, delete_rest,
  home_at, home_or_empty, put_home, is_persistent_agent_dir, drop_manifest, remove_dir, marker_is,
}

-- the files of the state directory and the scheduler's agents are the same
abbrev pub KeepsFiles : State → State → Type 0
KeepsFiles s t = (t.metadata ≡ s.metadata) × (t.manifests ≡ s.manifests)

abbrev pub Keeps : State → State → Type 0
Keeps s t = KeepsFiles s t × (t.agents ≡ s.agents)

remove_dir-Keeps :
    (s : State) (root : String) (h : Home) (agent_id : String) (d : Option AgentDir)
    → Keeps s (remove_dir s root h agent_id d).0
remove_dir-Keeps s root h agent_id none = ((refl, refl), refl)
remove_dir-Keeps s root h agent_id (some d) = ground arith

pub removed_dir-Keeps :
    (s : State) (root agent_id : String) → Keeps s (removed_dir s root agent_id).0
unfolding remove_persistent_agent
removed_dir-Keeps s root agent_id = elim (Bool-cases (root == "")) [
  | inl t ↦ rw t ((refl, refl), refl)
  | inr f ↦ rw f (
      remove_dir-Keeps s root (home_at s root) agent_id (Dict.get (home_at s root).agents agent_id))
]

removed_marker-Keeps :
    (s : State) (root agent_id : String) → Keeps s (removed_marker s root agent_id)
unfolding remove_current_agent_marker
removed_marker-Keeps s root agent_id = elim (Bool-cases (root == "")) [
  | inl t ↦ rw t ((refl, refl), refl)
  | inr f ↦ rw f (elim (Bool-cases (marker_is agent_id (home_at s root).marker)) [
    | inl t ↦ rw t ((refl, refl), refl)
    | inr g ↦ rw g ((refl, refl), refl)
  ])
]

-- an access manifest is gone, unless it is a symbolic link, and the others are as they were
abbrev pub ManifestDropped : Dict Manifest → String → Dict Manifest → Type 0
ManifestDropped before agent_id after =
    (Dict.get after agent_id ≢ some directory)
    × ((j : String) → j ≢ agent_id → Dict.get after j ≡ Dict.get before j)

drop_manifest-dropped :
    (s : State) (agent_id : String) (m : Option Manifest)
    → Dict.get s.manifests agent_id ≡ m
    → ManifestDropped s.manifests agent_id (drop_manifest s agent_id m).0.manifests
drop_manifest-dropped s agent_id (some directory) e = (
  λ k. ground (arith, get-remove s.manifests agent_id agent_id, eq_iff agent_id agent_id),
  λ j n. ground (arith, get-remove s.manifests agent_id j, eq_iff agent_id j),
)
drop_manifest-dropped s agent_id (some symlink) e = (λ k. cc, λ j n. refl)
drop_manifest-dropped s agent_id none e = (λ k. cc, λ j n. refl)

drop_manifest-rest :
    (s : State) (agent_id : String) (m : Option Manifest)
    → ((drop_manifest s agent_id m).0.metadata ≡ s.metadata)
      × ((drop_manifest s agent_id m).0.agents ≡ s.agents)
drop_manifest-rest s agent_id (some directory) = (refl, refl)
drop_manifest-rest s agent_id (some symlink) = (refl, refl)
drop_manifest-rest s agent_id none = (refl, refl)

-- what a successful deletion leaves of an agent, and of all others
abbrev pub ForgottenFrom : Dict (Option Value) → Dict Manifest → String → State → Type 0
ForgottenFrom metadata manifests agent_id t =
    (Dict.get t.metadata agent_id ≡ none)
    × ((j : String) → j ≢ agent_id → Dict.get t.metadata j ≡ Dict.get metadata j)
    × ManifestDropped manifests agent_id t.manifests

-- the persistent sandbox of an agent in a root
abbrev pub sandbox_at : State → String → String → Option AgentDir
sandbox_at s root agent_id = Dict.get (home_at s root).agents agent_id

-- the persistent sandboxes of all other agents are as they were, in every root
abbrev pub SandboxesKept : State → String → State → Type 0
SandboxesKept s agent_id t =
    (root j : String) → j ≢ agent_id → sandbox_at t root j ≡ sandbox_at s root j

abbrev pub IsForgotten : State → String → State → Type 0
IsForgotten s agent_id t =
    ForgottenFrom s.metadata s.manifests agent_id t × SandboxesKept s agent_id t

put_home-sandbox :
    (s : State) (root : String) (h : Home) (r j : String)
    → Dict.get h.agents j ≡ sandbox_at s root j
    → sandbox_at (put_home s root h) r j ≡ sandbox_at s r j
put_home-sandbox s root h r j same =
    ap (λ o. Dict.get (home_or_empty o).agents j) (get-put s.homes root r h)
    ∙ put_or_same (root == r) refl
  where
    put_or_same :
        (b : Bool)
        → (root == r) ≡ b
        → Dict.get (home_or_empty (if b then some h else Dict.get s.homes r)).agents j
          ≡ sandbox_at s r j
    put_or_same true e = same ∙ ap (λ x. sandbox_at s x j) ((eq_iff root r).0 e)
    put_or_same false e = refl

remove_dir-sandboxes :
    (s : State) (root agent_id : String) (d : Option AgentDir)
    → SandboxesKept s agent_id (remove_dir s root (home_at s root) agent_id d).0
remove_dir-sandboxes s root agent_id none = λ r j n. refl
remove_dir-sandboxes s root agent_id (some d) =
    elim (Bool-cases (is_persistent_agent_dir agent_id (some d))) [
      | inr f ↦ rw f (λ r j n. refl)
      | inl t ↦ rw t (elim (Bool-cases d.stays) [
        | inr f ↦ rw f (λ r j n. refl)
        | inl u ↦ rw u (λ r j n.
            put_home-sandbox s root
              (record (home_at s root) { agents = Dict.remove (home_at s root).agents agent_id }) r
              j (ground (arith, get-remove (home_at s root).agents agent_id j, eq_iff agent_id j)))
      ])
    ]

pub removed_dir-sandboxes :
    (s : State) (root agent_id : String) → SandboxesKept s agent_id (removed_dir s root agent_id).0
unfolding remove_persistent_agent
removed_dir-sandboxes s root agent_id = elim (Bool-cases (root == "")) [
  | inl t ↦ rw t (λ r j n. refl)
  | inr f ↦ rw f (remove_dir-sandboxes s root agent_id (Dict.get (home_at s root).agents agent_id))
]

removed_marker-sandboxes :
    (s : State) (root agent_id r j : String)
    → sandbox_at (removed_marker s root agent_id) r j ≡ sandbox_at s r j
unfolding remove_current_agent_marker
removed_marker-sandboxes s root agent_id r j = elim (Bool-cases (root == "")) [
  | inl t ↦ rw t refl
  | inr f ↦ rw f (elim (Bool-cases (marker_is agent_id (home_at s root).marker)) [
    | inl t ↦ rw t (put_home-sandbox s root (record (home_at s root) { marker = none }) r j refl)
    | inr g ↦ rw g refl
  ])
]

drop_manifest-homes :
    (s : State) (agent_id : String) (m : Option Manifest)
    → (drop_manifest s agent_id m).0.homes ≡ s.homes
drop_manifest-homes s agent_id (some directory) = refl
drop_manifest-homes s agent_id (some symlink) = refl
drop_manifest-homes s agent_id none = refl

pub homes_same :
    (s t : State) (root j : String) → t.homes ≡ s.homes → sandbox_at t root j ≡ sandbox_at s root j
homes_same s t root j e = ap (λ homes. Dict.get (home_or_empty (Dict.get homes root)).agents j) e

pub delete_rest-sandboxes :
    (root agent_id : String) (deleted : Bool) (s : State)
    → SandboxesKept s agent_id (delete_rest root agent_id deleted s).0
unfolding remove_access_manifest
delete_rest-sandboxes root agent_id deleted s r j n =
    let m = Dict.get s.manifests agent_id in
    let t = (drop_manifest s agent_id m).0 in
    removed_marker-sandboxes t root agent_id r j
    ∙ homes_same s t r j (drop_manifest-homes s agent_id m)

metadata_removed :
    {V : Type 0} (before after : Dict V) (agent_id : String)
    → after ≡ before
    → (Dict.get (Dict.remove after agent_id) agent_id ≡ none)
      × ((j : String) → j ≢ agent_id → Dict.get (Dict.remove after agent_id) j ≡ Dict.get before j)
metadata_removed before after agent_id e = (
  ground (arith, get-remove after agent_id agent_id, eq_iff agent_id agent_id),
  λ j n. ground (arith, get-remove after agent_id j, eq_iff agent_id j) ∙ ap (λ d. Dict.get d j) e,
)

pub delete_rest-forgets :
    (root agent_id : String) (deleted : Bool) (s : State)
    → let t = (delete_rest root agent_id deleted s).0 in
      ForgottenFrom s.metadata s.manifests agent_id t × (t.agents ≡ s.agents)
unfolding remove_access_manifest
delete_rest-forgets root agent_id deleted s =
    let m = Dict.get s.manifests agent_id in
    let t = (drop_manifest s agent_id m).0 in
    let ((me, ma), ag) = removed_marker-Keeps t root agent_id in
    let (me', ag') = drop_manifest-rest s agent_id m in
    let (gone, others) =
      metadata_removed s.metadata (removed_marker t root agent_id).metadata agent_id (me ∙ me') in
    (
      (
        gone,
        others,
        subst (ManifestDropped s.manifests agent_id) (sym ma)
            (drop_manifest-dropped s agent_id m refl),
      ),
      ag ∙ ag',
    )
