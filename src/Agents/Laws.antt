-- ===== src/Agents/Laws.antt =====
-- What stopping and deleting an agent leave behind.
use bubble_hub.Prelude.{
  String, ◌≡◌, refl, inl, inr, Bool, Option, none, some, List, string_eq, Bool-cases, Option-cases,
  ap, sym, ◌∙◌, subst,
}
use bubble_hub.Prelude.Int.{ℤ, is_positive}
use bubble_hub.Value.{Value, int_of}
use bubble_hub.Agents.{
  State, Result, ok, raise, Outcome, and_then, Kill, sent, no_process, not_permitted, Host,
  agent_from_snapshot, is_valid_agent_id, int_or_zero, field_of, Stopped, Deleted, stop_found,
  stop_agent, root_of, stop_if_running, removed_dir, delete_rest, delete_stopped, delete_agent,
  killed, stop_pid,
}
use bubble_hub.Agents.Kept.{
  removed_dir-Keeps, delete_rest-sandboxes, removed_dir-sandboxes, homes_same, delete_rest-forgets,
  KeepsFiles, Keeps, ForgottenFrom, SandboxesKept, IsForgotten,
}

-- what a host promises: an agent that is deregistered is in no later snapshot
abbrev pub Deregisters : Host → Type 0
Deregisters host =
    (agent_id : String) (agents : List Value)
    → agent_from_snapshot agent_id (host.deregister agent_id agents) ≡ none

-- the agent is no longer in the snapshot, and the files are as they were
abbrev pub IsStopped : State → String → State → Type 0
IsStopped s agent_id t =
    KeepsFiles s t × (t.homes ≡ s.homes) × (agent_from_snapshot agent_id t.agents ≡ none)

module _ (host : Host) (deregisters : Deregisters host) where
  killed-IsStopped :
      (s : State) (agent_id : String) (pid : ℤ) (k : Kill) {t : State} {r : Stopped}
      → killed host s agent_id pid k ≡ (t, ok r)
      → IsStopped s agent_id t
  killed-IsStopped s agent_id pid sent h =
      subst (IsStopped s agent_id) (ap (λ o. o.0) h)
        ((refl, refl), refl, deregisters agent_id s.agents)
  killed-IsStopped s agent_id pid no_process h =
      subst (IsStopped s agent_id) (ap (λ o. o.0) h)
        ((refl, refl), refl, deregisters agent_id s.agents)
  killed-IsStopped s agent_id pid not_permitted h = let e = ap (λ o. o.1) h in cc

  stop_pid-IsStopped :
      (s : State) (agent_id : String) (pid : Result ℤ) {t : State} {r : Stopped}
      → stop_pid host s agent_id pid ≡ (t, ok r)
      → IsStopped s agent_id t
  stop_pid-IsStopped s agent_id (raise e) h = let e = ap (λ o. o.1) h in cc
  stop_pid-IsStopped s agent_id (ok pid) h = elim (Bool-cases (is_positive pid)) [
    | inl t ↦ killed-IsStopped s agent_id pid (host.kill pid) (rw t at h)
    | inr f ↦ killed-IsStopped s agent_id pid no_process (rw f at h)
  ]

  stop_found-IsStopped :
      (s : State) (agent_id : String) (a : Option Value) {t : State} {r : Stopped}
      → stop_found host s agent_id a ≡ (t, ok r)
      → IsStopped s agent_id t
  stop_found-IsStopped s agent_id none h = let e = ap (λ o. o.1) h in cc
  stop_found-IsStopped s agent_id (some a) h =
      stop_pid-IsStopped s agent_id (int_or_zero (int_of (field_of a "pid"))) h

  -- If the scheduler forgets an agent that is deregistered, then an agent that was stopped is in its
  -- snapshot no longer, and no file was changed.
  pub stop_agent-IsStopped :
      (s : State) (agent_id : String) (t : State) (r : Stopped)
      → stop_agent host s agent_id ≡ (t, ok r)
      → IsStopped s agent_id t
  unfolding stop_agent
  stop_agent-IsStopped s agent_id t r h = elim (Bool-cases (is_valid_agent_id agent_id)) [
    | inl v ↦ stop_found-IsStopped s agent_id (agent_from_snapshot agent_id s.agents) (rw v at h)
    | inr n ↦ let e = ap (λ o. o.1) (rw n at h) in cc
  ]

  and_then-ok :
      {A B : Type 0} (o : Outcome A) (f : A → State → Outcome B) {t : State} {b : B}
      → and_then o f ≡ (t, ok b)
      → (a : A) × (u : State) × (o ≡ (u, ok a)) × (f a u ≡ (t, ok b))
  and_then-ok (s, ok a) f h = (a, s, refl, h)
  and_then-ok (s, raise e) f h = let k = ap (λ o. o.1) h in cc

  stop_if_running-IsStopped :
      (s : State) (agent_id : String) (t : State)
      → stop_if_running host s agent_id ≡ (t, ok tt)
      → IsStopped s agent_id t
  stop_if_running-IsStopped s agent_id t h =
      elim (Option-cases (agent_from_snapshot agent_id s.agents)) [
        | inl e ↦
            subst (IsStopped s agent_id) (ap (λ o. o.0) (rw (e, stop_if_running) at h))
              ((refl, refl), refl, e)
        | inr (a, e) ↦
            let (r, u, stop, rest) =
              and_then-ok (stop_agent host s agent_id) (λ stopped t. (t, ok tt))
                (rw (e, stop_if_running) at h) in
            subst (IsStopped s agent_id) (ap (λ o. o.0) rest)
              (stop_agent-IsStopped s agent_id u r stop)
      ]

  deleted-forgets :
      (s u : State) (agent_id root : String) (t : State) (r : Deleted)
      → IsStopped s agent_id u
      → and_then (removed_dir u root agent_id) (delete_rest root agent_id) ≡ (t, ok r)
      → IsForgotten s agent_id t × (agent_from_snapshot agent_id t.agents ≡ none)
  deleted-forgets s u agent_id root t r ((um, uf), uh, gone) h =
      let (d, v, removed, rest) =
        and_then-ok (removed_dir u root agent_id) (delete_rest root agent_id) h in
      let ((vm, vf), va) =
        subst (λ (o : Outcome Bool). Keeps u o.0) removed (removed_dir-Keeps u root agent_id) in
      let (forgotten, kept) = delete_rest-forgets root agent_id d v in
      let sandboxes : SandboxesKept s agent_id (delete_rest root agent_id d v).0 = λ x j n.
        delete_rest-sandboxes root agent_id d v x j n
        ∙ subst (λ (o : Outcome Bool). SandboxesKept u agent_id o.0) removed
            (removed_dir-sandboxes u root agent_id) x j n
        ∙ homes_same s u x j uh in
      let forgotten' =
        subst (λ m. ForgottenFrom m s.manifests agent_id (delete_rest root agent_id d v).0)
          (vm ∙ um)
          (subst (λ f. ForgottenFrom v.metadata f agent_id (delete_rest root agent_id d v).0)
            (vf ∙ uf) forgotten) in
      subst
        (λ (o : Outcome Deleted).
          IsForgotten s agent_id o.0 × (agent_from_snapshot agent_id o.0.agents ≡ none))
        rest
        (
          (forgotten', sandboxes),
          subst (λ a. agent_from_snapshot agent_id a ≡ none) (sym (kept ∙ va)) gone,
        )

  delete_stopped-forgets :
      (s u : State) (agent_id : String) (t : State) (r : Deleted)
      → IsStopped s agent_id u
      → delete_stopped host agent_id u ≡ (t, ok r)
      → IsForgotten s agent_id t × (agent_from_snapshot agent_id t.agents ≡ none)
  unfolding delete_stopped
  delete_stopped-forgets s u agent_id t r stopped h =
      deleted-forgets s u agent_id (root_of host u agent_id) t r stopped h

  -- If the scheduler forgets an agent that is deregistered, then an agent whose deletion succeeds
  -- has no metadata file any more and no access manifest but one that is a symbolic link, and the
  -- scheduler's snapshot does not list it; the metadata, the manifests and the persistent sandboxes
  -- of all other agents are as they were.
  pub delete_agent-forgets :
      (s : State) (agent_id : String) (t : State) (r : Deleted)
      → delete_agent host s agent_id ≡ (t, ok r)
      → IsForgotten s agent_id t × (agent_from_snapshot agent_id t.agents ≡ none)
  unfolding delete_agent
  delete_agent-forgets s agent_id t r h = elim (Bool-cases (is_valid_agent_id agent_id)) [
    | inl v ↦
        let (_, u, stopped, rest) =
          and_then-ok (stop_if_running host s agent_id) (λ _ w. delete_stopped host agent_id w)
            (rw (v, delete_agent) at h) in
        delete_stopped-forgets s u agent_id t r (stop_if_running-IsStopped s agent_id u stopped)
          rest
    | inr n ↦ let e = ap (λ o. o.1) (rw n at h) in cc
  ]
