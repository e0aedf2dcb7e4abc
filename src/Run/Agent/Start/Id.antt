-- ===== src/Run/Agent/Start/Id.antt =====
-- The agent that `run_agent` of bubblehub/cli/run.py prepares is the one that it registers, and its id
-- stands in the agent's environment.
use mathlib.Core.List.{Memᴰ}
use bubble_hub.Prelude.{
  ℕ, String, ◌≡◌, refl, ◌∙◌, Bool, Bool-cases, inl, inr, true, false, Option, Option-cases, none,
  some, [], ◌∷◌, ◌==◌, string_eq, if◌then◌else◌,
}
use bubble_hub.Prelude.Dict.{Dict, get-put_self, get-put_other, differ}
use bubble_hub.Prelude.Dict
use bubble_hub.Prelude.Int.{ℤ}
use bubble_hub.Inference.{InferenceConfig, apply_inference_env}
use bubble_hub.Run.Agent.{
  Event, registered, Result, ok, stop, Options, Host, Trace, M, continue, ◌>>=◌, pure, raise, emit,
  register_agent, id_or_new, put_given, copied, agent_env,
}
use bubble_hub.Run.Agent.Start.{Ready, prepare_agent, inference_env, sandbox_env}
use bubble_hub.Run.Agent.Start.Steps.{
  Quiet, Adds, Adds-given, Adds-of_paths, select_persistent_sandbox-Adds,
  record_persistent_sandbox-Adds, write_metadata-Adds, prepare_overlay_paths-Adds, Adds-emit,
}
use bubble_hub.Run.Environment.{
  apply_sandbox_inference_env, apply_sandbox_http_proxy_env, text_at, with_proxy,
}

-- the id in an environment
pub record HasId (agent_id : String) (env : Dict String) : Type 0 where
  pub found : Dict.get env "BUBBLEHUB_AGENT_ID" ≡ some agent_id

module _ {agent_id : String} where
  HasId-put :
      {env : Dict String} (k v : String)
      → (k == "BUBBLEHUB_AGENT_ID") ≡ false
      → HasId agent_id env
      → HasId agent_id (Dict.put env k v)
  HasId-put {env} k v n h = record {
    found = get-put_other env k "BUBBLEHUB_AGENT_ID" v (differ k "BUBBLEHUB_AGENT_ID" n) ∙ h.found;
  }

  HasId-default :
      {env : Dict String} (k v : String)
      → (k == "BUBBLEHUB_AGENT_ID") ≡ false
      → HasId agent_id env
      → HasId agent_id (Dict.set_default env k v)
  unfolding Dict.set_default
  HasId-default {env} k v n h = elim (Option-cases (Dict.get env k)) [
    | inl e ↦ rw (Dict.set_default, e) (HasId-put k v n h)
    | inr (w, e) ↦ rw (Dict.set_default, e) h
  ]

module _ (h : Host) (agent_id : String) where
  HasId-given :
      {env : Dict String} (k : String) (v : Option String)
      → (k == "BUBBLEHUB_AGENT_ID") ≡ false
      → HasId agent_id env
      → HasId agent_id (put_given h env k v)
  HasId-given k none n i = i
  HasId-given k (some v) n i = HasId-put k v n i

  HasId-copied :
      {env : Dict String} (k : String)
      → (k == "BUBBLEHUB_AGENT_ID") ≡ false
      → HasId agent_id env
      → HasId agent_id (copied h env k)
  HasId-copied {env} k n i = elim (Bool-cases (text_at h.places.environ k == "")) [
    | inl t ↦ rw t i
    | inr f ↦ rw f (HasId-put k _ n i)
  ]

  HasId-if :
      {env : Dict String} (b : Bool) (k v : String)
      → (k == "BUBBLEHUB_AGENT_ID") ≡ false
      → HasId agent_id env
      → HasId agent_id (if b then Dict.put env k v else env)
  HasId-if true k v n i = HasId-put k v n i
  HasId-if false k v n i = i

  agent_env-HasId :
      (name : Option String) (niceness : ℤ) (has_rootfs : Bool)
      → HasId agent_id (agent_env h agent_id name niceness has_rootfs)
  unfolding agent_env
  agent_env-HasId name niceness has_rootfs = HasId-if has_rootfs "BUBBLEHUB_ROOTFS_RELEASE" _ refl (
      HasId-given "BUBBLEHUB_PYTHONPATH" _ refl (
        HasId-copied "LD_LIBRARY_PATH" refl (
          HasId-copied "BUBBLEHUB_SANDBOX_HELPER" refl (
            HasId-copied "HOME" refl (
              HasId-copied "XDG_STATE_HOME" refl (
                HasId-copied "BUBBLEHUB_STATE_DIR" refl (
                  HasId-put "BUBBLEHUB_ENABLE_SECCOMP" _ refl (
                    HasId-put "BUBBLEHUB_LOG_LEVEL" _ refl (
                      HasId-put "BUBBLEHUB_LOG_FILE" _ refl (
                        HasId-put "BUBBLEHUB_HOST_GID" _ refl (
                          HasId-put "BUBBLEHUB_HOST_UID" _ refl (
                            HasId-put "BUBBLEHUB_NICENESS" _ refl (
                              HasId-given "BUBBLEHUB_AGENT_NAME" name refl (record {
                                found = get-put_self [] "BUBBLEHUB_AGENT_ID" agent_id;
                              }))))))))))))))

  inference_env-HasId :
      (o : Options) (env : Dict String) (endpoint : String × InferenceConfig)
      → HasId agent_id env
      → HasId agent_id (inference_env h o env endpoint)
  unfolding inference_env apply_inference_env
  inference_env-HasId o env (url, config) i = HasId-put "no_proxy" _ refl (
      HasId-put "NO_PROXY" _ refl (
        HasId-put "BUBBLEHUB_SPECIALITY" _ refl (
          HasId-default "OPENAI_API_KEY" _ refl
            (HasId-put "OPENAI_BASE_URL" _ refl (HasId-put "BUBBLEHUB_API_BASE_URL" _ refl i)))))

  sandbox_inference-HasId :
      (env : Dict String) (port : ℕ)
      → HasId agent_id env
      → HasId agent_id (apply_sandbox_inference_env env port)
  unfolding apply_sandbox_inference_env
  sandbox_inference-HasId env port i = HasId-put "BUBBLEHUB_NETWORK" _ refl (
      HasId-put "BUBBLEHUB_SANDBOX_INFERENCE_PORT" _ refl (
        HasId-put "BUBBLEHUB_SANDBOX_INFERENCE_HOST" _ refl
          (HasId-put "OPENAI_BASE_URL" _ refl (HasId-put "BUBBLEHUB_API_BASE_URL" _ refl i))))

  with_proxy-HasId :
      (env : Dict String) (port : ℕ) → HasId agent_id env → HasId agent_id (with_proxy env port)
  unfolding with_proxy
  with_proxy-HasId env port i = HasId-put "BUBBLEHUB_HTTP_PROXY_PORT" _ refl (
      HasId-put "https_proxy" _ refl (
        HasId-put "http_proxy" _ refl
          (HasId-put "HTTPS_PROXY" _ refl (HasId-put "HTTP_PROXY" _ refl i))))

  http_proxy-HasId :
      (env : Dict String) (port : ℕ)
      → HasId agent_id env
      → HasId agent_id (apply_sandbox_http_proxy_env env port)
  unfolding apply_sandbox_http_proxy_env
  http_proxy-HasId env port i =
      HasId-put "no_proxy" _ refl (HasId-put "NO_PROXY" _ refl (with_proxy-HasId env port i))

  pub sandbox_env-HasId :
      (o : Options) (env : Dict String) (port : ℕ)
      → HasId agent_id env
      → HasId agent_id (sandbox_env h o env port)
  unfolding sandbox_env
  sandbox_env-HasId o env port i = elim (Bool-cases o.allow_network) [
    | inl t ↦ rw t (sandbox_inference-HasId env port i)
    | inr f ↦ rw f (http_proxy-HasId _ _ (sandbox_inference-HasId env port i))
  ]

-- what holds of the value that is returned, and of the events then
abbrev pub Holds {ℓ} : {A : Type ℓ} → (A → Trace → Type 0) → Result A × Trace → Type 0
Holds Q (ok a, later) = Q a later
Holds Q (stop e, later) = Unit

pub record Gives {ℓ} (P : Trace → Type 0) {A : Type ℓ} (m : M A) (Q : A → Trace → Type 0)
    : Type ℓ where
  pub gives : (events : Trace) → P events → Holds Q (m events)

Gives-continue {ℓ μ} :
    {A : Type ℓ} {B : Type μ} (R : A → Trace → Type 0) (Q : B → Trace → Type 0) (f : A → M B)
    → ((a : A) → Gives (R a) (f a) Q)
    → (x : Result A × Trace) → Holds R x
    → Holds Q (continue f x)
Gives-continue R Q f next (ok a, later) p = (next a).gives later p
Gives-continue R Q f next (stop e, later) p = tt

Gives-bind {ℓ μ} :
    {A : Type ℓ} {B : Type μ} {P : Trace → Type 0} (R : A → Trace → Type 0) {Q : B → Trace → Type 0}
    {m : M A} {f : A → M B}
    → Gives P m R
    → ((a : A) → Gives (R a) (f a) Q)
    → Gives P (m >>= f) Q
unfolding ◌>>=◌
Gives-bind R {Q} {m} {f} h next = record {
  gives = λ events p. Gives-continue R Q f next (m events) (h.gives events p);
}

kept-Holds {ℓ} : {A : Type ℓ} (P : Trace → Type 0) (x : Result A × Trace) → P x.1 → Holds (λ a. P) x
kept-Holds P (ok a, later) p = p
kept-Holds P (stop e, later) p = tt

-- a step that keeps what is known, and then what follows
Gives-after {ℓ μ} :
    {A : Type ℓ} {B : Type μ} {P : Trace → Type 0} {Q : B → Trace → Type 0} {m : M A} {f : A → M B}
    → Adds P m
    → ((a : A) → Gives P (f a) Q)
    → Gives P (m >>= f) Q
Gives-after {P = P} {m = m} h next =
    Gives-bind (λ a. P) (record { gives = λ events p. kept-Holds P (m events) (h.adds events p) })
      next

-- the agent was registered, and its environment has its id
abbrev pub IsOwn : Ready → Trace → Type 0
IsOwn ready events = HasId ready.agent_id ready.env × Memᴰ (registered ready.agent_id) events

module _ (h : Host) where
  register_agent-Gives :
      (persistent : Option String)
      → Gives
          (λ events. Unit)
          (register_agent h persistent)
          (λ agent_id. Memᴰ (registered agent_id))
  unfolding register_agent ◌>>=◌ emit pure raise
  register_agent-Gives persistent = elim (Bool-cases (h.registers (id_or_new h persistent))) [
    | inl t ↦ rw t (record { gives = λ events p. Memᴰ.head refl })
    | inr f ↦ rw f (record { gives = λ events p. tt })
  ]

  -- before the `try`, the agent is registered and its id is put into its environment
  pub prepare_agent-Gives : (o : Options) → Gives (λ events. Unit) (prepare_agent h o) IsOwn
  unfolding prepare_agent pure
  prepare_agent-Gives o =
      let Any : Trace → Type 0 = λ events. Unit in
      let Known : String → Trace → Type 0 = λ agent_id. Memᴰ (registered agent_id) in
      let later : (agent_id : String) (event : Event)
          → Quiet event
          → (events : Trace) → Known agent_id events
          → Known agent_id (event ∷ events) =
        λ agent_id event q events m. Memᴰ.tail m in
      Gives-after (Adds-of_paths Any _) λ paths. Gives-after (Adds-given Any _ _) λ rootfs.
        Gives-after (Adds-given Any _ _) λ binary.
          Gives-after (select_persistent_sandbox-Adds Any (λ _ _ _ _. tt) h _ _) λ persistent.
            Gives-bind Known (register_agent-Gives persistent) λ id.
              Gives-after (record_persistent_sandbox-Adds (Known id) (later id) h _ id) λ _.
                Gives-after (write_metadata-Adds (Known id) (later id) h id _) λ _.
                  Gives-after (Adds-of_paths (Known id) _) λ prepared.
                    Gives-after (prepare_overlay_paths-Adds (Known id) (later id) h _ id rootfs)
                      λ overlay. Gives-after (Adds-emit (Known id) (later id _ tt)) λ _.
                        Gives-after (Adds-given (Known id) _ _) λ endpoint. record {
                          gives = λ events m. (
                            inference_env-HasId h id o _ endpoint
                                (agent_env-HasId h id _ o.niceness _),
                            m,
                          );
                        }
