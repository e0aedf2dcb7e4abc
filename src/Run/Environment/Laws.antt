-- ===== src/Run/Environment/Laws.antt =====
-- The sandbox's environment reaches the loopback services alone, and keeps what it does not set.
use mathlib.Core.List.{Memᴰ, append-nil, append_assoc}
use bubble_hub.Prelude.{
  ℕ, String, ◌≡◌, ◌≢◌, refl, map, filter, not, true, Option, none, some, List, [], ◌∷◌, ◌++◌, All,
  any, ◌==◌, string_eq, eq_iff, Bool-cases, inl, inr, sym, ◌∙◌, ap, subst, Memᴰ-append_left,
  Memᴰ-append_right,
}
use bubble_hub.Prelude.Dict.{Dict, get-put, get-put_self, get-put_other as other, differ}
use bubble_hub.Prelude.Dict
use bubble_hub.Prelude.Text.{show_nat, concat, join, split, strip}
use bubble_hub.Run.Environment.{
  with_host, with_hosts, no_proxy_entries, append_no_proxy, loopback, text_at,
  apply_sandbox_inference_env, apply_sandbox_http_proxy_env, with_proxy,
}

abbrev pub Others : String → List String → Type 0
Others k touched = All (λ t. t ≢ k) touched

-- the variables that the functions set
abbrev pub inference_variables : List String
inference_variables =
    "BUBBLEHUB_NETWORK" ∷ "BUBBLEHUB_SANDBOX_INFERENCE_PORT" ∷ "BUBBLEHUB_SANDBOX_INFERENCE_HOST"
    ∷ "OPENAI_BASE_URL" ∷ "BUBBLEHUB_API_BASE_URL" ∷ []

abbrev pub proxy_variables : List String
proxy_variables =
    "BUBBLEHUB_HTTP_PROXY_PORT" ∷ "https_proxy" ∷ "http_proxy" ∷ "HTTPS_PROXY" ∷ "HTTP_PROXY" ∷ []

inference_kept :
    (env : Dict String) (port : ℕ) (k : String)
    → Others k inference_variables
    → Dict.get (apply_sandbox_inference_env env port) k ≡ Dict.get env k
unfolding apply_sandbox_inference_env
inference_kept env port k (a, (b, (c, (d, (e, _))))) =
    other _ _ k _ a ∙ other _ _ k _ b ∙ other _ _ k _ c ∙ other _ _ k _ d ∙ other _ _ k _ e

proxy_kept :
    (env : Dict String) (port : ℕ) (k : String)
    → Others k proxy_variables
    → Dict.get (with_proxy env port) k ≡ Dict.get env k
unfolding with_proxy
proxy_kept env port k (a, (b, (c, (d, (e, _))))) =
    other _ _ k _ a ∙ other _ _ k _ b ∙ other _ _ k _ c ∙ other _ _ k _ d ∙ other _ _ k _ e

-- The requests for inference of a sandbox go to the port on the loopback address where the host's
-- endpoint is reached; every variable but the five that this sets is kept.
pub apply_sandbox_inference_env-kept :
    (env : Dict String) (port : ℕ)
    → let after = apply_sandbox_inference_env env port in
      (Dict.get after "OPENAI_BASE_URL" ≡ some (concat (loopback port ∷ "/v1" ∷ [])))
      × (Dict.get after "BUBBLEHUB_API_BASE_URL" ≡ some (loopback port))
      × (Dict.get after "BUBBLEHUB_SANDBOX_INFERENCE_PORT" ≡ some (show_nat port))
      × ((k : String) → Others k inference_variables → Dict.get after k ≡ Dict.get env k)
unfolding apply_sandbox_inference_env
apply_sandbox_inference_env-kept env port =
    (simp get-put refl, simp get-put refl, simp get-put refl, inference_kept env port)

-- a host that is put in is there, and the hosts that were there keep their places
with_host-prefix :
    (entries : List String) (host : String)
    → (rest : List String) × (with_host entries host ≡ entries ++ rest)
with_host-prefix entries host = elim (Bool-cases (any (λ e. e == host) entries)) [
  | inl t ↦ ([], rw t (sym (append-nil entries)))
  | inr f ↦ (host ∷ [], rw f refl)
]

any_Mem :
    (host : String) (entries : List String)
    → any (λ e. e == host) entries ≡ true
    → Memᴰ host entries
unfolding any
any_Mem host [] h = cc
any_Mem host (e ∷ entries) h = elim (Bool-cases (e == host)) [
  | inl t ↦ Memᴰ.head (sym ((eq_iff e host).0 t))
  | inr f ↦ Memᴰ.tail (any_Mem host entries (rw f at h))
]

with_host-mem : (entries : List String) (host : String) → Memᴰ host (with_host entries host)
with_host-mem entries host = elim (Bool-cases (any (λ e. e == host) entries)) [
  | inl t ↦ rw t (any_Mem host entries t)
  | inr f ↦ rw f (Memᴰ-append_right entries (Memᴰ.head refl))
]

-- The hosts that are reached without a proxy are those that were given, in their order, with the
-- two names of the loopback host among them or behind them.
pub with_hosts-mem :
    (entries : List String)
    → Memᴰ "127.0.0.1" (with_hosts entries)
      × Memᴰ "localhost" (with_hosts entries)
      × ((rest : List String) × (with_hosts entries ≡ entries ++ rest))
unfolding with_hosts
with_hosts-mem entries =
    let first = with_host entries "127.0.0.1" in
    let (r, e) = with_host-prefix entries "127.0.0.1" in
    let (r', e') = with_host-prefix first "localhost" in
    (
      subst (Memᴰ "127.0.0.1") (sym e') (Memᴰ-append_left r' (with_host-mem entries "127.0.0.1")),
      with_host-mem first "localhost",
      (r ++ r', e' ∙ ap (λ l. l ++ r') e ∙ append_assoc entries r r'),
    )

-- what `NO_PROXY` is after it was extended: its entries without the space around them, and the two
-- names of the loopback host among them or behind them
pub record IsExtended (before after : String) : Type 0 where
  pub hosts : List String
  pub behind : List String
  pub joined : after ≡ join "," hosts
  pub kept : hosts ≡ filter (λ s. not (s == "")) (map strip (split 44 before)) ++ behind
  pub address : Memᴰ "127.0.0.1" hosts
  pub name : Memᴰ "localhost" hosts

append_no_proxy-IsExtended : (before : String) → IsExtended before (append_no_proxy before)
unfolding append_no_proxy no_proxy_entries
append_no_proxy-IsExtended before =
    let (address, name, (behind, kept)) = with_hosts-mem (no_proxy_entries before) in
    record {
      hosts = with_hosts (no_proxy_entries before);
      behind = behind;
      joined = refl;
      kept = kept;
      address = address;
      name = name;
    }

IsExtended-put :
    (before : String) (o : Option String)
    → o ≡ some (append_no_proxy before)
    → (after : String) × (o ≡ some after) × IsExtended before after
IsExtended-put before o e = (append_no_proxy before, e, append_no_proxy-IsExtended before)

-- A sandbox without network sends HTTP and HTTPS to the proxy on the loopback address, by all four
-- names, and keeps the entries of `NO_PROXY` and `no_proxy`, among or behind which stand both names of the
-- loopback host; it keeps every variable of its environment but the seven that this sets.
pub apply_sandbox_http_proxy_env-kept :
    (env : Dict String) (port : ℕ)
    → let after = apply_sandbox_http_proxy_env env port in
      (Dict.get after "HTTP_PROXY" ≡ some (concat ("http://127.0.0.1:" ∷ show_nat port ∷ [])))
      × (Dict.get after "HTTPS_PROXY" ≡ some (concat ("http://127.0.0.1:" ∷ show_nat port ∷ [])))
      × (Dict.get after "http_proxy" ≡ some (concat ("http://127.0.0.1:" ∷ show_nat port ∷ [])))
      × (Dict.get after "https_proxy" ≡ some (concat ("http://127.0.0.1:" ∷ show_nat port ∷ [])))
      × ((hosts : String) × (Dict.get after "NO_PROXY" ≡ some hosts)
          × IsExtended (text_at env "NO_PROXY") hosts)
      × ((hosts : String) × (Dict.get after "no_proxy" ≡ some hosts)
          × IsExtended (text_at env "no_proxy") hosts)
      × ((k : String)
          → Others k ("NO_PROXY" ∷ "no_proxy" ∷ proxy_variables)
          → Dict.get after k ≡ Dict.get env k)
unfolding apply_sandbox_http_proxy_env with_proxy
apply_sandbox_http_proxy_env-kept env port =
    let e = with_proxy env port in
    let one = append_no_proxy (text_at e "NO_PROXY") in
    let text : Option String → String = λ o. elim o [ none ↦ "" | some v ↦ v ] in
    let upper = proxy_kept env port "NO_PROXY" (
      differ _ _ refl,
      (differ _ _ refl, (differ _ _ refl, (differ _ _ refl, (differ _ _ refl, tt)))),
    ) in
    let lower =
      other e "NO_PROXY" "no_proxy" one (differ _ _ refl)
      ∙ proxy_kept env port "no_proxy" (
        differ _ _ refl,
        (differ _ _ refl, (differ _ _ refl, (differ _ _ refl, (differ _ _ refl, tt)))),
      ) in
    (
      simp get-put refl,
      simp get-put refl,
      simp get-put refl,
      simp get-put refl,
      IsExtended-put _ _ (
          other (Dict.put e "NO_PROXY" one) "no_proxy" "NO_PROXY"
            (append_no_proxy (text_at (Dict.put e "NO_PROXY" one) "no_proxy")) (differ _ _ refl)
          ∙ get-put_self e "NO_PROXY" one
          ∙ ap (λ o. some (append_no_proxy (text o))) upper),
      IsExtended-put _ _ (
          get-put_self (Dict.put e "NO_PROXY" one) "no_proxy"
            (append_no_proxy (text_at (Dict.put e "NO_PROXY" one) "no_proxy"))
          ∙ ap (λ o. some (append_no_proxy (text o))) lower),
      λ k h.
          other (Dict.put e "NO_PROXY" one) "no_proxy" k
            (append_no_proxy (text_at (Dict.put e "NO_PROXY" one) "no_proxy")) h.1.0
          ∙ other e "NO_PROXY" k one h.0
          ∙ proxy_kept env port k h.1.1,
    )
