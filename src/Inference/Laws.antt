-- ===== src/Inference/Laws.antt =====
-- The port of the endpoint, and what it means that the endpoint is there.
use mathlib.Core.List.{Memᴰ}
use mathlib.Core.Option.{some-injective}
use bubble_hub.Prelude.{
  ℕ, String, ◌≡◌, refl, inl, inr, Bool, true, false, Option, none, some, List, [], ◌∷◌, All, arith,
  Bool-cases, ◌≢◌, sym, ap, ◌∙◌, ◌||◌, ◌==◌, string_eq, if◌then◌else◌, eq_iff,
}
use bubble_hub.Prelude.Dict.{Dict}
use bubble_hub.Prelude.Dict
use bubble_hub.Prelude.Int.{ℤ, is_positive}
use bubble_hub.Value.{Value, Conversion, number, type_or_value_error, overflow_error, get, int_of}
use bubble_hub.Inference.{
  InferenceConfig, Result, ok, overflow, unhealthy, positive_or_none, optional_int, env_value,
  or_int, port_of, section_of, config_at, or_8000, counted, waited, load_inference_config,
  wait_until_healthy, ensure_at, Url, or_host, with_port, or_text, config_for_base_url, Outcome,
  returned, url_error, start_error, not_healthy, start_daemon,
}

-- an integer of the configuration is positive, if there is one
positive_or_none-positive :
    (c : Conversion) {n : ℤ} → positive_or_none c ≡ ok (some n) → is_positive n ≡ true
positive_or_none-positive (number m) h = elim (Bool-cases (is_positive m)) [
  | inl t ↦ let h' = rw t at h in ground arith
  | inr f ↦ let h' = rw f at h in cc
]
positive_or_none-positive type_or_value_error h = cc
positive_or_none-positive overflow_error h = cc

optional_int-positive : (v : Value) {n : ℤ} → optional_int v ≡ ok (some n) → is_positive n ≡ true
unfolding optional_int
optional_int-positive v h = positive_or_none-positive (int_of v) h

port_positive :
    (first later : Result (Option ℤ))
    → ((n : ℤ) → first ≡ ok (some n) → is_positive n ≡ true)
    → ((n : ℤ) → later ≡ ok (some n) → is_positive n ≡ true)
    → (n : ℤ) → or_8000 (or_int first later) ≡ ok n
    → is_positive n ≡ true
port_positive (ok (some m)) later p q n h = p n (ground arith)
port_positive (ok none) (ok (some m)) p q n h = q n (ground arith)
port_positive (ok none) (ok none) p q n h = ground arith
port_positive (ok none) overflow p q n h = cc
port_positive (ok none) unhealthy p q n h = cc
port_positive overflow later p q n h = cc
port_positive unhealthy later p q n h = cc

config_port :
    (host specialty : String) (port : Result ℤ) {c : InferenceConfig}
    → config_at host specialty port ≡ ok c
    → port ≡ ok c.port
config_port host specialty (ok n) h = ground arith
config_port host specialty overflow h = cc
config_port host specialty unhealthy h = cc

-- The port of the endpoint is positive, whatever the environment and the configuration file say.
pub load_inference_config-positive :
    (repr : Value → String) (env : Dict String) (config : Dict Value) (c : InferenceConfig)
    → load_inference_config repr env config ≡ ok c
    → is_positive c.port ≡ true
unfolding load_inference_config
load_inference_config-positive repr env config c h =
    let inference = section_of (Dict.get config "inference") in
    port_positive (optional_int (env_value env "BUBBLEHUB_INFERENCE_PORT"))
      (optional_int (get inference "port"))
      (λ n e. optional_int-positive (env_value env "BUBBLEHUB_INFERENCE_PORT") e)
      (λ n e. optional_int-positive (get inference "port") e) c.port
      (config_port _ _ (port_of env inference) h)

-- what the health checks of the wait say of its result
abbrev pub Waited : List Bool → Result ℕ → Type 0
Waited checks (ok n) = Memᴰ true checks
Waited checks unhealthy = All (λ c. c ≡ false) checks
Waited checks overflow = ⊥

wait_until_healthy-Waited : (checks : List Bool) → Waited checks (wait_until_healthy checks)
unfolding wait_until_healthy
wait_until_healthy-Waited [] = tt
wait_until_healthy-Waited (true ∷ checks) = Memᴰ.head refl
wait_until_healthy-Waited (false ∷ checks) =
    next (wait_until_healthy checks) (wait_until_healthy-Waited checks)
  where
    next : (r : Result ℕ) → Waited checks r → Waited (false ∷ checks) (counted r)
    next (ok n) m = Memᴰ.tail m
    next unhealthy h = (refl, h)
    next overflow h = h

-- what a URL with the scheme `http` says of the host and the port is taken
pub record IsFor (parsed : Option Url) (resolved config : InferenceConfig) : Type 0 where
  pub specialty : config.default_specialty ≡ resolved.default_specialty
  pub host_and_port :
      (host : String) (n : ℤ)
      → host ≢ ""
      → is_positive n ≡ true
      → parsed ≡ some (record { scheme = "http"; hostname = some host; port = some (some n) })
      → (config.host ≡ host) × (config.port ≡ n)

named_host : (host fallback : String) → host ≢ "" → or_text host fallback ≡ host
named_host host fallback n = elim (Bool-cases (host == "")) [
  | inl t ↦ absurd (n ((eq_iff host "").0 t))
  | inr f ↦ rw f refl
]

config_for_base_url-named :
    (host : String) (n : ℤ) (resolved config : InferenceConfig)
    → host ≢ ""
    → is_positive n ≡ true
    → config_for_base_url
        (some (record { scheme = "http"; hostname = some host; port = some (some n) }))
        resolved
      ≡ some config
    → (config.host ≡ host) × (config.port ≡ n)
unfolding config_for_base_url
config_for_base_url-named host n resolved config ne p e =
    let same : record {
      host = or_text host resolved.host;
      port = if is_positive n then n else resolved.port;
      default_specialty = resolved.default_specialty;
    }
        ≡ config =
      some-injective _ _ e in
    (
      sym (ap (λ (c : InferenceConfig). c.host) same) ∙ named_host host resolved.host ne,
      sym (ap (λ (c : InferenceConfig). c.port) same) ∙ rw p refl,
    )

config_for_base_url-specialty :
    (parsed : Option Url) (resolved config : InferenceConfig)
    → config_for_base_url parsed resolved ≡ some config
    → config.default_specialty ≡ resolved.default_specialty
unfolding config_for_base_url
config_for_base_url-specialty none resolved config e = cc
config_for_base_url-specialty (some parsed) resolved config e =
    go (parsed.scheme == "http" || parsed.scheme == "https" || parsed.scheme == "") parsed.port e
  where
    go :
        (b : Bool) (port : Option (Option ℤ))
        → (if b
            then with_port
                (or_host parsed.hostname resolved.host)
                resolved.default_specialty
                resolved.port
                port
            else some resolved)
          ≡ some config
        → config.default_specialty ≡ resolved.default_specialty
    go true none k = cc
    go true (some port) k =
        sym (ap (λ (c : InferenceConfig). c.default_specialty) (some-injective _ _ k))
    go false port k = sym (ap (λ (c : InferenceConfig). c.default_specialty) (some-injective _ _ k))

config_for_base_url-IsFor :
    (parsed : Option Url) (resolved config : InferenceConfig)
    → config_for_base_url parsed resolved ≡ some config
    → IsFor parsed resolved config
config_for_base_url-IsFor parsed resolved config e = record {
  specialty = config_for_base_url-specialty parsed resolved config e;
  host_and_port = λ host n ne p q.
      config_for_base_url-named host n resolved config ne p
        (ap (λ u. config_for_base_url u resolved) (sym q) ∙ e);
}

-- where the parts of a URL cannot be read
abbrev pub IsUnreadable : Option Url → Type 0
IsUnreadable none = Unit
IsUnreadable (some parsed) = parsed.port ≡ none

config_for_base_url-IsUnreadable :
    (parsed : Option Url) (resolved : InferenceConfig)
    → config_for_base_url parsed resolved ≡ none
    → IsUnreadable parsed
unfolding config_for_base_url
config_for_base_url-IsUnreadable none resolved e = tt
config_for_base_url-IsUnreadable (some parsed) resolved e =
    go (parsed.scheme == "http" || parsed.scheme == "https" || parsed.scheme == "") parsed.port e
  where
    go :
        (b : Bool) (port : Option (Option ℤ))
        → (if b
            then with_port
                (or_host parsed.hostname resolved.host)
                resolved.default_specialty
                resolved.port
                port
            else some resolved)
          ≡ none
        → port ≡ none
    go true none k = refl
    go true (some port) k = cc
    go false port k = cc

module _ (parse : String → Option Url) (start : InferenceConfig → Bool) (resolved : InferenceConfig)
    (url : String) (healthy : Bool) (checks : List Bool) where
  -- what the daemon that was started, and the end of the call, say of the health checks
  abbrev pub IsEnsured : Option InferenceConfig × Outcome → Type 0
  IsEnsured (none, returned u) = (u ≡ url) × (healthy ≡ true)
  IsEnsured (none, url_error) = (healthy ≡ false) × IsUnreadable (parse url)
  IsEnsured (none, start_error) = ⊥
  IsEnsured (none, not_healthy) = ⊥
  IsEnsured (some config, returned u) =
      (u ≡ url)
      × (healthy ≡ false)
      × IsFor (parse url) resolved config
      × (start config ≡ true)
      × Memᴰ true checks
  IsEnsured (some config, url_error) = ⊥
  IsEnsured (some config, start_error) =
      (healthy ≡ false) × IsFor (parse url) resolved config × (start config ≡ false)
  IsEnsured (some config, not_healthy) =
      (healthy ≡ false)
      × IsFor (parse url) resolved config
      × (start config ≡ true)
      × All (λ c. c ≡ false) checks

  waited-IsEnsured :
      (config : InferenceConfig) (r : Result ℕ)
      → healthy ≡ false
      → IsFor (parse url) resolved config
      → start config ≡ true
      → Waited checks r
      → IsEnsured (some config, waited url r)
  waited-IsEnsured config (ok n) u f s m = (refl, u, f, s, m)
  waited-IsEnsured config unhealthy u f s h = (u, f, s, h)
  waited-IsEnsured config overflow u f s h = elim h [ ]

  start_daemon-IsEnsured :
      (o : Option InferenceConfig)
      → healthy ≡ false
      → config_for_base_url (parse url) resolved ≡ o
      → IsEnsured (start_daemon start url checks o)
  start_daemon-IsEnsured none u e = (u, config_for_base_url-IsUnreadable (parse url) resolved e)
  start_daemon-IsEnsured (some config) u e =
      let f = config_for_base_url-IsFor (parse url) resolved config e in
      elim (Bool-cases (start config)) [
        | inl t ↦ rw t (
            waited-IsEnsured config (wait_until_healthy checks) u f t
              (wait_until_healthy-Waited checks))
        | inr n ↦ rw n (u, f, n)
      ]

-- The URL is returned at once, with no daemon started, just where the first health check succeeds.
-- Otherwise a daemon is started with the default specialty of the configuration, and with the host and
-- the port that an http URL names, unless they are empty or 0; the URL is returned only after a
-- check that succeeded. The call
-- raises before the start only where the URL or its port cannot be read, at the start only where
-- that fails, and after it only where all checks before the deadline failed.
pub ensure_at-IsEnsured :
    (parse : String → Option Url) (start : InferenceConfig → Bool) (resolved : InferenceConfig)
    (url : String) (healthy : Bool) (checks : List Bool)
    → IsEnsured parse start resolved url healthy checks
        (ensure_at parse start resolved url healthy checks)
unfolding ensure_at
ensure_at-IsEnsured parse start resolved url true checks = (refl, refl)
ensure_at-IsEnsured parse start resolved url false checks =
    start_daemon-IsEnsured parse start resolved url false checks
      (config_for_base_url (parse url) resolved) refl refl
