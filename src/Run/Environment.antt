-- ===== src/Run/Environment.antt =====
-- The environment that an agent gets in the sandbox, and the memory limit.
pub mod Laws
use Prim.Native.String.{[], ◌∷◌}
use bubble_hub.Prelude.{
  ℕ, ◌*◌, ◌^◌, String, Bool, true, false, not, ◌&&◌, Option, none, some, List, [], ◌∷◌, ◌++◌, map,
  ◌==◌, string_eq, nat_eq, if◌then◌else◌, filter, any,
}
use bubble_hub.Prelude.Dict.{Dict}
use bubble_hub.Prelude.Dict
use bubble_hub.Prelude.Int.{ℤ, pos, negsuc}
use bubble_hub.Prelude.Int
use bubble_hub.Prelude.Text.{split, strip, join, concat, show_nat, parse_int, lower}

-- `[entry.strip() for entry in value.split(",") if entry.strip()]`
unfoldable pub no_proxy_entries : String → List String
unfolding split strip filter
no_proxy_entries value = filter (λ s. not (s == "")) (map strip (split 44 value))

abbrev pub with_host : List String → String → List String
with_host entries host = if any (λ e. e == host) entries then entries else entries ++ host ∷ []

-- the loop over the two hosts
unfoldable pub with_hosts : List String → List String
unfolding any
with_hosts entries = with_host (with_host entries "127.0.0.1") "localhost"

unfoldable pub append_no_proxy : String → String
unfolding no_proxy_entries with_hosts join
append_no_proxy value = join "," (with_hosts (no_proxy_entries value))

-- `sandbox_base_url`
abbrev pub loopback : ℕ → String
loopback port = concat ("http://127.0.0.1:" ∷ show_nat port ∷ [])

unfoldable pub apply_sandbox_inference_env : Dict String → ℕ → Dict String
unfolding Dict.put show_nat
apply_sandbox_inference_env env port =
    let env = Dict.put env "BUBBLEHUB_API_BASE_URL" (loopback port) in
    let env = Dict.put env "OPENAI_BASE_URL" (concat (loopback port ∷ "/v1" ∷ [])) in
    let env = Dict.put env "BUBBLEHUB_SANDBOX_INFERENCE_HOST" "127.0.0.1" in
    let env = Dict.put env "BUBBLEHUB_SANDBOX_INFERENCE_PORT" (show_nat port) in
    Dict.put env "BUBBLEHUB_NETWORK" "inference-only"

abbrev pub text_at : Dict String → String → String
text_at env k = elim (Dict.get env k) [ none ↦ "" | some v ↦ v ]

-- the five variables that are set before `NO_PROXY`
unfoldable pub with_proxy : Dict String → ℕ → Dict String
unfolding Dict.put show_nat
with_proxy env port =
    let env = Dict.put env "HTTP_PROXY" (loopback port) in
    let env = Dict.put env "HTTPS_PROXY" (loopback port) in
    let env = Dict.put env "http_proxy" (loopback port) in
    let env = Dict.put env "https_proxy" (loopback port) in
    Dict.put env "BUBBLEHUB_HTTP_PROXY_PORT" (show_nat port)

unfoldable pub apply_sandbox_http_proxy_env : Dict String → ℕ → Dict String
unfolding Dict.put Dict.get append_no_proxy
apply_sandbox_http_proxy_env env port =
    let env = with_proxy env port in
    let env = Dict.put env "NO_PROXY" (append_no_proxy (text_at env "NO_PROXY")) in
    Dict.put env "no_proxy" (append_no_proxy (text_at env "no_proxy"))

-- the last character of a text, and the text before it
unfoldable pub unsnoc : String → String × String
unsnoc [] = ("", "")
unsnoc (c ∷ []) = ("", c ∷ "")
unsnoc (c ∷ d ∷ s) = let (before, last) = unsnoc (d ∷ s) in (c ∷ before, last)

pub data Limit : Type 0 where
  bytes : ℤ → Limit
  empty_limit invalid_limit : Limit

-- `n * k` for a factor of the code
abbrev times : ℤ → ℕ → ℤ
times (pos n) k = pos (n * k)
times (negsuc n) k = Int.neg ((ℕ.suc n) * k)

abbrev scaled : ℕ → Option ℤ → Limit
scaled factor none = invalid_limit
scaled factor (some n) = bytes (times n factor)

-- `_parse_bytes`
unfoldable pub parse_bytes : String → Limit
unfolding strip lower unsnoc parse_int
parse_bytes value =
    let stripped = strip value in
    let (before, last) = unsnoc stripped in
    let suffix = lower last in
    if stripped == ""
    then empty_limit
    else if suffix == "g"
    then scaled (1024 ^ 3) (parse_int before)
    else if suffix == "m"
    then scaled (1024 ^ 2) (parse_int before)
    else scaled 1 (parse_int stripped)
