-- ===== src/Native/Hardware.antt =====
-- The detection of the GPU, bubblehub/native.py. The environment, the programs that are found and
-- run, the amounts that libbubble gives and Python's `float` are fields of `Machine`.
pub mod Detect
pub mod Laws
pub mod Consistent
use Prim.Native.Char.{Char, code}
use Prim.Native.String.{[], ◌∷◌}
use bubble_hub.Prelude.{
  ℕ, zero, suc, String, Bool, true, false, not, ◌&&◌, ◌||◌, Option, none, some, List, [], ◌∷◌, map,
  ◌==◌, nat_eq, string_eq, if◌then◌else◌, filter, any, ltb, leb,
}
use bubble_hub.Prelude.Dict.{Dict}
use bubble_hub.Prelude.Dict
use bubble_hub.Prelude.Int.{ℤ, pos, negsuc, to_ℕ}
use bubble_hub.Prelude.Lists.{is_empty}
use bubble_hub.Prelude.Text.{split, strip, lower, starts_with, parse_int, show_nat, onto_head}
use bubble_hub.Value.{Conversion, number, type_or_value_error, overflow_error}

pub record Machine : Type 0 where
  -- `os.environ`
  pub env : Dict String
  -- `shutil.which(name) is not None`
  pub found : String → Bool
  -- the exit status and the output of a command, `none` where it cannot be run or takes too long
  pub run : List String → Option (ℤ × String)
  -- `int(float(text) * 1024**2)`: `none` where `float` raises `ValueError`
  pub mib_bytes : String → Option Conversion
  pub vram_bytes : ℕ
  pub free_vram_bytes : ℕ

-- the dictionary that `_gpu_profile` builds
pub record Profile : Type 0 where
  pub vram_bytes : ℕ
  pub free_vram_bytes : ℕ
  pub gpu_vendor : String
  pub gpu_name : String
  pub gpu_backend : String
  pub gpu_backends : List String
  pub gpu_compute_capability : String
  pub gpu_device : String

-- `max(0, n)`
abbrev pub at_least_zero : ℤ → ℕ
at_least_zero (pos n) = n
at_least_zero (negsuc n) = 0

-- `_gpu_profile` with the default texts
abbrev pub gpu_profile : ℤ → ℤ → Profile
gpu_profile vram_bytes free_vram_bytes = record {
  vram_bytes = at_least_zero vram_bytes;
  free_vram_bytes = at_least_zero free_vram_bytes;
  gpu_vendor = "none";
  gpu_name = "";
  gpu_backend = "cpu";
  gpu_backends = [];
  gpu_compute_capability = "";
  gpu_device = "";
}

-- `_run_text`
abbrev output_of : Option (ℤ × String) → String
output_of none = ""
output_of (some (pos zero, text)) = text
output_of (some (status, text)) = ""

abbrev pub run_text : Machine → List String → String
run_text machine command = output_of (machine.run command)

-- what `splitlines` splits at
abbrev ends_line : ℕ → Bool
ends_line n = leb 10 n && leb n 13 || leb 28 n && leb n 30 || n == 133 || n == 8232 || n == 8233

-- a line feed right after a carriage return ends no further line
unfoldable pub lines_from : Bool → String → List String
lines_from after_return [] = []
lines_from after_return (c ∷ s) =
    let rest = lines_from (code c == 13) s in
    if ends_line (code c)
    then (if after_return && code c == 10 then rest else "" ∷ rest)
    else onto_head c rest

-- `text.splitlines()`
unfoldable pub splitlines : String → List String
unfolding lines_from
splitlines text = lines_from false text

-- `part in text`
unfoldable pub has_part : String → String → Bool
unfolding starts_with
has_part [] part = part == ""
has_part (c ∷ s) part = let later = has_part s part in starts_with (c ∷ s) part || later

-- `text.split(sep, 1)[-1]`
unfoldable pub after_first : ℕ → String → Option String
after_first sep [] = none
after_first sep (c ∷ s) = let later = after_first sep s in if code c == sep then some s else later

unfoldable pub value_after : ℕ → String → String
unfolding after_first
value_after sep text = elim (after_first sep text) [ none ↦ text | some rest ↦ rest ]

-- `text.split(".", 1)[0]`
unfoldable pub before_first : ℕ → String → String
before_first sep [] = ""
before_first sep (c ∷ s) =
    let rest : String = c ∷ before_first sep s in if code c == sep then "" else rest

abbrev at_least_eight : Option ℤ → Bool
at_least_eight none = false
at_least_eight (some major) = leb 8 (to_ℕ major)

-- `_supports_vllm_compute`
unfoldable pub supports_vllm_compute : String → Bool
unfolding parse_int before_first
supports_vllm_compute value = at_least_eight (parse_int (before_first 46 value))

-- `_env_int`
unfoldable pub env_int : Dict String → String → Option ℤ
unfolding Dict.get parse_int
env_int env name = elim (Dict.get env name) [ none ↦ none | some value ↦ parse_int value ]

-- `value.replace(";", ",")`
unfoldable pub commas : String → List String
commas [] = "" ∷ []
commas (c ∷ s) =
    let rest = commas s in if code c == 59 || code c == 44 then "" ∷ rest else onto_head c rest

-- `_split_env_list`; to replace and to split is to split at both signs
unfoldable pub split_env_list : Option String → List String
unfolding commas strip filter
split_env_list none = []
split_env_list (some value) = filter (λ s. not (s == "")) (map strip (commas value))

-- `value or 0`
abbrev int_or_zero : Option ℤ → ℤ
int_or_zero none = pos 0
int_or_zero (some n) = n

-- `free_vram_bytes or vram_bytes or 0`
abbrev free_or_all : Option ℤ → Option ℤ → ℤ
free_or_all none all = int_or_zero all
free_or_all (some (pos zero)) all = int_or_zero all
free_or_all (some n) all = n

abbrev pub contains : List String → String → Bool
contains xs a = any (λ x. x == a) xs

-- `if backend and backend != "cpu" and backend not in backends: backends.insert(0, backend)`
unfoldable pub with_backend : Option String → List String → List String
unfolding any
with_backend none backends = backends
with_backend (some backend) backends =
    if not (backend == "") && not (backend == "cpu") && not (contains backends backend)
    then backend ∷ backends
    else backends

-- `backends[0] if backends else "cpu"`, where no backend is given
abbrev pub chosen_backend : Option String → List String → String
chosen_backend none [] = "cpu"
chosen_backend none (first ∷ backends) = first
chosen_backend (some backend) backends = backend

-- `vendor or ("generic" if backends else "none")`
abbrev chosen_vendor : Option String → List String → String
chosen_vendor none backends = if is_empty backends then "none" else "generic"
chosen_vendor (some vendor) backends =
    if vendor == "" then (if is_empty backends then "none" else "generic") else vendor

abbrev is_none {ℓ} : {A : Type ℓ} → Option A → Bool
is_none none = true
is_none (some a) = false

abbrev text_or_empty : Option String → String
text_or_empty none = ""
text_or_empty (some s) = s

-- the profile that the environment gives, from the list of backends it names
unfoldable pub env_profile : Dict String → List String → Profile
unfolding Dict.get env_int with_backend
env_profile env named =
    let backend = Dict.get env "BUBBLEHUB_GPU_BACKEND" in
    let backends = with_backend backend named in
    let vram = env_int env "BUBBLEHUB_GPU_VRAM_BYTES" in
    record (gpu_profile (int_or_zero vram)
      (free_or_all (env_int env "BUBBLEHUB_GPU_FREE_VRAM_BYTES") vram)) {
        gpu_vendor = chosen_vendor (Dict.get env "BUBBLEHUB_GPU_VENDOR") backends;
        gpu_name = text_or_empty (Dict.get env "BUBBLEHUB_GPU_NAME");
        gpu_backend = chosen_backend backend backends;
        gpu_backends = backends;
        gpu_compute_capability = text_or_empty (Dict.get env "BUBBLEHUB_GPU_COMPUTE_CAPABILITY");
        gpu_device = text_or_empty (Dict.get env "BUBBLEHUB_GPU_DEVICE");
      }

abbrev names_nothing : Dict String → List String → Bool
names_nothing env named =
    is_none (Dict.get env "BUBBLEHUB_GPU_VENDOR")
    && is_none (Dict.get env "BUBBLEHUB_GPU_BACKEND")
    && is_empty named
    && is_none (env_int env "BUBBLEHUB_GPU_VRAM_BYTES")
    && is_none (env_int env "BUBBLEHUB_GPU_FREE_VRAM_BYTES")

-- `_gpu_profile_from_env`
unfoldable pub gpu_profile_from_env : Dict String → Option Profile
unfolding env_profile split_env_list Dict.get
gpu_profile_from_env env =
    let named = split_env_list (Dict.get env "BUBBLEHUB_GPU_BACKENDS") in
    if names_nothing env named then none else some (env_profile env named)
