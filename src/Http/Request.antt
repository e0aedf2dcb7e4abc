-- ===== src/Http/Request.antt =====
-- What the handlers read from a request's body: `_max_output_tokens`, `_specialty_from_body`,
-- `_model_name` and `normalize_embeddings_input`.
use bubble_hub.Prelude.{
  String, ◌≡◌, refl, ◌⊎◌, inl, inr, Bool, true, false, ◌&&◌, Option, none, some, List, [], ◌∷◌, map,
  string_eq, if◌then◌else◌, arith, Bool-cases,
}
use bubble_hub.Prelude.Dict.{Dict}
use bubble_hub.Prelude.Dict
use bubble_hub.Prelude.Int.{ℤ, pos, is_positive}
use bubble_hub.Prelude.Text.{concat, join, parse_int, strip_prefix}
use bubble_hub.Value.{
  Value, null, boolean, int, str, list, to_list, get, truthy, ◌or◌, str_of, Conversion, number,
  type_or_value_error, overflow_error, int_of,
}
use bubble_hub.Registry.Spec.{Specialty}
use bubble_hub.Http.Messages.{value_error, other_error, Result, ok, raise}

abbrev pub default_tokens : ℤ
default_tokens = pos 512

abbrev pub checked_default : Option ℤ → Result ℤ
checked_default none = raise (value_error "BUBBLEHUB_MAX_OUTPUT_TOKENS must be an integer")
checked_default (some n) =
    if is_positive n
    then ok n
    else raise (value_error "BUBBLEHUB_MAX_OUTPUT_TOKENS must be greater than zero")

-- `_default_max_output_tokens`, on the environment variable
unfoldable pub default_max_output_tokens : Option String → Result ℤ
unfolding parse_int
default_max_output_tokens none = ok default_tokens
default_max_output_tokens (some value) = checked_default (parse_int value)

-- what the loop does with a value that is not `None`
abbrev pub tokens_of : String → Result ℤ → Conversion → Result ℤ
tokens_of name fallback type_or_value_error =
    raise (value_error (concat (name ∷ " must be an integer" ∷ [])))
tokens_of name fallback overflow_error =
    raise (other_error "cannot convert float infinity to integer")
tokens_of name fallback (number n) = if is_positive n then ok n else fallback

-- one round of the loop; `rest` is what the later names give
abbrev pub tokens_or : Result ℤ → String → Result ℤ → Value → Result ℤ
tokens_or rest name fallback null = rest
tokens_or rest name fallback v = tokens_of name fallback (int_of v)

-- `_max_output_tokens`
unfoldable pub max_output_tokens : Option String → Dict Value → List String → Result ℤ
unfolding default_max_output_tokens
max_output_tokens env body [] = default_max_output_tokens env
max_output_tokens env body (name ∷ names) =
    tokens_or (max_output_tokens env body names) name (default_max_output_tokens env)
      (get body name)

unfoldable pub is_known : Dict Specialty → String → Bool
unfolding Dict.get
is_known specialties name = elim (Dict.get specialties name) [ none ↦ false | some s ↦ true ]

abbrev alias_of : Dict Specialty → String → Option String → String
alias_of specialties default none = default
alias_of specialties default (some unprefixed) =
    if is_known specialties unprefixed then unprefixed else default

-- `_resolve_specialty_alias`: what stands behind the first slash of a text that begins `openai/`
unfoldable pub resolve_specialty_alias : Dict Specialty → String → String → String
resolve_specialty_alias specialties value default =
    if is_known specialties value
    then value
    else alias_of specialties default (strip_prefix "openai/" value)

-- `body.get("bubblehub_specialty") or body.get("bubblehub_speciality")`
abbrev pub explicit_of : Dict Value → Value
explicit_of body = get body "bubblehub_specialty" or get body "bubblehub_speciality"

-- `str(body.get("model", ""))`
abbrev pub model_text : (Value → String) → Dict Value → String
model_text repr body = elim (Dict.get body "model") [ none ↦ "" | some v ↦ str_of repr v ]

unfoldable pub specialty_from_body :
    (Value → String) → Dict Specialty → Dict Value → String → String
unfolding resolve_specialty_alias get str_of ◌or◌
specialty_from_body repr specialties body default =
    let explicit = explicit_of body in
    resolve_specialty_alias specialties
      (if truthy explicit then str_of repr explicit else model_text repr body) default

unfoldable pub model_name : (Value → String) → Dict Value → String → String
unfolding get str_of truthy
model_name repr body specialty =
    let model = get body "model" in if truthy model then str_of repr model else specialty

abbrev pub is_str : Value → Bool
is_str (str s) = true
is_str _ = false

-- `isinstance(item, int)`: a `bool` is an `int`
abbrev pub is_int : Value → Bool
is_int (int n) = true
is_int (boolean b) = true
is_int _ = false

abbrev pub is_list : Value → Bool
is_list (list vs) = true
is_list _ = false

-- `all(p(x) for x in xs)`
unfoldable pub all {ℓ} : {A : Type ℓ} → (A → Bool) → List A → Bool
all p [] = true
all p (x ∷ xs) = p x && all p xs

abbrev spaced : (Value → String) → List Value → String
spaced repr vs = join " " (map (str_of repr) vs)

abbrev spaced_item : (Value → String) → Value → String
spaced_item repr (list vs) = spaced repr (to_list vs)
spaced_item repr v = ""

unfoldable pub normalize_embeddings_input : (Value → String) → Value → Result (List String)
unfolding all join str_of
normalize_embeddings_input repr (str s) = ok (s ∷ [])
normalize_embeddings_input repr (list vs) =
    let items = to_list vs in
    if all is_str items
    then ok (map (str_of repr) items)
    else if all is_int items
    then ok (spaced repr items ∷ [])
    else if all is_list items
    then ok (map (spaced_item repr) items)
    else raise (value_error "embeddings input must be a string, list of strings, or token list")
normalize_embeddings_input repr _ =
    raise (value_error "embeddings input must be a string, list of strings, or token list")

default_positive :
    (env : Option String) (n : ℤ) → default_max_output_tokens env ≡ ok n → is_positive n ≡ true
unfolding default_max_output_tokens
default_positive none n h = ground arith
default_positive (some value) n h = ground arith

tokens_positive :
    (env : Option String) (name : String) (c : Conversion) (n : ℤ)
    → tokens_of name (default_max_output_tokens env) c ≡ ok n
    → is_positive n ≡ true
tokens_positive env name type_or_value_error n h = cc
tokens_positive env name overflow_error n h = cc
tokens_positive env name (number m) n h = elim (Bool-cases (is_positive m)) [
  | inl t ↦ let h' = rw t at h in ground arith
  | inr f ↦ default_positive env n (rw f at h)
]

or_positive :
    (env : Option String) (name : String) (rest : Result ℤ)
    → ((n : ℤ) → rest ≡ ok n → is_positive n ≡ true)
    → (v : Value) (n : ℤ) → tokens_or rest name (default_max_output_tokens env) v ≡ ok n
    → is_positive n ≡ true
or_positive env name rest ih null n h = ih n h
or_positive env name rest ih v n h = tokens_positive env name (int_of v) n h

-- A limit on the output that is accepted, from the body or from the environment, is at least 1.
pub max_output_tokens-positive :
    (env : Option String) (body : Dict Value) (names : List String) (n : ℤ)
    → max_output_tokens env body names ≡ ok n
    → is_positive n ≡ true
unfolding max_output_tokens
max_output_tokens-positive env body [] n h = default_positive env n h
max_output_tokens-positive env body (name ∷ names) n h =
    or_positive env name (max_output_tokens env body names)
      (max_output_tokens-positive env body names) (get body name) n h

alias_of-known :
    (specialties : Dict Specialty) (default : String) (o : Option String)
    → (is_known specialties (alias_of specialties default o) ≡ true)
      ⊎ (alias_of specialties default o ≡ default)
alias_of-known specialties default none = inr refl
alias_of-known specialties default (some u) = elim (Bool-cases (is_known specialties u)) [
  | inl t ↦ rw t (inl t)
  | inr f ↦ rw f (inr refl)
]

alias_known :
    (specialties : Dict Specialty) (value default : String)
    → let specialty = resolve_specialty_alias specialties value default in
      (is_known specialties specialty ≡ true) ⊎ (specialty ≡ default)
unfolding resolve_specialty_alias
alias_known specialties value default = elim (Bool-cases (is_known specialties value)) [
  | inl t ↦ rw t (inl t)
  | inr f ↦ rw f (alias_of-known specialties default (strip_prefix "openai/" value))
]

-- The specialty that a request is served with is one that the registry knows, or the default.
pub specialty_from_body-known :
    (repr : Value → String) (specialties : Dict Specialty) (body : Dict Value) (default : String)
    → let specialty = specialty_from_body repr specialties body default in
      (is_known specialties specialty ≡ true) ⊎ (specialty ≡ default)
unfolding specialty_from_body
specialty_from_body-known repr specialties body default =
    alias_known specialties
      (if truthy (explicit_of body) then str_of repr (explicit_of body) else model_text repr body)
      default
