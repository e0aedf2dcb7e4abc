-- ===== src/Prompt.antt =====
-- The menus that read keys: `choose_option` of bubblehub/cli/interactive.py and
-- `_choose_access_policy` of bubblehub/cli/run.py. What they draw, and the terminal mode that they
-- set and restore, is not modelled. The input is the text that is read until the end of input; the
-- digits of other scripts, which `str.isdigit` accepts too, are not modelled.
pub mod Laws
mod Examples
use Prim.Native.Char.{code}
use Prim.Native.String.{[], ◌∷◌}
use bubble_hub.Prelude.{
  ℕ, zero, suc, ◌+◌, ◌-◌, ◌%◌, String, Bool, true, false, ◌&&◌, ◌||◌, Option, none, some, List, [],
  ◌∷◌, ◌==◌, nat_eq, string_eq, if◌then◌else◌, ltb, length, get_elem?,
}
use bubble_hub.Prelude.Text.{is_digit}

abbrev pub up_key : String
up_key = "\u{1b}[A"

abbrev pub down_key : String
down_key = "\u{1b}[B"

abbrev pub newline : String
newline = "\n"

abbrev pub carriage_return : String
carriage_return = "\r"

-- The keys that `_read_prompt_key` reads one after the other: an escape takes one more character,
-- and a third after `[`.
unfoldable pub prompt_keys : String → List String
prompt_keys [] = []
prompt_keys (c ∷ []) = (c ∷ "") ∷ []
prompt_keys (c ∷ d ∷ []) = if code c == 27 then (c ∷ d ∷ "") ∷ [] else (c ∷ "") ∷ (d ∷ "") ∷ []
prompt_keys (c ∷ d ∷ e ∷ s) =
    let plain : List String = (c ∷ "") ∷ prompt_keys (d ∷ e ∷ s) in
    let pair : List String = (c ∷ d ∷ "") ∷ prompt_keys (e ∷ s) in
    let triple : List String = (c ∷ d ∷ e ∷ "") ∷ prompt_keys s in
    if code c == 27 then (if code d == 91 then triple else pair) else plain

abbrev pub is_enter : String → Bool
is_enter key = key == newline || key == carriage_return || key == ""

abbrev pub is_up : String → Bool
is_up key = key == up_key || key == "k"

abbrev pub is_down : String → Bool
is_down key = key == down_key || key == "j"

-- `int(key)` where `key.isdigit()`, for the digits of ASCII
unfoldable pub digit_of : String → Option ℕ
digit_of (c ∷ []) = if is_digit c then some (code c - 48) else none
digit_of _ = none

-- what a key asks for, with the tests in their order: to return an index, or to go on from one
pub data Action : Type 0 where
  return go : ℕ → Action

abbrev pub digit_action : ℕ → ℕ → ℕ → Action
digit_action count selected zero = go selected
digit_action count selected (suc numeric) =
    if ltb numeric count then return numeric else go selected

abbrev pub letter_action : ℕ → ℕ → String → Action
letter_action count selected key =
    if count == 2 && (key == "y" || key == "Y" || key == "1")
    then return 0
    else if count == 2 && (key == "n" || key == "N" || key == "2")
    then return 1
    else go selected

unfoldable pub action : ℕ → ℕ → String → Action
unfolding digit_of
action count selected key =
    if is_enter key
    then return selected
    else if is_up key
    then go ((selected + count - 1) % count)
    else if is_down key
    then go ((selected + 1) % count)
    else elim (digit_of key) [
      | some digit ↦ digit_action count selected digit
      | none ↦ letter_action count selected key
    ]

-- The loop of `choose`. At the end of input the key is the empty text.
unfoldable pub choose : ℕ → ℕ → List String → ℕ
choose count selected [] = selected
choose count selected (key ∷ keys) = elim (action count selected key) [
  | return index ↦ index
  | go next ↦ choose count next keys
]

pub data Result : Type 0 where
  chosen : ℕ → Result
  no_options default_out_of_range : Result

unfoldable pub choose_option : List String → ℕ → String → Result
unfolding choose prompt_keys
choose_option options default_index input =
    if length options == 0
    then no_options
    else if ltb default_index (length options)
    then chosen (choose (length options) default_index (prompt_keys input))
    else default_out_of_range

-- The keys that `_read_access_policy_key` reads: an escape takes up to two more characters.
unfoldable pub access_keys : String → List String
access_keys [] = []
access_keys (c ∷ []) = (c ∷ "") ∷ []
access_keys (c ∷ d ∷ []) = if code c == 27 then (c ∷ d ∷ "") ∷ [] else (c ∷ "") ∷ (d ∷ "") ∷ []
access_keys (c ∷ d ∷ e ∷ s) =
    let plain : List String = (c ∷ "") ∷ access_keys (d ∷ e ∷ s) in
    let triple : List String = (c ∷ d ∷ e ∷ "") ∷ access_keys s in
    if code c == 27 then triple else plain

pub data Policy : Type 0 where
  always never ask : Policy

-- `_ACCESS_POLICY_OPTIONS`, without the labels
abbrev pub policies : List Policy
policies = always ∷ never ∷ ask ∷ []

abbrev pub access_action : ℕ → String → Action
access_action selected key =
    if is_enter key
    then return selected
    else if is_up key
    then go ((selected + 3 - 1) % 3)
    else if is_down key
    then go ((selected + 1) % 3)
    else go selected

unfoldable pub choose_policy : ℕ → List String → Option Policy
choose_policy selected [] = get_elem? policies selected
choose_policy selected (key ∷ keys) = elim (access_action selected key) [
  | return index ↦ get_elem? policies index
  | go next ↦ choose_policy next keys
]

-- `_choose_access_policy`; `none` would be an index out of range
unfoldable pub choose_access_policy : String → Option Policy
unfolding choose_policy access_keys
choose_access_policy input = choose_policy 0 (access_keys input)
