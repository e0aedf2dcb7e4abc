-- ===== src/Native/Broker.antt =====
-- `_run_with_access_broker` of bubblehub/native.py: the loop that answers the access requests of a
-- sandbox. What the loop meets is a list of events; the broker and `json.loads` are arguments, and
-- a write to the socket never fails.
pub mod Laws
use Prim.Native.Char.{code}
use Prim.Native.String.{[], ◌∷◌}
use bubble_hub.Prelude.{
  ℕ, zero, suc, String, Bool, true, false, Option, none, some, List, [], ◌∷◌, ◌++◌, ◌==◌, nat_eq,
  string_eq, if◌then◌else◌,
}
use bubble_hub.Prelude.Int.{ℤ}
use bubble_hub.Prelude.Text.{attach}
use bubble_hub.Value.{Value, dict}

-- One pass of the loop: the helper has ended, `select` found nothing to read, or bytes were read,
-- `none` where they do not decode as UTF-8.
pub data Event : Type 0 where
  ended : ℤ → Event
  idle : Event
  received : Option String → Event

-- what the sandbox is told
pub data Wire : Type 0 where
  approve deny ask : Wire

-- how the loop ends; `waiting` is a loop that goes on, with its buffer
pub data End : Type 0 where
  exit_code : ℤ → End
  decode_error : End
  waiting : String → End

-- `buffer.split("\n", 1)`, `none` where there is no line feed
unfoldable pub split_line : String → Option (String × String)
split_line [] = none
split_line (c ∷ s) =
    let found = split_line s in
    if code c == 10 then some ("", s) else elim found [ none ↦ none | some p ↦ some (c ∷ p.0, p.1) ]

-- `{"always": "approve", "never": "deny", "ask": "ask"}[response]`, after `response` was replaced by
-- `never` if it is none of the three
unfoldable pub wire_of : String → Wire
wire_of response = if response == "always" then approve else if response == "ask" then ask else deny

unfoldable pub size : String → ℕ
size [] = 0
size (c ∷ s) = suc (size s)

module _ (loads : String → Option Value) (broker : Value → Option String) where
  -- an exception of the broker, `none`, counts as `never`
  abbrev checked : Option String → String
  checked none = "never"
  checked (some response) = response

  abbrev pub asked : Option Value → String
  asked (some (dict fs)) = checked (broker (dict fs))
  asked _ = "never"

  -- the answer to one line
  unfoldable pub answer : String → Wire
  unfolding wire_of
  answer raw = wire_of (asked (loads raw))

  -- a line without a character is passed over
  abbrev pub answered : String → List Wire
  answered raw = if raw == "" then [] else answer raw ∷ []

  -- `while "\n" in child_buffer`, at most as often as the fuel says: what is sent and what is left
  unfoldable pub drain : ℕ → String → List Wire × String
  unfolding split_line answer
  drain zero buffer = ([], buffer)
  drain (suc fuel) buffer = elim (split_line buffer) [
    | none ↦ ([], buffer)
    | some p ↦ (let (sent, left) = drain fuel p.1 in (answered p.0 ++ sent, left))
  ]

  -- the loop, from a buffer; every pass of the inner loop takes a line feed from the buffer
  unfoldable pub serve : String → List Event → List Wire × End
  unfolding drain size
  serve buffer [] = ([], waiting buffer)
  serve buffer (ended code ∷ events) = ([], exit_code code)
  serve buffer (idle ∷ events) = serve buffer events
  serve buffer (received none ∷ events) = ([], decode_error)
  serve buffer (received (some chunk) ∷ events) =
      let (sent, left) = drain (size (attach buffer chunk)) (attach buffer chunk) in
      let (later, end) = serve left events in (sent ++ later, end)
