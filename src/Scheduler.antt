-- ===== src/Scheduler.antt =====
-- The client of the scheduler, bubblehub/node/client.py: what it reads of a snapshot and the limits
-- that it configures. The native scheduler is not modelled; what the YAML library makes of a file, and
-- `float`, are given.
pub mod Laws
mod Examples
use bubble_hub.Prelude.{
  String, Bool, true, false, Option, none, some, List, [], ◌∷◌, ◌==◌, string_eq, if◌then◌else◌,
}
use bubble_hub.Prelude.Dict.{Dict}
use bubble_hub.Prelude.Dict
use bubble_hub.Value.{Value, null, str, list, dict, Items, nil, end, to_dict, of_dict}

abbrev pub found_or : Option Value → Value → Value
found_or none default = default
found_or (some v) default = v

-- `snapshot.get(k, default)`
abbrev pub get_or : Dict Value → String → Value → Value
get_or d k default = found_or (Dict.get d k) default

-- also `telemetry_snapshot`
unfoldable pub status_snapshot : Dict Value → Dict Value
unfolding Dict.get
status_snapshot snapshot =
    ("hardware", get_or snapshot "hardware" (dict end))
    ∷ ("limits", get_or snapshot "limits" (dict end))
    ∷ ("memory_pressure", get_or snapshot "memory_pressure" (str "available"))
    ∷ ("agents", get_or snapshot "agents" (list nil))
    ∷ ("models", get_or snapshot "models" (list nil))
    ∷ ("queue", get_or snapshot "queue" (list nil))
    ∷ []

-- `{**data, **override}`, if both are mappings
unfoldable pub overridden : Value → Option Value → Value
unfolding Dict.update
overridden (dict fields) (some (dict override)) =
    dict (of_dict (Dict.update (to_dict fields) (to_dict override)))
overridden config _ = config

-- what `float(value)` gives: a float, a `TypeError` or a `ValueError`, or an `OverflowError`
pub data Converted (Float : Type 0) : Type 0 where
  converted : Float → Converted Float
  type_or_value_error overflow_error : Converted Float

-- `float`, and whether a float is greater than 0
pub record Floats (Float : Type 0) : Type 0 where
  pub float : Value → Converted Float
  pub is_positive : Float → Bool

-- `overflow` is an `OverflowError`, which nothing catches
pub data Result {ℓ} (A : Type ℓ) : Type ℓ where
  ok : A → Result A
  overflow : Result A

module _ {Float : Type 0} (floats : Floats Float) where
  abbrev pub positive : Converted Float → Result (Option Float)
  positive type_or_value_error = ok none
  positive overflow_error = overflow
  positive (converted parsed) = ok (if floats.is_positive parsed then some parsed else none)

  unfoldable pub optional_float : Value → Result (Option Float)
  optional_float null = ok none
  optional_float v = positive (floats.float v)

  abbrev pub float_at : Dict Value → String → Result (Option Float)
  float_at d k = optional_float (get_or d k null)

  -- `return a, b`
  abbrev pub both :
      Result (Option Float) → Result (Option Float) → Result (Option Float × Option Float)
  both (ok ram) (ok vram) = ok (ram, vram)
  both (ok ram) overflow = overflow
  both overflow _ = overflow

  unfoldable pub limits_of : Value → Result (Option Float × Option Float)
  unfolding Dict.get optional_float
  limits_of (dict scheduler) =
      both (float_at (to_dict scheduler) "ram_limit_gb")
        (float_at (to_dict scheduler) "vram_limit_gb")
  limits_of _ = ok (none, none)

  abbrev pub limits_in : Value → Result (Option Float × Option Float)
  limits_in (dict fields) = limits_of (get_or (to_dict fields) "scheduler" (dict end))
  limits_in _ = ok (none, none)

  -- `_configured_limits`, of the builtin file, the user's file and the file that the environment
  -- names
  unfoldable pub configured_limits :
      Value → Option Value → Option Value → Result (Option Float × Option Float)
  unfolding Dict.get limits_of overridden
  configured_limits builtin override explicit =
      limits_in (overridden (overridden builtin override) explicit)
