-- ===== src/Scheduler/Examples.antt =====
-- The limits of the scheduler, from three small files.
use bubble_hub.Prelude.{◌≡◌, refl, none, some}
use bubble_hub.Prelude.Int.{ℤ, pos, is_positive}
use bubble_hub.Prelude.Dict
use bubble_hub.Value.{Value, Fields, int, dict, end, field, to_dict}
use bubble_hub.Scheduler.{
  Converted, converted, type_or_value_error, Floats, ok, optional_float, configured_limits,
  limits_of,
}
use bubble_hub.Scheduler.Laws.{AreRead, configured_limits-last}

abbrev int_in : Value → Converted ℤ
int_in (int n) = converted n
int_in _ = type_or_value_error

abbrev floats : Floats ℤ
floats = record { float = int_in; is_positive = is_positive }

abbrev builtin : Fields
builtin = field "scheduler" (dict (field "ram_limit_gb" (int (pos 8)) end)) end

abbrev section : Fields
section = field "vram_limit_gb" (int (pos 4)) end

abbrev explicit : Fields
explicit = field "scheduler" (dict section) end

configured_limits-last_example :
    AreRead floats
      (to_dict section)
      (configured_limits floats (dict builtin) none (some (dict explicit)))
unfolding Dict.get
configured_limits-last_example =
    configured_limits-last floats builtin explicit section none (tt, tt) refl

test_limits : limits_of floats (dict section) ≡ ok (none, some (pos 4))
unfolding Dict.get optional_float limits_of
test_limits = refl
