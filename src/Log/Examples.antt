-- ===== src/Log/Examples.antt =====
-- The theorems on the log options and levels, at a command line and at a state.
use bubble_hub.Prelude.{◌≡◌, refl, false, none, some, [], ◌∷◌}
use bubble_hub.Log.{Extracted, ok, kind, extract_global_log_options, State, error}
use bubble_hub.Log.Options.{extract_level_anywhere}

extract_level_anywhere_example :
    extract_global_log_options ("run" ∷ "--log-level" ∷ "debug" ∷ "--name" ∷ "tidy" ∷ [])
    ≡ ok (record {
      cleaned = "run" ∷ "--name" ∷ "tidy" ∷ [];
      log_level = some "debug";
      log_file = none;
    })
unfolding kind
extract_level_anywhere_example =
    extract_level_anywhere ("run" ∷ []) ("--name" ∷ "tidy" ∷ []) "debug" (refl, tt)
      (refl, (refl, tt))

-- what stands behind a `--` is not read
abbrev left : Extracted
left = record {
  cleaned = "run" ∷ "--" ∷ "--log-level" ∷ "x" ∷ [];
  log_level = some "info";
  log_file = some "hub.log";
}

abbrev fresh : State
fresh = record { current_level = error; configured = false; level_env = some " Info " }
