-- ===== src/Inference/Examples.antt =====
-- The theorems on the inference endpoint, at a small configuration.
use bubble_hub.Prelude.{String, Bool, true, false, Option, some, [], ◌∷◌, ◌==◌, string_eq}
use bubble_hub.Prelude.Dict.{Dict}
use bubble_hub.Prelude.Int.{pos}
use bubble_hub.Value.{Value, str, dict, of_dict}
use bubble_hub.Inference.{InferenceConfig, Url, ensure_at}
use bubble_hub.Inference.Laws.{IsEnsured, ensure_at-IsEnsured}

abbrev env : Dict String
env = ("BUBBLEHUB_INFERENCE_PORT", "-3") ∷ []

abbrev config : Dict Value
config = ("inference", dict (of_dict (("port", str "9000") ∷ []))) ∷ []

abbrev loaded : InferenceConfig
loaded = record { host = "127.0.0.1"; port = pos 9000; default_specialty = "default-instruct" }

abbrev parse : String → Option Url
parse url =
    some (record { scheme = "http"; hostname = some "10.0.0.7"; port = some (some (pos 8080)) })

abbrev start : InferenceConfig → Bool
start config = config.host == "10.0.0.7"

ensure_at-IsEnsured_example :
    IsEnsured parse start loaded "http://10.0.0.7:8080" false
      (false ∷ true ∷ [])
      (ensure_at parse start loaded "http://10.0.0.7:8080" false (false ∷ true ∷ []))
ensure_at-IsEnsured_example =
    ensure_at-IsEnsured parse start loaded "http://10.0.0.7:8080" false (false ∷ true ∷ [])
