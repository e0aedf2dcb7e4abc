-- ===== src/Native/Examples.antt =====
-- The theorems on the native bindings, at concrete inputs.
use bubble_hub.Prelude.{
  String, ◌≡◌, refl, true, false, Option, none, some, List, [], ◌∷◌, ◌==◌, string_eq, if◌then◌else◌,
}
use bubble_hub.Prelude.Int.{pos}
use bubble_hub.Value.{Value, str, dict, of_dict, number}
use bubble_hub.Native.Broker.{
  Event, ended, idle, received, approve, deny, serve, answer, wire_of, drain, size, split_line,
}
use bubble_hub.Native.Broker.Laws.{
  answers, lines_of, read, AreAnswered, serve-read, serve-AreAnswered,
}
use bubble_hub.Native.Command.{Sandbox}
use bubble_hub.Native.Hardware.{Machine, Profile, splitlines, run_text}
use bubble_hub.Native.Hardware.Detect.{
  detect_nvidia_gpu, candidate, detect_gpu_profile, nvidia_query,
}
use bubble_hub.Native.Hardware.Laws.{IsBest, seen, detect_nvidia_gpu-IsBest}
use bubble_hub.Native.Hardware.Consistent.{IsSound, detect_gpu_profile-IsSound}

-- a `json.loads` that reads one word
abbrev loads : String → Option Value
loads raw = if raw == "net" then some (dict (of_dict (("kind", str "net") ∷ []))) else none

abbrev allow : Value → Option String
allow request = some "always"

abbrev events : List Event
events = received (some "ne") ∷ idle ∷ received (some "t\nx\n") ∷ ended (pos 0) ∷ []

serve-read_example :
    (serve loads allow "" events).0 ≡ answers loads allow (lines_of (read events)).0
serve-read_example = serve-read loads allow events

serve-AreAnswered_example :
    AreAnswered loads allow (lines_of (read events)).0 (serve loads allow "" events).0
serve-AreAnswered_example = serve-AreAnswered loads allow events

test_serve : (serve loads allow "" events).0 ≡ approve ∷ deny ∷ []
unfolding serve answer wire_of drain size split_line
test_serve = refl

abbrev sandbox : Sandbox
sandbox = record {
  binary = "/bin/tar";
  argv = "/bin/tar" ∷ "--" ∷ "x" ∷ [];
  resource_niceness = pos 5;
  memory_max = pos 0;
  cpu_percent = pos 50;
  workdir = "/workspace";
  isolate_network = true;
  root_dir = some "/tmp/root";
  rootfs_dir = none;
  overlay_upper_dir = none;
  overlay_work_dir = none;
  inference_host = some "127.0.0.1";
  inference_port = pos 11434;
  sandbox_inference_port = pos 18080;
  sandbox_http_proxy_port = pos 0;
  disable_http_proxy = false;
}

abbrev smi : String
smi = "A100, 40960, 100, 8.0\nT4, 16384, 200, 7.5\n"

abbrev machine : Machine
machine = record {
  env = [];
  found = λ name. name == "nvidia-smi";
  run = λ command. some (pos 0, smi);
  mib_bytes = λ text. some (number (pos (if text == "100" then 1 else 2)));
  vram_bytes = 0;
  free_vram_bytes = 0;
}

abbrev t4 : Profile
t4 = record {
  vram_bytes = 2;
  free_vram_bytes = 2;
  gpu_vendor = "nvidia";
  gpu_name = "T4";
  gpu_backend = "cuda-llama";
  gpu_backends = "cuda-llama" ∷ [];
  gpu_compute_capability = "7.5";
  gpu_device = "1";
}

detect_nvidia_gpu-IsBest_example :
    IsBest (seen machine 0 [] (splitlines (run_text machine nvidia_query))) (some t4)
unfolding detect_nvidia_gpu splitlines candidate
detect_nvidia_gpu-IsBest_example = detect_nvidia_gpu-IsBest machine (some t4) refl refl refl

detect_gpu_profile-IsSound_example : IsSound (detect_gpu_profile machine)
detect_gpu_profile-IsSound_example = detect_gpu_profile-IsSound machine
