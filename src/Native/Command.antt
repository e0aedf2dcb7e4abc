-- ===== src/Native/Command.antt =====
-- The command line of the sandbox helper: `NativeScheduler.run_sandbox` of bubblehub/native.py, and
-- how `_run_with_access_broker` adds the broker's descriptor. The helper itself is not modelled.
pub mod Laws
use bubble_hub.Prelude.{
  ℕ, String, Bool, true, false, not, Option, none, some, List, [], ◌∷◌, ◌++◌, ◌==◌, nat_eq,
  string_eq, if◌then◌else◌,
}
use bubble_hub.Prelude.Int.{ℤ, pos, negsuc, is_positive}
use bubble_hub.Prelude.Text.{show_int, show_nat}

-- the arguments of `run_sandbox`, without the broker
pub record Sandbox : Type 0 where
  pub binary : String
  pub argv : List String
  pub resource_niceness : ℤ
  pub memory_max : ℤ
  pub cpu_percent : ℤ
  pub workdir : String
  pub isolate_network : Bool
  pub root_dir : Option String
  pub rootfs_dir : Option String
  pub overlay_upper_dir : Option String
  pub overlay_work_dir : Option String
  pub inference_host : Option String
  pub inference_port : ℤ
  pub sandbox_inference_port : ℤ
  pub sandbox_http_proxy_port : ℤ
  pub disable_http_proxy : Bool

-- `if value is not None: command.extend([name, value])`
abbrev pub option : String → Option String → List String
option name none = []
option name (some value) = name ∷ value ∷ []

-- `if value: command.extend([name, value])`
abbrev pub nonempty_option : String → Option String → List String
nonempty_option name none = []
nonempty_option name (some value) = if value == "" then [] else name ∷ value ∷ []

abbrev pub is_zero : ℤ → Bool
is_zero (pos n) = n == 0
is_zero (negsuc n) = false

-- `if port: command.extend([name, str(int(port))])`
unfoldable pub port_option : String → ℤ → List String
unfolding show_int
port_option name port = if is_zero port then [] else name ∷ show_int port ∷ []

-- `if port > 0: ...`
unfoldable pub positive_port_option : String → ℤ → List String
unfolding show_int
positive_port_option name port = if is_positive port then name ∷ show_int port ∷ [] else []

abbrev pub flag : String → Bool → List String
flag name given = if given then name ∷ [] else []

-- what stands before the separator, from the helper's path on
unfoldable pub options_of : String → Sandbox → List String
unfolding show_int port_option positive_port_option
options_of helper sandbox =
    (helper
      ∷ "--memory"
      ∷ show_int sandbox.memory_max
      ∷ "--cpu"
      ∷ show_int sandbox.cpu_percent
      ∷ "--niceness"
      ∷ show_int sandbox.resource_niceness
      ∷ "--workdir"
      ∷ sandbox.workdir
      ∷ [])
    ++ (option "--root-dir" sandbox.root_dir
        ++ (option "--rootfs-dir" sandbox.rootfs_dir
            ++ (option "--overlay-upper-dir" sandbox.overlay_upper_dir
                ++ (option "--overlay-work-dir" sandbox.overlay_work_dir
                    ++ (flag "--isolate-network" sandbox.isolate_network
                        ++ (nonempty_option "--inference-host" sandbox.inference_host
                            ++ (port_option "--inference-port" sandbox.inference_port
                                ++ (port_option "--sandbox-inference-port"
                                      sandbox.sandbox_inference_port
                                    ++ (positive_port_option "--sandbox-http-proxy-port"
                                          sandbox.sandbox_http_proxy_port
                                        ++ flag "--no-http-proxy"
                                            sandbox.disable_http_proxy)))))))))

-- `argv if argv else [binary]`
abbrev pub guest : Sandbox → List String
guest sandbox = elim sandbox.argv [ [] ↦ sandbox.binary ∷ [] | arg ∷ args ↦ arg ∷ args ]

unfoldable pub command_of : String → Sandbox → List String
unfolding options_of
command_of helper sandbox = options_of helper sandbox ++ "--" ∷ guest sandbox

-- `command.index("--")`, as the parts before it and from it on; `none` is the `ValueError`
unfoldable pub at_separator : List String → Option (List String × List String)
at_separator [] = none
at_separator (arg ∷ command) =
    let found = at_separator command in
    if arg == "--"
    then some ([], arg ∷ command)
    else elim found [ none ↦ none | some p ↦ some (arg ∷ p.0, p.1) ]

-- the command with the broker's descriptor
unfoldable pub with_broker : ℕ → List String → Option (List String)
unfolding at_separator show_nat
with_broker fd command = elim (at_separator command) [
  | none ↦ none
  | some p ↦ some (p.0 ++ ("--access-broker-fd" ∷ show_nat fd ∷ []) ++ p.1)
]

-- the command that is run, with or without a broker
unfoldable pub run_sandbox : String → Sandbox → Option ℕ → Option (List String)
unfolding command_of with_broker
run_sandbox helper sandbox none = some (command_of helper sandbox)
run_sandbox helper sandbox (some fd) = with_broker fd (command_of helper sandbox)
