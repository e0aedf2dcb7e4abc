-- ===== src/Run/Agent/Start/Examples.antt =====
-- `run_agent` at a small input: a binary of the system, run with no root.
use bubble_hub.Prelude.{String, true, false, none, some, [], ◌∷◌, string_eq}
use bubble_hub.Prelude.Int.{pos}
use bubble_hub.Prelude.Text.{concat}
use bubble_hub.Run.Agent.{Options, Host, absent}
use bubble_hub.Run.Agent.Start.{run_agent}
use bubble_hub.Run.Agent.Start.Laws.{IsClosed, run_agent-IsClosed}
use bubble_hub.Run.Paths.{FilePath, same_path}
use bubble_hub.Run.Places.{Places, absolute}

abbrev shell : FilePath
shell = "usr" ∷ "bin" ∷ "sh" ∷ []

abbrev show_path : FilePath → String
show_path [] = ""
show_path (part ∷ parts) = concat ("/" ∷ part ∷ show_path parts ∷ [])

abbrev places : Places
places = record {
  files = record {
    exists = λ p. same_path p shell;
    is_dir = λ p. false;
    resolve = λ p. p;
    cwd = "home" ∷ "ana" ∷ [];
    source_checkout_root = none;
  };
  is_file = λ p. same_path p shell;
  is_symlink = λ p. false;
  which = λ name. none;
  environ = ("HOME", "/home/ana") ∷ [];
  expand = λ text. text ∷ [];
  show = show_path;
  suffix = λ p. "";
  installed_sites = [];
  runtime_sites = [];
  executable = "usr" ∷ "bin" ∷ "python" ∷ [];
  parse_url = λ url. record { scheme = "http"; hostname = some "127.0.0.1"; port = some 8000 };
}

abbrev options : Options
options = record {
  binary = absolute shell;
  extra_args = "-c" ∷ "true" ∷ [];
  name = none;
  niceness = pos 0;
  memory = "512m";
  cpu = pos 50;
  speciality = none;
  workdir = none;
  root_dir = none;
  unsafe_no_sandbox = false;
  force_new_sandbox = false;
  allow_network = false;
  interactive_access = false;
}

abbrev host : Host
host = record {
  places = places;
  hub = λ root. record { marker = none; agents = none; entry_at = λ name. none };
  stays = λ root name. true;
  deletes = λ root name. true;
  taken = λ root name. false;
  manifest = λ name. absent;
  new_id = "agt-1a2b3c4d";
  registers = λ name. true;
  staging = "tmp" ∷ "bubblehub-workspace-1" ∷ [];
  workspace = "tmp" ∷ "bubblehub-workspace-2" ∷ [];
  endpoint = some (
    "http://127.0.0.1:8000",
    record { host = "127.0.0.1"; port = pos 8000; default_specialty = "text" },
  );
  is_linux = true;
  uid = 1000;
  gid = 1000;
  sandbox = λ launch. some (pos 3);
  call = λ args cwd env. pos 0;
}

run_agent-IsClosed_example : IsClosed host options (run_agent host options [])
run_agent-IsClosed_example = run_agent-IsClosed host options
