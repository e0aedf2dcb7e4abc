-- ===== src/Lib.antt =====
-- BubbleHub runs AI agents in a sandbox on one machine and shares the machine's language models
-- between them. This library models the parts of the Python program (bubblehub/) that decide
-- something, and proves what makes them correct.
--
-- The parts and the files that model them:
--   * Prelude: lists, dicts in insertion order, Python's integers and texts over the native numbers
--     and strings, a stable sort. Value: what JSON and YAML bring in, with `bool`, `str` and `int`.
--   * Registry (bubblehub/engine/registry.py): model specs, specialties and the resolution of a
--     specialty. `resolve_candidates`, `resolve_specialty` and `__post_init__` keep their names;
--     Load is `load_default`, with the merge of the user's file into the builtin one.
--   * Selector (bubblehub/engine/selector.py): the tier of a machine.
--   * Session (bubblehub/engine/session.py): `enter` is `__enter__`, `chat` and `embeddings` the
--     methods. It uses Registry and Selector outside a sandbox, and speaks HTTP inside one;
--     Session/Sandbox lets it speak to the server of Http.
--   * Http (bubblehub/http_api.py): Messages reads and orders chat messages, Request the other
--     fields of a body, Payloads writes the responses, Handler is `do_POST` and `do_GET`. A request
--     gives the list of the engine's calls and a response.
--   * Agents (bubblehub/app/agents.py): stopping and deleting an agent, on a state with the files
--     of the state directory, the `.bubblehub` directories of the roots and the scheduler's agents;
--     Views writes an agent's metadata and shows the running and the stopped agents.
--   * Models (bubblehub/app/models.py): the user's `models.yaml`, the choice of a model for a
--     specialty, Setup and the menu of the installation, Overview the page of the models. It reads
--     the registry through Registry/Load and asks through Prompt.
--   * Telemetry (bubblehub/app/telemetry.py): the snapshot that the control page shows, from the
--     scheduler's snapshot, the views of Agents and what Telemetry/Proc reads of `/proc`.
--   * Api (bubblehub/app/api.py): the control API. Pages is `do_GET`, Handler `do_POST` with its
--     handlers, on the state of Agents, the user's file of Models and the applied policies.
--   * Run (bubblehub/cli/run.py): Paths checks a root directory and places the working
--     directory and the binary; Places finds the binary, the rootfs and the interpreter;
--     Environment sets an agent's variables and reads a memory limit; Persistent finds the sandbox
--     of a root that is used again; Agent and Agent/Start are `run_agent`, whose effects on the
--     host are a list of events, in a monad that raises.
--   * Scheduler (bubblehub/node/client.py): the view of a snapshot and the configured limits.
--   * Structured (bubblehub/engine/structured.py, bubblehub/cli/prompt.py): a prompt whose answer is a
--     JSON object, with the one retry.
--   * Prompt (bubblehub/cli/interactive.py, bubblehub/cli/run.py): the menus that read keys.
--   * Log (bubblehub/log.py): the global log options and the log level.
--   * Gpu (bubblehub/gpu_setup.py): the install profile and the exit status of the setup.
--   * Inference (bubblehub/inference.py): the configuration of the shared endpoint, the wait until it
--     is healthy, and the variables that an agent gets.
--   * Native (bubblehub/native.py): Hardware detects the GPU, Command builds the command line of the
--     sandbox helper, Broker is the loop that answers a sandbox's access requests.
--
-- Code outside the repository is an argument: the engine that a server calls, the downloader, the
-- HTTP client, the scheduler's registration, the kill of a process, the file system that paths are
-- looked up in, the YAML library, the floats that are shown, the native sandbox and its access
-- policies, and Python's text of a list or a dict. Loops are structural: over a list of
-- messages, keys, arguments or paths, so that no fuel is needed; the digits of a number are printed
-- with the number itself as fuel, which is more than it has digits.
--
-- Bounds: Python's integers are unbounded, and so are the numbers here. An amount of gigabytes is
-- held in units of 2 ** -1074, which is exact for every float that is at least 0; a count of bytes
-- divided by 1024 ** 3 is exact up to 2 ** 53 bytes. Letters beyond ASCII keep their
-- case, and the digits of other scripts are no digits of a number or of a menu's key.
--
-- Not modelled: the native library, the ctypes declarations of bubblehub/native.py, the terminal
-- and desktop interfaces, the option parsing of the command line, the downloader, the shims of
-- other client libraries, the socket servers with their threads and locks, the terminal mode, log
-- output, and most failures of the disk. The registry of a server is loaded once, where the program
-- loads it for each request; a temporary directory is always removed.
pub mod Agents
pub mod Api
pub mod Gpu
pub mod Http
pub mod Inference
pub mod Log
pub mod Models
pub mod Native
pub mod Prelude
pub mod Prompt
pub mod Registry
pub mod Run
pub mod Scheduler
pub mod Selector
pub mod Session
pub mod Structured
pub mod Telemetry
pub mod Value
