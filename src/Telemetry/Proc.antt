-- ===== src/Telemetry/Proc.antt =====
-- What bubblehub/app/telemetry.py reads of /proc: the memory, and the metrics of a process. The
-- texts of the files are given, `none` where a file cannot be read, and the float of a quotient.
use Prim.Native.Char.{Char, code}
use Prim.Native.String.{[], ◌∷◌}
use bubble_hub.Prelude.{
  ℕ, ◌+◌, ◌*◌, String, ◌≡◌, refl, Bool, false, not, ◌&&◌, ◌||◌, Option, none, some, List, [], ◌∷◌,
  ◌==◌, nat_eq, string_eq, if◌then◌else◌, filter, get_elem?, length, ltb, leb,
}
use bubble_hub.Prelude.Dict.{Dict}
use bubble_hub.Prelude.Dict
use bubble_hub.Prelude.Int.{ℤ, pos, negsuc, is_positive, ◌+ℤ◌}
use bubble_hub.Prelude.Text.{is_space, onto_head, parse_int, starts_with, strip}

-- the code points that end a line for `str.splitlines`
abbrev is_break : Char → Bool
is_break c =
    let n = code c in
    leb 10 n && leb n 13 || leb 28 n && leb n 30 || n == 133 || n == 8232 || n == 8233

-- `skip` says that the character before is a carriage return
unfoldable pub lines_from : Bool → String → List String
lines_from skip [] = []
lines_from skip (c ∷ s) =
    let same = lines_from false s in
    let next = lines_from (code c == 13) s in
    if skip && code c == 10 then same else if is_break c then "" ∷ next else onto_head c same

-- `s.splitlines()`
abbrev pub split_lines : String → List String
split_lines = lines_from false

unfoldable pub split_space : String → List String
unfolding is_space
split_space [] = "" ∷ []
split_space (c ∷ s) = let rest = split_space s in if is_space c then "" ∷ rest else onto_head c rest

-- `s.split()`
unfoldable pub split_words : String → List String
unfolding split_space filter
split_words s = filter (λ w. not (w == "")) (split_space s)

-- `s.partition(":")`: what stands before the first colon, and behind it
unfoldable pub partition : String → String × String
partition [] = ("", "")
partition (c ∷ s) =
    let later = partition s in if code c == 58 then ("", s) else (c ∷ later.0, later.1)

-- `n * 1024`
unfoldable pub kilobytes : ℤ → ℤ
kilobytes (pos n) = pos (n * 1024)
kilobytes (negsuc n) = negsuc (n * 1024 + 1023)

abbrev pub bytes_of : Option ℤ → Option ℤ
bytes_of none = none
bytes_of (some n) = some (kilobytes n)

-- the amount that a list of words begins with
abbrev first_amount : List String → Option ℤ
first_amount [] = none
first_amount (w ∷ ws) = bytes_of (parse_int w)

abbrev put_if : Dict ℤ → String → Option ℤ → Dict ℤ
put_if values key none = values
put_if values key (some n) = Dict.put values key n

unfoldable pub meminfo_from : Dict ℤ → List String → Dict ℤ
unfolding partition split_words parse_int kilobytes Dict.put
meminfo_from values [] = values
meminfo_from values (line ∷ lines) =
    meminfo_from (put_if values (partition line).0 (first_amount (split_words (partition line).1)))
      lines

-- `_meminfo`
unfoldable pub meminfo : Option String → Dict ℤ
unfolding lines_from meminfo_from
meminfo none = []
meminfo (some text) = meminfo_from [] (split_lines text)

-- `parts[1]`, where there is one
abbrev second_amount : List String → ℤ
second_amount (a ∷ b ∷ parts) = elim (parse_int b) [ none ↦ pos 0 | some n ↦ kilobytes n ]
second_amount _ = pos 0

unfoldable pub rss_in : List String → ℤ
unfolding starts_with split_words parse_int kilobytes
rss_in [] = pos 0
rss_in (line ∷ lines) =
    if not (starts_with line "VmRSS:") then rss_in lines else second_amount (split_words line)

unfoldable pub state_in : List String → String
unfolding starts_with partition strip
state_in [] = "unknown"
state_in (line ∷ lines) =
    if starts_with line "State:" then strip (partition line).1 else state_in lines

abbrev sum_of : Option ℤ → Option ℤ → Option ℤ
sum_of (some a) (some b) = some (a +ℤ b)
sum_of _ _ = none

abbrev amount_at : List String → ℕ → Option ℤ
amount_at parts i = elim (get_elem? parts i) [ none ↦ none | some w ↦ parse_int w ]

-- what is read of the machine, by process id
pub record ProcFiles (Time : Type 0) : Type 0 where
  pub exists : ℤ → Bool
  pub status : ℤ → Option String
  pub stat : ℤ → Option String
  pub memory : Option String
  pub clock_ticks : ℕ
  -- the float of a quotient, and `0.0`
  pub seconds : ℤ → ℕ → Time
  pub no_time : Time

pub record Metrics (Time : Type 0) : Type 0 where
  pub available : Bool
  pub rss_bytes : ℤ
  pub cpu_time : Time
  pub status : String

module _ {Time : Type 0} (proc : ProcFiles Time) where
  -- `_rss_bytes`
  unfoldable pub rss_bytes : ℤ → ℤ
  unfolding rss_in lines_from
  rss_bytes pid =
      if not (is_positive pid)
      then pos 0
      else elim (proc.status pid) [ none ↦ pos 0 | some text ↦ rss_in (split_lines text) ]

  abbrev time_of : Option ℤ → Time
  time_of none = proc.no_time
  time_of (some ticks) =
      if proc.clock_ticks == 0 then proc.no_time else proc.seconds ticks proc.clock_ticks

  abbrev ticks_in : List String → Option ℤ
  ticks_in parts =
      if ltb (length parts) 17 then none else sum_of (amount_at parts 13) (amount_at parts 14)

  -- `_cpu_time_seconds`
  unfoldable pub cpu_time_seconds : ℤ → Time
  unfolding split_words parse_int ◌+ℤ◌
  cpu_time_seconds pid = elim (proc.stat pid) [
    | none ↦ proc.no_time
    | some text ↦ time_of (ticks_in (split_words text))
  ]

  -- `_process_state`
  unfoldable pub process_state : ℤ → String
  unfolding state_in lines_from
  process_state pid = elim (proc.status pid) [
    | none ↦ "missing"
    | some text ↦ state_in (split_lines text)
  ]

  -- `_process_metrics`
  unfoldable pub process_metrics : ℤ → Metrics Time
  unfolding rss_bytes cpu_time_seconds process_state
  process_metrics pid =
      if not (is_positive pid)
      then record {
        available = false;
        rss_bytes = pos 0;
        cpu_time = proc.no_time;
        status = "unknown";
      }
      else record {
        available = proc.exists pid;
        rss_bytes = rss_bytes pid;
        cpu_time = cpu_time_seconds pid;
        status = process_state pid;
      }

test_lines : split_lines "a\r\nb\n\nc" ≡ "a" ∷ "b" ∷ "" ∷ "c" ∷ []
unfolding lines_from
test_lines = refl

test_meminfo :
    meminfo (some "MemTotal:  8 kB\nMemAvailable: 3 kB\nbad\n")
    ≡ ("MemTotal", pos 8192) ∷ ("MemAvailable", pos 3072) ∷ []
unfolding meminfo
test_meminfo = refl
