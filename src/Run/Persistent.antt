-- ===== src/Run/Persistent.antt =====
-- Which persistent sandbox of a root is used again, and where one that cannot be deleted is moved.
pub mod Laws
use bubble_hub.Prelude.{
  ℕ, zero, suc, String, Bool, true, false, not, ◌&&◌, Option, none, some, List, [], ◌∷◌, ◌==◌,
  nat_eq, if◌then◌else◌, leb, filter,
}
use bubble_hub.Prelude.Sort.{sorted}
use bubble_hub.Prelude.Text.{strip, concat, show_nat}
use bubble_hub.Agents.{is_valid_agent_id}

-- what is found at a path, whose last part is `name`
pub record Entry : Type 0 where
  pub name : String
  pub is_dir : Bool
  pub is_symlink : Bool
  pub home_is_dir : Bool
  pub home_is_symlink : Bool
  pub mtime_ns : ℕ

-- The directory `.bubblehub` of a root: the text of `current-agent`, if that is a file, what the
-- directory `agents` lists, if there is one, and what stands at `agents/<text>`.
pub record Hub : Type 0 where
  pub marker : Option String
  pub agents : Option (List Entry)
  pub entry_at : String → Option Entry

unfoldable pub is_persistent_agent_dir : Entry → Bool
unfolding is_valid_agent_id
is_persistent_agent_dir e =
    e.is_dir
    && (not e.is_symlink && (is_valid_agent_id e.name && (e.home_is_dir && not e.home_is_symlink)))

abbrev pub later : Entry → Entry → Bool
later a b = leb b.mtime_ns a.mtime_ns

abbrev pub first_name : List Entry → Option String
first_name [] = none
first_name (e ∷ es) = some e.name

-- what is found without a marker
abbrev pub newest : Option (List Entry) → Option String
newest none = none
newest (some entries) = first_name (sorted later (filter is_persistent_agent_dir entries))

abbrev marked : Hub → String → Option Entry → Option String
marked hub agent_id none = newest hub.agents
marked hub agent_id (some e) =
    if is_persistent_agent_dir e then some agent_id else newest hub.agents

abbrev of_marker : Hub → Option String → Option String
of_marker hub none = newest hub.agents
of_marker hub (some text) = marked hub (strip text) (hub.entry_at (strip text))

unfoldable pub find_persistent_agent_id : Hub → Option String
unfolding strip
find_persistent_agent_id hub = of_marker hub hub.marker

-- `.removed-<id>`, and with a number from the second try on
unfoldable pub tombstone_name : String → ℕ → String
unfolding show_nat
tombstone_name agent_id index =
    if index == 0
    then concat (".removed-" ∷ agent_id ∷ [])
    else concat (".removed-" ∷ agent_id ∷ "-" ∷ show_nat index ∷ [])

-- the loop from `index` on, for `count` more rounds
unfoldable pub tombstone_from : (String → Bool) → String → ℕ → ℕ → Option String
tombstone_from exists agent_id index zero = none
tombstone_from exists agent_id index (suc count) =
    let next = tombstone_from exists agent_id (suc index) count in
    if exists (tombstone_name agent_id index) then next else some (tombstone_name agent_id index)

-- `_tombstone_agent_path`, `none` where it raises
unfoldable pub tombstone_agent_path : (String → Bool) → String → Option String
unfolding tombstone_from
tombstone_agent_path exists agent_id = tombstone_from exists agent_id 0 1000
