-- ===== src/Run/Persistent/Laws.antt =====
-- The sandbox that is found is the newest, and the place for one that is moved away is free.
use mathlib.Core.List.{Memᴰ}
use bubble_hub.Prelude.{
  ℕ, zero, suc, ◌+◌, ◌<◌, ◌≤◌, String, ◌≡◌, refl, inl, inr, Bool, true, false, Option, none, some,
  List, [], ◌∷◌, arith, filter, All_at, mem_of_mem-filter, mem-filter_of_mem, test_of_mem-filter,
  Bool-cases, subst, sym,
}
use bubble_hub.Prelude.Sort.{
  sorted, IsSorted, IsLinear, sorted-IsSorted, mem_of_mem-sorted, mem-sorted_of_mem,
}
use bubble_hub.Run.Persistent.{
  Entry, Hub, is_persistent_agent_dir, later, first_name, find_persistent_agent_id, tombstone_name,
  tombstone_from, tombstone_agent_path,
}

later-IsLinear : IsLinear later
later-IsLinear = record { total = λ a b h. ground arith; trans = λ a b c h k. ground arith }

-- a sandbox that is listed, can be used, and is the newest of those
abbrev pub IsNewest : List Entry → String → Type 0
IsNewest entries agent_id =
    (e : Entry) × (e.name ≡ agent_id)
    × Memᴰ e entries
    × (is_persistent_agent_dir e ≡ true)
    × ((d : Entry) → Memᴰ d entries → is_persistent_agent_dir d ≡ true → d.mtime_ns ≤ e.mtime_ns)

first-le :
    (e : Entry) (es : List Entry) {d : Entry}
    → IsSorted later (e ∷ es)
    → Memᴰ d (e ∷ es)
    → d.mtime_ns ≤ e.mtime_ns
first-le e es s (Memᴰ.head p) = subst (λ (x : Entry). x.mtime_ns ≤ e.mtime_ns) (sym p) (omega arith)
first-le e es s (Memᴰ.tail m) = let h = All_at (λ y. later e y ≡ true) m s.0 in ground arith

IsNewest-of_sorted :
    (entries found : List Entry) (agent_id : String)
    → IsSorted later found
    → ((d : Entry) → Memᴰ d found → Memᴰ d entries × (is_persistent_agent_dir d ≡ true))
    → ((d : Entry) → Memᴰ d entries → is_persistent_agent_dir d ≡ true → Memᴰ d found)
    → first_name found ≡ some agent_id
    → IsNewest entries agent_id
IsNewest-of_sorted entries [] agent_id s sound complete h = cc
IsNewest-of_sorted entries (e ∷ es) agent_id s sound complete h =
    let (m, p) = sound e (Memᴰ.head refl) in
    (e, cc, m, p, λ d k q. first-le e es s (complete d k q))

-- Without a marker, the agent whose sandbox is used again is one whose directory is listed and can
-- be used, and no other such directory is newer.
pub find_persistent_agent_id-IsNewest :
    (hub : Hub) (entries : List Entry) (agent_id : String)
    → hub.marker ≡ none
    → hub.agents ≡ some entries
    → find_persistent_agent_id hub ≡ some agent_id
    → IsNewest entries agent_id
unfolding find_persistent_agent_id
find_persistent_agent_id-IsNewest hub entries agent_id unmarked listed h =
    let usable = filter is_persistent_agent_dir entries in
    IsNewest-of_sorted entries (sorted later usable) agent_id
      (sorted-IsSorted later later-IsLinear usable)
      (λ d m. (
        mem_of_mem-filter is_persistent_agent_dir entries (mem_of_mem-sorted later usable m),
        test_of_mem-filter is_persistent_agent_dir entries (mem_of_mem-sorted later usable m),
      ))
      (λ d m p. mem-sorted_of_mem later (mem-filter_of_mem is_persistent_agent_dir m p))
      (rw (unmarked, find_persistent_agent_id, listed) at h)

-- a name that the loop returns, or the names that are all taken
abbrev pub Tombstone : (String → Bool) → String → ℕ → ℕ → Option String → Type 0
Tombstone exists agent_id index count none =
    (i : ℕ) → i < count → exists (tombstone_name agent_id (index + i)) ≡ true
Tombstone exists agent_id index count (some name) = exists name ≡ false

tombstone_from-free :
    (exists : String → Bool) (agent_id : String) (index count : ℕ)
    → Tombstone exists agent_id index count (tombstone_from exists agent_id index count)
unfolding tombstone_from
tombstone_from-free exists agent_id index zero = λ i h. absurd (omega arith)
tombstone_from-free exists agent_id index (suc count) =
    elim (Bool-cases (exists (tombstone_name agent_id index))) [
      | inl taken ↦ rw taken (
          next (tombstone_from exists agent_id (suc index) count) taken
            (tombstone_from-free exists agent_id (suc index) count))
      | inr free ↦ rw free free
    ]
  where
    shifted :
        exists (tombstone_name agent_id index) ≡ true
        → ((i : ℕ) → i < count → exists (tombstone_name agent_id (suc index + i)) ≡ true)
        → (i : ℕ) → i < suc count
        → exists (tombstone_name agent_id (index + i)) ≡ true
    shifted taken rest zero h =
        subst (λ n. exists (tombstone_name agent_id n) ≡ true) (omega arith) taken
    shifted taken rest (suc i) h =
        subst (λ n. exists (tombstone_name agent_id n) ≡ true)
          (let e : suc index + i ≡ index + suc i = omega arith in e) (rest i (omega arith))

    next :
        (o : Option String)
        → exists (tombstone_name agent_id index) ≡ true
        → Tombstone exists agent_id (suc index) count o
        → Tombstone exists agent_id index (suc count) o
    next none taken rest = shifted taken rest
    next (some name) taken free = free

-- A sandbox that cannot be deleted is moved to a name that is free, and is refused only where all
-- the thousand names that are tried are taken.
pub tombstone_agent_path-free :
    (exists : String → Bool) (agent_id : String)
    → Tombstone exists agent_id 0 1000 (tombstone_agent_path exists agent_id)
unfolding tombstone_agent_path
tombstone_agent_path-free exists agent_id = tombstone_from-free exists agent_id 0 1000
