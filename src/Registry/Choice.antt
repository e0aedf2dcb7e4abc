-- ===== src/Registry/Choice.antt =====
-- The one model that `resolve_specialty` chooses, and specialties that pin a model by name.
use mathlib.Core.List.{Memᴰ}
use bubble_hub.Prelude.{
  ℕ, ◌≤◌, ◌<◌, String, ◌≡◌, refl, true, none, some, List, [], ◌∷◌, arith, eq_iff, filter, All,
  All_at, mem_of_mem-filter, test_of_mem-filter, ◌↔◌, ◌⊎◌, inl, inr, ◌==◌, string_eq, subst, sym,
  ◌∙◌,
}
use bubble_hub.Prelude.Dict.{get}
use bubble_hub.Prelude.Sort.{IsSorted}
use bubble_hub.Registry.Spec.{ModelSpec, Specialty}
use bubble_hub.Registry.{
  ModelRegistry, Query, Result, ok, key_error, no_match, le_key, first_of_candidates, checked_model,
  singleton, candidates_of, resolve_candidates, resolve_specialty, resolve_model_name,
}
use bubble_hub.Registry.Resolution.{
  Serves, Shared, resolve_candidates-exact, within_sound, supported_sound,
}

-- what `resolve_specialty` does for a specialty that pins no model
abbrev pub Chooses : List ModelSpec → Specialty → Query → String → Result ModelSpec → Type 0
Chooses models s q name result =
    ((m : ModelSpec) × (result ≡ ok m)
      × Memᴰ m models
      × Serves s q m
      × ((other : ModelSpec)
          → Memᴰ other models
          → Serves s q other
          → (other ≡ m) ⊎ (le_key q.tier_order m other ≡ true)))
    ⊎ ((result ≡ key_error (no_match name)) × ((m : ModelSpec) → Memᴰ m models → Serves s q m → ⊥))

least_of_cons :
    (order : List String) {m other : ModelSpec} {rest : List ModelSpec}
    → All (λ y. le_key order m y ≡ true) rest
    → Memᴰ other (m ∷ rest)
    → (other ≡ m) ⊎ (le_key order m other ≡ true)
least_of_cons order h (Memᴰ.head e) = inl e
least_of_cons order {m} h (Memᴰ.tail k) = inr (All_at (λ y. le_key order m y ≡ true) k h)

choose :
    (models : List ModelSpec) (s : Specialty) (q : Query) (name : String) (found : List ModelSpec)
    → ((m : ModelSpec) → Memᴰ m found ↔ (Memᴰ m models × Serves s q m))
    → IsSorted (le_key q.tier_order) found
    → Chooses models s q name (first_of_candidates name (ok found))
choose models s q name [] exact sorted = inr (refl, λ m k v. elim ((exact m).1 (k, v)) [ ])
choose models s q name (m ∷ rest) exact sorted =
    let (k, v) = (exact m).0 (Memᴰ.head refl) in
    inl
      (m, refl, k, v, λ other k' v'. least_of_cons q.tier_order sorted.0 ((exact other).1 (k', v')))

-- For a specialty that pins no model, `resolve_specialty` returns a model of the registry that
-- serves the specialty and comes first, by the sort key, among all that do; and it fails with
-- `no_match` exactly where no model of the registry serves the specialty.
pub resolve_specialty-least :
    (r : ModelRegistry) (name : String) (q : Query) (s : Specialty)
    → get r.specialties name ≡ some s
    → s.model ≡ none
    → Chooses r.models s q name (resolve_specialty r name q)
unfolding resolve_specialty
resolve_specialty-least r name q s e unpinned =
    let (found, e', exact, sorted) = resolve_candidates-exact r name q s e unpinned in
    rw e' (choose r.models s q name found exact sorted)

-- what a pinned model must meet
abbrev pub Pinned : List ModelSpec → String → Query → ModelSpec → Type 0
Pinned models pinned q m =
    Memᴰ m models
    × (m.name ≡ pinned)
    × ((n : ℕ) → q.max_ram_gb ≡ some n → m.ram_gb ≤ n)
    × ((n : ℕ) → q.max_vram_gb ≡ some n → m.vram_gb ≤ n)
    × ((xs : List String)
        → q.supported_gpu_backends ≡ some xs
        → m.placement ≡ "gpu"
        → 0 < m.vram_gb
        → Shared xs m.gpu_backends)

checked_model_sound :
    (models : List ModelSpec) (pinned name : String) (q : Query) (found : List ModelSpec)
    {m : ModelSpec}
    → ((x : ModelSpec) → Memᴰ x found → Memᴰ x models × ((x.name == pinned) ≡ true))
    → checked_model pinned name q found ≡ ok m
    → Pinned models pinned q m
unfolding checked_model
checked_model_sound models pinned name q [] {m} from h = cc
checked_model_sound models pinned name q (x ∷ rest) {m} from h =
    subst (Pinned models pinned q) same (
      (from x (Memᴰ.head refl)).0,
      (eq_iff x.name pinned).0 (from x (Memᴰ.head refl)).1,
      λ n. within_sound q.max_ram_gb x.ram_gb n (ground arith),
      λ n. within_sound q.max_vram_gb x.vram_gb n (ground arith),
      λ xs. supported_sound x q.supported_gpu_backends xs (ground arith),
    )
  where
    same : x ≡ m
    same = ground arith

singleton_ok :
    (x : Result ModelSpec) {found : List ModelSpec}
    → singleton x ≡ ok found
    → (m : ModelSpec) × (found ≡ m ∷ []) × (x ≡ ok m)
singleton_ok (ok m) h = (m, cc, refl)
singleton_ok (key_error e) h = cc

pub Pinned-sound :
    (r : ModelRegistry) (name pinned : String) (q : Query) (m : ModelSpec)
    → resolve_model_name r pinned name q ≡ ok m
    → Pinned r.models pinned q m
unfolding resolve_model_name
Pinned-sound r name pinned q m h =
    checked_model_sound r.models pinned name q (filter (λ x. x.name == pinned) r.models)
      (λ x k. (
        mem_of_mem-filter (λ x. x.name == pinned) r.models k,
        test_of_mem-filter (λ x. x.name == pinned) r.models k,
      ))
      h

candidates_pinned :
    (r : ModelRegistry) (name : String) (q : Query) (s : Specialty) (pinned : String)
    → s.model ≡ some pinned
    → candidates_of r name q (some s) ≡ singleton (resolve_model_name r pinned name q)
candidates_pinned r name q s pinned p = rw p

-- A model that a specialty pins by name is returned alone, and only if it is in the registry and
-- within the limits of the query.
pub resolve_candidates-Pinned :
    (r : ModelRegistry) (name : String) (q : Query) (s : Specialty) (pinned : String)
    (found : List ModelSpec)
    → get r.specialties name ≡ some s
    → s.model ≡ some pinned
    → resolve_candidates r name q ≡ ok found
    → (m : ModelSpec) × (found ≡ m ∷ []) × Pinned r.models pinned q m
resolve_candidates-Pinned r name q s pinned found e p h =
    let path : resolve_candidates r name q ≡ candidates_of r name q (some s) =
      unfold resolve_candidates in rw e in
    let (m, single, found_ok) =
      singleton_ok (resolve_model_name r pinned name q)
        (sym (candidates_pinned r name q s pinned p) ∙ sym path ∙ h) in
    (m, single, Pinned-sound r name pinned q m found_ok)
