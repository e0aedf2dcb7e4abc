-- ===== src/Registry/Resolution.antt =====
-- What `resolve_candidates` and `resolve_specialty` return.
use mathlib.Core.List.{Memᴰ}
use bubble_hub.Prelude.{
  ℕ, ◌≤◌, ◌<◌, String, ◌≡◌, refl, Bool, true, Option, none, some, List, [], ◌∷◌, arith, eq_iff,
  mem_of_mem-filter, mem-filter_of_mem, test_of_mem-filter, Bool-cases, ◌↔◌, ap, sym, ◌∙◌, any,
  string_eq, inl, inr, subst,
}
use bubble_hub.Prelude.Dict.{get}
use bubble_hub.Prelude.Sort.{
  sorted, IsSorted, sorted-IsSorted, mem_of_mem-sorted, mem-sorted_of_mem,
}
use bubble_hub.Registry.Spec.{ModelSpec, Specialty}
use bubble_hub.Registry.Order.{le_key-IsLinear}
use bubble_hub.Registry.{
  ModelRegistry, Query, ok, intersects, model_backend_supported, le_key, runs_on_cpu, or_text,
  or_string, is_none_or, at_least, matches_specialty, fitting, resolve_candidates, within,
}

-- What a model must meet to serve a specialty under the limits of a query.
pub record Serves (s : Specialty) (q : Query) (m : ModelSpec) : Type 0 where
  pub capability : m.capability ≡ or_string q.capability s.capability
  pub flavor : (x : String) → or_text q.flavor s.flavor ≡ some x → m.flavor ≡ x
  pub context : (n : ℕ) → s.min_context_tokens ≡ some n → n ≤ m.context_tokens
  pub ram : (n : ℕ) → q.max_ram_gb ≡ some n → m.ram_gb ≤ n
  pub vram : (n : ℕ) → q.max_vram_gb ≡ some n → m.vram_gb ≤ n
  pub backend :
      (xs : List String)
      → q.supported_gpu_backends ≡ some xs
      → m.placement ≡ "gpu"
      → 0 < m.vram_gb
      → (b : String) × Memᴰ b xs × Memᴰ b m.gpu_backends

mem_of_any :
    (p : String → Bool) (xs : List String)
    → any p xs ≡ true
    → (b : String) × Memᴰ b xs × (p b ≡ true)
unfolding any
mem_of_any p [] h = absurd (ground arith)
mem_of_any p (x ∷ xs) h = elim (Bool-cases (p x)) [
  | inl t ↦ (x, Memᴰ.head refl, t)
  | inr f ↦ let (b, m, e) = mem_of_any p xs (ground arith) in (b, Memᴰ.tail m, e)
]

any_of_mem :
    (p : String → Bool) {b : String} {xs : List String} → Memᴰ b xs → p b ≡ true → any p xs ≡ true
unfolding any
any_of_mem p (Memᴰ.head e) h = rw (ap p (sym e) ∙ h)
any_of_mem p (Memᴰ.tail {xs = xs} m) h = ground (arith, any_of_mem p m h)

-- The test of the first filter, and what it means.
matches_specialty_iff :
    (s : Specialty) (q : Query) (m : ModelSpec)
    → matches_specialty s q m ≡ true
    → (m.capability ≡ or_string q.capability s.capability)
      × ((x : String) → or_text q.flavor s.flavor ≡ some x → m.flavor ≡ x)
      × ((n : ℕ) → s.min_context_tokens ≡ some n → n ≤ m.context_tokens)
unfolding matches_specialty
matches_specialty_iff s q m h = (
  ground (arith, eq_iff m.capability (or_string q.capability s.capability)),
  λ x e. ground (arith, eq_iff m.flavor x),
  λ n e. ground arith,
)

is_none_or_complete :
    (o : Option String) (a : String) → ((x : String) → o ≡ some x → a ≡ x) → is_none_or o a ≡ true
is_none_or_complete none a h = refl
is_none_or_complete (some x) a h = (eq_iff a x).1 (h x refl)

at_least_complete : (o : Option ℕ) (a : ℕ) → ((n : ℕ) → o ≡ some n → n ≤ a) → at_least o a ≡ true
at_least_complete none a h = refl
at_least_complete (some n) a h = ground (arith, h n refl)

test_of_Serves :
    (s : Specialty) (q : Query) (m : ModelSpec) → Serves s q m → matches_specialty s q m ≡ true
unfolding matches_specialty
test_of_Serves s q m v = ground (
  arith,
  (eq_iff m.capability (or_string q.capability s.capability)).1 v.capability,
  is_none_or_complete (or_text q.flavor s.flavor) m.flavor v.flavor,
  at_least_complete s.min_context_tokens m.context_tokens v.context,
)

pub within_sound : (l : Option ℕ) (a n : ℕ) → within l a ≡ true → l ≡ some n → a ≤ n
within_sound l a n h e = ground arith

within_complete : (l : Option ℕ) (a : ℕ) → ((n : ℕ) → l ≡ some n → a ≤ n) → within l a ≡ true
within_complete none a h = refl
within_complete (some n) a h = ground (arith, h n refl)

-- a text that two lists share
abbrev pub Shared : List String → List String → Type 0
Shared xs ys = (b : String) × Memᴰ b xs × Memᴰ b ys

Shared-of_intersects : (xs ys : List String) → intersects xs ys ≡ true → Shared xs ys
Shared-of_intersects xs ys h =
    let (b, in_ys, c) = mem_of_any _ ys h in
    let (a, in_xs, e) = mem_of_any _ xs c in
    (b, subst (λ x. Memᴰ x xs) ((eq_iff a b).0 e) in_xs, in_ys)

intersects_of_Shared : (xs ys : List String) → Shared xs ys → intersects xs ys ≡ true
intersects_of_Shared xs ys (b, in_xs, in_ys) =
    any_of_mem _ in_ys (any_of_mem _ in_xs ((eq_iff b b).1 refl))

pub supported_sound :
    (m : ModelSpec) (o : Option (List String)) (xs : List String)
    → model_backend_supported m o ≡ true
    → o ≡ some xs
    → m.placement ≡ "gpu"
    → 0 < m.vram_gb
    → Shared xs m.gpu_backends
unfolding model_backend_supported
supported_sound m none xs h e p v = cc
supported_sound m (some ys) xs h e p v =
    subst (λ l. Shared l m.gpu_backends) (cc)
      (Shared-of_intersects ys m.gpu_backends (ground (arith, eq_iff m.placement "gpu")))

supported_complete :
    (m : ModelSpec) (o : Option (List String))
    → ((xs : List String)
        → o ≡ some xs
        → m.placement ≡ "gpu"
        → 0 < m.vram_gb
        → Shared xs m.gpu_backends)
    → model_backend_supported m o ≡ true
unfolding model_backend_supported
supported_complete m none h = refl
supported_complete m (some xs) h = elim (Bool-cases (runs_on_cpu m)) [
  | inl cpu ↦ rw cpu
  | inr gpu ↦ rw gpu (
      intersects_of_Shared xs m.gpu_backends
        (h xs refl (ground (arith, eq_iff m.placement "gpu")) (ground arith)))
]

-- `fitting` keeps exactly the models that serve the specialty.
Serves-of_mem :
    (s : Specialty) (q : Query) (models : List ModelSpec) {m : ModelSpec}
    → Memᴰ m (fitting s q models)
    → Memᴰ m models × Serves s q m
unfolding fitting
Serves-of_mem s q models {m} k₃ =
    let k₂ = mem_of_mem-filter _ _ k₃ in
    let k₁ = mem_of_mem-filter _ _ k₂ in
    let k₀ = mem_of_mem-filter _ _ k₁ in
    let test = matches_specialty_iff s q m (test_of_mem-filter _ _ k₀) in
    (
      mem_of_mem-filter _ _ k₀,
      record {
        capability = test.0;
        flavor = test.1;
        context = test.2;
        ram = λ n. within_sound q.max_ram_gb m.ram_gb n (test_of_mem-filter _ _ k₁);
        vram = λ n. within_sound q.max_vram_gb m.vram_gb n (test_of_mem-filter _ _ k₂);
        backend = λ xs. supported_sound m q.supported_gpu_backends xs (test_of_mem-filter _ _ k₃);
      },
    )

mem_of_Serves :
    (s : Specialty) (q : Query) {m : ModelSpec} {models : List ModelSpec}
    → Memᴰ m models
    → Serves s q m
    → Memᴰ m (fitting s q models)
unfolding fitting
mem_of_Serves s q {m} k v =
    mem-filter_of_mem _
      (mem-filter_of_mem _
        (mem-filter_of_mem _ (mem-filter_of_mem _ k (test_of_Serves s q m v))
          (within_complete q.max_ram_gb m.ram_gb v.ram))
        (within_complete q.max_vram_gb m.vram_gb v.vram))
      (supported_complete m q.supported_gpu_backends v.backend)

-- For a specialty that pins no model, `resolve_candidates` succeeds with a list that has exactly
-- the models of the registry that serve the specialty under the query's limits, sorted by
-- placement rank, then tier rank, then name.
pub resolve_candidates-exact :
    (r : ModelRegistry) (name : String) (q : Query) (s : Specialty)
    → get r.specialties name ≡ some s
    → s.model ≡ none
    → (found : List ModelSpec) × (resolve_candidates r name q ≡ ok found)
      × ((m : ModelSpec) → Memᴰ m found ↔ (Memᴰ m r.models × Serves s q m))
      × IsSorted (le_key q.tier_order) found
unfolding resolve_candidates
resolve_candidates-exact r name q s e unpinned = (
  sorted (le_key q.tier_order) (fitting s q r.models),
  ground arith,
  λ m. (
    λ k. Serves-of_mem s q r.models (mem_of_mem-sorted _ _ k),
    λ k. mem-sorted_of_mem _ (mem_of_Serves s q k.0 k.1),
  ),
  sorted-IsSorted _ (le_key-IsLinear q.tier_order) (fitting s q r.models),
)
