-- ===== src/Native/Hardware/Laws.antt =====
-- Of several NVIDIA GPUs the one with the most free memory is taken.
use mathlib.Core.List.{Memᴰ}
use bubble_hub.Prelude.{
  ℕ, suc, ◌≤◌, String, ◌≡◌, refl, sym, ap, subst, Bool, true, false, Bool-cases, inl, inr, Option,
  none, some, List, [], ◌∷◌, map, arith, ◌==◌, string_eq, All, All-map, if◌then◌else◌, ltb,
}
use bubble_hub.Prelude.Text.{split, strip}
use bubble_hub.Native.Hardware.{Machine, Profile, run_text, splitlines}
use bubble_hub.Native.Hardware.Detect.{
  Detected, found, not_a_number, infinite, candidate, of_parts, better, keep_best, go_on, best_from,
  nvidia_query, detect_nvidia_gpu,
}

-- the best of the profiles, if there are any
abbrev pub IsBest : List Profile → Option Profile → Type 0
IsBest profiles none = profiles ≡ []
IsBest profiles (some best) =
    Memᴰ best profiles × All (λ p. p.free_vram_bytes ≤ best.free_vram_bytes) profiles

abbrev seen_with :
    Detected (Option Profile) → List Profile → (List Profile → List Profile) → List Profile
seen_with (found none) profiles f = f profiles
seen_with (found (some p)) profiles f = f (p ∷ profiles)
seen_with not_a_number profiles f = profiles
seen_with infinite profiles f = profiles

-- the profiles of the lines that have one, the last first, in front of those given
unfoldable pub seen : Machine → ℕ → List Profile → List String → List Profile
unfolding split strip candidate
seen machine index profiles [] = profiles
seen machine index profiles (line ∷ lines) =
    seen_with (of_parts machine index (map strip (split 44 line))) profiles
      (λ more. seen machine (suc index) more lines)

raised :
    (profiles : List Profile) (best new : Profile)
    → best.free_vram_bytes ≤ new.free_vram_bytes
    → All (λ p. p.free_vram_bytes ≤ best.free_vram_bytes) profiles
    → All (λ p. p.free_vram_bytes ≤ new.free_vram_bytes) profiles
raised profiles best new l h =
    All-map (λ p. p.free_vram_bytes ≤ best.free_vram_bytes)
      (λ p. p.free_vram_bytes ≤ new.free_vram_bytes) (λ p k. omega arith) profiles h

pub better-if :
    (best new : Profile) (b : Bool)
    → ltb best.free_vram_bytes new.free_vram_bytes ≡ b
    → better (some best) new ≡ (if b then new else best)
better-if best new b e = rw e refl

keep_best-IsBest :
    (profiles : List Profile) (best : Option Profile) (new : Profile)
    → IsBest profiles best
    → IsBest (new ∷ profiles) (keep_best best (some new))
keep_best-IsBest profiles none new h = rw h (Memᴰ.head refl, (omega arith, tt))
keep_best-IsBest profiles (some best) new (m, h) =
    elim (Bool-cases (ltb best.free_vram_bytes new.free_vram_bytes)) [
      | inl t ↦
          subst (λ b. IsBest (new ∷ profiles) (some b)) (sym (better-if best new true t))
            (Memᴰ.head refl, (omega arith, raised profiles best new (ground arith) h))
      | inr f ↦
          subst (λ b. IsBest (new ∷ profiles) (some b)) (sym (better-if best new false f))
            (Memᴰ.tail m, (ground arith, h))
    ]

go_on-IsBest :
    (o : Detected (Option Profile)) (profiles : List Profile) (best : Option Profile)
    (r : Option Profile) (f : Option Profile → Detected (Option Profile))
    (g : List Profile → List Profile)
    → ((more : List Profile) (b : Option Profile)
        → f (b) ≡ found r
        → IsBest more b
        → IsBest (g more) r)
    → go_on o (λ new. f (keep_best best new)) ≡ found r
    → IsBest profiles best
    → IsBest (seen_with o profiles g) r
go_on-IsBest (found none) profiles best r f g ih e h = ih profiles best e h
go_on-IsBest (found (some p)) profiles best r f g ih e h =
    ih (p ∷ profiles) (keep_best best (some p)) e (keep_best-IsBest profiles best p h)
go_on-IsBest not_a_number profiles best r f g ih e h = cc
go_on-IsBest infinite profiles best r f g ih e h = cc

found_inj : {a b : Option Profile} → Detected.found a ≡ found b → a ≡ b
found_inj {a} e = ap (λ d. elim d [ found x ↦ x | not_a_number ↦ a | infinite ↦ a ]) e

best_from-IsBest :
    (machine : Machine) (index : ℕ) (profiles : List Profile) (best : Option Profile)
    (lines : List String) (r : Option Profile)
    → best_from machine index best lines ≡ found r
    → IsBest profiles best
    → IsBest (seen machine index profiles lines) r
unfolding best_from seen
best_from-IsBest machine index profiles best [] r e h = subst (IsBest profiles) (found_inj e) h
best_from-IsBest machine index profiles best (line ∷ lines) r e h =
    go_on-IsBest (of_parts machine index (map strip (split 44 line))) profiles best r
      (λ b. best_from machine (suc index) b lines) (λ more. seen machine (suc index) more lines)
      (λ more b. best_from-IsBest machine (suc index) more b lines r) e h

-- Where NVIDIA's tool is found and prints something, the GPU that is taken is one of those printed
-- and none of them has more free memory; none is taken only if no line has the four parts.
pub detect_nvidia_gpu-IsBest :
    (machine : Machine) (r : Option Profile)
    → machine.found "nvidia-smi" ≡ true
    → (run_text machine nvidia_query == "") ≡ false
    → detect_nvidia_gpu machine ≡ found r
    → IsBest (seen machine 0 [] (splitlines (run_text machine nvidia_query))) r
unfolding detect_nvidia_gpu
detect_nvidia_gpu-IsBest machine r t f e =
    best_from-IsBest machine 0 [] none (splitlines (run_text machine nvidia_query)) r
      (rw (t, f) at e) refl
