-- ===== src/Selector.antt =====
-- `select_tier`, bubblehub/engine/selector.py.
mod Examples
use bubble_hub.Prelude.{
  ℕ, ◌*◌, ◌^◌, ◌≤◌, String, ◌≡◌, refl, Bool, true, false, ◌||◌, List, [], ◌∷◌, ◌++◌, arith, ltb,
  leb, if◌then◌else◌, ◌⊎◌, inl, inr, Bool-cases, take, length, ◌-◌,
}

-- the fields of `HardwareInfo` (bubblehub/native.py) that the program decides by
pub record HardwareInfo : Type 0 where
  pub ram_bytes : ℕ
  pub vram_bytes : ℕ
  pub gpu_backends : List String

pub record MachineTier : Type 0 where
  pub name : String
  pub order : List String

-- `x / 1024**3 < n` and `x / 1024**3 >= n` are exact tests on the bytes: where the division rounds,
-- it is far above every bound
abbrev pub gigabytes : ℕ → ℕ
gigabytes n = n * 1024 ^ 3

unfoldable pub select_tier : HardwareInfo → MachineTier
select_tier hardware =
    if ltb hardware.ram_bytes (gigabytes 8)
    then record { name = "tiny"; order = "tiny" ∷ [] }
    else if leb (gigabytes 16) hardware.vram_bytes || leb (gigabytes 32) hardware.ram_bytes
    then record { name = "large"; order = "large" ∷ "medium" ∷ "small" ∷ "tiny" ∷ [] }
    else if leb (gigabytes 16) hardware.ram_bytes
    then record { name = "medium"; order = "medium" ∷ "small" ∷ "tiny" ∷ [] }
    else record { name = "small"; order = "small" ∷ "tiny" ∷ [] }

-- what stands before the last `length shorter` texts
abbrev extra : List String → List String → List String
extra longer shorter = take (length longer - length shorter) longer

-- A machine with at least the memory of another prefers bigger tiers first and then falls back to
-- all that the other one tries, in the same order.
pub select_tier_mono :
    (small large : HardwareInfo)
    → small.ram_bytes ≤ large.ram_bytes
    → small.vram_bytes ≤ large.vram_bytes
    → (bigger : List String) × ((select_tier large).order ≡ bigger ++ (select_tier small).order)
unfolding select_tier
select_tier_mono small large r v =
    (extra (select_tier large).order (select_tier small).order, ground arith)
