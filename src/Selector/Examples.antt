-- ===== src/Selector/Examples.antt =====
-- Two machines, and the theorem at them.
use bubble_hub.Prelude.{String, ◌≡◌, refl, List, [], ◌∷◌, ◌++◌, arith}
use bubble_hub.Selector.{HardwareInfo, gigabytes, select_tier, select_tier_mono}

abbrev laptop : HardwareInfo
laptop = record { ram_bytes = gigabytes 12; vram_bytes = 0; gpu_backends = [] }

abbrev workstation : HardwareInfo
workstation = record { ram_bytes = gigabytes 64; vram_bytes = 0; gpu_backends = [] }

laptop_tiers : (select_tier laptop).order ≡ "small" ∷ "tiny" ∷ []
unfolding select_tier
laptop_tiers = refl

select_tier_mono_example :
    (bigger : List String) × ((select_tier workstation).order
      ≡ bigger ++ (select_tier laptop).order)
select_tier_mono_example = select_tier_mono laptop workstation (omega arith) (omega arith)
