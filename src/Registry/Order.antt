-- ===== src/Registry/Order.antt =====
-- The sort key of `resolve_candidates` is a linear preorder.
use bubble_hub.Prelude.{String, ◌≡◌, true, false, List, arith}
use bubble_hub.Prelude.Sort.{IsLinear}
use bubble_hub.Prelude.TextOrder.{leb_text-total, leb_text_trans}
use bubble_hub.Registry.Spec.{ModelSpec}
use bubble_hub.Registry.{le_key}

le_key-total :
    (order : List String) (a b : ModelSpec) → le_key order a b ≡ false → le_key order b a ≡ true
unfolding le_key
le_key-total order a b h = ground (arith, leb_text-total a.name b.name)

le_key_trans :
    (order : List String) (a b c : ModelSpec)
    → le_key order a b ≡ true
    → le_key order b c ≡ true
    → le_key order a c ≡ true
unfolding le_key
le_key_trans order a b c h k = ground (arith, leb_text_trans a.name b.name c.name)

pub le_key-IsLinear : (order : List String) → IsLinear (le_key order)
le_key-IsLinear order = record { total = le_key-total order; trans = le_key_trans order }
