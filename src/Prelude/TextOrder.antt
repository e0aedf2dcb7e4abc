-- ===== src/Prelude/TextOrder.antt =====
-- Python's order of texts: by code points, a prefix first.
use Prim.Native.Nat.{Ordering}
use Prim.Native.String.{String, [], ◌∷◌, compare}
use Prim.Native.String.compare
use mathlib.Core.Path.{◌≡◌, refl}
use mathlib.Core.Bool.{Bool, true, false}
use native.Mathlib.Omega.{arith}

abbrev not_gt : Ordering → Bool
not_gt Ordering.gt = false
not_gt _ = true

-- `s <= t`
abbrev pub leb_text : String → String → Bool
leb_text s t = not_gt (compare s t)

pub leb_text-total : (s t : String) → leb_text s t ≡ false → leb_text t s ≡ true
leb_text-total [] [] h = refl
leb_text-total [] (d ∷ t) h = ground (arith, compare.nil-cons d t)
leb_text-total (c ∷ s) [] h = ground (arith, compare.nil-cons c s)
leb_text-total (c ∷ s) (d ∷ t) h =
    ground (arith, compare.cons-cons c d s t, compare.cons-cons d c t s, leb_text-total s t)

pub leb_text_trans :
    (s t u : String) → leb_text s t ≡ true → leb_text t u ≡ true → leb_text s u ≡ true
leb_text_trans [] t [] h k = refl
leb_text_trans [] t (e ∷ u) h k = ground (arith, compare.nil-cons e u)
leb_text_trans (c ∷ s) [] u h k = ground (arith, compare.cons-nil c s)
leb_text_trans (c ∷ s) (d ∷ t) [] h k = ground (arith, compare.cons-nil d t)
leb_text_trans (c ∷ s) (d ∷ t) (e ∷ u) h k = ground (
  arith,
  compare.cons-cons c d s t,
  compare.cons-cons d e t u,
  compare.cons-cons c e s u,
  leb_text_trans s t u,
)
