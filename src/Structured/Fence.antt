-- ===== src/Structured/Fence.antt =====
-- `parse_json_output` of bubblehub/engine/structured.py reads what stands in a fenced block.
use Prim.Native.String.{[], ◌∷◌}
use Prim.Native.Char.{Char, code}
use bubble_hub.Prelude.{
  String, ◌≡◌, refl, ap, ◌∙◌, Bool, true, false, some, [], ◌∷◌, ◌==◌, string_eq, nat_eq,
  if◌then◌else◌, ◌&&◌, eq_iff, Bool-cases, inl, inr,
}
use bubble_hub.Prelude.Text.{
  attach, strip, strip_left, strip_right, starts_with, strip_prefix, lower, is_space,
}
use bubble_hub.Structured.{Codec, object_in, before_fence, without_tag, unfenced, parse_json_output}

-- no character of a text is a backtick
abbrev pub HasNoFence : String → Type 0
HasNoFence [] = Unit
HasNoFence (c ∷ s) = (96 == code c) ≡ false × HasNoFence s

starts_with-fence :
    (c : Char) (s : String) → (96 == code c) ≡ false → starts_with (c ∷ s) "```" ≡ false
unfolding starts_with strip_prefix
starts_with-fence c s h = rw (h, starts_with) refl

before_fence-attach : (s : String) → HasNoFence s → before_fence (attach s "```") ≡ some s
unfolding before_fence
before_fence-attach [] h = refl
before_fence-attach (c ∷ s) h =
    rw (before_fence-attach s h.1, starts_with-fence c (attach s "```") h.0) refl

attach-filled : (c : Char) (s : String) → (attach (c ∷ "") s == "") ≡ false
attach-filled c s = elim (Bool-cases (attach (c ∷ "") s == "")) [
  | inr f ↦ f
  | inl t ↦ (let e : attach (c ∷ "") s ≡ "" = (eq_iff (attach (c ∷ "") s) "").0 t in cc)
]

kept : (b e : Bool) (t u : String) → e ≡ false → (if b && e then t else u) ≡ u
kept true e t u h = rw h refl
kept false e t u h = refl

strip_right-attach : (s : String) → strip_right (attach s "```") ≡ attach s "```"
unfolding strip_right is_space
strip_right-attach [] = refl
strip_right-attach (c ∷ []) = kept (is_space c) false "" _ refl
strip_right-attach (c ∷ d ∷ s) =
    rw (strip_right-attach (d ∷ s)) (kept (is_space c) _ "" _ (attach-filled d (attach s "```")))

-- an answer in a block
abbrev pub fenced : String → String
fenced body = attach "```json" (attach body "```")

strip-fenced : (body : String) → strip (fenced body) ≡ fenced body
unfolding strip strip_left is_space
strip-fenced body = strip_right-attach (attach "```json" body)

-- An answer in a fenced block that is tagged as JSON is read like the text in the block, without
-- the space around it, if that text has no backtick.
pub parse_json_output-fenced :
    (codec : Codec) (body : String)
    → HasNoFence body
    → parse_json_output codec (fenced body) ≡ object_in (codec.loads (strip body))
unfolding parse_json_output unfenced without_tag lower
parse_json_output-fenced codec body h =
    ap (λ s. object_in (codec.loads s))
      (ap unfenced (strip-fenced body) ∙ rw (before_fence-attach body h) refl)
