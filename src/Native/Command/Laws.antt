-- ===== src/Native/Command/Laws.antt =====
-- The broker's descriptor is added among the options and the guest's command stays as it is.
use Prim.Native.Char.{code}
use Prim.Native.String.{[], ◌∷◌, char_at}
use bubble_hub.Prelude.{
  ℕ, zero, suc, Bool, not, ◌&&◌, false, true, nat_eq, String, ◌≡◌, Option, none, some, List, [],
  ◌∷◌, ◌==◌, string_eq,
}
use bubble_hub.Native.Command.{Sandbox}

-- no text of the list is the separator
unfoldable pub Free : List String → Type 0
Free [] = Unit
Free (x ∷ xs) = ((x == "--") ≡ false) × Free xs

abbrev first_code : String → ℕ
first_code [] = 0
first_code (c ∷ s) = code c

abbrev rest_of : String → String
rest_of [] = ""
rest_of (c ∷ s) = s

abbrev all_below : ℕ → (ℕ → Bool) → Bool
all_below zero p = true
all_below (suc n) p = p n && all_below n p

abbrev no_dash : ℕ → Bool
no_dash k = not (code (char_at "0123456789" k) == 45)

abbrev IsPlain : String → Type 0
IsPlain s = (s == "--") ≡ false

abbrev IsPlainOption : Option String → Type 0
IsPlainOption none = Unit
IsPlainOption (some value) = IsPlain value

-- none of the texts that the caller gives for an option is the separator itself
pub record ArePlain (helper : String) (sandbox : Sandbox) : Type 0 where
  pub helper_plain : IsPlain helper
  pub workdir : IsPlain sandbox.workdir
  pub root_dir : IsPlainOption sandbox.root_dir
  pub rootfs_dir : IsPlainOption sandbox.rootfs_dir
  pub overlay_upper_dir : IsPlainOption sandbox.overlay_upper_dir
  pub overlay_work_dir : IsPlainOption sandbox.overlay_work_dir
  pub inference_host : IsPlainOption sandbox.inference_host

-- the guest's command line: the arguments as they are given, or the binary where there are none
abbrev pub guest_line : List String → String → List String
guest_line [] binary = binary ∷ []
guest_line (arg ∷ args) binary = arg ∷ args
