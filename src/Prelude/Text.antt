-- ===== src/Prelude/Text.antt =====
-- Texts: what the program uses of Python's `str`. Case is folded for the letters A to Z alone.
use Prim.Native.Nat.{ℕ, zero, suc, ◌+◌, ◌-◌, ◌*◌, ◌/◌, ◌%◌}
use Prim.Native.Char.{Char, code}
use Prim.Native.String.{String, [], ◌∷◌, ◌++◌, char_at}
use mathlib.Core.Path.{◌≡◌, refl, ap}
use mathlib.Core.Bool.{Bool, true, false, ◌&&◌, ◌||◌}
use mathlib.Core.Option.{Option, none, some}
use mathlib.Core.List.{List, [], ◌∷◌}
use bubble_hub.Prelude.Tests.{leb, ◌==◌, nat_eq, string_eq, if◌then◌else◌}
use bubble_hub.Prelude.Int.{ℤ, pos, neg}

-- an f-string, from its parts
abbrev pub concat : List String → String
concat [] = ""
concat (s ∷ parts) = s ++ concat parts

-- `s + t`
abbrev pub attach : String → String → String
attach [] t = t
attach (c ∷ s) t = c ∷ attach s t

pub attach-nil : (s : String) → attach s "" ≡ s
attach-nil [] = refl
attach-nil (c ∷ s) = ap (λ t. c ∷ t) (attach-nil s)

pub attach_assoc : (s t u : String) → attach (attach s t) u ≡ attach s (attach t u)
attach_assoc [] t u = refl
attach_assoc (c ∷ s) t u = ap (λ v. c ∷ v) (attach_assoc s t u)

-- `sep.join(parts)`
unfoldable pub join : String → List String → String
join sep [] = ""
join sep (s ∷ []) = s
join sep (s ∷ t ∷ parts) = s ++ (sep ++ join sep (t ∷ parts))

-- `c.isspace()`
unfoldable pub is_space : Char → Bool
is_space c =
    let n = code c in
    leb 9 n && leb n 13
    || leb 28 n && leb n 32
    || n == 133
    || n == 160
    || n == 5760
    || leb 8192 n && leb n 8202
    || n == 8232
    || n == 8233
    || n == 8239
    || n == 8287
    || n == 12288

-- `s.lstrip()`
unfoldable pub strip_left : String → String
unfolding is_space
strip_left [] = []
strip_left (c ∷ s) = if is_space c then strip_left s else c ∷ s

-- `s.rstrip()`
unfoldable pub strip_right : String → String
unfolding is_space
strip_right [] = []
strip_right (c ∷ s) = let rest = strip_right s in if is_space c && rest == "" then [] else c ∷ rest

-- `s.strip()`
unfoldable pub strip : String → String
unfolding strip_left strip_right
strip s = strip_right (strip_left s)

-- `s.rstrip("/")`
unfoldable pub rstrip_slash : String → String
rstrip_slash [] = []
rstrip_slash (c ∷ s) =
    let rest = rstrip_slash s in if code c == 47 && rest == "" then "" else c ∷ rest

unfoldable pub lower_char : Char → Char
lower_char c =
    if leb 65 (code c) && leb (code c) 90
    then char_at "abcdefghijklmnopqrstuvwxyz" (code c - 65)
    else c

-- `s.lower()`
unfoldable pub lower : String → String
unfolding lower_char
lower [] = []
lower (c ∷ s) = lower_char c ∷ lower s

-- the first text put before the head of a list of texts
abbrev pub onto_head : Char → List String → List String
onto_head c [] = (c ∷ []) ∷ []
onto_head c (s ∷ parts) = (c ∷ s) ∷ parts

-- `s.split(sep)` for a `sep` of one character
unfoldable pub split : ℕ → String → List String
split sep [] = "" ∷ []
split sep (c ∷ s) = let rest = split sep s in if code c == sep then "" ∷ rest else onto_head c rest

-- `s[len(prefix):]`, if `s.startswith(prefix)`
unfoldable pub strip_prefix : String → String → Option String
strip_prefix [] s = some s
strip_prefix (c ∷ p) [] = none
strip_prefix (c ∷ p) (d ∷ s) = if code c == code d then strip_prefix p s else none

unfoldable pub starts_with : String → String → Bool
unfolding strip_prefix
starts_with s p = elim (strip_prefix p s) [ none ↦ false | some r ↦ true ]

abbrev pub is_digit : Char → Bool
is_digit c = leb 48 (code c) && leb (code c) 57

-- the digits of `int(s)`, with an underscore allowed between two of them; `fresh` says that a
-- digit must come next
unfoldable pub digits_from : Bool → ℕ → String → Option ℕ
digits_from true n [] = none
digits_from false n [] = some n
digits_from fresh n (c ∷ s) =
    let next = digits_from false (n * 10 + (code c - 48)) s in
    let gap = digits_from true n s in
    if is_digit c then next else if code c == 95 then (if fresh then none else gap) else none

abbrev negative : Option ℕ → Option ℤ
negative none = none
negative (some n) = some (neg n)

abbrev positive : Option ℕ → Option ℤ
positive none = none
positive (some n) = some (pos n)

abbrev signed : String → Option ℤ
signed [] = none
signed (c ∷ s) =
    if code c == 45
    then negative (digits_from true 0 s)
    else if code c == 43
    then positive (digits_from true 0 s)
    else positive (digits_from true 0 (c ∷ s))

-- `int(s)`, `none` where it raises `ValueError`
unfoldable pub parse_int : String → Option ℤ
unfolding strip digits_from
parse_int s = signed (strip s)

-- `str(n)`: the digits are written before `rest`, and the fuel is above their number
unfoldable pub digits_before : ℕ → ℕ → String → String
digits_before zero n rest = rest
digits_before (suc fuel) n rest =
    let now : String = char_at "0123456789" (n % 10) ∷ rest in
    let more = digits_before fuel (n / 10) now in if n / 10 == 0 then now else more

unfoldable pub show_nat : ℕ → String
unfolding digits_before
show_nat n = digits_before (suc n) n ""

unfoldable pub show_int : ℤ → String
unfolding show_nat
show_int (ℤ.pos n) = show_nat n
show_int (ℤ.negsuc n) = attach "-" (show_nat (suc n))

test_int : parse_int " -1_000 " ≡ some (ℤ.negsuc 999)
unfolding parse_int
test_int = refl

test_strip : strip "  a b " ≡ "a b"
unfolding strip
test_strip = refl

test_split : split 44 "a,,b" ≡ "a" ∷ "" ∷ "b" ∷ []
unfolding split
test_split = refl

test_show : concat (show_nat 18080 ∷ lower "ABCxZ" ∷ []) ≡ "18080abcxz"
unfolding show_nat lower
test_show = refl
