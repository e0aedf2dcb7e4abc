-- ===== src/Value.antt =====
-- The data that JSON and YAML bring in, and what Python's builtins do with it.
use bubble_hub.Prelude.{
  String, Bool, true, false, not, Option, none, some, List, [], ◌∷◌, ◌==◌, nat_eq, string_eq,
  if◌then◌else◌, ◌≡◌, refl, ap,
}
use bubble_hub.Prelude.Dict.{Dict}
use bubble_hub.Prelude.Dict
use bubble_hub.Prelude.Int.{ℤ, pos, negsuc}
use bubble_hub.Prelude.Text.{show_int, parse_int}

-- What the program asks of a float: `int(x)`, `none` for an infinity or a NaN, `str(x)` and `bool(x)`.
pub record Real : Type 0 where
  pub truncated : Option ℤ
  pub shown : String
  pub nonzero : Bool

mutual
  pub data Value : Type 0 where
    null : Value
    boolean : Bool → Value
    int : ℤ → Value
    float : Real → Value
    str : String → Value
    list : Items → Value
    dict : Fields → Value

  pub data Items : Type 0 where
    nil : Items
    cons : Value → Items → Items

  pub data Fields : Type 0 where
    end : Fields
    field : String → Value → Fields → Fields

abbrev pub to_list : Items → List Value
to_list nil = []
to_list (cons v vs) = v ∷ to_list vs

abbrev pub of_list : List Value → Items
of_list [] = nil
of_list (v ∷ vs) = cons v (of_list vs)

abbrev pub to_dict : Fields → Dict Value
to_dict end = []
to_dict (field k v fs) = (k, v) ∷ to_dict fs

abbrev pub of_dict : Dict Value → Fields
of_dict [] = end
of_dict ((k, v) ∷ d) = field k v (of_dict d)

pub to_dict-of_dict : (d : Dict Value) → to_dict (of_dict d) ≡ d
to_dict-of_dict [] = refl
to_dict-of_dict (kv ∷ d) = ap (λ e. kv ∷ e) (to_dict-of_dict d)

-- `d.get(k)`
unfoldable pub get : Dict Value → String → Value
unfolding Dict.get
get d k = elim (Dict.get d k) [ none ↦ null | some v ↦ v ]

-- `bool(v)`
unfoldable pub truthy : Value → Bool
truthy null = false
truthy (boolean b) = b
truthy (int (pos n)) = not (n == 0)
truthy (int (negsuc n)) = true
truthy (float r) = r.nonzero
truthy (str s) = not (s == "")
truthy (list nil) = false
truthy (list (cons v vs)) = true
truthy (dict end) = false
truthy (dict (field k v fs)) = true

-- `a or b`
infixr 30 ◌or◌
unfoldable pub ◌or◌ : Value → Value → Value
unfolding truthy
a or b = if truthy a then a else b

-- `str(v)`; `repr` writes lists and dicts
unfoldable pub str_of : (Value → String) → Value → String
unfolding show_int
str_of repr null = "None"
str_of repr (boolean b) = if b then "True" else "False"
str_of repr (int n) = show_int n
str_of repr (float r) = r.shown
str_of repr (str s) = s
str_of repr (list vs) = repr (list vs)
str_of repr (dict fs) = repr (dict fs)

-- `int(v)`, or what it raises
pub data Conversion : Type 0 where
  number : ℤ → Conversion
  type_or_value_error overflow_error : Conversion

abbrev converted : Option ℤ → Conversion → Conversion
converted none failed = failed
converted (some n) failed = number n

-- a NaN raises `ValueError` and an infinity `OverflowError`; the first is told by its text
unfoldable pub int_of : Value → Conversion
unfolding parse_int
int_of null = type_or_value_error
int_of (boolean b) = number (pos (if b then 1 else 0))
int_of (int n) = number n
int_of (float r) =
    converted r.truncated (if r.shown == "nan" then type_or_value_error else overflow_error)
int_of (str s) = converted (parse_int s) type_or_value_error
int_of (list vs) = type_or_value_error
int_of (dict fs) = type_or_value_error
