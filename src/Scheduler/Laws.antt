-- ===== src/Scheduler/Laws.antt =====
-- Which limits the client of the scheduler configures, bubblehub/node/client.py.
use bubble_hub.Prelude.{
  String, ◌≡◌, refl, sym, ap, subst, ◌∙◌, Bool-cases, true, false, ◌⊎◌, Option, none, some, [], ◌∷◌,
  ◌==◌, inl, inr, string_eq, eq_iff, arith,
}
use bubble_hub.Prelude.Dict.{Dict, Distinct, NotIn, get-put}
use bubble_hub.Prelude.Dict
use bubble_hub.Value.{Value, null, dict, end, Fields, to_dict, to_dict-of_dict}
use bubble_hub.Scheduler.{
  Converted, converted, type_or_value_error, overflow_error, Floats, Result, ok, overflow,
  overridden, optional_float, positive, both, found_or, get_or, limits_of, limits_in,
  configured_limits,
}

module _ {V : Type 0} where
  abbrev or_else : Option V → Option V → Option V
  or_else none b = b
  or_else (some a) b = some a

  get-NotIn : (d : Dict V) (k : String) → NotIn k d → Dict.get d k ≡ none
  unfolding Dict.get
  get-NotIn [] k n = refl
  get-NotIn ((j, x) ∷ d) k n = ground (arith, eq_iff j k, get-NotIn d k)

  get-update :
      (d e : Dict V) (k : String)
      → Distinct e
      → Dict.get (Dict.update d e) k ≡ or_else (Dict.get e k) (Dict.get d k)
  unfolding Dict.update Dict.get
  get-update d [] k n = refl
  get-update d ((j, x) ∷ e) k n = elim (Bool-cases (j == k)) [
    | inl t ↦
        rw
          (
            get-update (Dict.put d j x) e k n.1,
            get-put d j k x,
            get-NotIn e k (subst (λ i. NotIn i e) ((eq_iff j k).0 t) n.0),
            t,
          )
          refl
    | inr f ↦ rw (get-update (Dict.put d j x) e k n.1, get-put d j k x, f) refl
  ]

overridden-fields :
    (fs : Fields) (override : Option Value)
    → (gs : Fields) × (overridden (dict fs) override ≡ dict gs)
unfolding overridden
overridden-fields fs none = (fs, refl)
overridden-fields fs (some (dict gs)) = (_, refl)
overridden-fields fs (some v) = (fs, refl)

module _ {Float : Type 0} (floats : Floats Float) where
  -- the limit that a value of the file stands for, or that it stands for none
  pub data ReadsAs (v : Value) : Option Float → Type 0 where
    missing : v ≡ null → ReadsAs v none
    unreadable : floats.float v ≡ type_or_value_error → ReadsAs v none
    not_positive :
        (parsed : Float)
        → floats.float v ≡ converted parsed
        → floats.is_positive parsed ≡ false
        → ReadsAs v none
    limit :
        (parsed : Float)
        → floats.float v ≡ converted parsed
        → floats.is_positive parsed ≡ true
        → ReadsAs v (some parsed)

  -- both limits are read, each from its own key, or the conversion of one of them overflows
  pub data AreRead (section : Dict Value) : Result (Option Float × Option Float) → Type 0 where
    read :
        (ram vram : Option Float)
        → ReadsAs (get_or section "ram_limit_gb" null) ram
        → ReadsAs (get_or section "vram_limit_gb" null) vram
        → AreRead section (ok (ram, vram))
    overflowed :
        (k : String)
        → (k ≡ "ram_limit_gb") ⊎ (k ≡ "vram_limit_gb")
        → floats.float (get_or section k null) ≡ overflow_error
        → AreRead section overflow

  -- the same of one value
  IsRead : Value → Result (Option Float) → Type 0
  IsRead v (ok o) = ReadsAs v o
  IsRead v overflow = floats.float v ≡ overflow_error

  positive-IsRead :
      (v : Value) (c : Converted Float) → floats.float v ≡ c → IsRead v (positive floats c)
  unfolding IsRead
  positive-IsRead v type_or_value_error e = unreadable e
  positive-IsRead v overflow_error e = e
  positive-IsRead v (converted parsed) e = elim (Bool-cases (floats.is_positive parsed)) [
    | inl t ↦ rw t (limit parsed e t)
    | inr f ↦ rw f (not_positive parsed e f)
  ]

  optional_float-IsRead : (v : Value) → IsRead v (optional_float floats v)
  unfolding optional_float IsRead
  optional_float-IsRead null = missing refl
  optional_float-IsRead v = positive-IsRead v (floats.float v) refl

  both-AreRead :
      (section : Dict Value) (ram vram : Result (Option Float))
      → IsRead (get_or section "ram_limit_gb" null) ram
      → IsRead (get_or section "vram_limit_gb" null) vram
      → AreRead section (both floats ram vram)
  unfolding IsRead
  both-AreRead section (ok ram) (ok vram) r v = read ram vram r v
  both-AreRead section (ok ram) overflow r v = overflowed "vram_limit_gb" (inr refl) v
  both-AreRead section overflow vram r v = overflowed "ram_limit_gb" (inl refl) r

  limits_of-AreRead :
      (section : Fields) → AreRead (to_dict section) (limits_of floats (dict section))
  unfolding limits_of
  limits_of-AreRead section =
      both-AreRead (to_dict section) _ _ (optional_float-IsRead _) (optional_float-IsRead _)

  last-limits :
      (fs explicit : Fields) (section : Value)
      → Distinct (to_dict explicit)
      → Dict.get (to_dict explicit) "scheduler" ≡ some section
      → limits_in floats (overridden (dict fs) (some (dict explicit))) ≡ limits_of floats section
  unfolding overridden
  last-limits fs explicit section distinct found =
      let after = Dict.update (to_dict fs) (to_dict explicit) in
      let there : Dict.get after "scheduler" ≡ some section =
        get-update (to_dict fs) (to_dict explicit) "scheduler" distinct
        ∙ ap (λ o. or_else o (Dict.get (to_dict fs) "scheduler")) found in
      ap (λ d. limits_of floats (get_or d "scheduler" (dict end))) (to_dict-of_dict after)
      ∙ ap (λ (o : Option Value). limits_of floats (found_or o (dict end))) there

  -- Where the file that the environment names has a section for the scheduler, with distinct keys in
  -- the file, each of the two limits is read from its own key of that section alone, whatever the other files
  -- say: there is none where the key is missing or the value is no float that is greater than 0. Only
  -- a value whose conversion overflows makes the call raise.
  pub configured_limits-last :
      (builtin explicit section : Fields) (override : Option Value)
      → Distinct (to_dict explicit)
      → Dict.get (to_dict explicit) "scheduler" ≡ some (dict section)
      → AreRead
          (to_dict section)
          (configured_limits floats (dict builtin) override (some (dict explicit)))
  unfolding configured_limits
  configured_limits-last builtin explicit section override distinct found =
      let (fs, e) = overridden-fields builtin override in
      subst (AreRead (to_dict section))
        (sym (
          ap (λ v. limits_in floats (overridden v (some (dict explicit)))) e
          ∙ last-limits fs explicit (dict section) distinct found))
        (limits_of-AreRead section)
