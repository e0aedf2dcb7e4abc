-- ===== src/Prompt/Laws.antt =====
-- The menus return an index in range, and the arrow keys go round.
use Prim.Native.Char.{code}
use Prim.Native.String.{[], ◌∷◌}
use native.Mathlib.Nat.{mod-lt, mod-eq_of_lt, mod-add-mod, add-mod_right}
use native.Mathlib.Decide.{dec_lt}
use bubble_hub.Prelude.{
  ℕ, zero, suc, ◌+◌, ◌-◌, ◌%◌, ◌<◌, ◌≤◌, String, ◌≡◌, refl, inl, inr, Option, none, some, List, [],
  ◌∷◌, ◌++◌, arith, length, ap, ◌∙◌, sym, Bool-cases, ltb, if◌then◌else◌, ◌==◌, nat_eq, replicate,
}
use bubble_hub.Prompt.{
  digit_action, letter_action, digit_of, is_enter, is_up, is_down, no_options, default_out_of_range,
  Action, return, go, action, choose, chosen, choose_option, prompt_keys, down_key, up_key,
}

-- an action that names an index below `count`
abbrev InRange : ℕ → Action → Type 0
InRange count (return i) = i < count
InRange count (go i) = i < count

digit-InRange :
    (count selected digit : ℕ)
    → selected < count
    → InRange count (digit_action count selected digit)
digit-InRange count selected zero h = h
digit-InRange count selected (suc n) h = elim (Bool-cases (ltb n count)) [
  | inl t ↦ rw t (ground arith)
  | inr f ↦ rw f h
]

letter-InRange :
    (count selected : ℕ) (key : String)
    → selected < count
    → InRange count (letter_action count selected key)
letter-InRange count selected key h = ground arith

key-InRange :
    (count selected : ℕ) (key : String) (o : Option ℕ)
    → selected < count
    → InRange count (elim o [
      | some digit ↦ digit_action count selected digit
      | none ↦ letter_action count selected key
    ])
key-InRange count selected key none h = letter-InRange count selected key h
key-InRange count selected key (some d) h = digit-InRange count selected d h

action-InRange :
    (count selected : ℕ) (key : String)
    → selected < count
    → InRange count (action count selected key)
unfolding action
action-InRange count selected key h = elim (Bool-cases (is_enter key)) [
  | inl t ↦ rw t h
  | inr f ↦ rw f (elim (Bool-cases (is_up key)) [
    | inl t ↦ rw t (mod-lt (selected + count - 1) (omega arith))
    | inr g ↦ rw g (elim (Bool-cases (is_down key)) [
      | inl t ↦ rw t (mod-lt (selected + 1) (omega arith))
      | inr k ↦ rw k (key-InRange count selected key (digit_of key) h)
    ])
  ])
]

choose-lt :
    (count selected : ℕ) (keys : List String)
    → selected < count
    → choose count selected keys < count
unfolding choose
choose-lt count selected [] h = h
choose-lt count selected (key ∷ keys) h =
    next (action count selected key) (action-InRange count selected key h)
      (λ i k. choose-lt count i keys k)
  where
    next :
        (a : Action)
        → InRange count a
        → ((i : ℕ) → i < count → choose count i keys < count)
        → (elim a [ return index ↦ index | go i ↦ choose count i keys ]) < count
    next (return i) r ih = r
    next (go i) r ih = ih i r

-- only characters whose digits `str.isdigit` and `int` read as `digit_of` does
abbrev pub IsAscii : String → Type 0
IsAscii [] = Unit
IsAscii (c ∷ s) = (code c < 128) × IsAscii s

-- Whatever ASCII characters are typed, a menu with options and a default among them returns the
-- index of one of them; with no option, or with a default out of range, it is refused.
pub choose_option-total :
    (options : List String) (default_index : ℕ) (input : String)
    → IsAscii input
    → (default_index < length options
        → (i : ℕ) × (choose_option options default_index input ≡ chosen i) × (i < length options))
      × (length options ≤ default_index
          → choose_option options default_index input
            ≡ (if length options == 0 then no_options else default_out_of_range))
unfolding choose_option
choose_option-total options default_index input ascii = (
  λ h. (
    choose (length options) default_index (prompt_keys input),
    ground arith,
    choose-lt (length options) default_index (prompt_keys input) h,
  ),
  λ h. ground arith,
)

down_action : (count selected : ℕ) → action count selected down_key ≡ go ((selected + 1) % count)
unfolding action
down_action count selected = refl

up_action :
    (count selected : ℕ) → action count selected up_key ≡ go ((selected + count - 1) % count)
unfolding action
up_action count selected = refl

choose_down :
    (count selected : ℕ) (keys : List String)
    → choose count selected (down_key ∷ keys) ≡ choose count ((selected + 1) % count) keys
unfolding choose
choose_down count selected keys = rw (down_action count selected, choose)

choose_up :
    (count selected : ℕ) (keys : List String)
    → choose count selected (up_key ∷ keys) ≡ choose count ((selected + count - 1) % count) keys
unfolding choose
choose_up count selected keys = rw (up_action count selected, choose)

choose_downs :
    (count selected k : ℕ) (keys : List String)
    → selected < count
    → choose count selected (replicate k down_key ++ keys)
      ≡ choose count ((selected + k) % count) keys
choose_downs count selected zero keys h =
    ap (λ i. choose count i keys) (sym (mod-eq_of_lt h) ∙ ap (λ i. i % count) (omega arith))
choose_downs count selected (suc k) keys h =
    choose_down count selected (replicate k down_key ++ keys)
    ∙ choose_downs count ((selected + 1) % count) k keys (mod-lt (selected + 1) (omega arith))
    ∙ ap (λ i. choose count i keys)
        (mod-add-mod (selected + 1) count k ∙ ap (λ i. i % count) (omega arith))

down_up :
    (count selected : ℕ)
    → selected < count
    → ((selected + 1) % count + count - 1) % count ≡ selected
down_up count selected h = elim (dec_lt (suc selected) count) [
  | yes p ↦
      ap (λ i. (i + count - 1) % count) (mod-eq_of_lt (omega arith))
      ∙ ap (λ i. i % count) (omega arith)
      ∙ add-mod_right selected count
      ∙ mod-eq_of_lt h
  | no p ↦
      ap (λ i. (i % count + count - 1) % count)
        (let e : selected + 1 ≡ 0 + count = omega arith in e)
      ∙ ap (λ i. (i + count - 1) % count) (add-mod_right 0 count ∙ mod-eq_of_lt (omega arith))
      ∙ ap (λ i. i % count) (omega arith)
      ∙ mod-eq_of_lt h
]

-- The arrow down goes one option further round the menu, and the arrow up goes back: after k times
-- down the option in place (selected + k) mod count is marked, and up undoes down.
pub choose_arrows :
    (count selected k : ℕ) (keys : List String)
    → selected < count
    → (choose count selected (replicate k down_key ++ keys)
        ≡ choose count ((selected + k) % count) keys)
      × (choose count selected (down_key ∷ up_key ∷ keys) ≡ choose count selected keys)
choose_arrows count selected k keys h = (
  choose_downs count selected k keys h,
  choose_down count selected (up_key ∷ keys)
      ∙ choose_up count ((selected + 1) % count) keys
      ∙ ap (λ i. choose count i keys) (down_up count selected h),
)
