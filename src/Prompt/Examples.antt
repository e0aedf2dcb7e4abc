-- ===== src/Prompt/Examples.antt =====
-- The theorems on the menus, at menus of three options.
use bubble_hub.Prelude.{
  ℕ, ◌+◌, ◌%◌, ◌<◌, ◌≤◌, String, ◌≡◌, refl, some, List, [], ◌∷◌, ◌++◌, arith, length, replicate,
  ◌==◌, nat_eq, if◌then◌else◌,
}
use bubble_hub.Prompt.{
  chosen, no_options, default_out_of_range, choose, choose_option, down_key, up_key, always,
  choose_access_policy,
}
use bubble_hub.Prompt.Laws.{choose_option-total, choose_arrows}

abbrev menu : List String
menu = "cpu" ∷ "vllm" ∷ "cuda-llama" ∷ []

choose_option-total_example :
    (1 < length menu → (i : ℕ) × (choose_option menu 1 "\u{1b}[B\n" ≡ chosen i) × (i < length menu))
    × (length menu ≤ 1
        → choose_option menu 1 "\u{1b}[B\n"
          ≡ (if length menu == 0 then no_options else default_out_of_range))
choose_option-total_example =
    choose_option-total menu 1 "\u{1b}[B\n"
      (omega arith, (omega arith, (omega arith, (omega arith, tt))))

choose_arrows_example :
    (choose 3 1 (replicate 4 down_key ++ "\n" ∷ []) ≡ choose 3 ((1 + 4) % 3) ("\n" ∷ []))
    × (choose 3 1 (down_key ∷ up_key ∷ "\n" ∷ []) ≡ choose 3 1 ("\n" ∷ []))
choose_arrows_example = choose_arrows 3 1 4 ("\n" ∷ []) (omega arith)

-- Where the input ends at once, the first policy is taken.
choose_access_policy_runs : choose_access_policy "" ≡ some always
unfolding choose_access_policy
choose_access_policy_runs = refl
