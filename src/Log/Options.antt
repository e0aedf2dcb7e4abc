-- ===== src/Log/Options.antt =====
-- What the scan of the global options does to a command line.
use mathlib.Core.List.{append-nil, append_assoc}
use bubble_hub.Prelude.{
  String, ◌≡◌, refl, ◌⊎◌, inl, inr, true, Option, none, some, List, [], ◌∷◌, ◌++◌, arith, string_eq,
  All, sym, ◌∙◌, ap, subst, All-append, leb,
}
use bubble_hub.Prelude.Text.{lower, strip}
use bubble_hub.Log.{
  Extracted, ok, Kind, separator, level_option, file_option, other, level_value, file_value, kind,
  Pending, ready, await_level, await_file, extract_from, extract_global_log_options, State,
  LogLevel, error, info, debug, level_name, configure_logging, should_emit, rank, configured_level,
}

abbrev IsOther : String → Type 0
IsOther arg = kind arg ≡ other

abbrev bare : List String → Extracted
bare argv = record { cleaned = argv; log_level = none; log_file = none }

abbrev keep : Extracted → List String → Extracted
keep e args = record e { cleaned = e.cleaned ++ args }

-- arguments that are no options go through one by one
ok-injective : {a b : Extracted} → ok a ≡ ok b → a ≡ b
ok-injective h = cc

extract_others :
    (e : Extracted) (pre post : List String)
    → All IsOther pre
    → extract_from ready e (pre ++ post) ≡ extract_from ready (keep e pre) post
unfolding extract_from
extract_others e [] post h =
    ap (λ l. extract_from ready (record e { cleaned = l }) post) (sym (append-nil e.cleaned))
extract_others e (arg ∷ pre) post h =
    rw (h.0, extract_from)
      (extract_others (keep e (arg ∷ [])) pre post h.1
        ∙ ap (λ l. extract_from ready (record e { cleaned = l }) post)
            (append_assoc e.cleaned (arg ∷ []) pre))

level_taken :
    (pre : List String) (level : String) (post : List String)
    → extract_from ready (bare pre) ("--log-level" ∷ level ∷ post)
      ≡ extract_from ready (record { cleaned = pre; log_level = some level; log_file = none }) post
unfolding extract_from kind
level_taken pre level post = refl

extract_rest :
    (e : Extracted) (post : List String)
    → All IsOther post
    → extract_from ready e post ≡ ok (keep e post)
unfolding extract_from
extract_rest e post h =
    ap (extract_from ready e) (sym (append-nil post)) ∙ extract_others e post [] h

-- Where the arguments before and after it are no log options and no `--`, the option `--log-level
-- LEVEL` is taken out, whatever its place, before or after the command, and the other arguments
-- keep their order.
pub extract_level_anywhere :
    (pre post : List String) (level : String)
    → All IsOther pre
    → All IsOther post
    → extract_global_log_options (pre ++ "--log-level" ∷ level ∷ post)
      ≡ ok (record { cleaned = pre ++ post; log_level = some level; log_file = none })
unfolding extract_global_log_options
extract_level_anywhere pre post level h k =
    extract_others (bare []) pre ("--log-level" ∷ level ∷ post) h
    ∙ level_taken pre level post
    ∙ extract_rest (record { cleaned = pre; log_level = some level; log_file = none }) post k

-- what the arguments that are left over look like: no option before a `--`
abbrev pub IsClean : List String → Type 0
IsClean [] = Unit
IsClean (arg ∷ argv) = (kind arg ≡ separator) ⊎ (IsOther arg × IsClean argv)

IsClean-append : (xs ys : List String) → All IsOther xs → IsClean ys → IsClean (xs ++ ys)
IsClean-append [] ys h c = c
IsClean-append (x ∷ xs) ys h c = inr (h.0, IsClean-append xs ys h.1 c)

IsClean-of_others : (xs : List String) → All IsOther xs → IsClean xs
IsClean-of_others [] h = tt
IsClean-of_others (x ∷ xs) h = inr (h.0, IsClean-of_others xs h.1)

-- the loop keeps the cleaned arguments free of options
extract_from-IsClean :
    (argv : List String) (p : Pending) (e : Extracted) (r : Extracted)
    → All IsOther e.cleaned
    → extract_from p e argv ≡ ok r
    → IsClean r.cleaned
unfolding extract_from
extract_from-IsClean [] ready e r h k =
    subst (λ (x : Extracted). IsClean x.cleaned) (ok-injective k) (IsClean-of_others e.cleaned h)
extract_from-IsClean [] await_level e r h k = cc
extract_from-IsClean [] await_file e r h k = cc
extract_from-IsClean (arg ∷ argv) await_level e r h k =
    extract_from-IsClean argv ready (record e { log_level = some arg }) r h k
extract_from-IsClean (arg ∷ argv) await_file e r h k =
    extract_from-IsClean argv ready (record e { log_file = some arg }) r h k
extract_from-IsClean (arg ∷ argv) ready e r h k = go (extract_from-IsClean argv) (kind arg) refl
  where
    go :
        ((p : Pending) (e' r' : Extracted)
          → All IsOther e'.cleaned
          → extract_from p e' argv ≡ ok r'
          → IsClean r'.cleaned)
        → (c : Kind) → kind arg ≡ c
        → IsClean r.cleaned
    go ih separator q =
        subst (λ (x : Extracted). IsClean x.cleaned) (ok-injective (rw (q, extract_from) at k))
          (IsClean-append e.cleaned (arg ∷ argv) h (inl q))
    go ih level_option q = ih await_level e r h (rw (q, extract_from) at k)
    go ih file_option q = ih await_file e r h (rw (q, extract_from) at k)
    go ih (level_value v) q =
        ih ready (record e { log_level = some v }) r h (rw (q, extract_from) at k)
    go ih (file_value v) q =
        ih ready (record e { log_file = some v }) r h (rw (q, extract_from) at k)
    go ih other q =
        ih ready (keep e (arg ∷ [])) r (All-append IsOther e.cleaned (arg ∷ []) h (q, tt))
          (rw (q, extract_from) at k)

-- arguments with no option before a `--` are left as they are
extract_clean :
    (e : Extracted) (argv : List String)
    → IsClean argv
    → extract_from ready e argv ≡ ok (keep e argv)
unfolding extract_from
extract_clean e [] c = ap (λ l. ok (record e { cleaned = l })) (sym (append-nil e.cleaned))
extract_clean e (arg ∷ argv) (inl q) = rw (q, extract_from)
extract_clean e (arg ∷ argv) (inr (q, c)) =
    rw (q, extract_from)
      (extract_clean (keep e (arg ∷ [])) argv c
        ∙ ap (λ l. ok (record e { cleaned = l })) (append_assoc e.cleaned (arg ∷ []) argv))

-- What is left of a command line holds no log option any more: a second scan returns it unchanged,
-- with no level and no file.
pub extract_global_log_options_idem :
    (argv : List String) (r : Extracted)
    → extract_global_log_options argv ≡ ok r
    → extract_global_log_options r.cleaned
      ≡ ok (record { cleaned = r.cleaned; log_level = none; log_file = none })
unfolding extract_global_log_options
extract_global_log_options_idem argv r h =
    extract_clean (bare []) r.cleaned (extract_from-IsClean argv ready (bare []) r tt h)

zero_leb : (l : LogLevel) → true ≡ leb (rank error) (rank l)
zero_leb l = ground arith

level_name_back : (l : LogLevel) → configured_level none (some (level_name l)) ≡ l
unfolding configured_level lower strip
level_name_back error = refl
level_name_back info = refl
level_name_back debug = refl

emit_configured :
    (level : LogLevel) (t : State)
    → t.configured ≡ true
    → should_emit level t ≡ (leb (rank level) (rank t.current_level), t)
unfolding should_emit
emit_configured error t c = ap (λ b. (b, t)) (zero_leb t.current_level)
emit_configured level t c = ground arith

-- A level that was configured is found again in the environment: a later `configure_logging` with
-- no level of its own keeps it, and a message is written exactly if it is an error or its level is
-- at most that one.
pub configure_logging-again :
    (given : Option String) (s : State) (level : LogLevel)
    → let t = configure_logging given s in
      (configure_logging none t ≡ t)
      × (should_emit level t ≡ (leb (rank level) (rank t.current_level), t))
unfolding configure_logging
configure_logging-again given s level = (
  ap (λ l. record { current_level = l; configured = true; level_env = some (level_name l) })
      (level_name_back (configured_level given s.level_env)),
  emit_configured level (configure_logging given s) refl,
)
