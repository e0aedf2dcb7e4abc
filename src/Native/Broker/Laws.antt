-- ===== src/Native/Broker/Laws.antt =====
-- What the sandbox is told does not depend on how its requests are cut into chunks, and nothing is
-- approved that the broker did not allow.
use Prim.Native.Char.{Char, code}
use Prim.Native.String.{[], ◌∷◌}
use mathlib.Core.List.{append_assoc}
use bubble_hub.Prelude.{
  ℕ, zero, suc, ◌≤◌, ◌<◌, String, ◌≡◌, ◌≢◌, refl, sym, ap, subst, ◌∙◌, true, false, Bool-cases,
  Option, none, some, Option-cases, List, [], ◌∷◌, ◌++◌, ◌==◌, nat_eq, string_eq, if◌then◌else◌,
  arith, inl, inr, eq_iff,
}
use bubble_hub.Prelude.Text.{attach, attach-nil, attach_assoc}
use bubble_hub.Value.{Value, Fields, null, boolean, int, float, str, list, dict}
use bubble_hub.Native.Broker.{
  Event, ended, idle, received, Wire, approve, deny, split_line, wire_of, asked, answer, answered,
  drain, size, serve,
}

abbrev onto_first : Char → List String × String → List String × String
onto_first c ([], r) = ([], c ∷ r)
onto_first c (l ∷ ls, r) = ((c ∷ l) ∷ ls, r)

-- the lines of a text that end, and what is left
unfoldable pub lines_of : String → List String × String
lines_of [] = ([], "")
lines_of (c ∷ s) =
    let (ls, r) = lines_of s in if code c == 10 then ("" ∷ ls, r) else onto_first c (ls, r)

lines_of-feed :
    (c : Char) (s : String)
    → (code c == 10) ≡ true
    → lines_of (c ∷ s) ≡ ("" ∷ (lines_of s).0, (lines_of s).1)
unfolding lines_of
lines_of-feed c s t = rw t refl

lines_of-char :
    (c : Char) (s : String) → (code c == 10) ≡ false → lines_of (c ∷ s) ≡ onto_first c (lines_of s)
unfolding lines_of
lines_of-char c s f = rw f refl

-- what the loop takes into its buffer: it ends with the helper, and at a chunk that does not decode,
-- of which it takes nothing
unfoldable pub read : List Event → String
read [] = ""
read (ended n ∷ events) = ""
read (idle ∷ events) = read events
read (received none ∷ events) = ""
read (received (some chunk) ∷ events) = attach chunk (read events)

abbrev IsSplit : String → Option (String × String) → Type 0
IsSplit b none = lines_of b ≡ ([], b)
IsSplit b (some (raw, rest)) =
    (lines_of b ≡ (raw ∷ (lines_of rest).0, (lines_of rest).1)) × (size rest < size b)

grow :
    (c : Char) (s : String) (o : Option (String × String))
    → (code c == 10) ≡ false
    → IsSplit s o
    → IsSplit (c ∷ s) (elim o [ none ↦ none | some p ↦ some (c ∷ p.0, p.1) ])
unfolding lines_of size
grow c s none f h = rw (f, h) refl
grow c s (some (raw, rest)) f (e, l) = (rw (f, e) refl, omega arith)

split_line-IsSplit : (b : String) → IsSplit b (split_line b)
unfolding split_line lines_of size
split_line-IsSplit [] = refl
split_line-IsSplit (c ∷ s) = elim (Bool-cases (code c == 10)) [
  | inl t ↦ rw t (lines_of-feed c s t, omega arith)
  | inr f ↦ rw f (grow c s (split_line s) f (split_line-IsSplit s))
]

abbrev Closed : List String × String → Type 0
Closed p = lines_of p.1 ≡ ([], p.1)

onto_first-Closed :
    (c : Char)
    → (code c == 10) ≡ false
    → (p : List String × String) → Closed p
    → Closed (onto_first c p)
unfolding lines_of
onto_first-Closed c f ([], r) h = rw (f, h) refl
onto_first-Closed c f (l ∷ ls, r) h = h

-- the part that is left has no whole line
lines_of-Closed : (x : String) → Closed (lines_of x)
unfolding lines_of
lines_of-Closed [] = refl
lines_of-Closed (c ∷ s) = elim (Bool-cases (code c == 10)) [
  | inl t ↦ rw t (lines_of-Closed s)
  | inr f ↦ rw f (onto_first-Closed c f (lines_of s) (lines_of-Closed s))
]

abbrev then_read : List String × String → String → List String × String
then_read p y = (p.0 ++ (lines_of (attach p.1 y)).0, (lines_of (attach p.1 y)).1)

onto_first-then_read :
    (c : Char)
    → (code c == 10) ≡ false
    → (p : List String × String) (y : String)
    → onto_first c (then_read p y) ≡ then_read (onto_first c p) y
unfolding lines_of
onto_first-then_read c f ([], r) y = sym (lines_of-char c (attach r y) f)
onto_first-then_read c f (l ∷ ls, r) y = refl

lines_of-nil : (y : String) → lines_of y ≡ then_read (lines_of "") y
unfolding lines_of
lines_of-nil y = refl

-- to read a text in two parts is to read it at once
lines_of-attach : (x y : String) → lines_of (attach x y) ≡ then_read (lines_of x) y
lines_of-attach [] y = lines_of-nil y
lines_of-attach (c ∷ s) y = elim (Bool-cases (code c == 10)) [
  | inl t ↦
      lines_of-feed c (attach s y) t
      ∙ ap (λ p. ("" ∷ p.0, p.1)) (lines_of-attach s y)
      ∙ ap (λ p. then_read p y) (sym (lines_of-feed c s t))
  | inr f ↦
      lines_of-char c (attach s y) f
      ∙ ap (onto_first c) (lines_of-attach s y)
      ∙ onto_first-then_read c f (lines_of s) y
      ∙ ap (λ p. then_read p y) (sym (lines_of-char c s f))
]

wire_of-approve : (r : String) → wire_of r ≡ approve → r ≡ "always"
unfolding wire_of
wire_of-approve r h = elim (Bool-cases (r == "always")) [
  | inl t ↦ (eq_iff r "always").0 t
  | inr f ↦ elim (Bool-cases (r == "ask")) [
    | inl t ↦ (let k = rw (f, t) at h in cc)
    | inr g ↦ (let k = rw (f, g) at h in cc)
  ]
]

module _ (loads : String → Option Value) (broker : Value → Option String) where
  -- the answers to the lines, one after the other
  unfoldable pub answers : List String → List Wire
  answers [] = []
  answers (raw ∷ raws) = answered loads broker raw ++ answers raws

  drain_lem :
      (fuel : ℕ) (b : String)
      → size b ≤ fuel
      → drain loads broker fuel b ≡ (answers (lines_of b).0, (lines_of b).1)
  unfolding drain answers size lines_of
  drain_lem zero [] h = refl
  drain_lem zero (c ∷ s) h = absurd (omega arith)
  drain_lem (suc fuel) b h = elim (Option-cases (split_line b)) [
    | inl e ↦ let i = subst (IsSplit b) e (split_line-IsSplit b) in rw (e, i, drain) refl
    | inr (p, e) ↦
        let i = subst (IsSplit b) e (split_line-IsSplit b) in
        rw (e, i.0, drain, drain_lem fuel p.1 (omega arith)) refl
  ]

  answers-append : (xs ys : List String) → answers (xs ++ ys) ≡ answers xs ++ answers ys
  unfolding answers
  answers-append [] ys = refl
  answers-append (x ∷ xs) ys =
      rw (answers-append xs ys)
        (sym (append_assoc (answered loads broker x) (answers xs) (answers ys)))

  nothing-sent :
      (buffer : String) → Closed ([], buffer) → [] ≡ answers (lines_of (attach buffer "")).0
  unfolding answers
  nothing-sent buffer h = rw (attach-nil buffer, h) refl

  serve-lines :
      (buffer : String) (events : List Event)
      → Closed ([], buffer)
      → (serve loads broker buffer events).0 ≡ answers (lines_of (attach buffer (read events))).0
  unfolding serve read answers
  serve-lines buffer [] h = nothing-sent buffer h
  serve-lines buffer (ended n ∷ events) h = nothing-sent buffer h
  serve-lines buffer (idle ∷ events) h = serve-lines buffer events h
  serve-lines buffer (received none ∷ events) h = nothing-sent buffer h
  serve-lines buffer (received (some chunk) ∷ events) h =
      let b = attach buffer chunk in
      rw (drain_lem (size b) b (omega arith), serve-lines (lines_of b).1 events (lines_of-Closed b))
        (sym (answers-append (lines_of b).0 (lines_of (attach (lines_of b).1 (read events))).0)
          ∙ ap (λ p. answers p.0)
              (sym (lines_of-attach b (read events))
                ∙ ap lines_of (attach_assoc buffer chunk (read events))))

  -- However the text of the requests is cut into chunks, each of which decodes, and whatever passes
  -- of the loop find nothing, the answers that are sent are those to the whole lines of what was
  -- received before the helper ended or a chunk came that does not decode, in order.
  pub serve-read :
      (events : List Event) → (serve loads broker "" events).0 ≡ answers (lines_of (read events)).0
  unfolding lines_of
  serve-read events = serve-lines "" events refl

  -- the line is an object, and the broker allows it for good
  abbrev Allows : Option Value → Type 0
  Allows o = (fs : Fields) × (o ≡ some (dict fs)) × (broker (dict fs) ≡ some "always")

  asked-Allows : (o : Option Value) → asked loads broker o ≡ "always" → Allows o
  asked-Allows none h = cc
  asked-Allows (some null) h = cc
  asked-Allows (some (boolean b)) h = cc
  asked-Allows (some (int n)) h = cc
  asked-Allows (some (float r)) h = cc
  asked-Allows (some (str t)) h = cc
  asked-Allows (some (list vs)) h = cc
  asked-Allows (some (dict fs)) h = elim (Option-cases (broker (dict fs))) [
    | inl e ↦ (let k = rw e at h in cc)
    | inr (r, e) ↦ (fs, refl, e ∙ ap some (rw e at h))
  ]

  -- `approve` is told for a line that the broker allows
  abbrev pub IsSafe : String → Wire → Type 0
  IsSafe raw approve = Allows (loads raw)
  IsSafe raw _ = Unit

  -- every line but the empty ones has one answer of its own, in order
  pub data AreAnswered : List String → List Wire → Type 0 where
    nothing : AreAnswered [] []
    blank :
        (raws : List String) (wires : List Wire)
        → AreAnswered raws wires
        → AreAnswered ("" ∷ raws) wires
    told :
        (raw : String) (raws : List String) (wire : Wire) (wires : List Wire)
        → raw ≢ ""
        → IsSafe raw wire
        → AreAnswered raws wires
        → AreAnswered (raw ∷ raws) (wire ∷ wires)

  answer-IsSafe : (raw : String) (wire : Wire) → answer loads broker raw ≡ wire → IsSafe raw wire
  unfolding answer
  answer-IsSafe raw approve e =
      asked-Allows (loads raw) (wire_of-approve (asked loads broker (loads raw)) e)
  answer-IsSafe raw deny e = tt
  answer-IsSafe raw Wire.ask e = tt

  answers-AreAnswered : (raws : List String) → AreAnswered raws (answers raws)
  unfolding answers
  answers-AreAnswered [] = nothing
  answers-AreAnswered (raw ∷ raws) = elim (Bool-cases (raw == "")) [
    | inl t ↦ rw t (
        subst (λ r. AreAnswered (r ∷ raws) (answers raws)) (sym ((eq_iff raw "").0 t))
          (blank raws (answers raws) (answers-AreAnswered raws)))
    | inr f ↦ rw f (
        told raw raws (answer loads broker raw) (answers raws)
          (λ e. (let k = (eq_iff raw "").1 e in cc))
          (answer-IsSafe raw (answer loads broker raw) refl) (answers-AreAnswered raws))
  ]

  -- Every whole line of what is received before the loop ends, but an empty one, is answered once, in
  -- order, and its own answer is `approve` only if the line is an object for which the broker
  -- answers `always`.
  pub serve-AreAnswered :
      (events : List Event)
      → AreAnswered (lines_of (read events)).0 (serve loads broker "" events).0
  serve-AreAnswered events =
      subst (AreAnswered (lines_of (read events)).0) (sym (serve-read events))
        (answers-AreAnswered (lines_of (read events)).0)
