-- ===== src/Prelude/Dict.antt =====
-- Python's `dict` with text keys, in insertion order: an association list.
use Prim.Native.String.{String}
use mathlib.Core.Path.{◌≡◌, refl, sym, ap, ◌∙◌}
use mathlib.Core.Logic.{◌≢◌, inl, inr}
use mathlib.Core.Option.{Option, none, some}
use mathlib.Core.List.{List, [], ◌∷◌, map, Memᴰ}
use mathlib.Core.List.Memᴰ
use mathlib.Core.Bool.{false, false≢true}
use native.Mathlib.Omega.{arith}
use text.Mathlib.TextEquality.{eq_iff}
use text.Mathlib.TextPositions.{eq_refl}
use bubble_hub.Prelude.Tests.{◌==◌, string_eq, if◌then◌else◌, Bool-cases}

abbrev pub Dict {ℓ} : Type ℓ → Type ℓ
Dict V = List (String × V)

module _ {ℓ} {V : Type ℓ} where
  -- `d.get(k)`
  unfoldable pub get : Dict V → String → Option V
  get [] k = none
  get ((j, v) ∷ d) k = if j == k then some v else get d k

  -- `d[k] = v`: a key that is there keeps its place
  unfoldable pub put : Dict V → String → V → Dict V
  put [] k v = (k, v) ∷ []
  put ((j, w) ∷ d) k v = if j == k then (j, v) ∷ d else (j, w) ∷ put d k v

  -- `d.pop(k, None)`
  unfoldable pub remove : Dict V → String → Dict V
  remove [] k = []
  remove ((j, w) ∷ d) k = let rest = remove d k in if j == k then rest else (j, w) ∷ rest

  -- `d.update(e)`
  unfoldable pub update : Dict V → Dict V → Dict V
  unfolding put
  update d [] = d
  update d ((k, v) ∷ e) = update (put d k v) e

  pub get-put :
      (d : Dict V) (k j : String) (v : V) → get (put d k v) j ≡ (if k == j then some v else get d j)
  unfolding get put
  get-put [] k j v = refl
  get-put ((i, w) ∷ d) k j v = ground (arith, eq_iff k j, eq_iff i k, eq_iff i j, get-put d k j v)

  pub get-remove :
      (d : Dict V) (k j : String) → get (remove d k) j ≡ (if k == j then none else get d j)
  unfolding get remove
  get-remove [] k j = ground arith
  get-remove ((i, w) ∷ d) k j = ground (arith, eq_iff k j, eq_iff i k, eq_iff i j, get-remove d k j)

  pub get-put_self : (d : Dict V) (k : String) (v : V) → get (put d k v) k ≡ some v
  get-put_self d k v = simp (get-put, eq_refl)

-- two texts that the test tells apart
pub differ : (a b : String) → (a == b) ≡ false → a ≢ b
differ a b f e = false≢true (sym f ∙ (eq_iff a b).1 e)

module _ {ℓ} {V : Type ℓ} where
  pub get-put_other : (d : Dict V) (j k : String) (v : V) → j ≢ k → get (put d j v) k ≡ get d k
  get-put_other d j k v n = ground (arith, get-put d j k v, eq_iff j k)

module _ {ℓ} {V : Type ℓ} where
  abbrev pub NotIn : String → Dict V → Type 0
  NotIn k [] = Unit
  NotIn k ((j, v) ∷ d) = (k ≢ j) × NotIn k d

  -- no key stands twice, as in every dict of Python
  abbrev pub Distinct : Dict V → Type 0
  Distinct [] = Unit
  Distinct ((k, v) ∷ d) = NotIn k d × Distinct d

  put-put : (d : Dict V) (k : String) (v w : V) → put (put d k w) k v ≡ put d k v
  unfolding put
  put-put [] k v w = ground (arith, eq_iff k k)
  put-put ((j, x) ∷ d) k v w = ground (arith, eq_iff j k, put-put d k v w)

  -- a key that is there keeps its place, so that two writes change places
  put_comm :
      (d : Dict V) (k j : String) (v x : V)
      → k ≢ j
      → get d k ≢ none
      → put (put d j x) k v ≡ put (put d k v) j x
  unfolding put get
  put_comm [] k j v x n h = absurd (h refl)
  put_comm ((i, w) ∷ d) k j v x n h =
      ground (arith, eq_iff i k, eq_iff i j, eq_iff k j, put_comm d k j v x n)

  get-put-ne_none : (d : Dict V) (k j : String) (v : V) → get d k ≢ none → get (put d j v) k ≢ none
  get-put-ne_none d k j v h = ground (arith, get-put d j k v, eq_iff j k)

  put-update :
      (d e : Dict V) (k : String) (v : V)
      → NotIn k e
      → get d k ≢ none
      → put (update d e) k v ≡ update (put d k v) e
  unfolding update
  put-update d [] k v n h = refl
  put-update d ((j, x) ∷ e) k v n h =
      put-update (put d j x) e k v n.1 (get-put-ne_none d k j x h)
      ∙ ap (λ c. update c e) (put_comm d k j v x n.0 h)

  get-put_self-ne_none : (d : Dict V) (k : String) (v : V) → get (put d k v) k ≢ none
  get-put_self-ne_none d k v e = cc (get-put_self d k v)

  put-update_head :
      (d e : Dict V) (j k : String) (x v : V)
      → NotIn j e
      → j ≡ k
      → update (put d j v) e ≡ put (update (put d j x) e) k v
  put-update_head d e j k x v n s =
      ap (λ c. update c e) (sym (put-put d j v x))
      ∙ sym (put-update (put d j x) e j v n (get-put_self-ne_none d j x))
      ∙ ap (λ i. put (update (put d j x) e) i v) s

  -- what is written in an update can be written after it
  pub update-put :
      (d e : Dict V) (k : String) (v : V) → Distinct e → update d (put e k v) ≡ put (update d e) k v
  unfolding update put
  update-put d [] k v n = refl
  update-put d ((j, x) ∷ e) k v n = elim (Bool-cases (j == k)) [
    | inl t ↦ rw t (put-update_head d e j k x v n.0 ((eq_iff j k).0 t))
    | inr f ↦ rw f (update-put (put d j x) e k v n.1)
  ]

module _ {ℓ} {V : Type ℓ} where
  NotIn-put : (d : Dict V) (i k : String) (v : V) → i ≢ k → NotIn i d → NotIn i (put d k v)
  unfolding put
  NotIn-put [] i k v n h = (n, tt)
  NotIn-put ((j, w) ∷ d) i k v n h = elim (Bool-cases (j == k)) [
    | inl t ↦ rw t h
    | inr f ↦ rw f (h.0, NotIn-put d i k v n h.1)
  ]

  pub Distinct-put : (d : Dict V) (k : String) (v : V) → Distinct d → Distinct (put d k v)
  unfolding put
  Distinct-put [] k v h = (tt, tt)
  Distinct-put ((j, w) ∷ d) k v h = elim (Bool-cases (j == k)) [
    | inl t ↦ rw t h
    | inr f ↦
        rw f (
          NotIn-put d j k v (λ e. false≢true (sym f ∙ (eq_iff j k).1 e)) h.0,
          Distinct-put d k v h.1,
        )
  ]

  -- what is found is a value, and where no key stands twice, each value is found
  pub mem_of_get :
      (d : Dict V) (k : String) (v : V) → get d k ≡ some v → Memᴰ v (map (λ kv. kv.1) d)
  unfolding get
  mem_of_get [] k v e = cc
  mem_of_get ((j, w) ∷ d) k v e = elim (Bool-cases (j == k)) [
    | inl t ↦ Memᴰ.head (sym (ap (λ o. elim o [ none ↦ w | some x ↦ x ]) (rw t at e)))
    | inr f ↦ Memᴰ.tail (mem_of_get d k v (rw f at e))
  ]

  get-ne_of_NotIn : (d : Dict V) (i k : String) (v : V) → NotIn i d → get d k ≡ some v → i ≢ k
  unfolding get
  get-ne_of_NotIn [] i k v n e = cc
  get-ne_of_NotIn ((j, w) ∷ d) i k v n e = elim (Bool-cases (j == k)) [
    | inl t ↦ (λ s. n.0 (s ∙ sym ((eq_iff j k).0 t)))
    | inr f ↦ get-ne_of_NotIn d i k v n.1 (rw f at e)
  ]

  pub get_of_mem :
      (d : Dict V) (v : V)
      → Distinct d
      → Memᴰ v (map (λ kv. kv.1) d)
      → (k : String) × (get d k ≡ some v)
  unfolding get
  get_of_mem [] v h m = absurd (Memᴰ.not-nil m)
  get_of_mem ((j, w) ∷ d) v h (Memᴰ.head e) = (j, rw ((eq_iff j j).1 refl) (ap Option.some (sym e)))
  get_of_mem ((j, w) ∷ d) v h (Memᴰ.tail m) =
      let (k, e) = get_of_mem d v h.1 m in
      let other : (j == k) ≡ false = elim (Bool-cases (j == k)) [
        | inl t ↦ absurd (get-ne_of_NotIn d j k v h.0 e ((eq_iff j k).0 t))
        | inr f ↦ f
      ] in
      (k, rw other e)

-- `d.setdefault(k, v)`
unfoldable pub set_default {ℓ} : {V : Type ℓ} → Dict V → String → V → Dict V
unfolding put get
set_default d k v = elim (get d k) [ none ↦ put d k v | some w ↦ d ]
