-- ===== src/Prelude/Sort.antt =====
-- Python's `sorted`, which is stable, over a test `le` that compares keys.
use mathlib.Core.Path.{◌≡◌}
use mathlib.Core.Logic.{inl, inr}
use mathlib.Core.Bool.{Bool, true, false}
use mathlib.Core.List.{List, [], ◌∷◌, Perm, Memᴰ}
use mathlib.Core.List.Perm
use bubble_hub.Prelude.Tests.{Bool-cases, if◌then◌else◌}
use bubble_hub.Prelude.Lists.{All}

-- a linear preorder
pub record IsLinear {ℓ} {A : Type ℓ} (le : A → A → Bool) : Type ℓ where
  pub total : (a b : A) → le a b ≡ false → le b a ≡ true
  pub trans : (a b c : A) → le a b ≡ true → le b c ≡ true → le a c ≡ true

module _ {ℓ} {A : Type ℓ} (le : A → A → Bool) where
  unfoldable pub insert : A → List A → List A
  insert x [] = x ∷ []
  insert x (y ∷ ys) = if le x y then x ∷ y ∷ ys else y ∷ insert x ys

  unfoldable pub sorted : List A → List A
  unfolding insert
  sorted [] = []
  sorted (x ∷ xs) = insert x (sorted xs)

  abbrev pub IsSorted : List A → Type ℓ
  IsSorted [] = Unit
  IsSorted (x ∷ xs) = All (λ y. le x y ≡ true) xs × IsSorted xs

  insert-perm : (x : A) (xs : List A) → Perm (insert x xs) (x ∷ xs)
  unfolding insert
  insert-perm x [] = Perm.refl (x ∷ [])
  insert-perm x (y ∷ ys) = elim (Bool-cases (le x y)) [
    | inl t ↦ rw t (Perm.refl (x ∷ y ∷ ys))
    | inr f ↦ rw f (Perm.trans (Perm.cons y (insert-perm x ys)) (Perm.swap x y ys))
  ]

  pub sorted-perm : (xs : List A) → Perm (sorted xs) xs
  unfolding sorted
  sorted-perm [] = Perm.refl []
  sorted-perm (x ∷ xs) = Perm.trans (insert-perm x (sorted xs)) (Perm.cons x (sorted-perm xs))

  All-insert {κ} : (P : A → Type κ) (x : A) (xs : List A) → P x → All P xs → All P (insert x xs)
  unfolding insert
  All-insert P x [] p h = (p, h)
  All-insert P x (y ∷ ys) p h = elim (Bool-cases (le x y)) [
    | inl t ↦ rw t (p, h)
    | inr f ↦ rw f (h.0, All-insert P x ys p h.1)
  ]

  pub All-sorted {κ} : (P : A → Type κ) (xs : List A) → All P xs → All P (sorted xs)
  unfolding sorted
  All-sorted P [] h = h
  All-sorted P (x ∷ xs) h = All-insert P x (sorted xs) h.0 (All-sorted P xs h.1)

  All-le_trans :
      (lin : IsLinear le) (x y : A) (xs : List A)
      → le x y ≡ true
      → All (λ z. le y z ≡ true) xs
      → All (λ z. le x z ≡ true) xs
  All-le_trans lin x y [] h k = tt
  All-le_trans lin x y (z ∷ xs) h k = (lin.trans x y z h k.0, All-le_trans lin x y xs h k.1)

  insert-IsSorted : (lin : IsLinear le) (x : A) (xs : List A) → IsSorted xs → IsSorted (insert x xs)
  unfolding insert
  insert-IsSorted lin x [] s = (tt, tt)
  insert-IsSorted lin x (y ∷ ys) s = elim (Bool-cases (le x y)) [
    | inl t ↦ rw t ((t, All-le_trans lin x y ys t s.0), s)
    | inr f ↦
        rw f
          (All-insert (λ z. le y z ≡ true) x ys (lin.total x y f) s.0, insert-IsSorted lin x ys s.1)
  ]

  pub sorted-IsSorted : (lin : IsLinear le) (xs : List A) → IsSorted (sorted xs)
  unfolding sorted
  sorted-IsSorted lin [] = tt
  sorted-IsSorted lin (x ∷ xs) = insert-IsSorted lin x (sorted xs) (sorted-IsSorted lin xs)

  Memᴰ-insert_head : (x : A) (xs : List A) {a : A} → a ≡ x → Memᴰ a (insert x xs)
  unfolding insert
  Memᴰ-insert_head x [] e = Memᴰ.head e
  Memᴰ-insert_head x (y ∷ ys) e = elim (Bool-cases (le x y)) [
    | inl t ↦ rw t (Memᴰ.head e)
    | inr f ↦ rw f (Memᴰ.tail (Memᴰ-insert_head x ys e))
  ]

  Memᴰ-insert_tail : (x : A) {a : A} {xs : List A} → Memᴰ a xs → Memᴰ a (insert x xs)
  unfolding insert
  Memᴰ-insert_tail x (Memᴰ.head {x = y} e) = elim (Bool-cases (le x y)) [
    | inl t ↦ rw t (Memᴰ.tail (Memᴰ.head e))
    | inr f ↦ rw f (Memᴰ.head e)
  ]
  Memᴰ-insert_tail x (Memᴰ.tail {x = y} m) = elim (Bool-cases (le x y)) [
    | inl t ↦ rw t (Memᴰ.tail (Memᴰ.tail m))
    | inr f ↦ rw f (Memᴰ.tail (Memᴰ-insert_tail x m))
  ]

  pub mem-sorted_of_mem : {a : A} {xs : List A} → Memᴰ a xs → Memᴰ a (sorted xs)
  unfolding sorted
  mem-sorted_of_mem (Memᴰ.head {x = x} {xs = xs} e) = Memᴰ-insert_head x (sorted xs) e
  mem-sorted_of_mem (Memᴰ.tail {x = x} m) = Memᴰ-insert_tail x (mem-sorted_of_mem m)

  mem_of_mem-insert : (x : A) (xs : List A) {a : A} → Memᴰ a (insert x xs) → Memᴰ a (x ∷ xs)
  unfolding insert
  mem_of_mem-insert x [] m = m
  mem_of_mem-insert x (y ∷ ys) {a} m = elim (Bool-cases (le x y)) [
    | inl t ↦ rw t at m
    | inr f ↦ swap (mem_of_mem-insert x ys) (rw f at m)
  ]
    where
      under : Memᴰ a (x ∷ ys) → Memᴰ a (x ∷ y ∷ ys)
      under (Memᴰ.head e) = Memᴰ.head e
      under (Memᴰ.tail r) = Memᴰ.tail (Memᴰ.tail r)

      swap :
          (Memᴰ a (insert x ys) → Memᴰ a (x ∷ ys)) → Memᴰ a (y ∷ insert x ys) → Memᴰ a (x ∷ y ∷ ys)
      swap f (Memᴰ.head e) = Memᴰ.tail (Memᴰ.head e)
      swap f (Memᴰ.tail r) = under (f r)

  pub mem_of_mem-sorted : (xs : List A) {a : A} → Memᴰ a (sorted xs) → Memᴰ a xs
  unfolding sorted
  mem_of_mem-sorted [] m = m
  mem_of_mem-sorted (x ∷ xs) {a} m = step (mem_of_mem-sorted xs) (mem_of_mem-insert x (sorted xs) m)
    where
      step : (Memᴰ a (sorted xs) → Memᴰ a xs) → Memᴰ a (x ∷ sorted xs) → Memᴰ a (x ∷ xs)
      step f (Memᴰ.head e) = Memᴰ.head e
      step f (Memᴰ.tail r) = Memᴰ.tail (f r)
