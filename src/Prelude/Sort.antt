-- ===== src/Prelude/Sort.antt =====
-- Insertion sort on a slice: each element is swapped towards the front while it belongs before its
-- neighbour. The sorted front of the slice is kept from its last element on.
use mathlib.Core.Path.{◌≡◌, refl}
use mathlib.Core.Bool.{Bool, true, false}
use mathlib.Core.List.{List, [], ◌∷◌, ◌++◌, Perm, perm_middle, append-nil}
use mathlib.Core.List.Perm
use native.Mathlib.Omega.{arith}
use capper.Prelude.Lists.{length}
use Prim.Native.Nat.{suc, ◌+◌}
use capper.Prelude.Tests.{if◌then◌else◌, Bool-cases}
use capper.Prelude.Preds.{All, All-map}
use mathlib.Core.Logic.{inl, inr}

module _ {ℓ} {A : Type ℓ} (less : A → A → Bool) where
  unfoldable pub sink : A → List A → List A
  sink x [] = x ∷ []
  sink x (y ∷ ys) = let rest = sink x ys in if less x y then y ∷ rest else x ∷ y ∷ ys

  unfoldable pub sink_all : List A → List A → List A
  sink_all front [] = front
  sink_all front (x ∷ xs) = sink_all (sink x front) xs

module _ {ℓ} {A : Type ℓ} where
  unfoldable pub rev_onto : List A → List A → List A
  rev_onto [] acc = acc
  rev_onto (x ∷ xs) acc = rev_onto xs (x ∷ acc)

  unfoldable pub insertion_sort : (A → A → Bool) → List A → List A
  unfolding sink sink_all rev_onto
  insertion_sort less xs = rev_onto (sink_all less [] xs) []

  rev_onto-perm : (xs acc : List A) → Perm (rev_onto xs acc) (xs ++ acc)
  unfolding rev_onto
  rev_onto-perm [] acc = Perm.refl acc
  rev_onto-perm (x ∷ xs) acc = Perm.trans (rev_onto-perm xs (x ∷ acc)) (perm_middle xs acc)

  length-rev_onto : (xs acc : List A) → length (rev_onto xs acc) ≡ length xs + length acc
  unfolding rev_onto
  length-rev_onto [] acc = omega arith
  length-rev_onto (x ∷ xs) acc = omega (arith, length-rev_onto xs (x ∷ acc))

  -- In a sorted slice every later element may stand behind every earlier one.
  abbrev pub Sorted : (A → A → Type 0) → List A → Type 0
  Sorted R [] = Unit {0}
  Sorted R (x ∷ xs) = All (R x) xs × Sorted R xs

  rev_onto-Sorted :
      (R : A → A → Type 0) (xs acc : List A)
      → Sorted (λ a b. R b a) xs
      → Sorted R acc
      → All (λ x. All (R x) acc) xs
      → Sorted R (rev_onto xs acc)
  unfolding rev_onto
  rev_onto-Sorted R [] acc s t c = t
  rev_onto-Sorted R (x ∷ xs) acc s t c =
      rev_onto-Sorted R xs (x ∷ acc) s.1 (c.0, t) (zip_all xs s.0 c.1)
    where
      zip_all :
          (ys : List A)
          → All (λ y. R y x) ys
          → All (λ y. All (R y) acc) ys
          → All (λ y. R y x × All (R y) acc) ys
      zip_all [] a b = tt
      zip_all (y ∷ ys) a b = ((a.0, b.0), zip_all ys a.1 b.1)

module _ {ℓ} {A : Type ℓ} (less : A → A → Bool) where
  sink-perm : (x : A) (ys : List A) → Perm (sink less x ys) (x ∷ ys)
  unfolding sink
  sink-perm x [] = Perm.refl (x ∷ [])
  sink-perm x (y ∷ ys) = elim (Bool-cases (less x y)) [
    | inl e ↦ rw e (Perm.trans (Perm.cons y (sink-perm x ys)) (Perm.swap x y ys))
    | inr e ↦ rw e (Perm.refl (x ∷ y ∷ ys))
  ]

  sink_all-perm : (front xs : List A) → Perm (sink_all less front xs) (front ++ xs)
  unfolding sink_all
  sink_all-perm front [] = rw (append-nil front) (Perm.refl front)
  sink_all-perm front (x ∷ xs) =
      Perm.trans (sink_all-perm (sink less x front) xs)
        (Perm.trans (Perm.append_right xs (sink-perm x front)) (Perm.symm (perm_middle front xs)))

  length-sink : (x : A) (ys : List A) → length (sink less x ys) ≡ suc (length ys)
  unfolding sink
  length-sink x [] = refl
  length-sink x (y ∷ ys) = ground (arith, length-sink x ys)

  length-sink_all : (front xs : List A) → length (sink_all less front xs) ≡ length front + length xs
  unfolding sink_all
  length-sink_all front [] = omega arith
  length-sink_all front (x ∷ xs) =
      omega (arith, length-sink_all (sink less x front) xs, length-sink x front)

  pub length-insertion_sort : (xs : List A) → length (insertion_sort less xs) ≡ length xs
  unfolding insertion_sort
  length-insertion_sort xs =
      omega (arith, length-rev_onto (sink_all less [] xs) [], length-sink_all [] xs)

  pub insertion_sort-perm : (xs : List A) → Perm (insertion_sort less xs) xs
  unfolding insertion_sort
  insertion_sort-perm xs =
      Perm.trans (rev_onto-perm (sink_all less [] xs) [])
        (rw (append-nil (sink_all less [] xs)) (sink_all-perm [] xs))

  sink-All : (P : A → Type 0) (x : A) (ys : List A) → P x → All P ys → All P (sink less x ys)
  unfolding sink
  sink-All P x [] p a = (p, tt)
  sink-All P x (y ∷ ys) p a = ground (arith, sink-All P x ys p a.1)

  module _ (R : A → A → Type 0) (before : (x y : A) → less x y ≡ true → R x y)
      (after : (x y : A) → less x y ≡ false → R y x)
      (trans : (x y z : A) → R x y → R y z → R x z) where
    sink-Sorted :
        (x : A) (ys : List A) → Sorted (λ a b. R b a) ys → Sorted (λ a b. R b a) (sink less x ys)
    unfolding sink
    sink-Sorted x [] s = (tt, tt)
    sink-Sorted x (y ∷ ys) s = elim (Bool-cases (less x y)) [
      | inl e ↦ rw e (sink-All (λ b. R b y) x ys (before x y e) s.0, sink-Sorted x ys s.1)
      | inr e ↦ rw e (
        (
          after x y e,
          All-map (λ b. R b y) (λ b. R b x) (λ b r. trans b y x r (after x y e)) ys s.0,
        ),
        s,
      )
    ]

    sink_all-Sorted :
        (front xs : List A)
        → Sorted (λ a b. R b a) front
        → Sorted (λ a b. R b a) (sink_all less front xs)
    unfolding sink_all
    sink_all-Sorted front [] s = s
    sink_all-Sorted front (x ∷ xs) s =
        sink_all-Sorted (sink less x front) xs (sink-Sorted x front s)

    nothing_behind : (xs : List A) → All (λ x. All (R x) []) xs
    nothing_behind [] = tt
    nothing_behind (x ∷ xs) = (tt, nothing_behind xs)

    pub insertion_sort-Sorted : (xs : List A) → Sorted R (insertion_sort less xs)
    unfolding insertion_sort
    insertion_sort-Sorted xs =
        rev_onto-Sorted R (sink_all less [] xs) [] (sink_all-Sorted [] xs tt) tt
          (nothing_behind (sink_all less [] xs))

module _ {ℓ} {A : Type ℓ} (P : A → Type 0) where
  sink_all-All :
      (less : A → A → Bool) (xs front : List A)
      → All P front
      → All P xs
      → All P (sink_all less front xs)
  unfolding sink_all
  sink_all-All less [] front a b = a
  sink_all-All less (x ∷ xs) front a b =
      sink_all-All less xs (sink less x front) (sink-All less P x front b.0 a) b.1

  rev_onto-All : (xs acc : List A) → All P xs → All P acc → All P (rev_onto xs acc)
  unfolding rev_onto
  rev_onto-All [] acc a b = b
  rev_onto-All (x ∷ xs) acc a b = rev_onto-All xs (x ∷ acc) a.1 (a.0, b)

  pub insertion_sort-All :
      (less : A → A → Bool) (xs : List A) → All P xs → All P (insertion_sort less xs)
  unfolding insertion_sort
  insertion_sort-All less xs a =
      rev_onto-All (sink_all less [] xs) [] (sink_all-All less xs [] tt a) tt
