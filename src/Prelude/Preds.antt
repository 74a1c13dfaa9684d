-- ===== src/Prelude/Preds.antt =====
-- Predicates on the elements of a list, by recursion, and the loops that decide them.
use mathlib.Core.Path.{◌≡◌, refl}
use mathlib.Core.Logic.{◌↔◌, ◌⊎◌}
use mathlib.Core.Option.{some}
use mathlib.Core.Bool.{Bool, true}
use mathlib.Core.List.{List, [], ◌∷◌, ◌++◌, map}
use native.Mathlib.Omega.{arith}
use capper.Prelude.Tests.{or_iff}
use capper.Prelude.Lists.{any, find, keep}

module _ {ℓ} {A : Type ℓ} where
  abbrev pub All : (A → Type 0) → List A → Type 0
  All P [] = Unit {0}
  All P (x ∷ xs) = P x × All P xs

  abbrev pub Any : (A → Type 0) → List A → Type 0
  Any P [] = ⊥
  Any P (x ∷ xs) = P x ⊎ Any P xs

  pub any_iff :
      (f : A → Bool) (P : A → Type 0)
      → ((x : A) → (f x ≡ true) ↔ P x)
      → (xs : List A) → (any f xs ≡ true) ↔ Any P xs
  any_iff f P h [] = ((λ e. cc), (λ e. absurd e))
  any_iff f P h (x ∷ xs) = ground (arith, h x, any_iff f P h xs, or_iff (f x) (any f xs))

  pub All-map : (P Q : A → Type 0) → ((x : A) → P x → Q x) → (xs : List A) → All P xs → All Q xs
  All-map P Q h [] a = tt
  All-map P Q h (x ∷ xs) a = (h x a.0, All-map P Q h xs a.1)

  pub keep-All : (f : A → Bool) (P : A → Type 0) (xs : List A) → All P xs → All P (keep f xs)
  keep-All f P [] a = tt
  keep-All f P (x ∷ xs) a = ground (arith, keep-All f P xs a.1)

  -- What a filter keeps passes its test.
  pub keep-passes : (f : A → Bool) (xs : List A) → All (λ x. f x ≡ true) (keep f xs)
  keep-passes f [] = tt
  keep-passes f (x ∷ xs) = ground (arith, keep-passes f xs)

  pub All-append : (P : A → Type 0) (xs ys : List A) → All P xs → All P ys → All P (xs ++ ys)
  All-append P [] ys a b = b
  All-append P (x ∷ xs) ys a b = (a.0, All-append P xs ys a.1 b)

  pub find-passes : (f : A → Bool) (xs : List A) (x : A) → find f xs ≡ some x → f x ≡ true
  find-passes f [] x e = ground arith
  find-passes f (y ∷ ys) x e = ground (arith, find-passes f ys x)

  pub find-All :
      (f : A → Bool) (P : A → Type 0) (xs : List A) (x : A)
      → All P xs
      → find f xs ≡ some x
      → P x × (f x ≡ true)
  find-All f P [] x a e = ground arith
  find-All f P (y ∷ ys) x a e = ground (arith, find-All f P ys x a.1)

  pub map-All :
      (P : A → Type 0) (g : A → A)
      → ((x : A) → P x → P (g x))
      → (xs : List A) → All P xs
      → All P (map g xs)
  map-All P g h [] a = tt
  map-All P g h (x ∷ xs) a = (h x a.0, map-All P g h xs a.1)

  pub any-map :
      (f : A → Bool) (g : A → A)
      → ((x : A) → f (g x) ≡ f x)
      → (xs : List A) → any f (map g xs) ≡ any f xs
  any-map f g h [] = refl
  any-map f g h (x ∷ xs) = rw (h x, any-map f g h xs) refl
