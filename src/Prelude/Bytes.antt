-- ===== src/Prelude/Bytes.antt =====
-- Go strings whose bytes the program looks at, as lists of numbers: `strings.HasPrefix`,
-- `strings.HasSuffix`, `==` and `strings.Index` of one byte.
use Prim.Native.Char.{code}
use Prim.Native.String.{String}
use Prim.Native.Nat.{ℕ, ◌-◌}
use mathlib.Core.Path.{◌≡◌, refl, sym, ap, ◌∙◌}
use mathlib.Core.Logic.{◌↔◌, ◌≢◌}
use mathlib.Core.Bool.{Bool, true, false, ◌&&◌}
use mathlib.Core.List.{List, [], ◌∷◌, ◌++◌}
use mathlib.Core.Option.{Option, none, some}
use native.Mathlib.Omega.{arith}
use capper.Prelude.Tests.{if◌then◌else◌, ◌==◌, leb, le→leb, and_iff}
use capper.Prelude.Lists.{length, take, drop, length-append, take-append-drop}

abbrev pub Bytes : Type 0
Bytes = List ℕ

abbrev pub codes : String → Bytes
codes String.[] = []
codes (String.◌∷◌ c s) = code c ∷ codes s

unfoldable pub bytes_eq : Bytes → Bytes → Bool
bytes_eq [] [] = true
bytes_eq [] (y ∷ ys) = false
bytes_eq (x ∷ xs) [] = false
bytes_eq (x ∷ xs) (y ∷ ys) = (x == y) && bytes_eq xs ys

pub bytes_eq_iff : (a b : Bytes) → (bytes_eq a b ≡ true) ↔ (a ≡ b)
unfolding bytes_eq
bytes_eq_iff [] [] = ground arith
bytes_eq_iff [] (y ∷ ys) = ground arith
bytes_eq_iff (x ∷ xs) [] = ground arith
bytes_eq_iff (x ∷ xs) (y ∷ ys) = ground (arith, bytes_eq_iff xs ys)

unfoldable pub has_prefix : Bytes → Bytes → Bool
has_prefix s [] = true
has_prefix [] (p ∷ ps) = false
has_prefix (x ∷ xs) (p ∷ ps) = (x == p) && has_prefix xs ps

pub has_prefix-append : (p r : Bytes) → has_prefix (p ++ r) p ≡ true
unfolding has_prefix
has_prefix-append [] [] = refl
has_prefix-append [] (y ∷ r) = refl
has_prefix-append (x ∷ p) r = ground (arith, has_prefix-append p r)

pub has_prefix_rest : (s p : Bytes) → has_prefix s p ≡ true → s ≡ p ++ drop (length p) s
unfolding has_prefix
has_prefix_rest [] [] h = refl
has_prefix_rest (x ∷ s) [] h = refl
has_prefix_rest [] (y ∷ p) h = cc
has_prefix_rest (x ∷ s) (y ∷ p) h = ground (arith, has_prefix_rest s p)

-- `len(s) >= len(suffix) && s[len(s)-len(suffix):] == suffix`
unfoldable pub has_suffix : Bytes → Bytes → Bool
has_suffix s suffix =
    leb (length suffix) (length s) && bytes_eq (drop (length s - length suffix) s) suffix

drop-append : (q t : Bytes) → drop (length (q ++ t) - length t) (q ++ t) ≡ t
drop-append q t =
    let e : length (q ++ t) - length t ≡ length q = omega (arith, length-append q t) in rw e (go q)
  where
    go : (q : Bytes) → drop (length q) (q ++ t) ≡ t
    go [] = refl
    go (x ∷ q) = go q

pub has_suffix-append : (q t : Bytes) → has_suffix (q ++ t) t ≡ true
unfolding has_suffix
has_suffix-append q t =
    (and_iff _ _).1
      (le→leb _ _ (omega (arith, length-append q t)), (bytes_eq_iff _ t).1 (drop-append q t))

-- A string with a suffix is what precedes it, then the suffix.
pub has_suffix_rest : (s t : Bytes) → has_suffix s t ≡ true → s ≡ take (length s - length t) s ++ t
unfolding has_suffix
has_suffix_rest s t h =
    let e = (bytes_eq_iff (drop (length s - length t) s) t).0 ((and_iff _ _).0 h).1 in
    sym (take-append-drop (length s - length t) s) ∙ ap (λ r. take (length s - length t) s ++ r) e

pub take_of_append : (q t : Bytes) → take (length (q ++ t) - length t) (q ++ t) ≡ q
take_of_append q t =
    let e : length (q ++ t) - length t ≡ length q = omega (arith, length-append q t) in rw e (go q)
  where
    go : (q : Bytes) → take (length q) (q ++ t) ≡ q
    go [] = refl
    go (x ∷ q) = ap (λ r. x ∷ r) (go q)

-- The text before the first `sep`, and the text after it where there is one.
unfoldable pub cut : ℕ → Bytes → Bytes × Option Bytes
cut sep [] = ([], none)
cut sep (c ∷ cs) = if c == sep then ([], some cs) else (c ∷ (cut sep cs).0, (cut sep cs).1)

-- No byte of the text is `sep`.
abbrev pub Free : ℕ → Bytes → Type 0
Free sep [] = Unit {0}
Free sep (c ∷ cs) = (c ≢ sep) × Free sep cs

pub cut-append : (sep : ℕ) (a b : Bytes) → Free sep a → cut sep (a ++ sep ∷ b) ≡ (a, some b)
unfolding cut
cut-append sep [] b f = ground arith
cut-append sep (c ∷ a) b f = ground (arith, cut-append sep a b f.1, f.0)

pub cut-Free : (sep : ℕ) (a : Bytes) → Free sep a → cut sep a ≡ (a, none)
unfolding cut
cut-Free sep [] f = refl
cut-Free sep (c ∷ a) f = ground (arith, cut-Free sep a f.1, f.0)
