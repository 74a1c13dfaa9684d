-- ===== src/Prelude/Action.antt =====
-- Calls that take a state and leave one, and end in a value or in an error.
use mathlib.Core.Bool.{Bool, true, false}

pub data Result (E A : Type 0) : Type 0 where
  ok : A → Result E A
  err : E → Result E A

abbrev pub M : Type 0 → Type 0 → Type 0 → Type 0
M S E A = S → Result E A × S

abbrev pub bound : {S E A B : Type 0} → Result E A × S → (A → M S E B) → Result E B × S
bound (ok a, s) k = k a s
bound (err e, s) k = (err e, s)

infixl 5 ◌>>=◌ ◌>>◌
abbrev pub ◌>>=◌ : {S E A B : Type 0} → M S E A → (A → M S E B) → M S E B
◌>>=◌ m k s = bound (m s) k

abbrev pub ◌>>◌ : {S E B : Type 0} → M S E (Unit {0}) → M S E B → M S E B
◌>>◌ m k s = bound (m s) (λ _. k)

abbrev pub pure : {S E A : Type 0} → A → M S E A
pure a s = (ok a, s)

-- A statement that changes the state, and a query, each with whether it fails.
abbrev pub statement : {S E : Type 0} → Bool → E → (S → S) → M S E (Unit {0})
statement true e change s = (err e, s)
statement false e change s = (ok tt, change s)

abbrev pub ask : {S E A : Type 0} → Bool → E → (S → Result E A) → M S E A
ask true e answer s = (err e, s)
ask false e answer s = (answer s, s)
