-- ===== src/Prelude/Triple.antt =====
-- What a call leaves behind: a condition before it, one for each result after it, and one invariant for every error.
use capper.Prelude.Action.{M, Result, ok, err, ◌>>=◌, ◌>>◌, bound}

module _ {S E : Type 0} (I : S → Type 0) where
  abbrev pub Post : {A : Type 0} → (A → S → Type 0) → Result E A × S → Type 0
  Post Q (ok a, s) = Q a s
  Post Q (err e, s) = I s

  pub record Triple {A : Type 0} (P : S → Type 0) (m : M S E A) (Q : A → S → Type 0) : Type 0 where
    pub holds : (s : S) → P s → Post Q (m s)

  Post-bound :
      {A B : Type 0} (Q : A → S → Type 0) (R : B → S → Type 0) (k : A → M S E B)
      (r : Result E A × S)
      → Post Q r
      → ((a : A) (s : S) → Q a s → Post R (k a s))
      → Post R (bound r k)
  Post-bound Q R k (ok a, s) h next = next a s h
  Post-bound Q R k (err e, s) h next = h

  pub bind-Triple :
      {A B : Type 0} {P : S → Type 0} (Q : A → S → Type 0) {R : B → S → Type 0} {m : M S E A}
      {k : A → M S E B}
      → Triple P m Q
      → ((a : A) → Triple (Q a) (k a) R)
      → Triple P (m >>= k) R
  bind-Triple Q {R} {m} {k} first next = record {
    holds = λ s h. Post-bound Q R k (m s) (first.holds s h) (λ a. (next a).holds);
  }

  pub then-Triple :
      {B : Type 0} {P : S → Type 0} (Q : S → Type 0) {R : B → S → Type 0} {m : M S E (Unit {0})}
      {k : M S E B}
      → Triple P m (λ _. Q)
      → Triple Q k R
      → Triple P (m >> k) R
  then-Triple Q {R} {m} {k} first next = record {
    holds = λ s h. Post-bound (λ _. Q) R (λ _. k) (m s) (first.holds s h) (λ _. next.holds);
  }

  Post-left :
      {A : Type 0} (Q : S → Type 0)
      → ((s : S) → Q s → I s)
      → (r : Result E A × S) → Q r.1
      → Post (λ _. Q) r
  Post-left Q weaken (ok a, s) h = h
  Post-left Q weaken (err e, s) h = weaken s h

  pub state-Triple :
      {A : Type 0} {P : S → Type 0} (Q : S → Type 0) {m : M S E A}
      → ((s : S) → Q s → I s)
      → ((s : S) → P s → Q (m s).1)
      → Triple P m (λ _. Q)
  state-Triple Q {m} weaken keeps = record { holds = λ s h. Post-left Q weaken (m s) (keeps s h) }

  -- Whichever way the call ends.
  Post-state : {A : Type 0} (r : Result E A × S) → Post (λ _. I) r → I r.1
  Post-state (ok a, s) h = h
  Post-state (err e, s) h = h

  pub state-after : {A : Type 0} (m : M S E A) → Triple I m (λ _. I) → (s : S) → I s → I (m s).1
  state-after m t s h = Post-state (m s) (t.holds s h)
