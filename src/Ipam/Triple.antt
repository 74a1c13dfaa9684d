-- ===== src/Ipam/Triple.antt =====
-- What a call over the tables leaves behind: a condition before it, one for each result after it, and one
-- invariant for every error. Rules for the ways in which internal/ipam/manager.go puts calls together.
use capper.Prelude.{if◌then◌else◌, List, Bool, true, false, ◌≡◌, refl, Option, none, some}
use capper.Ipam.{Db}
use capper.Ipam.Tables.{
  Error, no_rows, duplicate, exec, Result, ok, err, M, bound, ◌>>=◌, ◌>>◌, pure, fail, refuse_if,
  dropped, ignored, reworded, or_else, emptied, or_none, if◌run◌or◌, query,
}
use capper.Ipam.Manager.{missing, optional}

module _ (I : Db → Type 0) where
  abbrev pub Post : {A : Type 0} → (A → Db → Type 0) → Result A × Db → Type 0
  Post Q (ok a, db) = Q a db
  Post Q (err e, db) = I db

  pub record Triple {A : Type 0} (P : Db → Type 0) (m : M A) (Q : A → Db → Type 0) : Type 0 where
    pub holds : (db : Db) → P db → Post Q (m db)

  Post-bound :
      {A B : Type 0} (Q : A → Db → Type 0) (R : B → Db → Type 0) (k : A → M B) (r : Result A × Db)
      → Post Q r
      → ((a : A) (db : Db) → Q a db → Post R (k a db))
      → Post R (bound r k)
  Post-bound Q R k (ok a, db) h next = next a db h
  Post-bound Q R k (err e, db) h next = h

  pub bind-Triple :
      {A B : Type 0} {P : Db → Type 0} (Q : A → Db → Type 0) {R : B → Db → Type 0} {m : M A}
      {k : A → M B}
      → Triple P m Q
      → ((a : A) → Triple (Q a) (k a) R)
      → Triple P (m >>= k) R
  unfolding ◌>>=◌
  bind-Triple Q {R} {m} {k} first next = record {
    holds = λ db h. Post-bound Q R k (m db) (first.holds db h) (λ a. (next a).holds);
  }

  -- A step that keeps the invariant and tells something of its result.
  pub step-Triple :
      {A B : Type 0} {F : A → Type 0} {R : B → Db → Type 0} {m : M A} {k : A → M B}
      → Triple I m (λ a db. I db × F a)
      → ((a : A) → F a → Triple I (k a) R)
      → Triple I (m >>= k) R
  unfolding ◌>>=◌
  step-Triple {F} {R} {m} {k} first next = record {
    holds = λ db h.
        Post-bound (λ a db. I db × F a) R k (m db) (first.holds db h)
          (λ a db p. (next a p.1).holds db p.0);
  }

  pub then-Triple :
      {B : Type 0} {P : Db → Type 0} (S : Db → Type 0) {R : B → Db → Type 0} {m : M (Unit {0})}
      {k : M B}
      → Triple P m (λ _. S)
      → Triple S k R
      → Triple P (m >> k) R
  unfolding ◌>>◌
  then-Triple S {R} {m} {k} first next = record {
    holds = λ db h. Post-bound (λ _. S) R (λ _. k) (m db) (first.holds db h) (λ _. next.holds);
  }

  pub guard-Triple :
      {B : Type 0} {P : Db → Type 0} {R : B → Db → Type 0} {k : M B} (b : Bool) (e : Error)
      → ((db : Db) → P db → I db)
      → (b ≡ false → Triple P k R)
      → Triple P (refuse_if b e >> k) R
  unfolding ◌>>◌ refuse_if pure fail
  guard-Triple true e weaken next = record { holds = weaken }
  guard-Triple false e weaken next = record { holds = (next refl).holds }

  pub if-Triple :
      {B : Type 0} {P : Db → Type 0} {R : B → Db → Type 0} {m k : M B} (b : Bool)
      → (b ≡ true → Triple P m R)
      → (b ≡ false → Triple P k R)
      → Triple P (if b run m or k) R
  unfolding if◌run◌or◌
  if-Triple true first second = first refl
  if-Triple false first second = second refl

  Post-weaken :
      {A : Type 0} (Q R : A → Db → Type 0) (r : Result A × Db)
      → ((a : A) (db : Db) → Q a db → R a db)
      → Post Q r
      → Post R r
  Post-weaken Q R (ok a, db) k h = k a db h
  Post-weaken Q R (err e, db) k h = h

  pub weaken-Triple :
      {A : Type 0} {P : Db → Type 0} {Q R : A → Db → Type 0} {m : M A}
      → Triple P m Q
      → ((a : A) (db : Db) → Q a db → R a db)
      → Triple P m R
  weaken-Triple {P} {Q} {R} {m} t k = record {
    holds = λ db h. Post-weaken Q R (m db) k (t.holds db h);
  }

  pub pure-Triple :
      {A : Type 0} {P : Db → Type 0} {Q : A → Db → Type 0} (a : A)
      → ((db : Db) → P db → Q a db)
      → Triple P (pure a) Q
  unfolding pure
  pure-Triple a h = record { holds = h }

  pub fail-Triple :
      {A : Type 0} {P : Db → Type 0} {Q : A → Db → Type 0} (e : Error)
      → ((db : Db) → P db → I db)
      → Triple P (fail {A = A} e) Q
  unfolding fail
  fail-Triple e h = record { holds = h }

  Post-dropped : (r : Result (Unit {0}) × Db) → Post (λ _. I) r → Post (λ _. I) (dropped r)
  Post-dropped (ok a, db) h = h
  Post-dropped (err e, db) h = h

  pub ignored-Triple :
      {P : Db → Type 0} {m : M (Unit {0})} → Triple P m (λ _. I) → Triple P (ignored m) (λ _. I)
  unfolding ignored
  ignored-Triple {P} {m} t = record { holds = λ db h. Post-dropped (m db) (t.holds db h) }

  Post-reworded :
      {A : Type 0} (Q : A → Db → Type 0) (e : Error) (r : Result A × Db)
      → Post Q r
      → Post Q (reworded e r)
  Post-reworded Q e (ok a, db) h = h
  Post-reworded Q e (err _, db) h = h

  pub or_else-Triple :
      {A : Type 0} {P : Db → Type 0} {Q : A → Db → Type 0} {m : M A} (e : Error)
      → Triple P m Q
      → Triple P (or_else m e) Q
  unfolding or_else
  or_else-Triple {A} {P} {Q} {m} e t = record {
    holds = λ db h. Post-reworded Q e (m db) (t.holds db h);
  }

  Post-emptied :
      {A : Type 0} (r : Result (List A) × Db)
      → Post (λ a db. I db × Unit {0}) r
      → Post (λ a db. I db × Unit {0}) (emptied r)
  Post-emptied (ok a, db) h = h
  Post-emptied (err _, db) h = (h, tt)

  pub or_none-Triple :
      {A : Type 0} {P : Db → Type 0} {m : M (List A)}
      → Triple P m (λ a db. I db × Unit {0})
      → Triple P (or_none m) (λ a db. I db × Unit {0})
  unfolding or_none
  or_none-Triple {P} {m} t = record { holds = λ db h. Post-emptied (m db) (t.holds db h) }

  Post-missing :
      {A B : Type 0} (F : A → Type 0) (R : B → Db → Type 0) (k : Option A → M B) (r : Result A × Db)
      → Post (λ a db. I db × F a) r
      → ((a : A) → F a → Triple I (k (some a)) R)
      → Triple I (k none) R
      → Post R (bound (missing r) k)
  Post-missing F R k (ok a, db) h one zero = (one a h.1).holds db h.0
  Post-missing F R k (err no_rows, db) h one zero = zero.holds db h
  Post-missing F R k (err e, db) h one zero = h

  -- A row that is looked up, and what is done where there is none.
  pub optional-Triple :
      {A B : Type 0} {F : A → Type 0} {R : B → Db → Type 0} {m : M A} (k : Option A → M B)
      → Triple I m (λ a db. I db × F a)
      → ((a : A) → F a → Triple I (k (some a)) R)
      → Triple I (k none) R
      → Triple I (optional m >>= k) R
  unfolding ◌>>=◌ optional
  optional-Triple {F} {R} {m} k t one zero = record {
    holds = λ db h. Post-missing F R k (m db) (t.holds db h) one zero;
  }

  -- A query changes nothing; its answer is what the tables say.
  pub query-Triple :
      {A : Type 0} {P : Db → Type 0} {Q : A → Db → Type 0} (down : Bool) (answer : Db → Result A)
      → ((db : Db) → P db → I db)
      → ((db : Db) (a : A) → P db → answer db ≡ ok a → Q a db)
      → Triple P (query down answer) Q
  unfolding query
  query-Triple true answer weaken holds = record { holds = weaken }
  query-Triple {A} {P} {Q} false answer weaken holds = record {
    holds = λ db h. go db h (answer db) refl;
  }
    where
      go : (db : Db) → P db → (r : Result A) → answer db ≡ r → Post Q (r, db)
      go db h (ok a) e = holds db a h e
      go db h (err x) e = weaken db h

  pub exec-Triple :
      {A : Type 0} {P : Db → Type 0} {Q : A → Db → Type 0} (down : Bool) (taken : Db → Bool) (a : A)
      (change : Db → Db)
      → ((db : Db) → P db → I db)
      → ((db : Db) → P db → Q a (change db))
      → Triple P (exec down taken a change) Q
  unfolding exec
  exec-Triple true taken a change weaken after = record { holds = weaken }
  exec-Triple {A} {P} {Q} false taken a change weaken after = record {
    holds = λ db h. go db h (taken db);
  }
    where
      go :
          (db : Db)
          → P db
          → (t : Bool) → Post Q (if t then (err duplicate, db) else (ok a, change db))
      go db h true = weaken db h
      go db h false = after db h
