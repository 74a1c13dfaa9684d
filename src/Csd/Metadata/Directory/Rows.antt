-- ===== src/Csd/Metadata/Directory/Rows.antt =====
-- Rows of inodes without two of one id or of one place, and what the statements do to a lookup in them.
use capper.Prelude.{
  String, Bool, true, false, ◌||◌, List, [], ◌∷◌, Option, none, some, ◌≡◌, refl, find, any, str_eq,
  eq_iff, arith, All, All-map, Bool-cases, inl, inr,
}
use capper.Csd.Metadata.{Inode, stands_at}

-- Neither the id nor the place.
abbrev pub Apart : Inode → Inode → Type 0
Apart n k = (str_eq k.id n.id ≡ false) × (stands_at n.volume_id n.parent_id n.name k ≡ false)

abbrev pub Unique : List Inode → Type 0
Unique [] = Unit {0}
Unique (n ∷ rows) = All (Apart n) rows × Unique rows

abbrev pub some_of : {A : Type 0} → Option A → Bool
some_of none = false
some_of (some a) = true

pub any-find : {A : Type 0} (f : A → Bool) (xs : List A) → any f xs ≡ some_of (find f xs)
any-find f [] = refl
any-find f (x ∷ xs) = ground (arith, any-find f xs)

pub any-or :
    {A : Type 0} (f g : A → Bool) (xs : List A) → any (λ x. f x || g x) xs ≡ (any f xs || any g xs)
any-or f g [] = refl
any-or f g (x ∷ xs) = ground (arith, any-or f g xs)

module _ (n : Inode) where
  -- The row that a test finds first, where no later row meets it too.
  first_only :
      (f : Inode → Bool) (k : Inode) (rows : List Inode)
      → (f k ≡ true → All (λ m. f m ≡ false) rows)
      → find f (k ∷ rows) ≡ some n
      → (find f rows ≡ some n → All (λ m. f m ≡ true → m ≡ n) rows)
      → All (λ m. f m ≡ true → m ≡ n) (k ∷ rows)
  first_only f k rows apart e rest = elim (Bool-cases (f k)) [
    | inl t ↦ (
      λ _. some_inj k n (ground arith),
      All-map _ _ (λ m no yes'. absurd (true_false (f m) no yes')) rows (apart t),
    )
    | inr t ↦ ((λ yes'. absurd (true_false (f k) t yes')), rest (ground arith))
  ]
    where
      some_inj : (a b : Inode) → some a ≡ some b → a ≡ b
      some_inj a b h = cc

      true_false : (b : Bool) → b ≡ false → b ≡ true → ⊥
      true_false b h k = cc

  -- The one row of an id, and the one row of a place.
  pub of_id :
      (id : String) (rows : List Inode)
      → Unique rows
      → find (λ m. str_eq m.id id) rows ≡ some n
      → All (λ k. str_eq k.id id ≡ true → k ≡ n) rows
  of_id id [] u e = tt
  of_id id (k ∷ rows) u e =
      first_only (λ m. str_eq m.id id) k rows
        (λ t.
          All-map (Apart k) _
            (λ m a. ground (arith, a.0, eq_iff k.id id, eq_iff m.id id, eq_iff m.id k.id)) rows u.0)
        e (of_id id rows u.1)

  pub of_place :
      (volume parent name : String) (rows : List Inode)
      → Unique rows
      → find (stands_at volume parent name) rows ≡ some n
      → All (λ k. stands_at volume parent name k ≡ true → k ≡ n) rows
  of_place volume parent name [] u e = tt
  of_place volume parent name (k ∷ rows) u e =
      first_only (stands_at volume parent name) k rows
        (λ t. All-map (Apart k) _ (λ m a. apart m t a.1) rows u.0) e
        (of_place volume parent name rows u.1)
    where
      apart :
          (m : Inode)
          → stands_at volume parent name k ≡ true
          → stands_at k.volume_id k.parent_id k.name m ≡ false
          → stands_at volume parent name m ≡ false
      apart m t a =
          ground (arith, eq_iff k.volume_id volume, eq_iff k.parent_id parent, eq_iff k.name name)
