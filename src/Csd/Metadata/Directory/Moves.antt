-- ===== src/Csd/Metadata/Directory/Moves.antt =====
-- A lookup after a row was taken away or moved, in rows without two of one id or of one place.
use capper.Prelude.{
  String, Bool, true, false, not, ◌&&◌, List, [], ◌∷◌, Option, none, some, ◌≡◌, refl, ap, ◌∙◌, find,
  any, str_eq, eq_iff, arith, All, find-All, Bool-cases, inl, inr,
}
use capper.Csd.Metadata.{Inode, stands_at, move_blocked}
use capper.Csd.Metadata.Directory.{is_other}
use capper.Csd.Metadata.Directory.Rows.{Apart, Unique, of_id, of_place}

-- The row of a place is the row of its id.
pub found_id :
    (volume parent name : String) (n : Inode) (rows : List Inode)
    → Unique rows
    → find (stands_at volume parent name) rows ≡ some n
    → find (λ m. str_eq m.id n.id) rows ≡ some n
found_id volume parent name n [] u e = ground arith
found_id volume parent name n (k ∷ rows) u e = elim (Bool-cases (stands_at volume parent name k)) [
  | inl t ↦ first t
  | inr t ↦
      let rest : find (stands_at volume parent name) rows ≡ some n = ground arith in
      let apart : Apart k n =
        (find-All (stands_at volume parent name) (Apart k) rows n u.0 rest).0 in
      ground (
        arith,
        found_id volume parent name n rows u.1 rest,
        eq_iff n.id k.id,
        eq_iff k.id n.id,
        apart.0,
      )
]
  where
    first : stands_at volume parent name k ≡ true → find (λ m. str_eq m.id n.id) (k ∷ rows) ≡ some n
    first t =
        let same : k ≡ n = some_inj k n (ground arith) in
        ground (arith, same, eq_iff k.id n.id, ap (λ (m : Inode). m.id) same)
      where
        some_inj : (a b : Inode) → some a ≡ some b → a ≡ b
        some_inj a b h = cc

module _ {A : Type 0} (f g : A → Bool) (n : A) where
  any-none :
      (xs : List A)
      → All (λ m. f m ≡ true → m ≡ n) xs
      → g n ≡ false
      → any (λ m. f m && g m) xs ≡ false
  any-none [] a e = refl
  any-none (x ∷ xs) a e = elim (Bool-cases (f x)) [
    | inl t ↦ ground (arith, any-none xs a.1 e, ap g (a.0 t))
    | inr t ↦ ground (arith, any-none xs a.1 e)
  ]

  -- Where one element alone meets `f`, the question is one about it.
  any-one :
      (xs : List A)
      → All (λ m. f m ≡ true → m ≡ n) xs
      → find f xs ≡ some n
      → any (λ m. f m && g m) xs ≡ g n
  any-one [] a e = ground arith
  any-one (x ∷ xs) a e = elim (Bool-cases (f x)) [
    | inl t ↦ ground (arith, any-none xs a.1, ap g (a.0 t))
    | inr t ↦ ground (arith, any-one xs a.1)
  ]

any-no_first :
    {A : Type 0} (f g : A → Bool) (xs : List A)
    → find f xs ≡ none
    → any (λ m. f m && g m) xs ≡ false
any-no_first f g [] e = refl
any-no_first f g (x ∷ xs) e = ground (arith, any-no_first f g xs)

any-swap :
    {A : Type 0} (f g : A → Bool) (xs : List A)
    → any (λ m. g m && f m) xs ≡ any (λ m. f m && g m) xs
any-swap f g [] = refl
any-swap f g (x ∷ xs) = ground (arith, any-swap f g xs)

module _ (volume : String) (n : Inode) (rows : List Inode) (u : Unique rows)
    (v : n.volume_id ≡ volume) (found : find (λ m. str_eq m.id n.id) rows ≡ some n)
    (parent' name' : String) where
  other_there : Bool
  other_there = any (λ k. not (str_eq k.id n.id) && stands_at volume parent' name' k) rows

  other_there-is_other :
      (o : Option Inode)
      → find (stands_at volume parent' name') rows ≡ o
      → other_there ≡ is_other n o
  unfolding other_there
  other_there-is_other none e =
      any-swap (stands_at volume parent' name') (λ k. not (str_eq k.id n.id)) rows
      ∙ any-no_first (stands_at volume parent' name') (λ k. not (str_eq k.id n.id)) rows e
  other_there-is_other (some k) e =
      any-swap (stands_at volume parent' name') (λ k. not (str_eq k.id n.id)) rows
      ∙ any-one (stands_at volume parent' name') (λ k. not (str_eq k.id n.id)) k rows
          (of_place k volume parent' name' rows u e) e

  -- A move is refused exactly where another inode has the name.
  pub move_blocked_iff :
      move_blocked n.id parent' name' rows ≡ is_other n (find (stands_at volume parent' name') rows)
  unfolding move_blocked other_there
  move_blocked_iff =
      any-one (λ m. str_eq m.id n.id)
        (λ m. any (λ k. not (str_eq k.id n.id) && stands_at m.volume_id parent' name' k) rows) n
        rows (of_id n n.id rows u found) found
      ∙ ap (λ w. any (λ k. not (str_eq k.id n.id) && stands_at w parent' name' k) rows) v
      ∙ other_there-is_other (find (stands_at volume parent' name') rows) refl
