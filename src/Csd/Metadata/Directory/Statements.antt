-- ===== src/Csd/Metadata/Directory/Statements.antt =====
-- The statements of internal/csd/store/inodes.go on rows, and what a lookup in these finds.
use capper.Prelude.{
  String, Bool, true, false, not, ◌||◌, List, [], ◌∷◌, Option, none, some, ◌≡◌, refl, ap, ◌∙◌, sym,
  subst, map, find, any, str_eq, eq_iff, arith, All, All-map, find-All, Bool-cases, Option-cases,
  inl, inr,
}
use capper.Csd.Metadata.{Inode, stands_at, moved, insert_row, move_row, move_blocked}
use capper.Csd.Metadata.Pending.{applied}
use capper.Csd.Metadata.Directory.{Directory, same_place, put, entered, is_other, transferred}
use capper.Csd.Metadata.Directory.Rows.{Unique, any-find, any-or, some_of, of_id, of_place}
use capper.Csd.Metadata.Directory.Moves.{found_id, move_blocked_iff}
use capper.Csd.Metadata.Directory.Views.{
  without, Alone, find-without, find-moved_else, find-moved_there, keep-Unique, added-Unique,
  moved-Unique,
}

-- What rows promise of a directory, and that they keep ids and places apart.
abbrev pub Implements : String → List Inode → Directory → Type 0
Implements volume rows dir =
    ((a b : String) → find (stands_at volume a b) rows ≡ dir a b) × Unique rows

both-All :
    (P Q : Inode → Type 0) (rows : List Inode) → All P rows → All Q rows → All (λ m. P m × Q m) rows
both-All P Q [] p q = tt
both-All P Q (m ∷ rows) p q = ((p.0, q.0), both-All P Q rows p.1 q.1)

find-none :
    (f : Inode → Bool) (rows : List Inode) → find f rows ≡ none → All (λ m. f m ≡ false) rows
find-none f [] e = tt
find-none f (m ∷ rows) e = ground (arith, find-none f rows)

module _ (volume : String) (rows : List Inode) (u : Unique rows) where
  abbrev pub looked_up : Directory
  looked_up a b = find (stands_at volume a b) rows

  pub insert-Implements :
      (n : Inode)
      → n.volume_id ≡ volume
      → any (λ m. str_eq m.id n.id) rows ≡ false
      → Implements volume
          (applied rows (insert_row n rows))
          (entered n (looked_up n.parent_id n.name) looked_up)
  unfolding insert_row
  insert-Implements n v fresh = elim (Option-cases (looked_up n.parent_id n.name)) [
    | inl e ↦
        let free : blocked ≡ false = blocked_iff ∙ ap some_of e in
        rw (free, e)
          ((λ a b. ground (arith, eq_iff n.volume_id volume)), added-Unique n rows free u)
    | inr (k, e) ↦ rw (blocked_iff ∙ ap some_of e, e) ((λ a b. refl), u)
  ]
    where
      blocked : Bool
      blocked = any (λ m. str_eq m.id n.id || stands_at n.volume_id n.parent_id n.name m) rows

      blocked_iff : blocked ≡ some_of (looked_up n.parent_id n.name)
      blocked_iff =
          any-or (λ m. str_eq m.id n.id) (stands_at n.volume_id n.parent_id n.name) rows
          ∙ ap (λ x. x || any (stands_at n.volume_id n.parent_id n.name) rows) fresh
          ∙ any-find (stands_at n.volume_id n.parent_id n.name) rows
          ∙ ap (λ w. some_of (find (stands_at w n.parent_id n.name) rows)) v

  module _ (parent name : String) (n : Inode) (e : looked_up parent name ≡ some n) where
    here : stands_at volume parent name n ≡ true
    here = (find-All (stands_at volume parent name) (λ m. Unit {0}) rows n (everywhere rows) e).1
      where
        everywhere : (ms : List Inode) → All (λ m. Unit {0}) ms
        everywhere [] = tt
        everywhere (m ∷ ms) = (tt, everywhere ms)

    pub found : find (λ m. str_eq m.id n.id) rows ≡ some n
    found = found_id volume parent name n rows u e

    alone : All (Alone volume parent name n here) rows
    alone = both-All _ _ rows (of_id n n.id rows u found) (of_place n volume parent name rows u e)

    in_volume : n.volume_id ≡ volume
    in_volume = (eq_iff n.volume_id volume).0 (ground (arith, here))

  pub delete-Implements :
      (parent name : String) (n : Inode)
      → looked_up parent name ≡ some n
      → Implements volume (without n.id rows) (put parent name none looked_up)
  delete-Implements parent name n e = (
    λ a b.
        find-without volume parent name n (here parent name n e) a b rows (alone parent name n e),
    keep-Unique (λ m. not (str_eq m.id n.id)) rows u,
  )

  -- Where no other inode has the name, no other row stands there.
  vacant :
      (parent' name' : String) (n : Inode) (o : Option Inode)
      → looked_up parent' name' ≡ o
      → is_other n o ≡ false
      → All (λ k. str_eq k.id n.id ≡ false → stands_at volume parent' name' k ≡ false) rows
  vacant parent' name' n none e i =
      All-map (λ k. stands_at volume parent' name' k ≡ false) _ (λ k h w. h) rows
        (find-none _ rows e)
  vacant parent' name' n (some m) e i =
      All-map (λ k. stands_at volume parent' name' k ≡ true → k ≡ m) _ (λ k h w. absent k h w) rows
        (of_place m volume parent' name' rows u e)
    where
      absent :
          (k : Inode)
          → (stands_at volume parent' name' k ≡ true → k ≡ m)
          → str_eq k.id n.id ≡ false
          → stands_at volume parent' name' k ≡ false
      absent k h w = elim (Bool-cases (stands_at volume parent' name' k)) [
        | inl t ↦ ground (arith, ap (λ (x : Inode). str_eq x.id n.id) (h t))
        | inr t ↦ t
      ]

  pub move-Implements :
      (parent name parent' name' : String) (n : Inode)
      → looked_up parent name ≡ some n
      → Implements volume
          (applied rows (move_row n.id parent' name' rows))
          (transferred parent name parent' name' (some n) looked_up)
  unfolding move_row
  move-Implements parent name parent' name' n e =
      elim (Bool-cases (is_other n (looked_up parent' name'))) [
        | inl t ↦ rw (blocks, t) ((λ a b. refl), u)
        | inr t ↦ rw (blocks, t) (moves t)
      ]
    where
      blocks : move_blocked n.id parent' name' rows ≡ is_other n (looked_up parent' name')
      blocks =
          move_blocked_iff volume n rows u (in_volume parent name n e) (found parent name n e)
            parent' name'

      moves :
          is_other n (looked_up parent' name') ≡ false
          → Implements volume (map (moved n.id parent' name') rows) (
              put parent' name'
                (some (record n { parent_id = parent'; name = name' }))
                (put parent name none looked_up))
      moves t = (
        λ a b. elim (Bool-cases (same_place parent' name' a b)) [
          | inl s ↦
              let p : parent' ≡ a = (eq_iff parent' a).0 (ground (arith, s)) in
              let q : name' ≡ b = (eq_iff name' b).0 (ground (arith, s)) in
              ap (λ x. find (stands_at volume x b) rows') (sym p)
              ∙ ap (λ y. find (stands_at volume parent' y) rows') (sym q)
              ∙ find-moved_there volume parent name n (here parent name n e) parent' name' rows
                  (vacant parent' name' n _ refl t) (found parent name n e)
              ∙ rw s refl
          | inr s ↦
              find-moved_else volume parent name n (here parent name n e) parent' name' a b rows
                (alone parent name n e) s
              ∙ rw s refl
        ],
        moved-Unique n parent' name' rows
            (both-All _ _ rows (of_id n n.id rows u (found parent name n e)) (
              subst
                (λ w.
                  All (λ k. str_eq k.id n.id ≡ false → stands_at w parent' name' k ≡ false) rows)
                (sym (in_volume parent name n e)) (vacant parent' name' n _ refl t)))
            u,
      )
        where
          rows' : List Inode
          rows' = map (moved n.id parent' name') rows
