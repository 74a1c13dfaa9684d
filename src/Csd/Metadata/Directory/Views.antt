-- ===== src/Csd/Metadata/Directory/Views.antt =====
-- What a lookup finds after a row was taken away, moved or added, and that no two rows get one id or one place.
use capper.Prelude.{
  String, Bool, true, false, not, ◌||◌, List, [], ◌∷◌, none, some, ◌≡◌, ap, map, keep, find, any,
  str_eq, eq_iff, arith, All, keep-All, if◌then◌else◌, Bool-cases, inl, inr,
}
use capper.Csd.Metadata.{Inode, stands_at, moved}
use capper.Csd.Metadata.Directory.{same_place}
use capper.Csd.Metadata.Directory.Rows.{Apart, Unique}

abbrev pub without : String → List Inode → List Inode
without id = keep (λ m. not (str_eq m.id id))

-- The inode `n` alone has its id, and alone has its place.
module _ (volume parent name : String) (n : Inode)
    (at : stands_at volume parent name n ≡ true) where
  abbrev pub Alone : Inode → Type 0
  Alone k = (str_eq k.id n.id ≡ true → k ≡ n) × (stands_at volume parent name k ≡ true → k ≡ n)

  -- Where `n` is, its place and its id are.
  own_place : (a b : String) → stands_at volume a b n ≡ same_place parent name a b
  own_place a b = ground (
    arith,
    eq_iff n.parent_id parent,
    eq_iff n.name name,
    eq_iff n.parent_id a,
    eq_iff n.name b,
    eq_iff parent a,
    eq_iff name b,
    eq_iff n.volume_id volume,
  )

  -- No other inode is there.
  elsewhere :
      (k : Inode) (a b : String)
      → Alone k
      → str_eq k.id n.id ≡ false
      → same_place parent name a b ≡ true
      → stands_at volume a b k ≡ false
  elsewhere k a b f t e = elim (Bool-cases (stands_at volume a b k)) [
    | inl y ↦ ground (
      arith,
      eq_iff parent a,
      eq_iff name b,
      eq_iff k.id n.id,
      ap (λ (m : Inode). m.id) (f.1 (ground (arith, eq_iff parent a, eq_iff name b))),
    )
    | inr y ↦ y
  ]

  pub find-without :
      (a b : String) (rows : List Inode)
      → All Alone rows
      → find (stands_at volume a b) (without n.id rows)
        ≡ (if same_place parent name a b then none else find (stands_at volume a b) rows)
  find-without a b [] h = ground arith
  find-without a b (k ∷ rows) h = elim (Bool-cases (str_eq k.id n.id)) [
    | inl t ↦
        ground
          (arith, find-without a b rows h.1, ap (stands_at volume a b) (h.0.0 t), own_place a b)
    | inr t ↦ ground (arith, find-without a b rows h.1, elsewhere k a b h.0 t, own_place a b)
  ]

  pub find-moved_else :
      (parent' name' a b : String) (rows : List Inode)
      → All Alone rows
      → same_place parent' name' a b ≡ false
      → find (stands_at volume a b) (map (moved n.id parent' name') rows)
        ≡ (if same_place parent name a b then none else find (stands_at volume a b) rows)
  find-moved_else parent' name' a b [] h e = ground arith
  find-moved_else parent' name' a b (k ∷ rows) h e = elim (Bool-cases (str_eq k.id n.id)) [
    | inl t ↦ ground (
      arith,
      find-moved_else parent' name' a b rows h.1 e,
      ap (stands_at volume a b) (h.0.0 t),
      own_place a b,
    )
    | inr t ↦ ground (arith, find-moved_else parent' name' a b rows h.1 e, elsewhere k a b h.0 t)
  ]

  pub find-moved_there :
      (parent' name' : String) (rows : List Inode)
      → All (λ k. str_eq k.id n.id ≡ false → stands_at volume parent' name' k ≡ false) rows
      → find (λ m. str_eq m.id n.id) rows ≡ some n
      → find (stands_at volume parent' name') (map (moved n.id parent' name') rows)
        ≡ some (record n { parent_id = parent'; name = name' })
  find-moved_there parent' name' [] h e = ground arith
  find-moved_there parent' name' (k ∷ rows) h e = elim (Bool-cases (str_eq k.id n.id)) [
    | inl t ↦ here t (some_inj k n (ground arith))
    | inr t ↦ ground (arith, find-moved_there parent' name' rows h.1, h.0 t)
  ]
    where
      some_inj : (a b : Inode) → some a ≡ some b → a ≡ b
      some_inj a b h = cc

      here :
          str_eq k.id n.id ≡ true
          → k ≡ n
          → find (stands_at volume parent' name') (map (moved n.id parent' name') (k ∷ rows))
            ≡ some (record n { parent_id = parent'; name = name' })
      here t q = ground (
        arith,
        ap (λ (m : Inode). m.volume_id) q,
        ap (λ (m : Inode). some (record m { parent_id = parent'; name = name' })) q,
        eq_iff parent' parent',
        eq_iff name' name',
        eq_iff n.volume_id volume,
        eq_iff k.volume_id volume,
      )

-- The statements keep ids and places apart.
pub keep-Unique : (f : Inode → Bool) (rows : List Inode) → Unique rows → Unique (keep f rows)
keep-Unique f [] u = tt
keep-Unique f (k ∷ rows) u = ground (arith, keep-Unique f rows u.1, keep-All f (Apart k) rows u.0)

pub added-Unique :
    (n : Inode) (rows : List Inode)
    → any (λ m. str_eq m.id n.id || stands_at n.volume_id n.parent_id n.name m) rows ≡ false
    → Unique rows
    → Unique (n ∷ rows)
added-Unique n rows e u = (apart rows e, u)
  where
    apart :
        (ms : List Inode)
        → any (λ m. str_eq m.id n.id || stands_at n.volume_id n.parent_id n.name m) ms ≡ false
        → All (Apart n) ms
    apart [] h = tt
    apart (m ∷ ms) h = ((ground arith, ground arith), apart ms (ground arith))

module _ (n : Inode) (parent' name' : String) where
  -- Other inodes do not stand where `n` goes.
  abbrev pub Free : Inode → Type 0
  Free k =
      (str_eq k.id n.id ≡ true → k ≡ n)
      × (str_eq k.id n.id ≡ false → stands_at n.volume_id parent' name' k ≡ false)

  moved-Apart :
      (x k : Inode)
      → Free x
      → Free k
      → Apart x k
      → Apart (moved n.id parent' name' x) (moved n.id parent' name' k)
  moved-Apart x k f g a = elim (Bool-cases (str_eq x.id n.id)) [
    | inl t ↦ elim (Bool-cases (str_eq k.id n.id)) [
      | inl r ↦ absurd (ground (arith, a.0, eq_iff x.id n.id, eq_iff k.id n.id, eq_iff k.id x.id))
      | inr r ↦
          ground
            (arith, a.0, g.1 r, ap (λ (m : Inode). stands_at m.volume_id parent' name' k) (f.0 t))
    ]
    | inr t ↦ elim (Bool-cases (str_eq k.id n.id)) [
      | inl r ↦ ground (
        arith,
        a.0,
        f.1 t,
        ap (λ (m : Inode). m.volume_id) (g.0 r),
        eq_iff k.volume_id x.volume_id,
        eq_iff x.volume_id n.volume_id,
        eq_iff parent' x.parent_id,
        eq_iff x.parent_id parent',
        eq_iff name' x.name,
        eq_iff x.name name',
      )
      | inr r ↦ ground (arith, a.0, a.1)
    ]
  ]

  pub moved-Unique :
      (rows : List Inode)
      → All Free rows
      → Unique rows
      → Unique (map (moved n.id parent' name') rows)
  moved-Unique [] f u = tt
  moved-Unique (x ∷ rows) f u = (apart rows f.1 u.0, moved-Unique rows f.1 u.1)
    where
      apart :
          (ks : List Inode)
          → All Free ks
          → All (Apart x) ks
          → All (Apart (moved n.id parent' name' x)) (map (moved n.id parent' name') ks)
      apart [] g a = tt
      apart (k ∷ ks) g a = (moved-Apart x k f.0 g.0 a.0, apart ks g.1 a.1)
