-- ===== src/Csd/Metadata/Atomic/Rows.antt =====
-- Rows of inodes that an entry of the journal is applied to once or twice (internal/csd/store/inodes.go).
use capper.Prelude.{
  String, Bool, true, not, ◌||◌, List, [], ◌∷◌, ◌≡◌, refl, map, keep, find, any, str_eq, eq_iff,
  arith, ap, Option, none, some,
}
use capper.Prelude.Int.{ℤ, pos, sub64, wrap64, leb_ℤ}
use capper.Csd.Metadata.{Inode, insert_row, move_row, updated, moved, stands_at}
use capper.Csd.Metadata.Pending.{applied}

-- An inode but for its owner, its version and its times.
abbrev pub shape : Inode → Inode
shape n = record n {
  uid = 0;
  gid = 0;
  version = 0;
  created_at = "";
  modified_at = "";
  accessed_at = "";
}

abbrev pub Alike : List Inode → List Inode → Type 0
Alike xs ys = map shape xs ≡ map shape ys

moved-moved :
    (id parent name : String) (rows : List Inode)
    → map (moved id parent name) (map (moved id parent name) rows) ≡ map (moved id parent name) rows
moved-moved id parent name [] = refl
moved-moved id parent name (n ∷ rows) = ground (arith, moved-moved id parent name rows)

-- A rename that is applied again leaves the rows as they are.
pub move-again :
    (id parent name : String) (rows : List Inode)
    → applied
        (applied rows (move_row id parent name rows))
        (move_row id parent name (applied rows (move_row id parent name rows)))
      ≡ applied rows (move_row id parent name rows)
unfolding move_row
move-again id parent name rows = ground (arith, moved-moved id parent name rows)

-- Inodes of one shape are inserted alike: the second finds the first.
abbrev pub inserted : Inode → List Inode → List Inode
inserted n rows = applied rows (insert_row n rows)

abbrev blocked : Inode → List Inode → Bool
blocked n rows = any (λ m. str_eq m.id n.id || stands_at n.volume_id n.parent_id n.name m) rows

pub insert-Alike :
    (n n' : Inode) (rows : List Inode)
    → shape n' ≡ shape n
    → Alike (inserted n' rows) (inserted n rows)
unfolding insert_row
insert-Alike n n' rows e = ground (arith, same)
  where
    same : blocked n' rows ≡ blocked n rows
    same = λ i. blocked (e i) rows

pub insert-again :
    (n n' : Inode) (rows : List Inode)
    → shape n' ≡ shape n
    → Alike (inserted n' (inserted n rows)) (inserted n rows)
unfolding insert_row
insert-again n n' rows e = ground (arith, same rows, same (n ∷ rows), eq_iff n.id n.id)
  where
    same : (rows : List Inode) → blocked n' rows ≡ blocked n rows
    same rows = λ i. blocked (e i) rows

pub find-keep_others :
    (id : String) (rows : List Inode)
    → find (λ m. str_eq m.id id) (keep (λ m. not (str_eq m.id id)) rows) ≡ none
find-keep_others id [] = refl
find-keep_others id (n ∷ rows) = ground (arith, find-keep_others id rows)

pub last_link : (c : ℤ) → c ≡ pos 1 → leb_ℤ (sub64 c (pos 1)) (pos 0) ≡ true
unfolding sub64 wrap64
last_link c e = ap (λ k. leb_ℤ (sub64 k (pos 1)) (pos 0)) e

abbrev pub without : String → List Inode → List Inode
without id = keep (λ m. not (str_eq m.id id))

abbrev pub with_id : String → List Inode → Option Inode
with_id id = find (λ m. str_eq m.id id)

-- A row with a new size.
abbrev pub resized : Inode → ℤ → String → Inode
resized n size now = record n { size_bytes = size; modified_at = now }

pub updated-Alike :
    (n : Inode) (size : ℤ) (now now' : String) (rows : List Inode)
    → Alike (map (updated (resized n size now)) rows) (map (updated (resized n size now')) rows)
updated-Alike n size now now' [] = refl
updated-Alike n size now now' (m ∷ rows) = ground (arith, updated-Alike n size now now' rows)

pub find-updated :
    (id : String) (n n' : Inode) (rows : List Inode)
    → n'.id ≡ n.id
    → with_id id rows ≡ some n
    → with_id id (map (updated n') rows) ≡ some (updated n' n)
find-updated id n n' [] e h = ground arith
find-updated id n n' (m ∷ rows) e h =
    ground (arith, find-updated id n n' rows, eq_iff m.id n.id, eq_iff m.id id, eq_iff n.id id)

pub updated-again :
    (n : Inode) (size : ℤ) (now now' : String) (rows : List Inode)
    → Alike
        (map
          (updated (resized (updated (resized n size now) n) size now'))
          (map (updated (resized n size now)) rows))
        (map (updated (resized n size now)) rows)
updated-again n size now now' [] = refl
updated-again n size now now' (m ∷ rows) =
    ground (arith, updated-again n size now now' rows, eq_iff n.id n.id, eq_iff m.id n.id)
