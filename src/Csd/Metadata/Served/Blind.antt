-- ===== src/Csd/Metadata/Served/Blind.antt =====
-- The name of a volume is missing where internal/csd/protocol/quic.go looks a name up.
use capper.Prelude.{
  ℕ, String, Bool, true, false, not, List, [], ◌∷◌, none, ◌≡◌, refl, sym, subst, find, str_eq,
  arith, All, keep-All, map-All, find-All, if◌then◌else◌, Bool-cases, inl, inr,
}
use capper.Prelude.Int.{pos, sub64, leb_ℤ}
use capper.Prelude.Action.{M, Result, ok, err, ◌>>=◌, bound}
use capper.Csd.Metadata
use capper.Csd.Metadata.{
  Inode, Store, Statement, Faults, Error, on_inodes, with_inodes, insert_row, update_row, updated,
  delete_row, move_row, moved, row_of, get, lookup_inode, stands_at, not_found,
}
use capper.Csd.Metadata.Manager
use capper.Csd.Metadata.Manager.{World, CreateReq, append, commit, mknode, drop_link}
use capper.Csd.Metadata.Served.{
  Message, getattr, lookup, readdir, create, mkdir, unlink, rename, truncate, code_not_found,
  code_internal, Reply, refusal, after_getattr, with_inode, with_entries, with_nothing, looked_up,
  dispatch, serve,
}

abbrev pub InVolume : Inode → Type 0
InVolume n = str_eq n.volume_id "" ≡ false

abbrev pub Volumed : Store → Type 0
Volumed d = All InVolume d.inodes

record Keeps {A : Type 0} (m : M Store Error A) : Type 0 where
  keeps : (d : Store) → Volumed d → Volumed (m d).1

bind-Keeps :
    {A B : Type 0} {m : M Store Error A} {k : A → M Store Error B}
    → Keeps m
    → ((a : A) → Keeps (k a))
    → Keeps (m >>= k)
bind-Keeps {A} {B} {m} {k} hm hk = record { keeps = λ d h. go (m d) (hm.keeps d h) }
  where
    go : (r : Result Error A × Store) → Volumed r.1 → Volumed (bound r k).1
    go (ok a, d') v = (hk a).keeps d' v
    go (err e, d') v = v

on_inodes-Keeps :
    (b : Bool) (s : Statement) (change : List Inode → Result Error (List Inode))
    → ((rows rows' : List Inode) → All InVolume rows → change rows ≡ ok rows' → All InVolume rows')
    → Keeps (on_inodes b s change)
on_inodes-Keeps true s change k = record { keeps = λ d h. h }
on_inodes-Keeps false s change k = record { keeps = λ d h. go d h (change d.inodes) (k d.inodes) }
  where
    go :
        (d : Store) (h : Volumed d) (r : Result Error (List Inode))
        → ((rows' : List Inode) → All InVolume d.inodes → r ≡ ok rows' → All InVolume rows')
        → Volumed (with_inodes d r).1
    go d h (ok rows') k' = k' rows' h refl
    go d h (err e) k' = h

module _ (w : World) where
  append-Keeps :
      (volume client operation id : String) (payload : List (String × Metadata.Value))
      → Keeps (append w volume client operation id payload)
  unfolding append
  append-Keeps volume client operation id payload = record { keeps = λ d h. ground arith }

  commit-Keeps : (volume : String) (seq : ℕ) → Keeps (commit w volume seq)
  unfolding commit
  commit-Keeps volume seq = record { keeps = λ d h. ground arith }

  insert-Keeps : (n : Inode) → InVolume n → Keeps (Metadata.insert w.fails n)
  unfolding insert_row
  insert-Keeps n v =
      on_inodes-Keeps (w.fails Metadata.insert_inode) Metadata.insert_inode (insert_row n)
        (λ rows rows' h e. ground arith)

  updated-InVolume : (n m : Inode) → InVolume m → InVolume (updated n m)
  updated-InVolume n m h = ground arith

  update-Keeps : (n : Inode) → Keeps (Metadata.update w.fails n)
  unfolding update_row
  update-Keeps n =
      on_inodes-Keeps (w.fails Metadata.update_inode) Metadata.update_inode (update_row n)
        (λ rows rows' h e. ground (arith, map-All InVolume (updated n) (updated-InVolume n) rows h))

  delete-Keeps : (id : String) → Keeps (Metadata.delete w.fails id)
  unfolding delete_row
  delete-Keeps id =
      on_inodes-Keeps (w.fails Metadata.delete_inode) Metadata.delete_inode (delete_row id)
        (λ rows rows' h e. ground (arith, keep-All (λ m. not (str_eq m.id id)) InVolume rows h))

  moved-InVolume :
      (id parent name : String) (m : Inode) → InVolume m → InVolume (moved id parent name m)
  moved-InVolume id parent name m h = ground arith

  move-Keeps : (id parent name : String) → Keeps (Metadata.move w.fails id parent name)
  unfolding move_row
  move-Keeps id parent name =
      on_inodes-Keeps (w.fails Metadata.move_inode) Metadata.move_inode (move_row id parent name)
        (λ rows rows' h e.
          ground
            (arith, map-All InVolume (moved id parent name) (moved-InVolume id parent name) rows h))

  get-Keeps : (f : Faults) (id : String) → Keeps (get f id)
  unfolding get
  get-Keeps f id = record { keeps = λ d h. ground arith }

  mknode-Keeps :
      (req : CreateReq) (t : String) → str_eq req.volume_id "" ≡ false → Keeps (mknode w req t)
  unfolding mknode
  mknode-Keeps req t v = bind-Keeps (append-Keeps _ _ _ _ _) (λ seq.
      bind-Keeps (insert-Keeps _ v)
        (λ u. bind-Keeps (commit-Keeps _ _) (λ u. record { keeps = λ d h. h })))

  drop_link-Keeps : (id : String) (n : Inode) → Keeps (drop_link w.fails id n)
  drop_link-Keeps id n = record { keeps = λ d h. dropped id n d h }
    where
      dropped :
          (id : String) (n : Inode) (d : Store) → Volumed d → Volumed (drop_link w.fails id n d).1
      dropped id n d h = elim (Bool-cases (leb_ℤ (sub64 n.link_count (pos 1)) (pos 0))) [
        | inl t ↦ rw t ((delete-Keeps id).keeps d h)
        | inr t ↦
            rw t ((update-Keeps (record n { link_count = sub64 n.link_count (pos 1) })).keeps d h)
      ]

  unlink-Keeps : (req : Manager.UnlinkReq) → Keeps (Manager.unlink w req)
  unfolding Manager.unlink
  unlink-Keeps req = bind-Keeps (get-Keeps _ _) (λ n.
      bind-Keeps (append-Keeps _ _ _ _ _)
        (λ seq. bind-Keeps (drop_link-Keeps _ n) (λ u. commit-Keeps _ _)))

  rename-Keeps : (req : Manager.RenameReq) → Keeps (Manager.rename w req)
  unfolding Manager.rename
  rename-Keeps req =
      bind-Keeps (append-Keeps _ _ _ _ _)
        (λ seq. bind-Keeps (move-Keeps _ _ _) (λ u. commit-Keeps _ _))

  truncate-Keeps : (req : Manager.TruncateReq) → Keeps (Manager.truncate w req)
  unfolding Manager.truncate
  truncate-Keeps req = bind-Keeps (get-Keeps _ _) (λ n.
      bind-Keeps (append-Keeps _ _ _ _ _)
        (λ seq. bind-Keeps (update-Keeps _) (λ u. commit-Keeps _ _)))

  with_inode-state : (r : Result Error Inode × Store) → (with_inode r).1 ≡ r.1
  with_inode-state (ok n, d) = refl
  with_inode-state (err e, d) = refl

  with_nothing-state : (r : Result Error (Unit {0}) × Store) → (with_nothing r).1 ≡ r.1
  with_nothing-state (ok n, d) = refl
  with_nothing-state (err e, d) = refl

  with_entries-state : (r : Result Error (List Inode) × Store) → (with_entries r).1 ≡ r.1
  with_entries-state (ok n, d) = refl
  with_entries-state (err e, d) = refl

  looked_up-state : (r : Result Error Inode × Store) → (looked_up r).1 ≡ r.1
  looked_up-state (ok n, d) = refl
  looked_up-state (err not_found, d) = refl
  looked_up-state (err Metadata.already_exists, d) = refl
  looked_up-state (err Metadata.not_unique, d) = refl
  looked_up-state (err Metadata.unknown_operation, d) = refl
  looked_up-state (err (Metadata.failed s), d) = refl

  -- What getattr answers is a row.
  got-InVolume :
      (f : Faults) (id : String) (d : Store) (n : Inode)
      → Volumed d
      → (get f id d).0 ≡ ok n
      → InVolume n
  unfolding get
  got-InVolume f id d n h e =
      (find-All (λ m. str_eq m.id id) InVolume d.inodes n h (ground arith)).0

  after-Volumed :
      (r : Result Error Inode × Store) (k : Inode → Store → Reply × Store)
      → Volumed r.1
      → ((n : Inode) → r.0 ≡ ok n → Volumed (k n r.1).1)
      → Volumed (after_getattr r k).1
  after-Volumed (ok n, d) k v h = h n refl
  after-Volumed (err e, d) k v h = v

  -- The rest of a message that getattr begins.
  getattr-Volumed :
      (f : Faults) (id : String) (k : Inode → Store → Reply × Store) (d : Store)
      → Volumed d
      → ((n : Inode) → InVolume n → (d' : Store) → Volumed d' → Volumed (k n d').1)
      → Volumed (after_getattr (get f id d) k).1
  getattr-Volumed f id k d v h =
      after-Volumed (get f id d) k ((get-Keeps f id).keeps d v)
        (λ n e. h n (got-InVolume f id d n v e) (get f id d).1 ((get-Keeps f id).keeps d v))

  dispatch-Volumed :
      (f : Faults) (m : Message) (d : Store) → Volumed d → Volumed (dispatch f w m d).1
  unfolding dispatch Manager.create Manager.mkdir Metadata.lookup Metadata.children
  dispatch-Volumed f (getattr id) d v = getattr-Volumed f id _ d v (λ n i d' v'. v')
  dispatch-Volumed f (lookup parent name) d v =
      subst Volumed (sym (looked_up-state (Metadata.lookup f "" parent name d))) (ground arith)
  dispatch-Volumed f (readdir dir) d v = getattr-Volumed f dir _ d v (λ n i d' v'.
      subst Volumed (sym (with_entries-state (Metadata.children w.fails n.volume_id dir d')))
        (ground arith))
  dispatch-Volumed f (create parent name mode) d v = getattr-Volumed f parent _ d v (λ n i d' v'.
      subst Volumed (sym (with_inode-state (mknode w _ Manager.inode_file d')))
        ((mknode-Keeps _ Manager.inode_file i).keeps d' v'))
  dispatch-Volumed f (mkdir parent name mode) d v = getattr-Volumed f parent _ d v (λ n i d' v'.
      subst Volumed (sym (with_inode-state (mknode w _ Manager.inode_dir d')))
        ((mknode-Keeps _ Manager.inode_dir i).keeps d' v'))
  dispatch-Volumed f (unlink id parent name) d v = getattr-Volumed f parent _ d v (λ n i d' v'.
      subst Volumed (sym (with_nothing-state (Manager.unlink w _ d')))
        ((unlink-Keeps _).keeps d' v'))
  dispatch-Volumed f (rename id op on np nn) d v = getattr-Volumed f id _ d v (λ n i d' v'.
      subst Volumed (sym (with_nothing-state (Manager.rename w _ d')))
        ((rename-Keeps _).keeps d' v'))
  dispatch-Volumed f (truncate id size) d v = getattr-Volumed f id _ d v (λ n i d' v'.
      subst Volumed (sym (with_nothing-state (Manager.truncate w _ d')))
        ((truncate-Keeps _).keeps d' v'))

serve-Volumed :
    (ms : List (Faults × World × Message)) (d : Store) → Volumed d → Volumed (serve ms d)
serve-Volumed [] d v = v
serve-Volumed ((f, w, m) ∷ ms) d v =
    serve-Volumed ms (dispatch f w m d).1 (dispatch-Volumed w f m d v)

find-blind :
    (parent name : String) (rows : List Inode)
    → All InVolume rows
    → find (stands_at "" parent name) rows ≡ none
find-blind parent name [] h = refl
find-blind parent name (n ∷ rows) h = ground (arith, h.0, find-blind parent name rows h.1)

-- Where every inode lies in a volume, then after any messages, whatever fails, the message that looks up a name
-- is never answered by an inode: it is not found, or its statement fails.
pub lookup_blind :
    (ms : List (Faults × World × Message)) (d : Store)
    → All (λ n. str_eq n.volume_id "" ≡ false) d.inodes
    → (f : Faults) (w : World) (parent name : String)
    → (dispatch f w (lookup parent name) (serve ms d)).0
      ≡ refusal (if f lookup_inode then code_internal else code_not_found)
unfolding dispatch Metadata.lookup
lookup_blind ms d h f w parent name =
    ground (arith, find-blind parent name (serve ms d).inodes (serve-Volumed ms d h))
