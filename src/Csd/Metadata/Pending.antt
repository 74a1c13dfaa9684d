-- ===== src/Csd/Metadata/Pending.antt =====
-- The journal of internal/csd/server/journal_manager.go around one call: what is pending after it, and what a
-- restart does with that.
use capper.Prelude.{
  ℕ, suc, String, Bool, false, List, [], ◌∷◌, ◌≡◌, refl, ◌⊎◌, map, keep, eq_iff, arith, subst, sym,
  ap, ◌∙◌,
}
use capper.Prelude.Int.{ℤ}
use capper.Prelude.Action.{Result, ok, err, ◌>>=◌, ◌>>◌, pure, bound}
use capper.Csd.Metadata
use capper.Csd.Metadata.{
  Inode, Value, Entry, Store, Statement, Faults, Error, is_pending, by_seq, place, committed_with,
  max_seq, on_inodes,
}
use capper.Csd.Metadata.Manager.{World, entry_of, append, commit}
use capper.Csd.Metadata.Replay.{apply, replay, replay_all, settled}

-- No statement fails.
abbrev pub calm : World → World
calm w = record w { fails = λ s. false }

-- A restart of which no statement fails, with its clock at each entry.
abbrev pub restarted : (ℤ → ℤ) → (ℕ → World) → String → Store → Store
restarted float ws volume d = (replay float (λ s. false) (λ n. calm (ws n)) volume d).1

abbrev pub waiting : String → Store → List Entry
waiting volume d = keep (is_pending volume) d.journal

-- The rows after a statement, whether or not it fails.
abbrev pub applied : List Inode → Result Error (List Inode) → List Inode
applied rows (ok rows') = rows'
applied rows (err e) = rows

pub keep_pending-committed :
    (volume : String) (seq : ℕ) (now : String) (es : List Entry)
    → keep (is_pending volume) es ≡ []
    → keep (is_pending volume) (map (committed_with volume seq now) es) ≡ []
keep_pending-committed volume seq now [] h = refl
keep_pending-committed volume seq now (e ∷ es) h =
    ground (arith, keep_pending-committed volume seq now es)

keep_pending-commit_one :
    (volume : String) (now : String) (e : Entry) (es : List Entry)
    → keep (is_pending volume) es ≡ e ∷ []
    → keep (is_pending volume) (map (committed_with volume e.seq now) es) ≡ []
keep_pending-commit_one volume now e [] h = refl
keep_pending-commit_one volume now e (x ∷ es) h =
    ground
      (arith, keep_pending-commit_one volume now e es, keep_pending-committed volume e.seq now es)

module _ (w : World) (volume client operation inode : String) (payload : List (String × Value))
    (b : Bool) (s : Statement) (change : List Inode → Result Error (List Inode)) (d : Store) where
  -- A journal entry, one statement on the inodes, and the mark on the entry.
  abbrev pub journaled : Store
  journaled =
      ((append w volume client operation inode payload
          >>= (λ seq. on_inodes b s change >> commit w volume seq))
        d).1

  abbrev pub own_entry : Entry
  own_entry = entry_of w volume client operation inode payload (suc (max_seq volume d.journal))

  -- The call leaves its entry or none,
  pub waiting-journaled :
      waiting volume d ≡ []
      → (waiting volume journaled ≡ []) ⊎ (waiting volume journaled ≡ own_entry ∷ [])
  unfolding append commit
  waiting-journaled h =
      ground
        (arith, eq_iff volume volume, keep_pending-committed volume own_entry.seq w.now d.journal)

  -- and the statement's effect is there or not.
  pub inodes-journaled :
      (journaled.inodes ≡ d.inodes) ⊎ (journaled.inodes ≡ applied d.inodes (change d.inodes))
  unfolding append commit
  inodes-journaled = ground arith

-- A replayed entry does not touch the journal.
apply-journal :
    (float : ℤ → ℤ) (w : World) (e : Entry) (d : Store) → (apply float w e d).1.journal ≡ d.journal
unfolding apply Metadata.get
apply-journal float w e d = ground arith

-- Its mark is set whether or not it could be applied.
settled-marks :
    (w : World) (e : Entry) (r : Result Error (Unit {0}) × Store)
    → ((settled (calm w) e r).1.inodes ≡ r.1.inodes)
      × ((settled (calm w) e r).1.journal
          ≡ map (committed_with e.volume_id e.seq w.now) r.1.journal)
unfolding commit
settled-marks w e (ok u, d) = (refl, refl)
settled-marks w e (err x, d) = (refl, refl)

bound-tt :
    (r : Result Error (Unit {0}) × Store) → (bound r (λ _. pure {S = Store} {E = Error} tt)).1 ≡ r.1
bound-tt (ok u, d) = refl
bound-tt (err x, d) = refl

module _ (float : ℤ → ℤ) (ws : ℕ → World) (volume : String) (d : Store) where
  -- With nothing pending a restart changes nothing.
  pub restarted-none : waiting volume d ≡ [] → restarted float ws volume d ≡ d
  unfolding replay replay_all by_seq Metadata.pending
  restarted-none h = ap (λ es. (replay_all float (λ n. calm (ws n)) (by_seq es) d).1) h

  -- With one entry it applies that, and nothing is pending then.
  module _ (e : Entry) (v : e.volume_id ≡ volume) (h : waiting volume d ≡ e ∷ []) where
    one : Result Error (Unit {0}) × Store
    one = apply float (calm (ws e.seq)) e d

    restarted-settled : restarted float ws volume d ≡ (settled (calm (ws e.seq)) e one).1
    unfolding replay replay_all by_seq place Metadata.pending one
    restarted-settled =
        ap (λ es. (replay_all float (λ n. calm (ws n)) (by_seq es) d).1) h
        ∙ bound-tt (settled (calm (ws e.seq)) e one)

    pub inodes-restarted_one :
        (restarted float ws volume d).inodes ≡ (apply float (calm (ws e.seq)) e d).1.inodes
    unfolding one
    inodes-restarted_one =
        ap (λ (s : Store). s.inodes) restarted-settled ∙ (settled-marks (ws e.seq) e one).0

    pub waiting-restarted_one : waiting volume (restarted float ws volume d) ≡ []
    unfolding one
    waiting-restarted_one =
        ap (λ (s : Store). waiting volume s) restarted-settled
        ∙ ap (keep (is_pending volume)) (settled-marks (ws e.seq) e one).1
        ∙ ap
            (λ js.
              keep (is_pending volume) (map (committed_with e.volume_id e.seq (ws e.seq).now) js))
            (apply-journal float (calm (ws e.seq)) e d)
        ∙ subst
            (λ k.
              keep (is_pending volume) (map (committed_with k e.seq (ws e.seq).now) d.journal) ≡ [])
            (sym v) (keep_pending-commit_one volume (ws e.seq).now e d.journal h)
