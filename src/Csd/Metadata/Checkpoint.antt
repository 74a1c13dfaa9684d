-- ===== src/Csd/Metadata/Checkpoint.antt =====
-- What Checkpoint of internal/csd/server/journal_manager.go takes away, and what it leaves.
use capper.Prelude.{
  ℕ, ◌-◌, ◌≤◌, String, Bool, not, ◌&&◌, List, [], ◌∷◌, ◌≡◌, refl, ◌⊎◌, inl, keep, str_eq, arith,
  leb,
}
use capper.Csd.Metadata.{Store, Entry, Faults, is_pending, max_seq}
use capper.Csd.Metadata.Replay.{checkpoint, journal_keep_last}

abbrev kept : String → ℕ → Entry → Bool
kept volume bound e = not (str_eq e.volume_id volume && (e.committed && leb e.seq bound))

keep_pending-kept :
    (volume other : String) (bound : ℕ) (es : List Entry)
    → keep (is_pending other) (keep (kept volume bound) es) ≡ keep (is_pending other) es
keep_pending-kept volume other bound [] = refl
keep_pending-kept volume other bound (e ∷ es) =
    ground (arith, keep_pending-kept volume other bound es)

max_seq-keep_le :
    (volume : String) (g : Entry → Bool) (es : List Entry)
    → max_seq volume (keep g es) ≤ max_seq volume es
unfolding max_seq
max_seq-keep_le volume g [] = omega arith
max_seq-keep_le volume g (e ∷ es) = ground (arith, max_seq-keep_le volume g es)

-- The greatest number is kept, unless it is small itself.
max_seq-kept :
    (volume : String) (bound : ℕ) (es : List Entry)
    → (max_seq volume (keep (kept volume bound) es) ≡ max_seq volume es)
      ⊎ (max_seq volume es ≤ bound)
unfolding max_seq
max_seq-kept volume bound [] = inl refl
max_seq-kept volume bound (e ∷ es) =
    ground (arith, max_seq-kept volume bound es, max_seq-keep_le volume (kept volume bound) es)

-- Whether or not its statements fail, Checkpoint leaves the pending entries of every volume, the inodes, and the
-- greatest sequence number of its volume, from which the next one is made.
pub checkpoint_keeps :
    (f : Faults) (volume : String) (d : Store)
    → ((other : String)
        → keep (is_pending other) (checkpoint f volume d).1.journal
          ≡ keep (is_pending other) d.journal)
      × (max_seq volume (checkpoint f volume d).1.journal ≡ max_seq volume d.journal)
      × ((checkpoint f volume d).1.inodes ≡ d.inodes)
unfolding checkpoint
checkpoint_keeps f volume d = (
  λ other. ground (
    arith,
    keep_pending-kept volume other (max_seq volume d.journal - journal_keep_last) d.journal,
  ),
  ground (arith, max_seq-kept volume (max_seq volume d.journal - journal_keep_last) d.journal),
  ground arith,
)
