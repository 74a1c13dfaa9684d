-- ===== src/Csd/Lease/Exclusion.antt =====
-- Leases of different clients on one inode keep out of each other's way, after any calls of the
-- manager of internal/csd/server/lease_manager.go.
use capper.Prelude.{
  ℕ, ◌+◌, String, Bool, true, false, not, ◌&&◌, ◌||◌, List, [], ◌∷◌, none, some, keep, map, str_eq,
  eq_iff, ltb, ◌≡◌, ◌≢◌, ◌⊎◌, inl, inr, All, Any, arith, keep-All, Bool-cases, subst, sym,
}
use capper.Prelude.Int.{ℤ, negsuc, ◌≤ℤ◌, ◌<ℤ◌}
use capper.Csd.Lease.{
  Lease, LeaseRequest, Table, Faults, Call, acquires, renews, releases, revokes, expires,
  lease_read, lease_exclusive, lease_ttl, seconds, stored, insert, for_inode, renewed, renew_row,
  delete, delete_for_client, delete_expired, check_conflict, first_conflict, new_lease, acquire,
  renew, release, revoke, expire, step, run,
}

-- A lease as the request that asks for it.
abbrev request_of : Lease → LeaseRequest
request_of l = record {
  volume_id = l.volume_id;
  inode_id = l.inode_id;
  client_id = l.client_id;
  session_id = l.session_id;
  lease_type = l.lease_type;
  range_start = l.range_start;
  range_end = l.range_end;
  epoch = l.epoch;
}

same_inode : Lease → Lease → Bool
same_inode a b = str_eq a.volume_id b.volume_id && str_eq a.inode_id b.inode_id

-- Two rows that the manager lets stand side by side.
clear : Lease → Lease → Bool
clear a b =
    not (same_inode b a)
    || (str_eq b.client_id a.client_id
        || elim (check_conflict (request_of a) b) [ none ↦ true | some e ↦ false ])

abbrev AllClear : Table → Type 0
AllClear [] = Unit {0}
AllClear (x ∷ xs) = All (λ y. clear x y ≡ true) xs × AllClear xs

first_conflict-clear :
    (req : LeaseRequest) (id : String) (now : ℕ) (rows : Table)
    → first_conflict req (for_inode req.volume_id req.inode_id rows) ≡ none
    → All (λ y. clear (stored (new_lease req id now)) y ≡ true) rows
unfolding first_conflict for_inode clear stored same_inode
first_conflict-clear req id now [] h = tt
first_conflict-clear req id now (x ∷ rows) h = ground (arith, first_conflict-clear req id now rows)

acquire-AllClear :
    (f : Faults) (req : LeaseRequest) (id : String) (now : ℕ) (rows : Table)
    → AllClear rows
    → AllClear (acquire f req id now rows).1
unfolding acquire insert
acquire-AllClear f req id now rows h = ground (arith, first_conflict-clear req id now rows)

keep-AllClear : (f : Lease → Bool) (rows : Table) → AllClear rows → AllClear (keep f rows)
keep-AllClear f [] h = tt
keep-AllClear f (x ∷ rows) h =
    ground (arith, keep-AllClear f rows h.1, keep-All f (λ y. clear x y ≡ true) rows h.0)

-- A renewal changes nothing that the test of conflicts reads.
clear-renewed :
    (id : String) (t : ℕ) (a b : Lease) → clear (renewed id t a) (renewed id t b) ≡ clear a b
unfolding clear renewed same_inode check_conflict
clear-renewed id t a b = elim (Bool-cases (str_eq a.id id)) [
  | inl p ↦ elim (Bool-cases (str_eq b.id id)) [ inl q ↦ rw (p, q) | inr q ↦ rw (p, q) ]
  | inr p ↦ elim (Bool-cases (str_eq b.id id)) [ inl q ↦ rw (p, q) | inr q ↦ rw (p, q) ]
]

renew_row-All :
    (id : String) (t : ℕ) (x : Lease) (rows : Table)
    → All (λ y. clear x y ≡ true) rows
    → All (λ y. clear (renewed id t x) y ≡ true) (map (renewed id t) rows)
renew_row-All id t x [] h = tt
renew_row-All id t x (y ∷ rows) h = (rw (clear-renewed id t x y) h.0, renew_row-All id t x rows h.1)

renew_row-AllClear :
    (id : String) (t : ℕ) (rows : Table) → AllClear rows → AllClear (map (renewed id t) rows)
renew_row-AllClear id t [] h = tt
renew_row-AllClear id t (x ∷ rows) h =
    (renew_row-All id t x rows h.0, renew_row-AllClear id t rows h.1)

step-AllClear : (c : Call) (rows : Table) → AllClear rows → AllClear (step c rows)
unfolding step renew release revoke expire renew_row delete delete_for_client delete_expired
step-AllClear (acquires f req id now) rows h = acquire-AllClear f req id now rows h
step-AllClear (renews f id client now) rows h =
    ground (arith, renew_row-AllClear id (now + lease_ttl) rows h)
step-AllClear (releases f id client) rows h =
    ground (arith, keep-AllClear (λ r. not (str_eq r.id id)) rows h)
step-AllClear (revokes f volume client) rows h = ground (
  arith,
  keep-AllClear (λ r. not (str_eq r.volume_id volume && str_eq r.client_id client)) rows h,
)
step-AllClear (expires f now) rows h =
    ground (arith, keep-AllClear (λ r. not (ltb (seconds r.expires_at) (seconds now))) rows h)

run-AllClear : (cs : List Call) (rows : Table) → AllClear rows → AllClear (run cs rows)
unfolding run
run-AllClear [] rows h = h
run-AllClear (c ∷ cs) rows h = run-AllClear cs (step c rows) (step-AllClear c rows h)

-- The bytes that a lease is about: from its start, up to its end if that is not -1.
abbrev pub Covers : Lease → ℤ → Type 0
Covers l o = (l.range_start ≤ℤ o) × ((l.range_end ≡ negsuc 0) ⊎ (o <ℤ l.range_end))

abbrev pub In : Lease → Table → Type 0
In l rows = Any (λ r. r ≡ l) rows

clear_shared :
    (a b : Lease) (o : ℤ)
    → clear a b ≡ true
    → a.volume_id ≡ b.volume_id
    → a.inode_id ≡ b.inode_id
    → a.client_id ≢ b.client_id
    → Covers a o
    → Covers b o
    → (a.lease_type ≡ lease_read) × (b.lease_type ≡ lease_read)
unfolding clear same_inode check_conflict
clear_shared a b o h v i c p q = ground (
  arith,
  eq_iff b.volume_id a.volume_id,
  eq_iff b.inode_id a.inode_id,
  eq_iff b.client_id a.client_id,
  eq_iff a.lease_type lease_read,
  eq_iff b.lease_type lease_read,
)

All-In : (P : Lease → Type 0) (b : Lease) (rows : Table) → All P rows → In b rows → P b
All-In P b [] h i = absurd i
All-In P b (x ∷ rows) h (inl e) = subst P e h.0
All-In P b (x ∷ rows) h (inr i) = All-In P b rows h.1 i

AllClear-two :
    (a b : Lease) (rows : Table)
    → AllClear rows
    → In a rows
    → In b rows
    → a.client_id ≢ b.client_id
    → (clear a b ≡ true) ⊎ (clear b a ≡ true)
AllClear-two a b [] h i j c = absurd i
AllClear-two a b (x ∷ rows) h (inl e) (inl f) c = absurd (c (cc))
AllClear-two a b (x ∷ rows) h (inl e) (inr j) c =
    inl (subst (λ l. clear l b ≡ true) e (All-In (λ y. clear x y ≡ true) b rows h.0 j))
AllClear-two a b (x ∷ rows) h (inr i) (inl f) c =
    inr (subst (λ l. clear l a ≡ true) f (All-In (λ y. clear x y ≡ true) a rows h.0 i))
AllClear-two a b (x ∷ rows) h (inr i) (inr j) c = AllClear-two a b rows h.1 i j c

-- After any calls on an empty table, failing statements included, two leases of different clients on
-- one inode that share a byte are both read leases.
pub run_exclusion :
    (cs : List Call) (a b : Lease) (o : ℤ)
    → In a (run cs [])
    → In b (run cs [])
    → a.volume_id ≡ b.volume_id
    → a.inode_id ≡ b.inode_id
    → a.client_id ≢ b.client_id
    → Covers a o
    → Covers b o
    → (a.lease_type ≡ lease_read) × (b.lease_type ≡ lease_read)
run_exclusion cs a b o i j v n c p q =
    elim (AllClear-two a b (run cs []) (run-AllClear cs [] tt) i j c) [
      | inl h ↦ clear_shared a b o h v n c p q
      | inr h ↦ swap (clear_shared b a o h (sym v) (sym n) (λ e. c (sym e)) q p)
    ]
  where
    swap :
        (b.lease_type ≡ lease_read) × (a.lease_type ≡ lease_read)
        → (a.lease_type ≡ lease_read) × (b.lease_type ≡ lease_read)
    swap (x, y) = (y, x)

exclusive_clear :
    (a b : Lease)
    → clear a b ≡ true
    → a.volume_id ≡ b.volume_id
    → a.inode_id ≡ b.inode_id
    → a.client_id ≢ b.client_id
    → (a.lease_type ≢ lease_exclusive) × (b.lease_type ≢ lease_exclusive)
unfolding clear same_inode check_conflict
exclusive_clear a b h v i c = ground (
  arith,
  eq_iff b.volume_id a.volume_id,
  eq_iff b.inode_id a.inode_id,
  eq_iff b.client_id a.client_id,
  eq_iff a.lease_type lease_exclusive,
  eq_iff b.lease_type lease_exclusive,
)

-- After any calls on an empty table, an inode with an exclusive lease has leases of that lease's
-- client only.
pub run_exclusive :
    (cs : List Call) (a b : Lease)
    → In a (run cs [])
    → In b (run cs [])
    → a.volume_id ≡ b.volume_id
    → a.inode_id ≡ b.inode_id
    → a.lease_type ≡ lease_exclusive
    → a.client_id ≡ b.client_id
run_exclusive cs a b i j v n x = elim (Bool-cases (str_eq a.client_id b.client_id)) [
  | inl e ↦ (eq_iff a.client_id b.client_id).0 e
  | inr e ↦ absurd (clash (λ f. differ e ((eq_iff a.client_id b.client_id).1 f)))
]
  where
    differ : {t : Bool} → t ≡ false → t ≡ true → ⊥
    differ p q = cc

    clash : a.client_id ≢ b.client_id → ⊥
    clash c = elim (AllClear-two a b (run cs []) (run-AllClear cs [] tt) i j c) [
      | inl h ↦ (exclusive_clear a b h v n c).0 x
      | inr h ↦ (exclusive_clear b a h (sym v) (sym n) (λ e. c (sym e))).1 x
    ]
