-- ===== src/Csd/Lease.antt =====
-- The lease table (internal/csd/store/leases.go) and its manager (internal/csd/server/lease_manager.go).
-- Times are in nanoseconds. The order of the rows plays no part: a new row is put in front. A flag
-- says which statement the database fails to carry out.
pub mod Errors
pub mod Examples
pub mod Exclusion
pub mod Expiry
use Errors.{Error, Result, ok, err, not_found, access_denied, store_failed, lease_conflict}
use capper.Prelude.{
  ℕ, ◌+◌, ◌*◌, ◌/◌, String, Bool, true, false, not, ◌&&◌, ◌||◌, List, [], ◌∷◌, Option, none, some,
  any, keep, find, map, str_eq, ltb, if◌then◌else◌, length, ◌-◌,
}
use capper.Prelude.Int.{ℤ, pos, negsuc, ltb_ℤ, eq_ℤ}

abbrev pub lease_read : String
lease_read = "read"

abbrev pub lease_exclusive : String
lease_exclusive = "exclusive"

-- csd.LeaseTTL, 15 seconds.
abbrev pub lease_ttl : ℕ
lease_ttl = 15_000_000_000

pub record Lease : Type 0 where
  pub id : String
  pub volume_id : String
  pub inode_id : String
  pub client_id : String
  pub session_id : String
  pub lease_type : String
  pub range_start : ℤ
  pub range_end : ℤ
  pub epoch : ℤ
  pub expires_at : ℕ
  pub created_at : ℕ

pub record LeaseRequest : Type 0 where
  pub volume_id : String
  pub inode_id : String
  pub client_id : String
  pub session_id : String
  pub lease_type : String
  pub range_start : ℤ
  pub range_end : ℤ
  pub epoch : ℤ

abbrev pub Table : Type 0
Table = List Lease

-- RFC 3339 without a fraction keeps the whole seconds.
abbrev pub seconds : ℕ → ℕ
seconds t = t / 1_000_000_000

-- A row as the table holds it, and as `scanLease` reads it back.
pub stored : Lease → Lease
stored l = record l { expires_at = seconds l.expires_at * 1_000_000_000 }

-- The key of the table is the id.
pub insert : Lease → Table → Option Table
unfolding stored
insert l rows = if any (λ r. str_eq r.id l.id) rows then none else some (stored l ∷ rows)

pub get : String → Table → Option Lease
get id rows = find (λ r. str_eq r.id id) rows

pub for_inode : String → String → Table → List Lease
for_inode volume inode rows = keep (λ r. str_eq r.volume_id volume && str_eq r.inode_id inode) rows

pub renewed : String → ℕ → Lease → Lease
renewed id t r = if str_eq r.id id then record r { expires_at = seconds t * 1_000_000_000 } else r

pub renew_row : String → ℕ → Table → Table
renew_row id t rows = map (renewed id t) rows

pub delete : String → Table → Table
delete id rows = keep (λ r. not (str_eq r.id id)) rows

pub delete_for_client : String → String → Table → Table × ℕ
delete_for_client volume client rows =
    let left = keep (λ r. not (str_eq r.volume_id volume && str_eq r.client_id client)) rows in
    (left, length rows - length left)

-- Rows of the same format compare as texts the way their seconds compare.
pub delete_expired : ℕ → Table → Table × ℕ
delete_expired now rows =
    let left = keep (λ r. not (ltb (seconds r.expires_at) (seconds now))) rows in
    (left, length rows - length left)

-- -1 is an unbounded end.
pub ranges_overlap : ℤ → ℤ → ℤ → ℤ → Bool
ranges_overlap s1 e1 s2 e2 =
    if eq_ℤ e1 (negsuc 0) || eq_ℤ e2 (negsuc 0) then true else ltb_ℤ s1 e2 && ltb_ℤ s2 e1

-- `none` is no conflict.
pub check_conflict : LeaseRequest → Lease → Option Error
unfolding ranges_overlap
check_conflict req ex =
    if str_eq ex.lease_type lease_exclusive || str_eq req.lease_type lease_exclusive
    then some (lease_conflict ex.client_id)
    else if str_eq req.lease_type lease_read && str_eq ex.lease_type lease_read
    then none
    else if ranges_overlap req.range_start req.range_end ex.range_start ex.range_end
    then some (lease_conflict ex.client_id)
    else none

-- The loop of `Acquire` over the leases on the inode.
pub first_conflict : LeaseRequest → List Lease → Option Error
first_conflict req [] = none
first_conflict req (ex ∷ existing) =
    let rest = first_conflict req existing in
    if str_eq ex.client_id req.client_id
    then rest
    else elim (check_conflict req ex) [ none ↦ rest | some e ↦ some e ]

abbrev pub new_lease : LeaseRequest → String → ℕ → Lease
new_lease req id now = record {
  id = id;
  volume_id = req.volume_id;
  inode_id = req.inode_id;
  client_id = req.client_id;
  session_id = req.session_id;
  lease_type = req.lease_type;
  range_start = req.range_start;
  range_end = req.range_end;
  epoch = req.epoch;
  expires_at = now + lease_ttl;
  created_at = now;
}

-- Which of a call's two statements fails: the one that reads, or the one that writes.
pub record Faults : Type 0 where
  pub reading : Bool
  pub writing : Bool

insert_new : Faults → Lease → Table → Result Lease × Table
insert_new f l rows =
    if f.writing
    then (err store_failed, rows)
    else elim (insert l rows) [ none ↦ (err store_failed, rows) | some rows' ↦ (ok l, rows') ]

-- `id` is the fresh identifier, `now` the clock.
pub acquire : Faults → LeaseRequest → String → ℕ → Table → Result Lease × Table
unfolding insert_new
acquire f req id now rows =
    if f.reading
    then (err store_failed, rows)
    else elim (first_conflict req (for_inode req.volume_id req.inode_id rows)) [
      | some e ↦ (err e, rows)
      | none ↦ insert_new f (new_lease req id now) rows
    ]

-- What `Renew` and `Release` do before they write: `none` lets them go on.
refusal : Faults → String → String → Table → Option Error
refusal f id client rows = if f.reading then some store_failed else elim (get id rows) [
  | none ↦ some not_found
  | some l ↦
      if not (str_eq l.client_id client)
      then some access_denied
      else if f.writing
      then some store_failed
      else none
]

pub renew : Faults → String → String → ℕ → Table → Option Error × Table
unfolding refusal
renew f id client now rows = elim (refusal f id client rows) [
  | some e ↦ (some e, rows)
  | none ↦ (none, renew_row id (now + lease_ttl) rows)
]

pub release : Faults → String → String → Table → Option Error × Table
unfolding refusal
release f id client rows = elim (refusal f id client rows) [
  | some e ↦ (some e, rows)
  | none ↦ (none, delete id rows)
]

pub revoke : Faults → String → String → Table → Option Error × Table
revoke f volume client rows =
    if f.writing
    then (some store_failed, rows)
    else (none, (delete_for_client volume client rows).0)

-- One turn of `ExpireLoop`, whose errors are dropped.
pub expire : Faults → ℕ → Table → Table
expire f now rows = if f.writing then rows else (delete_expired now rows).0

-- The calls of the manager, each with what the clock, the generator of identifiers and the database
-- give it.
pub data Call : Type 0 where
  acquires : Faults → LeaseRequest → String → ℕ → Call
  renews : Faults → String → String → ℕ → Call
  releases : Faults → String → String → Call
  revokes : Faults → String → String → Call
  expires : Faults → ℕ → Call

pub step : Call → Table → Table
step (acquires f req id now) rows = (acquire f req id now rows).1
step (renews f id client now) rows = (renew f id client now rows).1
step (releases f id client) rows = (release f id client rows).1
step (revokes f volume client) rows = (revoke f volume client rows).1
step (expires f now) rows = expire f now rows

pub run : List Call → Table → Table
run [] rows = rows
run (c ∷ cs) rows = run cs (step c rows)
