-- ===== src/Ipam/Released.antt =====
-- What `Release` of internal/ipam/manager.go does to an address, whatever its status was.
use capper.Prelude.{
  Option-cases, String, Bool, Bool-cases, inl, inr, true, false, not, ◌&&◌, ◌||◌, List, [], ◌∷◌,
  some, ◌≡◌, ◌∙◌, refl, ap, map, find, any, keep, str_eq, eq_iff, arith,
}
use capper.Ipam.{pool_exhausted, RoutableIp, IpBinding, Db, ip_available}
use capper.Ipam.Tables
use capper.Ipam.Tables.{
  name_taken, Faults, Result, ok, updated, exec, query, get_ip, get_pool, set_pool_status,
  update_ip, delete_bindings_for_ip,
}
use capper.Ipam.Manager
use capper.Ipam.Held.{updated-id}

abbrev pub no_faults : Faults
no_faults s = false

abbrev pub freed : RoutableIp → RoutableIp
freed r = record r {
  status = ip_available;
  project = "";
  name = "";
  purpose = "";
  target_type = "";
  target_id = "";
  allocation_type = "auto";
}

find-updated :
    (id : String) (ip : RoutableIp) (rows : List RoutableIp) (r : RoutableIp)
    → find (λ x. str_eq x.id id) rows ≡ some r
    → find (λ x. str_eq x.id id) (map (updated ip) rows) ≡ some (updated ip r)
find-updated id ip [] r e = ground arith
find-updated id ip (x ∷ rows) r e = elim (Bool-cases (str_eq x.id id)) [
  | inl h ↦ rw (updated-id id ip x, h) (ground (arith, h, e))
  | inr h ↦ rw (updated-id id ip x, h) (find-updated id ip rows r (ground (arith, h, e)))
]

-- The pool is all that changes, and only if it was exhausted.
revive_rest :
    (i : String) (db : Db)
    → ((Manager.revive no_faults i db).0 ≡ ok tt)
      × ((Manager.revive no_faults i db).1.ips ≡ db.ips)
      × ((Manager.revive no_faults i db).1.exclusions ≡ db.exclusions)
unfolding Manager.revive Tables.◌>>=◌ get_pool set_pool_status exec query Tables.ignored Tables.pure
    Tables.if◌run◌or◌
revive_rest i db = elim (Option-cases (find (λ p. str_eq p.id i || str_eq p.name i) db.pools)) [
  | inl e ↦ rw e (refl, refl, refl)
  | inr (p, e) ↦ elim (Bool-cases (str_eq p.status pool_exhausted)) [
    | inl h ↦ rw (e, h) (refl, refl, refl)
    | inr h ↦ rw (e, h) (refl, refl, refl)
  ]
]

and_false : (b : Bool) → b && false ≡ false
and_false true = refl
and_false false = refl

update_ip-freed :
    (r : RoutableIp) (db : Db)
    → update_ip no_faults (freed r) db ≡ (ok tt, record db { ips = map (updated (freed r)) db.ips })
unfolding update_ip exec name_taken
update_ip-freed r db = rw (and_false (any (λ x. str_eq x.id r.id) db.ips)) refl

release_steps :
    (id : String) (db : Db) (r : RoutableIp)
    → find (λ x. str_eq x.id id) db.ips ≡ some r
    → Manager.release no_faults id db
      ≡ Manager.revive no_faults r.pool_id (record db {
        bindings = keep (λ b. not (str_eq b.ip_id id)) db.bindings;
        ips = map (updated (freed r)) db.ips;
      })
unfolding Manager.release Tables.◌>>=◌ Tables.◌>>◌ get_ip delete_bindings_for_ip exec query
release_steps id db r e = rw (e, update_ip-freed r) refl

-- On an address that exists, with no statement failing, `Release` succeeds and leaves the address
-- available, whatever its status was, also excluded, blocked or retired, and deletes no exclusion.
pub release-freed :
    (id : String) (db : Db) (r : RoutableIp)
    → find (λ x. str_eq x.id id) db.ips ≡ some r
    → ((Manager.release no_faults id db).0 ≡ ok tt)
      × (find (λ x. str_eq x.id id) (Manager.release no_faults id db).1.ips ≡ some (freed r))
      × ((Manager.release no_faults id db).1.exclusions ≡ db.exclusions)
unfolding updated
release-freed id db r e =
    let d = record db {
      bindings = keep (λ (b : IpBinding). not (str_eq b.ip_id id)) db.bindings;
      ips = map (updated (freed r)) db.ips;
    } in
    let rest = revive_rest r.pool_id d in
    let self : str_eq r.id r.id ≡ true = (eq_iff r.id r.id).1 refl in
    rw (release_steps id db r e) (
      rest.0,
      ap (find (λ x. str_eq x.id id)) rest.1
          ∙ find-updated id (freed r) db.ips r e
          ∙ (rw self refl),
      rest.2,
    )
