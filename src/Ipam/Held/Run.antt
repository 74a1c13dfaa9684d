-- ===== src/Ipam/Held/Run.antt =====
-- A row of the address table is not handed out twice: sequences of calls of internal/ipam/manager.go.
use capper.Prelude.{
  find-passes, String, true, false, ◌≡◌, List, [], ◌∷◌, str_eq, All, Bool-cases, inl, inr, refl,
  sym, map, find, eq_iff, ◌≢◌, arith, subst,
}
use capper.Ipam.{RoutableIp, Db, ip_reserved}
use capper.Ipam.Tables.{updated, update_ip, get_ip, row_of, Faults, M, Result, ok, err}
use capper.Ipam.Calls
use capper.Ipam.Calls.{Call, run, apply}
use capper.Ipam.Expand.{Netip}
use capper.Ipam.Manager
use capper.Ipam.Manager.{ReserveOptions}
use capper.Ipam.Triple.{
  Post, Triple, weaken-Triple, step-Triple, guard-Triple, then-Triple, exec-Triple, query-Triple,
}
use capper.Ipam.Held.{Held, Fits, busy, row_of-some}
use capper.Ipam.Held.Keep.{Keeps, Other, release-Keeps, detach-Keeps, attach-Keeps, reserve-Other}
use capper.Ipam.Held.Create.{create_pool-Keeps, delete_pool-Keeps}
use capper.Ipam.Held.Exclude.{add_exclusion-Keeps, remove_exclusion-Keeps}

-- Every call but the release of this address, and a new address that gets its id.
abbrev pub Spares : String → Faults × Call → Type 0
Spares id (f, Calls.release i) = str_eq i id ≡ false
Spares id (f, Calls.create_pool new_id opts) = (text : String) → str_eq (new_id text) id ≡ false
Spares id (f, _) = Unit {0}

-- Without an invariant every call does.
abbrev Free : Db → Type 0
Free db = Unit {0}

free-Triple : {A : Type 0} (m : M A) → Triple Free Free m (λ a db. Free db × Unit {0})
free-Triple m = record { holds = λ db h. go (m db) }
  where
    go : {A : Type 0} (r : Result A × Db) → Post Free (λ a db. Free db × Unit {0}) r
    go (ok a, db) = (tt, tt)
    go (err e, db) = tt

updated_self : (ip r : RoutableIp) → str_eq ip.status ip_reserved ≡ true → Fits ip.id (updated ip r)
unfolding updated Fits busy
updated_self ip r h = elim (Bool-cases (str_eq r.id ip.id)) [
  | inl e ↦ rw (e, h) (ground arith)
  | inr e ↦ rw (e, e) refl
]

All-updated :
    (ip : RoutableIp) (rows : List RoutableIp)
    → str_eq ip.status ip_reserved ≡ true
    → All (Fits ip.id) (map (updated ip) rows)
All-updated ip [] h = tt
All-updated ip (r ∷ rows) h = (updated_self ip r h, All-updated ip rows h)

update_ip-All :
    (f : Faults) (ip : RoutableIp)
    → str_eq ip.status ip_reserved ≡ true
    → Triple Free Free (update_ip f ip) (λ _ db. All (Fits ip.id) db.ips)
unfolding update_ip
update_ip-All f ip h = exec-Triple Free _ _ _ _ (λ db k. k) (λ db k. All-updated ip db.ips h)

get_ip-Held :
    (f : Faults) (id : String)
    → Triple Free (λ db. All (Fits id) db.ips) (get_ip f id) (λ r db. Held r.id db)
unfolding get_ip
get_ip-Held f id =
    query-Triple Free _ _ (λ db h. tt)
      (λ db r h e. subst (λ i. All (Fits i) db.ips) (sym ((eq_iff r.id id).0 (same db r e))) h)
  where
    same :
        (db : Db) (r : RoutableIp)
        → row_of (find (λ (x : RoutableIp). str_eq x.id id) db.ips) ≡ ok r
        → str_eq r.id id ≡ true
    same db r e = find-passes (λ x. str_eq x.id id) db.ips r (row_of-some _ r e)

reserve-Held :
    (f : Faults) (o : ReserveOptions)
    → Triple Free Free (Manager.reserve f o) (λ r db. Held r.id db)
unfolding Manager.reserve
reserve-Held f o = step-Triple Free (free-Triple _) (λ pool _.
    guard-Triple Free _ _ (λ db h. h)
      (λ _.
        guard-Triple Free _ _ (λ db h. h)
          (λ _. step-Triple Free (free-Triple _) (λ ip _.
            then-Triple Free (λ db. All (Fits ip.id) db.ips) (update_ip-All f _ refl)
              (get_ip-Held f ip.id)))))

module _ (id : String) where
  Post-Held : {A : Type 0} (r : Result A × Db) → Post (Held id) (λ _. Held id) r → Held id r.1
  Post-Held (ok a, db) h = h
  Post-Held (err e, db) h = h

  Keeps-Held :
      {A : Type 0} (f : Faults) (m : M A) (db : Db) → Keeps id f m → Held id db → Held id (m db).1
  Keeps-Held f m db t h = Post-Held (m db) (t.holds db h)

  apply-Held :
      (n : Netip) (c : Faults × Call) (db : Db)
      → Spares id c
      → Held id db
      → Held id (apply n c.0 c.1 db)
  apply-Held n (f, Calls.reserve o) db s h =
      Keeps-Held f _ db (weaken-Triple (Held id) (reserve-Other id f o) (λ r d k. k.0)) h
  apply-Held n (f, Calls.release i) db s h = Keeps-Held f _ db (release-Keeps id f i s) h
  apply-Held n (f, Calls.attach i b) db s h = Keeps-Held f _ db (attach-Keeps id f i b) h
  apply-Held n (f, Calls.detach i) db s h = Keeps-Held f _ db (detach-Keeps id f i) h
  apply-Held n (f, Calls.add_exclusion e) db s h =
      Keeps-Held f _ db (add_exclusion-Keeps id f n e) h
  apply-Held n (f, Calls.remove_exclusion i) db s h =
      Keeps-Held f _ db (remove_exclusion-Keeps id f n i) h
  apply-Held n (f, Calls.create_pool new_id opts) db s h =
      Keeps-Held f _ db (create_pool-Keeps id f n new_id s opts) h
  apply-Held n (f, Calls.delete_pool pool) db s h =
      Keeps-Held f _ db (delete_pool-Keeps id f pool) h

  run-Held :
      (n : Netip) (calls : List (Faults × Call)) (db : Db)
      → All (Spares id) calls
      → Held id db
      → Held id (run n calls db)
  run-Held n [] db s h = h
  run-Held n (c ∷ calls) db s h =
      run-Held n calls (apply n c.0 c.1 db) s.1 (apply-Held n c db s.0 h)

  Post-Other :
      (f : Faults) (r : Result RoutableIp × Db) (ip : RoutableIp)
      → Post (Held id) (λ x db. Held id db × Other id f x) r
      → r.0 ≡ ok ip
      → str_eq ip.id id ≡ false
  Post-Other f (ok r, db) ip h e = ground (arith, h.1)
  Post-Other f (err x, db) ip h e = ground arith

Post-first :
    (r : Result RoutableIp × Db) (ip : RoutableIp)
    → Post Free (λ x db. Held x.id db) r
    → r.0 ≡ ok ip
    → Held ip.id r.1
Post-first (ok r, db) ip h e = let same : r ≡ ip = ground arith in subst (λ x. Held x.id db) same h
Post-first (err x, db) ip h e = ground arith

-- Once a call of `Reserve` has returned a row, another call that succeeds returns a row with another id, as
-- long as no call in between releases the first row or gives its id to a new one: whatever the calls in
-- between are, in whatever order, and whichever of their statements fail. (A new row may have the text of a
-- row that was deleted in between.)
pub reserve_fresh :
    (n : Netip) (f g : Faults) (o p : ReserveOptions) (db : Db) (calls : List (Faults × Call))
    (ip again : RoutableIp)
    → (Manager.reserve f o db).0 ≡ ok ip
    → All (Spares ip.id) calls
    → (Manager.reserve g p (run n calls (Manager.reserve f o db).1)).0 ≡ ok again
    → again.id ≢ ip.id
reserve_fresh n f g o p db calls ip again first spared second =
    let held = Post-first (Manager.reserve f o db) ip ((reserve-Held f o).holds db tt) first in
    let later = run n calls (Manager.reserve f o db).1 in
    let other =
      Post-Other ip.id g (Manager.reserve g p later) again
        ((reserve-Other ip.id g p).holds later
          (run-Held ip.id n calls (Manager.reserve f o db).1 spared held))
        second in
    λ e. let same = (eq_iff again.id ip.id).1 e in ground (arith, same, other)
