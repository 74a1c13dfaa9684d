-- ===== src/Ipam/Conflict/Calls.antt =====
-- No call of internal/ipam/manager.go lets two targets share a port of an address.
use capper.Prelude.{
  String, false, List, [], ◌∷◌, Option, none, some, ◌≡◌, subst, any, keep, str_eq, arith,
}
use capper.Ipam.{RoutableIp, RoutableIpPool, IpBinding, IpExclusion, Db, pool_exhausted}
use capper.Ipam.Tables
use capper.Ipam.Tables.{
  Faults, M, Result, ok, err, query, ◌>>=◌, get_ip, get_pool, list_bindings, update_ip,
  set_pool_status, delete_bindings_for_ip, insert_binding, insert_exclusion, delete_exclusion,
}
use capper.Ipam.Expand.{Netip}
use capper.Ipam.Manager
use capper.Ipam.Calls
use capper.Ipam.Calls.{Call, run, apply}
use capper.Ipam.Triple.{
  Post, Triple, bind-Triple, step-Triple, then-Triple, guard-Triple, if-Triple, pure-Triple,
  fail-Triple, exec-Triple, query-Triple, or_else-Triple, or_none-Triple, ignored-Triple,
  optional-Triple,
}
use capper.Ipam.Conflict.{
  NoClash, Clear, any-clash, Clears, done, query-Clears, delete_bindings_for_ip-Clear,
  insert_binding-Clear,
}
use capper.Ipam.Conflict.Pool.{create_pool-Clears, delete_pool-Clear}

module _ (f : Faults) where
  update_ip-Clear : (r : RoutableIp) → Triple Clear Clear (update_ip f r) (λ _. Clear)
  unfolding update_ip
  update_ip-Clear r = exec-Triple Clear _ _ _ _ (λ db h. h) (λ db h. h)

  set_pool_status-Clear : (i s : String) → Triple Clear Clear (set_pool_status f i s) (λ _. Clear)
  unfolding set_pool_status
  set_pool_status-Clear i s = exec-Triple Clear _ _ _ _ (λ db h. h) (λ db h. h)

  get_ip-Clears : (i : String) → Clears (get_ip f i)
  unfolding get_ip
  get_ip-Clears i = query-Clears _ _

  get_pool-Clears : (i : String) → Clears (get_pool f i)
  unfolding get_pool
  get_pool-Clears i = query-Clears _ _

  -- What is bound to the address when the loop of `Attach` looks at it.
  list_bindings-Clear :
      (i : String)
      → Triple Clear Clear
          (list_bindings f i)
          (λ bs db. Clear db × (bs ≡ keep (λ b. str_eq b.ip_id i) db.bindings))
  unfolding list_bindings
  list_bindings-Clear i = query-Triple Clear _ _ (λ db h. h) (λ db bs h e. (h, ground (arith, e)))

  attach-Clears : (i : String) (b : IpBinding) → Clears (Manager.attach f i b)
  unfolding Manager.attach
  attach-Clears i b = step-Triple Clear (get_ip-Clears i) (λ ip _.
      guard-Triple Clear _ _ (λ db h. h)
        (λ _. bind-Triple Clear _ (list_bindings-Clear i) (λ bs.
          guard-Triple Clear _ _ (λ db h. h.0)
            (λ free.
              bind-Triple Clear (λ _. Clear)
                (record {
                  holds = λ db h. (insert_binding-Clear f (record b { ip_id = i })).holds db (
                    h.0,
                    any-clash b i db.bindings
                        (subst (λ x. any (Manager.clashes b) x ≡ false) h.1 free),
                  );
                })
                (λ saved. then-Triple Clear Clear (update_ip-Clear _) (done saved))))))

  revive-Clear : (i : String) → Triple Clear Clear (Manager.revive f i) (λ _. Clear)
  unfolding Manager.revive
  revive-Clear i = ignored-Triple Clear (
      step-Triple Clear (get_pool-Clears i) (λ pool _.
        if-Triple Clear _ (λ _. set_pool_status-Clear _ _) (λ _. pure-Triple Clear tt (λ db h. h))))

  release-Clear : (i : String) → Triple Clear Clear (Manager.release f i) (λ _. Clear)
  unfolding Manager.release
  release-Clear i = step-Triple Clear (get_ip-Clears i) (λ ip _.
      then-Triple Clear Clear (delete_bindings_for_ip-Clear f i)
        (then-Triple Clear Clear (update_ip-Clear _) (revive-Clear ip.pool_id)))

  detach-Clear : (i : String) → Triple Clear Clear (Manager.detach f i) (λ _. Clear)
  unfolding Manager.detach
  detach-Clear i =
      step-Triple Clear (get_ip-Clears i)
        (λ ip _. then-Triple Clear Clear (delete_bindings_for_ip-Clear f i) (update_ip-Clear _))

  choose-Clears : (pool : RoutableIpPool) → Clears (Manager.choose f pool)
  unfolding Manager.choose Tables.first_available
  choose-Clears pool =
      guard-Triple Clear _ _ (λ db h. h)
        (λ _.
          optional-Triple Clear _ (query-Clears _ _) (λ r _. done r)
            (then-Triple Clear Clear
              (ignored-Triple Clear (set_pool_status-Clear pool.id pool_exhausted))
              (fail-Triple Clear _ (λ db k. k))))

  reserve-Clears : (o : Manager.ReserveOptions) → Clears (Manager.reserve f o)
  unfolding Manager.reserve Tables.get_available_address
  reserve-Clears o =
      step-Triple Clear (or_else-Triple Clear _ (get_pool-Clears o.pool_id)) (λ pool _.
        guard-Triple Clear _ _ (λ db h. h)
          (λ _.
            guard-Triple Clear _ _ (λ db h. h)
              (λ _.
                step-Triple Clear
                  (if-Triple Clear _ (λ _. or_else-Triple Clear _ (query-Clears _ _))
                    (λ _. choose-Clears pool))
                  (λ ip _. then-Triple Clear Clear (update_ip-Clear _) (get_ip-Clears ip.id)))))

  module _ (n : Netip) where
    scoped-Clears : (e : IpExclusion) → Clears (Manager.scoped f n e)
    unfolding Manager.scoped
    scoped-Clears e =
        if-Triple Clear _ (λ _. done e)
          (λ _.
            step-Triple Clear (or_else-Triple Clear _ (get_pool-Clears e.pool_id))
              (λ pool _. guard-Triple Clear _ _ (λ db h. h) (λ _. done _)))

    affected-Clears : (e : IpExclusion) → Clears (Manager.affected f n e)
    unfolding Manager.affected Tables.get_ip_by_address
    affected-Clears e =
        optional-Triple Clear _ (query-Clears _ _)
          (λ r _.
            if-Triple Clear _ (λ _. done none)
              (λ _.
                if-Triple Clear _ (λ _. done (some r))
                  (λ _. guard-Triple Clear _ _ (λ db h. h) (λ _. done (some r)))))
          (done none)

    exclude-Clear :
        (row : Option RoutableIp) → Triple Clear Clear (Manager.exclude f n row) (λ _. Clear)
    unfolding Manager.exclude
    exclude-Clear none = pure-Triple Clear tt (λ db h. h)
    exclude-Clear (some r) =
        if-Triple Clear _ (λ _. update_ip-Clear _) (λ _. pure-Triple Clear tt (λ db h. h))

    insert_exclusion-Clears : (e : IpExclusion) → Clears (insert_exclusion f e)
    unfolding insert_exclusion
    insert_exclusion-Clears e = exec-Triple Clear _ _ _ _ (λ db h. h) (λ db h. (h, tt))

    add_exclusion-Clears : (e : IpExclusion) → Clears (Manager.add_exclusion f n e)
    unfolding Manager.add_exclusion
    add_exclusion-Clears e0 =
        guard-Triple Clear _ _ (λ db h. h)
          (λ _. step-Triple Clear (scoped-Clears e0) (λ e _.
            step-Triple Clear (affected-Clears e) (λ row _.
              step-Triple Clear (insert_exclusion-Clears e)
                (λ saved _. then-Triple Clear Clear (exclude-Clear row) (done saved)))))

  readmit-Clear : (r : RoutableIp) → Triple Clear Clear (Manager.readmit f r) (λ _. Clear)
  unfolding Manager.readmit Manager.still_excluded Tables.list_exclusions
  readmit-Clear r =
      if-Triple Clear _ (λ _. pure-Triple Clear tt (λ db h. h))
        (λ _.
          step-Triple Clear
            (step-Triple Clear (or_none-Triple Clear (query-Clears _ _)) (λ rest _. done _))
            (λ still _.
              if-Triple Clear still (λ _. pure-Triple Clear tt (λ db h. h))
                (λ _. then-Triple Clear Clear (update_ip-Clear _) (revive-Clear r.pool_id))))

  remove_exclusion-Clear :
      (i : String) → Triple Clear Clear (Manager.remove_exclusion f i) (λ _. Clear)
  unfolding Manager.remove_exclusion Tables.get_exclusion delete_exclusion Tables.get_ip_by_address
  remove_exclusion-Clear i = step-Triple Clear (query-Clears _ _) (λ e _.
      then-Triple Clear Clear (exec-Triple Clear _ _ _ _ (λ db h. h) (λ db h. h)) (
        optional-Triple Clear _ (query-Clears _ _) (λ r _. readmit-Clear r)
          (pure-Triple Clear tt (λ db h. h))))

after :
    {A : Type 0} {Q : A → Db → Type 0} (m : M A) (db : Db)
    → Triple Clear Clear m Q
    → ((a : A) (d : Db) → Q a d → Clear d)
    → Clear db
    → Clear (m db).1
after {A} {Q} m db t weaken h = go (m db) (t.holds db h)
  where
    go : (r : Result A × Db) → Post Clear Q r → Clear r.1
    go (ok a, d) k = weaken a d k
    go (err e, d) k = k

apply-Clear : (n : Netip) (c : Faults × Call) (db : Db) → Clear db → Clear (apply n c.0 c.1 db)
apply-Clear n (f, Calls.reserve o) db h = after _ db (reserve-Clears f o) (λ a d k. k.0) h
apply-Clear n (f, Calls.release i) db h = after _ db (release-Clear f i) (λ a d k. k) h
apply-Clear n (f, Calls.attach i b) db h = after _ db (attach-Clears f i b) (λ a d k. k.0) h
apply-Clear n (f, Calls.detach i) db h = after _ db (detach-Clear f i) (λ a d k. k) h
apply-Clear n (f, Calls.add_exclusion e) db h =
    after _ db (add_exclusion-Clears f n e) (λ a d k. k.0) h
apply-Clear n (f, Calls.remove_exclusion i) db h =
    after _ db (remove_exclusion-Clear f i) (λ a d k. k) h
apply-Clear n (f, Calls.create_pool new_id opts) db h =
    after _ db (create_pool-Clears f n new_id opts) (λ a d k. k.0) h
apply-Clear n (f, Calls.delete_pool pool) db h =
    after _ db (delete_pool-Clear f pool) (λ a d k. k) h

-- After any sequence of calls, whichever of their statements fail, no two bindings of one address have the
-- same protocol and external port and different targets, if none had before.
pub run-NoClash :
    (n : Netip) (calls : List (Faults × Call)) (db : Db)
    → NoClash db.bindings
    → NoClash (run n calls db).bindings
run-NoClash n [] db h = h
run-NoClash n (c ∷ calls) db h = run-NoClash n calls (apply n c.0 c.1 db) (apply-Clear n c db h)
