-- ===== src/Ipam/Held/Keep.antt =====
-- Each call of internal/ipam/manager.go that does not release an address leaves it in use.
use capper.Prelude.{
  ap, eq_iff, ◌∙◌, String, Bool, true, false, ◌&&◌, ◌≡◌, refl, keep, str_eq, arith, keep-All,
  keep-passes,
}
use capper.Ipam.{
  RoutableIp, RoutableIpPool, IpBinding, Db, ip_available, pool_exhausted, pool_active,
}
use capper.Ipam.Tables
use capper.Ipam.Tables.{
  Error, Faults, M, query, ◌>>=◌, row_of, ok, err, or_else, get_pool, set_pool_status, get_ip,
  get_ip_by_address, get_available_address, update_ip, list_bindings, insert_binding,
  delete_bindings_for_ip, first_available, list_exclusions, get_exclusion, insert_exclusion,
  delete_exclusion, least,
}
use capper.Ipam.Manager
use capper.Ipam.Manager.{ReserveOptions}
use capper.Ipam.Triple.{
  Triple, step-Triple, then-Triple, guard-Triple, if-Triple, pure-Triple, fail-Triple, exec-Triple,
  query-Triple, or_else-Triple, ignored-Triple, optional-Triple, weaken-Triple,
}
use capper.Ipam.Held.{
  Fits, Held, busy, least-All, row_of-some, find-Fits, get_ip-Triple, update_ip-Triple,
}

module _ (id : String) (f : Faults) where
  abbrev pub Keeps : {A : Type 0} → M A → Type 0
  Keeps m = Triple (Held id) (Held id) m (λ _. Held id)

  abbrev pub Reads : {A : Type 0} → (A → Type 0) → M A → Type 0
  Reads F m = Triple (Held id) (Held id) m (λ a db. Held id db × F a)

  busy-Fits : (r : RoutableIp) → busy r.status ≡ true → Fits id r
  unfolding Fits
  busy-Fits r e = ground (arith, e)

  pub other-Fits : (r : RoutableIp) → str_eq r.id id ≡ false → Fits id r
  unfolding Fits
  other-Fits r e = rw e refl

  pub idle-other : (r : RoutableIp) → Fits id r → busy r.status ≡ false → str_eq r.id id ≡ false
  unfolding Fits
  idle-other r h e = ground (arith, h, e)

  pub query-Reads :
      {A : Type 0} (down : Bool) (answer : Db → Tables.Result A)
      → Reads (λ _. Unit {0}) (query down answer)
  query-Reads down answer = query-Triple (Held id) down answer (λ db h. h) (λ db a h e. (h, tt))

  pub get_pool-Reads : (i : String) → Reads (λ _. Unit {0}) (get_pool f i)
  unfolding get_pool
  get_pool-Reads i = query-Reads _ _

  set_pool_status-Keeps : (i s : String) → Keeps (set_pool_status f i s)
  unfolding set_pool_status
  set_pool_status-Keeps i s = exec-Triple (Held id) _ _ _ _ (λ db h. h) (λ db h. h)

  delete_bindings_for_ip-Keeps : (i : String) → Keeps (delete_bindings_for_ip f i)
  unfolding delete_bindings_for_ip
  delete_bindings_for_ip-Keeps i = exec-Triple (Held id) _ _ _ _ (λ db h. h) (λ db h. h)

  pub revive-Keeps : (i : String) → Keeps (Manager.revive f i)
  unfolding Manager.revive
  revive-Keeps i = ignored-Triple (Held id) (
      step-Triple (Held id) (get_pool-Reads i) (λ pool _.
        if-Triple (Held id) (str_eq pool.status pool_exhausted)
          (λ _. set_pool_status-Keeps pool.id pool_active)
          (λ _. pure-Triple (Held id) tt (λ db h. h))))

  pub release-Keeps : (i : String) → str_eq i id ≡ false → Keeps (Manager.release f i)
  unfolding Manager.release
  release-Keeps i other = step-Triple (Held id) (get_ip-Triple id f i) (λ ip h.
      then-Triple (Held id) (Held id) (delete_bindings_for_ip-Keeps i) (
        then-Triple (Held id) (Held id)
          (update_ip-Triple id f _
            (other-Fits _ (ap (λ x. str_eq x id) ((eq_iff ip.id i).0 h.1) ∙ other)))
          (revive-Keeps ip.pool_id)))

  pub detach-Keeps : (i : String) → Keeps (Manager.detach f i)
  unfolding Manager.detach busy
  detach-Keeps i = step-Triple (Held id) (get_ip-Triple id f i) (λ ip h.
      then-Triple (Held id) (Held id) (delete_bindings_for_ip-Keeps i)
        (update_ip-Triple id f _ (busy-Fits _ refl)))

  list_bindings-Reads : (i : String) → Reads (λ _. Unit {0}) (list_bindings f i)
  unfolding list_bindings
  list_bindings-Reads i = query-Reads _ _

  insert_binding-Reads : (b : IpBinding) → Reads (λ _. Unit {0}) (insert_binding f b)
  unfolding insert_binding
  insert_binding-Reads b = exec-Triple (Held id) _ _ _ _ (λ db h. h) (λ db h. (h, tt))

  pub attach-Keeps : (i : String) (b : IpBinding) → Keeps (Manager.attach f i b)
  unfolding Manager.attach busy
  attach-Keeps i b = step-Triple (Held id) (get_ip-Triple id f i) (λ ip h.
      guard-Triple (Held id) _ _ (λ db k. k)
        (λ _. step-Triple (Held id) (list_bindings-Reads i) (λ existing _.
          guard-Triple (Held id) _ _ (λ db k. k)
            (λ _. step-Triple (Held id) (insert_binding-Reads _) (λ binding _.
              then-Triple (Held id) (Held id) (update_ip-Triple id f _ (busy-Fits _ refl))
                (pure-Triple (Held id) binding (λ db k. k)))))))

  -- A row that was found available is another one.
  abbrev pub Other : RoutableIp → Type 0
  Other r = str_eq r.id id ≡ false

  available-Other : (r : RoutableIp) → Fits id r → str_eq r.status ip_available ≡ true → Other r
  unfolding busy
  available-Other r h e = idle-other r h (rw ((eq_iff r.status ip_available).0 e) refl)

  get_address-Reads : (pool a : String) → Reads Other (get_available_address f pool a)
  unfolding get_available_address
  get_address-Reads pool a =
      query-Triple (Held id) _ _ (λ db h. h)
        (λ db r h e.
          let k =
            find-Fits id
              (λ (x : RoutableIp).
                str_eq x.pool_id pool && (str_eq x.address a && str_eq x.status ip_available))
              db r h e in
          (h, available-Other r k.1.0 (last_test r k.1.1)))
    where
      last_test :
          (r : RoutableIp)
          → str_eq r.pool_id pool && (str_eq r.address a && str_eq r.status ip_available) ≡ true
          → str_eq r.status ip_available ≡ true
      last_test r e = ground (arith, e)

  first_available-Reads : (pool : String) → Reads Other (first_available f pool)
  unfolding first_available
  first_available-Reads pool =
      query-Triple (Held id) _ _ (λ db h. h)
        (λ db r h e.
          let rows =
            keep (λ (x : RoutableIp). str_eq x.pool_id pool && str_eq x.status ip_available)
              db.ips in
          let found = row_of-some (least rows) r e in
          (
            h,
            available-Other r (least-All (Fits id) rows r (keep-All _ (Fits id) db.ips h) found) (
                last_test r (
                  least-All (λ x. str_eq x.pool_id pool && str_eq x.status ip_available ≡ true) rows
                    r (keep-passes _ db.ips) found)),
          ))
    where
      last_test :
          (r : RoutableIp)
          → str_eq r.pool_id pool && str_eq r.status ip_available ≡ true
          → str_eq r.status ip_available ≡ true
      last_test r e = ground (arith, e)

  choose-Reads : (pool : RoutableIpPool) → Reads Other (Manager.choose f pool)
  unfolding Manager.choose
  choose-Reads pool =
      guard-Triple (Held id) _ _ (λ db h. h)
        (λ _.
          optional-Triple (Held id) _ (first_available-Reads pool.id)
            (λ r h. pure-Triple (Held id) r (λ db k. (k, h)))
            (then-Triple (Held id) (Held id)
              (ignored-Triple (Held id) (set_pool_status-Keeps pool.id pool_exhausted))
              (fail-Triple (Held id) _ (λ db k. k))))

  -- What is reserved while the address is in use is another address.
  pub reserve-Other : (o : ReserveOptions) → Reads Other (Manager.reserve f o)
  unfolding Manager.reserve busy
  reserve-Other o =
      step-Triple (Held id) (or_else-Triple (Held id) _ (get_pool-Reads o.pool_id)) (λ pool _.
        guard-Triple (Held id) _ _ (λ db h. h)
          (λ _.
            guard-Triple (Held id) _ _ (λ db h. h)
              (λ _.
                step-Triple (Held id)
                  (if-Triple (Held id) _
                    (λ _. or_else-Triple (Held id) _ (get_address-Reads pool.id o.address))
                    (λ _. choose-Reads pool))
                  (λ ip other.
                    then-Triple (Held id) (Held id) (update_ip-Triple id f _ (busy-Fits _ refl)) (
                      weaken-Triple (Held id) (get_ip-Triple id f ip.id) (λ r db h.
                        (h.0, ap (λ x. str_eq x id) ((eq_iff r.id ip.id).0 h.1.1) ∙ other)))))))
