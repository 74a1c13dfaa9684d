-- ===== src/Ipam/Held/Exclude.antt =====
-- The exclusions of internal/ipam/manager.go leave an address in use as it is.
use capper.Prelude.{
  ap, eq_iff, ◌∙◌, String, true, false, not, ◌&&◌, Option, none, some, ◌≡◌, refl, str_eq, arith,
}
use capper.Ipam.{RoutableIp, IpExclusion, ip_available, ip_excluded}
use capper.Ipam.Tables.{
  Faults, get_ip_by_address, list_exclusions, get_exclusion, insert_exclusion, delete_exclusion,
}
use capper.Ipam.Manager
use capper.Ipam.Manager.{ReserveOptions}
use capper.Ipam.Expand.{Netip}
use capper.Ipam.Triple.{
  step-Triple, then-Triple, guard-Triple, if-Triple, pure-Triple, exec-Triple, query-Triple,
  or_else-Triple, or_none-Triple, optional-Triple,
}
use capper.Ipam.Held.{Fits, Held, busy, find-Fits, update_ip-Triple}
use capper.Ipam.Held.Keep.{
  Keeps, Reads, other-Fits, idle-other, query-Reads, get_pool-Reads, revive-Keeps,
}

module _ (id : String) (f : Faults) where
  get_ip_by_address-Reads : (a : String) → Reads id f (Fits id) (get_ip_by_address f a)
  unfolding get_ip_by_address
  get_ip_by_address-Reads a =
      query-Triple (Held id) _ _ (λ db h. h)
        (λ db r h e. (h, (find-Fits id (λ (x : RoutableIp). str_eq x.address a) db r h e).1.0))

  -- A row with another status than those in use is another one, whatever becomes of its status.
  not_busy-Fits :
      (r : RoutableIp) (s t : String)
      → Fits id r
      → str_eq r.status s ≡ true
      → busy s ≡ false
      → Fits id (record r { status = t })
  not_busy-Fits r s t h e k =
      other-Fits id f _ (idle-other id f r h (ap busy ((eq_iff r.status s).0 e) ∙ k))

  module _ (n : Netip) where
    get_exclusion-Reads : (i : String) → Reads id f (λ _. Unit {0}) (get_exclusion f i)
    unfolding get_exclusion
    get_exclusion-Reads i = query-Reads id f _ _

    insert_exclusion-Reads : (e : IpExclusion) → Reads id f (λ _. Unit {0}) (insert_exclusion f e)
    unfolding insert_exclusion
    insert_exclusion-Reads e = exec-Triple (Held id) _ _ _ _ (λ db h. h) (λ db h. (h, tt))

    delete_exclusion-Keeps : (i : String) → Keeps id f (delete_exclusion f i)
    unfolding delete_exclusion
    delete_exclusion-Keeps i = exec-Triple (Held id) _ _ _ _ (λ db h. h) (λ db h. h)

    scoped-Reads : (e : IpExclusion) → Reads id f (λ _. Unit {0}) (Manager.scoped f n e)
    unfolding Manager.scoped
    scoped-Reads e =
        if-Triple (Held id) _ (λ _. pure-Triple (Held id) e (λ db h. (h, tt)))
          (λ _.
            step-Triple (Held id) (or_else-Triple (Held id) _ (get_pool-Reads id f e.pool_id))
              (λ pool _.
                guard-Triple (Held id) _ _ (λ db h. h)
                  (λ _. pure-Triple (Held id) _ (λ db h. (h, tt)))))

    abbrev FitsAll : Option RoutableIp → Type 0
    FitsAll none = Unit {0}
    FitsAll (some r) = Fits id r

    affected-Reads : (e : IpExclusion) → Reads id f FitsAll (Manager.affected f n e)
    unfolding Manager.affected
    affected-Reads e =
        optional-Triple (Held id) _ (get_ip_by_address-Reads e.address)
          (λ r h.
            if-Triple (Held id) _ (λ _. pure-Triple (Held id) none (λ db k. (k, tt)))
              (λ _.
                if-Triple (Held id) _ (λ _. pure-Triple (Held id) (some r) (λ db k. (k, h)))
                  (λ _.
                    guard-Triple (Held id) _ _ (λ db k. k)
                      (λ _. pure-Triple (Held id) (some r) (λ db k. (k, h))))))
          (pure-Triple (Held id) none (λ db k. (k, tt)))

    exclude-Keeps : (row : Option RoutableIp) → FitsAll row → Keeps id f (Manager.exclude f n row)
    unfolding Manager.exclude busy Fits
    exclude-Keeps none h = pure-Triple (Held id) tt (λ db k. k)
    exclude-Keeps (some r) h =
        if-Triple (Held id) _
          (λ e. update_ip-Triple id f _ (
            not_busy-Fits (record r { allocation_type = "system" }) ip_available ip_excluded h
              (available r e) refl))
          (λ _. pure-Triple (Held id) tt (λ db k. k))
      where
        available :
            (r : RoutableIp)
            → not (str_eq r.id "") && str_eq r.status ip_available ≡ true
            → str_eq r.status ip_available ≡ true
        available r e = ground (arith, e)

    pub add_exclusion-Keeps : (e : IpExclusion) → Keeps id f (Manager.add_exclusion f n e)
    unfolding Manager.add_exclusion
    add_exclusion-Keeps e0 =
        guard-Triple (Held id) _ _ (λ db h. h)
          (λ _. step-Triple (Held id) (scoped-Reads e0) (λ e _.
            step-Triple (Held id) (affected-Reads e) (λ row h.
              step-Triple (Held id) (insert_exclusion-Reads e) (λ saved _.
                then-Triple (Held id) (Held id) (exclude-Keeps row h)
                  (pure-Triple (Held id) saved (λ db k. k))))))

    list_exclusions-Reads : (pool : String) → Reads id f (λ _. Unit {0}) (list_exclusions f pool)
    unfolding list_exclusions
    list_exclusions-Reads pool = query-Reads id f _ _

    still_excluded-Reads :
        (r : RoutableIp) → Reads id f (λ _. Unit {0}) (Manager.still_excluded f r)
    unfolding Manager.still_excluded
    still_excluded-Reads r =
        step-Triple (Held id) (or_none-Triple (Held id) (list_exclusions-Reads r.pool_id))
          (λ rest _. pure-Triple (Held id) _ (λ db h. (h, tt)))

    excluded :
        (r : RoutableIp)
        → not (str_eq r.status ip_excluded) ≡ false
        → str_eq r.status ip_excluded ≡ true
    excluded r e = ground (arith, e)

    readmit-Keeps : (r : RoutableIp) → Fits id r → Keeps id f (Manager.readmit f r)
    unfolding Manager.readmit busy Fits
    readmit-Keeps r h =
        if-Triple (Held id) _ (λ _. pure-Triple (Held id) tt (λ db k. k))
          (λ e. step-Triple (Held id) (still_excluded-Reads r) (λ still _.
            if-Triple (Held id) still (λ _. pure-Triple (Held id) tt (λ db k. k))
              (λ _.
                then-Triple (Held id) (Held id)
                  (update_ip-Triple id f _ (
                    not_busy-Fits (record r { allocation_type = "auto" }) ip_excluded ip_available h
                      (excluded r e) refl))
                  (revive-Keeps id f r.pool_id))))

    pub remove_exclusion-Keeps : (i : String) → Keeps id f (Manager.remove_exclusion f i)
    unfolding Manager.remove_exclusion
    remove_exclusion-Keeps i = step-Triple (Held id) (get_exclusion-Reads i) (λ e _.
        then-Triple (Held id) (Held id) (delete_exclusion-Keeps i) (
          optional-Triple (Held id) _ (get_ip_by_address-Reads e.address) (λ r h. readmit-Keeps r h)
            (pure-Triple (Held id) tt (λ db k. k))))
