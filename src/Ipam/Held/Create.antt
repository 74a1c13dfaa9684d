-- ===== src/Ipam/Held/Create.antt =====
-- The beginning and the end of a pool of internal/ipam/manager.go leave an address in use as it is.
use capper.Prelude.{
  String, false, List, [], ◌∷◌, Option, none, some, ◌≡◌, str_eq, All-append, keep-All,
}
use capper.Ipam.{RoutableIpPool, RoutableIp}
use capper.Ipam.Tables.{Faults, list_exclusions, insert_pool, insert_ip}
use capper.Ipam.Create
use capper.Ipam.Create.{CreatePoolOptions}
use capper.Ipam.Expand.{Netip}
use capper.Ipam.Triple.{
  step-Triple, guard-Triple, then-Triple, pure-Triple, fail-Triple, exec-Triple, or_none-Triple,
}
use capper.Ipam.Held.{Fits, Held}
use capper.Ipam.Held.Keep.{Keeps, Reads, other-Fits, query-Reads}

module _ (id : String) (f : Faults) where
  insert_ip-Keeps : (ip : RoutableIp) → str_eq ip.id id ≡ false → Keeps id f (insert_ip f ip)
  unfolding insert_ip
  insert_ip-Keeps ip other =
      exec-Triple (Held id) _ _ _ _ (λ db h. h)
        (λ db h. All-append (Fits id) db.ips (ip ∷ []) h (other-Fits id f ip other, tt))

  insert_pool-Reads : (p : RoutableIpPool) → Reads id f (λ _. Unit {0}) (insert_pool f p)
  unfolding insert_pool
  insert_pool-Reads p = exec-Triple (Held id) _ _ _ _ (λ db h. h) (λ db h. (h, tt))

  list_exclusions-Reads : (pool : String) → Reads id f (λ _. Unit {0}) (list_exclusions f pool)
  unfolding list_exclusions
  list_exclusions-Reads pool = query-Reads id f _ _

  module _ (n : Netip) (new_id : String → String)
      (fresh : (text : String) → str_eq (new_id text) id ≡ false) where
    insert_all-Keeps :
        (pool : RoutableIpPool) (texts : List String)
        → Keeps id f (Create.insert_all f n pool new_id texts)
    unfolding Create.insert_all
    insert_all-Keeps pool [] = pure-Triple (Held id) tt (λ db h. h)
    insert_all-Keeps pool (text ∷ texts) =
        then-Triple (Held id) (Held id) (insert_ip-Keeps _ (fresh text))
          (insert_all-Keeps pool texts)

    expanded-Reads : (o : Option (List String)) → Reads id f (λ _. Unit {0}) (Create.expanded f n o)
    expanded-Reads none = fail-Triple (Held id) _ (λ db h. h)
    expanded-Reads (some texts) = pure-Triple (Held id) texts (λ db h. (h, tt))

    pub create_pool-Keeps :
        (opts : CreatePoolOptions) → Keeps id f (Create.create_pool f n new_id opts)
    unfolding Create.create_pool
    create_pool-Keeps opts =
        step-Triple (Held id) (or_none-Triple (Held id) (list_exclusions-Reads "")) (λ rows _.
          step-Triple (Held id) (expanded-Reads _) (λ texts _.
            step-Triple (Held id) (insert_pool-Reads opts.pool) (λ pool _.
              then-Triple (Held id) (Held id) (insert_all-Keeps pool texts)
                (pure-Triple (Held id) _ (λ db h. h)))))

  in_use_of-Reads : (pool : String) → Reads id f (λ _. Unit {0}) (Create.in_use_of f pool)
  unfolding Create.in_use_of
  in_use_of-Reads pool = or_none-Triple (Held id) (query-Reads id f _ _)

  drop_bindings_of-Keeps : (pool : String) → Keeps id f (Create.drop_bindings_of f pool)
  unfolding Create.drop_bindings_of
  drop_bindings_of-Keeps pool = exec-Triple (Held id) _ _ _ _ (λ db h. h) (λ db h. h)

  drop_ips_of-Keeps : (pool : String) → Keeps id f (Create.drop_ips_of f pool)
  unfolding Create.drop_ips_of
  drop_ips_of-Keeps pool =
      exec-Triple (Held id) _ _ _ _ (λ db h. h) (λ db h. keep-All _ (Fits id) db.ips h)

  drop_exclusions_of-Keeps : (pool : String) → Keeps id f (Create.drop_exclusions_of f pool)
  unfolding Create.drop_exclusions_of
  drop_exclusions_of-Keeps pool = exec-Triple (Held id) _ _ _ _ (λ db h. h) (λ db h. h)

  drop_row_of-Keeps : (pool : String) → Keeps id f (Create.drop_row_of f pool)
  unfolding Create.drop_row_of
  drop_row_of-Keeps pool = exec-Triple (Held id) _ _ _ _ (λ db h. h) (λ db h. h)

  pub delete_pool-Keeps : (pool : String) → Keeps id f (Create.delete_pool f pool)
  unfolding Create.delete_pool
  delete_pool-Keeps pool = step-Triple (Held id) (in_use_of-Reads pool) (λ rows _.
      guard-Triple (Held id) _ _ (λ db h. h)
        (λ _. then-Triple (Held id) (Held id) (drop_bindings_of-Keeps pool) (
          then-Triple (Held id) (Held id) (drop_ips_of-Keeps pool) (
            then-Triple (Held id) (Held id) (drop_exclusions_of-Keeps pool)
              (drop_row_of-Keeps pool)))))
