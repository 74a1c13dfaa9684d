-- ===== src/Ipam/Conflict/Pool.antt =====
-- The beginning and the end of a pool of internal/ipam bind no port twice.
use capper.Prelude.{String, List, [], ◌∷◌, Option, none, some}
use capper.Ipam.{RoutableIp, RoutableIpPool}
use capper.Ipam.Tables
use capper.Ipam.Tables.{
  Faults, M, Result, ok, err, query, ◌>>=◌, get_ip, get_pool, list_bindings, update_ip,
  set_pool_status, delete_bindings_for_ip, insert_binding, insert_exclusion, delete_exclusion,
}
use capper.Ipam.Expand.{Netip}
use capper.Ipam.Create
use capper.Ipam.Triple.{
  Triple, step-Triple, then-Triple, guard-Triple, pure-Triple, fail-Triple, exec-Triple,
  or_none-Triple,
}
use capper.Ipam.Conflict.{Clear, keep-NoClash, Clears, done, query-Clears}

module _ (f : Faults) (n : Netip) where
  insert_ip-Clear : (r : RoutableIp) → Triple Clear Clear (Tables.insert_ip f r) (λ _. Clear)
  unfolding Tables.insert_ip
  insert_ip-Clear r = exec-Triple Clear _ _ _ _ (λ db h. h) (λ db h. h)

  insert_all-Clear :
      (pool : RoutableIpPool) (new_id : String → String) (texts : List String)
      → Triple Clear Clear (Create.insert_all f n pool new_id texts) (λ _. Clear)
  unfolding Create.insert_all
  insert_all-Clear pool new_id [] = pure-Triple Clear tt (λ db h. h)
  insert_all-Clear pool new_id (text ∷ texts) =
      then-Triple Clear Clear (insert_ip-Clear _) (insert_all-Clear pool new_id texts)

  insert_pool-Clears : (p : RoutableIpPool) → Clears (Tables.insert_pool f p)
  unfolding Tables.insert_pool
  insert_pool-Clears p = exec-Triple Clear _ _ _ _ (λ db h. h) (λ db h. (h, tt))

  expanded-Clears : (o : Option (List String)) → Clears (Create.expanded f n o)
  expanded-Clears none = fail-Triple Clear _ (λ db h. h)
  expanded-Clears (some texts) = done texts

  pub create_pool-Clears :
      (new_id : String → String) (opts : Create.CreatePoolOptions)
      → Clears (Create.create_pool f n new_id opts)
  unfolding Create.create_pool Tables.list_exclusions
  create_pool-Clears new_id opts =
      step-Triple Clear (or_none-Triple Clear (query-Clears _ _)) (λ rows _.
        step-Triple Clear (expanded-Clears _) (λ texts _.
          step-Triple Clear (insert_pool-Clears opts.pool)
            (λ pool _. then-Triple Clear Clear (insert_all-Clear pool new_id texts) (done _))))

module _ (f : Faults) (pool : String) where
  drop_bindings_of-Clear : Triple Clear Clear (Create.drop_bindings_of f pool) (λ _. Clear)
  unfolding Create.drop_bindings_of
  drop_bindings_of-Clear =
      exec-Triple Clear _ _ _ _ (λ db h. h) (λ db h. keep-NoClash _ db.bindings h)

  drop_ips_of-Clear : Triple Clear Clear (Create.drop_ips_of f pool) (λ _. Clear)
  unfolding Create.drop_ips_of
  drop_ips_of-Clear = exec-Triple Clear _ _ _ _ (λ db h. h) (λ db h. h)

  drop_exclusions_of-Clear : Triple Clear Clear (Create.drop_exclusions_of f pool) (λ _. Clear)
  unfolding Create.drop_exclusions_of
  drop_exclusions_of-Clear = exec-Triple Clear _ _ _ _ (λ db h. h) (λ db h. h)

  drop_row_of-Clear : Triple Clear Clear (Create.drop_row_of f pool) (λ _. Clear)
  unfolding Create.drop_row_of
  drop_row_of-Clear = exec-Triple Clear _ _ _ _ (λ db h. h) (λ db h. h)

  pub delete_pool-Clear : Triple Clear Clear (Create.delete_pool f pool) (λ _. Clear)
  unfolding Create.delete_pool Create.in_use_of
  delete_pool-Clear = step-Triple Clear (or_none-Triple Clear (query-Clears _ _)) (λ rows _.
      guard-Triple Clear _ _ (λ db h. h)
        (λ _. then-Triple Clear Clear drop_bindings_of-Clear (
          then-Triple Clear Clear drop_ips_of-Clear
            (then-Triple Clear Clear drop_exclusions_of-Clear drop_row_of-Clear))))
