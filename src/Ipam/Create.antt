-- ===== src/Ipam/Create.antt =====
-- A new pool and the addresses of its block, `CreatePool` of internal/ipam/manager.go, and the end of one,
-- `DeletePool` of internal/ipam/store.go.
use capper.Prelude.{
  ℕ, String, not, ◌&&◌, ◌||◌, List, [], ◌∷◌, ◌++◌, Option, none, some, map, any, keep, length,
  str_eq, ◌==◌,
}
use capper.Prelude.Int.{ℤ}
use capper.Ipam.{RoutableIpPool, RoutableIp, IpExclusion, ip_available, ip_attached, ip_reserved}
use capper.Ipam.Tables.{
  invalid_cidr, in_use, count_in_use, drop_bindings, drop_ips, drop_exclusions, drop_pool, ok,
  refuse_if, query, exec, no_key, Faults, M, ◌>>=◌, ◌>>◌, pure, fail, or_none, list_exclusions,
  insert_pool, insert_ip,
}
use capper.Ipam.Expand.{Netip, cidr_contains, expand_cidr}

pub record CreatePoolOptions : Type 0 where
  pub pool : RoutableIpPool
  pub excluded : List String
  pub max_hosts : ℤ

module _ (f : Faults) (n : Netip) where
  abbrev pub expanded : Option (List String) → M (List String)
  expanded none = fail invalid_cidr
  expanded (some texts) = pure texts

  -- The global exclusions that lie in the block.
  pub standing : CreatePoolOptions → List IpExclusion → List String
  standing opts rows =
      map (λ e. e.address)
        (keep (λ e. str_eq e.pool_id "" && cidr_contains n opts.pool.cidr e.address) rows)

  -- The ids of the new rows are given with the call.
  abbrev pub new_ip : RoutableIpPool → (String → String) → String → RoutableIp
  new_ip pool new_id text = record {
    id = new_id text;
    pool_id = pool.id;
    address = text;
    status = ip_available;
    project = "";
    name = "";
    purpose = "";
    allocation_type = "auto";
    target_type = "";
    target_id = "";
  }

  -- The first failure ends the call, and leaves what was inserted before it.
  unfoldable pub insert_all : RoutableIpPool → (String → String) → List String → M (Unit {0})
  insert_all pool new_id [] = pure tt
  insert_all pool new_id (text ∷ texts) =
      insert_ip f (new_ip pool new_id text) >> insert_all pool new_id texts

  unfoldable pub create_pool : (String → String) → CreatePoolOptions → M (RoutableIpPool × ℕ)
  unfolding insert_all
  create_pool new_id opts = do
    rows ← or_none (list_exclusions f "")
    texts ← expanded (
        expand_cidr n opts.pool.cidr opts.pool.gateway (opts.excluded ++ standing opts rows)
          opts.max_hosts)
    pool ← insert_pool f opts.pool
    insert_all pool new_id texts
    pure (pool, length texts)

module _ (f : Faults) where
  -- A count that fails is 0.
  unfoldable pub in_use_of : String → M (List RoutableIp)
  in_use_of id = or_none (
      query (f count_in_use) (λ db. ok (
        keep
          (λ r.
            str_eq r.pool_id id
            && (str_eq r.status ip_attached
                || (str_eq r.status ip_reserved || str_eq r.status "allocated")))
          db.ips)))

  unfoldable pub drop_bindings_of : String → M (Unit {0})
  drop_bindings_of id = exec (f drop_bindings) no_key tt (λ db. record db {
    bindings =
        keep (λ b. not (any (λ r. str_eq r.pool_id id && str_eq r.id b.ip_id) db.ips)) db.bindings;
  })

  unfoldable pub drop_ips_of : String → M (Unit {0})
  drop_ips_of id =
      exec (f drop_ips) no_key tt
        (λ db. record db { ips = keep (λ r. not (str_eq r.pool_id id)) db.ips })

  unfoldable pub drop_exclusions_of : String → M (Unit {0})
  drop_exclusions_of id =
      exec (f drop_exclusions) no_key tt
        (λ db. record db { exclusions = keep (λ e. not (str_eq e.pool_id id)) db.exclusions })

  unfoldable pub drop_row_of : String → M (Unit {0})
  drop_row_of id =
      exec (f drop_pool) no_key tt
        (λ db. record db { pools = keep (λ p. not (str_eq p.id id)) db.pools })

  unfoldable pub delete_pool : String → M (Unit {0})
  unfolding in_use_of
  delete_pool id = do
    rows ← in_use_of id
    refuse_if (not (length rows == 0)) in_use
    drop_bindings_of id
    drop_ips_of id
    drop_exclusions_of id
    drop_row_of id
