-- ===== src/Ipam/Manager.antt =====
-- The manager of the address pools: internal/ipam/manager.go. A call is one function over the tables, and
-- is told which statements fail while it runs. New ids come with the call's arguments.
use capper.Prelude.{
  String, Bool, true, false, not, ◌&&◌, ◌||◌, Option, none, some, any, str_eq, if◌then◌else◌,
}
use capper.Prelude.Int.{eq_ℤ}
use capper.Ipam.{
  RoutableIpPool, RoutableIp, IpExclusion, IpBinding, Db, ip_available, ip_reserved, ip_attached,
  ip_blocked, ip_retired, ip_excluded, pool_active, pool_exhausted,
}
use capper.Ipam.Tables.{
  no_rows, pool_not_found, pool_not_active, purpose_not_permitted, address_not_available,
  reserved_only, exhausted, cannot_attach, bound_elsewhere, invalid_address, outside_pool, in_use,
  Result, ok, err, Faults, M, ◌>>=◌, ◌>>◌, pure, fail, refuse_if, if◌run◌or◌, ignored, or_none,
  or_else, get_pool, set_pool_status, get_ip, get_ip_by_address, first_available,
  get_available_address, update_ip, list_bindings, insert_binding, delete_bindings_for_ip,
  list_exclusions, get_exclusion, insert_exclusion, delete_exclusion,
}
use capper.Ipam.Expand.{Netip, cidr_contains}

unfoldable pub usage_allows : RoutableIpPool → String → Bool
usage_allows pool purpose = str_eq purpose "" || any (λ u. str_eq u purpose) pool.usage

pub record ReserveOptions : Type 0 where
  pub pool_id : String
  pub project : String
  pub name : String
  pub purpose : String
  pub address : String
  pub reserved : Bool

-- `err == sql.ErrNoRows`, any other error is returned.
abbrev pub missing : {A : Type 0} → Result A × Db → Result (Option A) × Db
missing (ok a, db) = (ok (some a), db)
missing (err no_rows, db) = (ok none, db)
missing (err e, db) = (err e, db)

unfoldable pub optional : {A : Type 0} → M A → M (Option A)
optional m db = missing (m db)

unfoldable pub clashes : IpBinding → IpBinding → Bool
clashes b e =
    str_eq e.protocol b.protocol
    && (eq_ℤ e.external_port b.external_port
        && (not (str_eq e.target_type b.target_type) || not (str_eq e.target_id b.target_id)))

module _ (f : Faults) where
  -- Without an address: the first one that is available; a pool that has none becomes exhausted.
  unfoldable pub choose : RoutableIpPool → M RoutableIp
  choose pool = do
    refuse_if (not pool.allow_auto_allocate) reserved_only
    row ← optional (first_available f pool.id)
    elim row [
      | some ip ↦ pure ip
      | none ↦ ignored (set_pool_status f pool.id pool_exhausted) >> fail exhausted
    ]

  unfoldable pub reserve : ReserveOptions → M RoutableIp
  unfolding usage_allows choose
  reserve opts = do
    pool ← or_else (get_pool f opts.pool_id) pool_not_found
    refuse_if (not (str_eq pool.status pool_active)) pool_not_active
    refuse_if (not (usage_allows pool opts.purpose)) purpose_not_permitted
    ip ←
        if not (str_eq opts.address "")
        run or_else (get_available_address f pool.id opts.address) address_not_available
        or choose pool
    update_ip f (record ip {
      status = ip_reserved;
      project = opts.project;
      name = opts.name;
      purpose = opts.purpose;
      allocation_type = if opts.reserved then "reserved" else "auto";
    })
    get_ip f ip.id

  -- "Reactivate an exhausted pool": the pool is looked up again, and no failure counts.
  unfoldable pub revive : String → M (Unit {0})
  revive pool_id = ignored (do
    pool ← get_pool f pool_id
    if str_eq pool.status pool_exhausted run set_pool_status f pool.id pool_active or pure tt)

  unfoldable pub release : String → M (Unit {0})
  unfolding revive
  release id = do
    ip ← get_ip f id
    delete_bindings_for_ip f id
    update_ip f (record ip {
      status = ip_available;
      project = "";
      name = "";
      purpose = "";
      target_type = "";
      target_id = "";
      allocation_type = "auto";
    })
    revive ip.pool_id

  unfoldable pub attach : String → IpBinding → M IpBinding
  unfolding clashes
  attach id b = do
    ip ← get_ip f id
    refuse_if
        (str_eq ip.status ip_available
          || str_eq ip.status ip_retired
          || str_eq ip.status ip_blocked)
        cannot_attach
    existing ← list_bindings f id
    refuse_if (any (clashes b) existing) bound_elsewhere
    binding ← insert_binding f (record b { ip_id = id })
    update_ip f
        (record ip { status = ip_attached; target_type = b.target_type; target_id = b.target_id })
    pure binding

  unfoldable pub detach : String → M (Unit {0})
  detach id = do
    ip ← get_ip f id
    delete_bindings_for_ip f id
    update_ip f (record ip { status = ip_reserved; target_type = ""; target_id = "" })

  module _ (n : Netip) where
    -- The pool of a scoped exclusion, by id or by name, holds the address.
    unfoldable pub scoped : IpExclusion → M IpExclusion
    scoped e = if str_eq e.pool_id "" run pure e or do
      pool ← or_else (get_pool f e.pool_id) pool_not_found
      refuse_if (not (cidr_contains n pool.cidr e.address)) outside_pool
      pure (record e { pool_id = pool.id })

    -- The row that the exclusion takes out of use, if there is one.
    unfoldable pub affected : IpExclusion → M (Option RoutableIp)
    affected e = do
      row ← optional (get_ip_by_address f e.address)
      elim row [
        | none ↦ pure none
        | some ip ↦
            if not (str_eq e.pool_id "") && not (str_eq ip.pool_id e.pool_id)
            run pure none
            or if str_eq ip.status ip_excluded
            run pure (some ip)
            or refuse_if (not (str_eq ip.status ip_available)) in_use >> pure (some ip)
      ]

    unfoldable pub exclude : Option RoutableIp → M (Unit {0})
    exclude none = pure tt
    exclude (some ip) =
        if not (str_eq ip.id "") && str_eq ip.status ip_available
        run update_ip f (record ip { status = ip_excluded; allocation_type = "system" })
        or pure tt

    parses : String → Bool
    parses a = elim (n.parse_addr a) [ none ↦ false | some _ ↦ true ]

    unfoldable pub add_exclusion : IpExclusion → M IpExclusion
    unfolding scoped affected exclude parses
    add_exclusion e0 = do
      refuse_if (not (parses e0.address)) invalid_address
      e ← scoped e0
      row ← affected e
      saved ← insert_exclusion f e
      exclude row
      pure saved

  -- A failing query counts as no exclusion.
  unfoldable pub still_excluded : RoutableIp → M Bool
  still_excluded ip = do
    rest ← or_none (list_exclusions f ip.pool_id)
    pure (
        any
          (λ x. str_eq x.address ip.address && (str_eq x.pool_id "" || str_eq x.pool_id ip.pool_id))
          rest)

  unfoldable pub readmit : RoutableIp → M (Unit {0})
  unfolding still_excluded revive
  readmit ip = if not (str_eq ip.status ip_excluded) run pure tt or do
    still ← still_excluded ip
    if still run pure tt or do
      update_ip f (record ip { status = ip_available; allocation_type = "auto" })
      revive ip.pool_id

  unfoldable pub remove_exclusion : String → M (Unit {0})
  unfolding readmit
  remove_exclusion id = do
    e ← get_exclusion f id
    delete_exclusion f id
    row ← optional (get_ip_by_address f e.address)
    elim row [ none ↦ pure tt | some ip ↦ readmit ip ]
