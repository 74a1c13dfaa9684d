-- ===== src/Ipam.antt =====
-- Routable address pools (internal/ipam): the tables and the statements of store.go, the manager of
-- manager.go, and the expansion of a block in cidr.go.
pub mod Tables
pub mod Manager
pub mod Create
pub mod Triple
pub mod Calls
pub mod Held
pub mod Conflict
pub mod Released
pub mod Expand
pub mod Examples
use capper.Prelude.{String, Bool, List}
use capper.Prelude.Int.{ℤ}

-- The fields that the manager reads or writes.
pub record RoutableIpPool : Type 0 where
  pub id : String
  pub name : String
  pub cidr : String
  pub gateway : String
  pub usage : List String
  pub status : String
  pub allow_auto_allocate : Bool

pub record RoutableIp : Type 0 where
  pub id : String
  pub pool_id : String
  pub address : String
  pub status : String
  pub project : String
  pub name : String
  pub purpose : String
  pub allocation_type : String
  pub target_type : String
  pub target_id : String

pub record IpExclusion : Type 0 where
  pub id : String
  pub address : String
  pub pool_id : String

pub record IpBinding : Type 0 where
  pub id : String
  pub ip_id : String
  pub target_type : String
  pub target_id : String
  pub binding_mode : String
  pub protocol : String
  pub external_port : ℤ

abbrev pub ip_available : String
ip_available = "available"

abbrev pub ip_reserved : String
ip_reserved = "reserved"

abbrev pub ip_attached : String
ip_attached = "attached"

abbrev pub ip_blocked : String
ip_blocked = "blocked"

abbrev pub ip_retired : String
ip_retired = "retired"

abbrev pub ip_excluded : String
ip_excluded = "excluded"

abbrev pub pool_active : String
pool_active = "active"

abbrev pub pool_exhausted : String
pool_exhausted = "exhausted"

pub record Db : Type 0 where
  pub pools : List RoutableIpPool
  pub ips : List RoutableIp
  pub bindings : List IpBinding
  pub exclusions : List IpExclusion
