-- ===== src/Ipam/Examples.antt =====
-- The theorems on internal/ipam on a pool of four addresses.
use capper.Prelude.{
  ◌≤◌, String, true, false, List, [], ◌∷◌, Option, none, some, ◌≡◌, ◌≢◌, ◌==◌, refl, subst, find,
  str_eq, if◌then◌else◌, arith, Bool-cases, inl, inr,
}
use capper.Prelude.Int.{pos}
use capper.Ipam.{
  RoutableIpPool, RoutableIp, IpBinding, Db, ip_available, ip_excluded, ip_reserved, pool_active,
}
use capper.Ipam.Tables
use capper.Ipam.Tables.{Faults, ok}
use capper.Ipam.Expand.{
  Addr, Prefix, Netip, width, block, masked, excluded_texts, limit_of, expand_cidr,
}
use capper.Ipam.Expand.Reference.{listing, expand_cidr-listing}
use capper.Ipam.Manager
use capper.Ipam.Manager.{ReserveOptions}
use capper.Ipam.Calls
use capper.Ipam.Calls.{Call, run}
use capper.Ipam.Held.Run.{reserve_fresh}
use capper.Ipam.Conflict.{NoClash}
use capper.Ipam.Conflict.Calls.{run-NoClash}
use capper.Ipam.Released.{no_faults, freed, release-freed}

abbrev small_block : Prefix
small_block = record { is4 = true; value = 12; bits = 30 }

abbrev parse_small : String → Option Prefix
parse_small s = if str_eq s "0.0.0.12/30" then some small_block else none

parse_small_bits : (s : String) (p : Prefix) → parse_small s ≡ some p → p.bits ≤ width p.is4
parse_small_bits s p e = elim (Bool-cases (str_eq s "0.0.0.12/30")) [
  | inl h ↦
      let same : small_block ≡ p = ground (arith, e, h) in
      subst (λ q. q.bits ≤ width q.is4) same (omega arith)
  | inr h ↦ ground (arith, e, h)
]

abbrev parse_one : String → Option Addr
parse_one s =
    if str_eq s "0.0.0.13"
    then some (record { is4 = true; value = 13; zone = "" })
    else if str_eq s "0.0.0.14"
    then some (record { is4 = true; value = 14; zone = "" })
    else none

abbrev text_one : Addr → String
text_one a = if a.value == 13 then "0.0.0.13" else if a.value == 14 then "0.0.0.14" else "another"

abbrev sample : Netip
sample = record {
  parse_prefix = parse_small;
  parse_addr = parse_one;
  to_text = text_one;
  parse_prefix_bits = parse_small_bits;
}

expand_cidr-listing_example :
    expand_cidr sample "0.0.0.12/30" "0.0.0.13" [] (pos 0)
    ≡ some (
        listing sample
          (masked small_block)
          (excluded_texts sample [] "0.0.0.13")
          (limit_of (pos 0))
          (block small_block)
          (masked small_block).value)
expand_cidr-listing_example =
    expand_cidr-listing sample "0.0.0.12/30" "0.0.0.13" [] (pos 0) small_block refl

abbrev pool : RoutableIpPool
pool = record {
  id = "pool";
  name = "p";
  cidr = "0.0.0.12/30";
  gateway = "";
  usage = "lb" ∷ [];
  status = pool_active;
  allow_auto_allocate = true;
}

abbrev address : String → String → String → RoutableIp
address id text status = record {
  id = id;
  pool_id = "pool";
  address = text;
  status = status;
  project = "";
  name = "";
  purpose = "";
  allocation_type = "auto";
  target_type = "";
  target_id = "";
}

abbrev tables : String → Db
tables status = record {
  pools = pool ∷ [];
  ips = address "a" "0.0.0.13" status ∷ address "b" "0.0.0.14" ip_available ∷ [];
  bindings = [];
  exclusions = record { id = "e"; address = "0.0.0.13"; pool_id = "" } ∷ [];
}

abbrev auto : String → ReserveOptions
auto name = record {
  pool_id = "p";
  project = "shop";
  name = name;
  purpose = "lb";
  address = "";
  reserved = false;
}

abbrev web : IpBinding
web = record {
  id = "w";
  ip_id = "";
  target_type = "instance";
  target_id = "i1";
  binding_mode = "dnat";
  protocol = "tcp";
  external_port = pos 443;
}

abbrev other_web : IpBinding
other_web = record web { id = "w2"; target_id = "i2" }

abbrev held : String → String → String → RoutableIp
held id text name = record (address id text ip_reserved) {
  project = "shop";
  name = name;
  purpose = "lb";
}

abbrev between : List (Faults × Call)
between =
    (no_faults, Calls.attach "a" web)
    ∷ (no_faults, Calls.attach "a" other_web)
    ∷ (no_faults, Calls.detach "a")
    ∷ []

reserve_fresh_example : (held "b" "0.0.0.14" "two").id ≢ (held "a" "0.0.0.13" "one").id
unfolding Manager.reserve Manager.choose Manager.attach Manager.detach Manager.clashes
    Manager.optional Manager.usage_allows Tables.same_key Tables.◌>>=◌ Tables.◌>>◌ Tables.pure
    Tables.fail Tables.refuse_if Tables.or_else Tables.if◌run◌or◌ Tables.exec Tables.query
    Tables.get_pool Tables.first_available Tables.least Tables.update_ip Tables.updated
    Tables.name_taken Tables.get_ip Tables.list_bindings Tables.insert_binding
    Tables.delete_bindings_for_ip
reserve_fresh_example =
    reserve_fresh sample no_faults no_faults (auto "one") (auto "two") (tables ip_available) between
      (held "a" "0.0.0.13" "one") (held "b" "0.0.0.14" "two") refl (tt, (tt, (tt, tt))) refl

run-NoClash_example : NoClash (run sample between (tables ip_reserved)).bindings
unfolding NoClash
run-NoClash_example = run-NoClash sample between (tables ip_reserved) tt

release-freed_example :
    ((Manager.release no_faults "a" (tables ip_excluded)).0 ≡ ok tt)
    × (find (λ x. str_eq x.id "a") (Manager.release no_faults "a" (tables ip_excluded)).1.ips
        ≡ some (freed (address "a" "0.0.0.13" ip_excluded)))
    × ((Manager.release no_faults "a" (tables ip_excluded)).1.exclusions
        ≡ (tables ip_excluded).exclusions)
release-freed_example =
    release-freed "a" (tables ip_excluded) (address "a" "0.0.0.13" ip_excluded) refl
