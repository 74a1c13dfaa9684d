-- ===== src/Ipam/Tables.antt =====
-- The statements of internal/ipam/store.go that the manager runs, each with its own way to fail: a
-- failing connection, a row that is missing, or a key that is taken.
use Prim.Native.String.{compare}
use text.Mathlib.Text.{is_le}
use capper.Prelude.{
  String, Bool, true, false, not, ◌&&◌, ◌||◌, List, [], ◌∷◌, ◌++◌, Option, none, some, map, any,
  keep, find, str_eq, if◌then◌else◌,
}
use capper.Prelude.Int.{eq_ℤ}
use capper.Ipam.{RoutableIpPool, RoutableIp, IpExclusion, IpBinding, Db, ip_available, pool_active}

pub data Error : Type 0 where
  sql_failed no_rows duplicate : Error
  pool_not_found pool_not_active purpose_not_permitted address_not_available reserved_only
        exhausted :
      Error
  cannot_attach bound_elsewhere invalid_address invalid_cidr outside_pool in_use : Error

pub data Result {ℓ} (A : Type ℓ) : Type ℓ where
  ok : A → Result A
  err : Error → Result A

-- Which kinds of statements the database fails to carry out during a call.
pub data Statement : Type 0 where
  get_pool_row set_pool_row get_ip_row get_address_row get_free_row update_ip_row list_binding_rows
        insert_binding_row delete_binding_rows :
      Statement
  list_exclusion_rows get_exclusion_row insert_exclusion_row delete_exclusion_row insert_pool_row :
      Statement
  count_in_use drop_bindings drop_ips drop_exclusions drop_pool : Statement
  insert_ip_row : String → Statement

abbrev pub Faults : Type 0
Faults = Statement → Bool

-- A call takes the tables and leaves them, whether it ends in an error or not.
abbrev pub M : Type 0 → Type 0
M A = Db → Result A × Db

abbrev pub bound : {A B : Type 0} → Result A × Db → (A → M B) → Result B × Db
bound (ok a, db) f = f a db
bound (err e, db) f = (err e, db)

infixl 5 ◌>>=◌ ◌>>◌
unfoldable pub ◌>>=◌ : {A B : Type 0} → M A → (A → M B) → M B
◌>>=◌ m f db = bound (m db) f

unfoldable pub ◌>>◌ : {B : Type 0} → M (Unit {0}) → M B → M B
◌>>◌ m k db = bound (m db) (λ _. k)

unfoldable pub pure : {A : Type 0} → A → M A
pure a db = (ok a, db)

unfoldable pub fail : {A : Type 0} → Error → M A
fail e db = (err e, db)

unfoldable pub refuse_if : Bool → Error → M (Unit {0})
refuse_if true e = fail e
refuse_if false e = pure tt

-- An if statement between calls.
infix 1 if◌run◌or◌
unfoldable pub if◌run◌or◌ : {A : Type 0} → Bool → M A → M A → M A
if true run m or k = m
if false run m or k = k

-- `_ = s.f()`, and `if x, err := s.f(); err == nil { … }`.
abbrev pub dropped : Result (Unit {0}) × Db → Result (Unit {0}) × Db
dropped (r, db) = (ok tt, db)

unfoldable pub ignored : M (Unit {0}) → M (Unit {0})
ignored m db = dropped (m db)

-- `err != nil` replaced by an error of the caller's.
abbrev pub reworded : {A : Type 0} → Error → Result A × Db → Result A × Db
reworded e (ok a, db) = (ok a, db)
reworded e (err _, db) = (err e, db)

unfoldable pub or_else : {A : Type 0} → M A → Error → M A
or_else m e db = reworded e (m db)

-- An error counts as an empty list.
abbrev pub emptied : {A : Type 0} → Result (List A) × Db → Result (List A) × Db
emptied (ok xs, db) = (ok xs, db)
emptied (err _, db) = (ok [], db)

unfoldable pub or_none : {A : Type 0} → M (List A) → M (List A)
or_none m db = emptied (m db)

-- QueryRow and Scan.
abbrev pub row_of : {A : Type 0} → Option A → Result A
row_of none = err no_rows
row_of (some a) = ok a

unfoldable pub query : {A : Type 0} → Bool → (Db → Result A) → M A
query true answer db = (err sql_failed, db)
query false answer db = (answer db, db)

-- Exec, with the test for a key that is taken and the change of the tables.
unfoldable pub exec : {A : Type 0} → Bool → (Db → Bool) → A → (Db → Db) → M A
exec down taken a change db =
    if down
    then (err sql_failed, db)
    else if taken db
    then (err duplicate, db)
    else (ok a, change db)

abbrev pub no_key : Db → Bool
no_key db = false

-- ORDER BY address LIMIT 1.
unfoldable pub least : List RoutableIp → Option RoutableIp
least [] = none
least (r ∷ rows) = elim (least rows) [
  | none ↦ some r
  | some x ↦ if is_le (compare r.address x.address) then some r else some x
]

-- A row keeps its pool and its address.
unfoldable pub updated : RoutableIp → RoutableIp → RoutableIp
updated ip r =
    if str_eq r.id ip.id then record ip { pool_id = r.pool_id; address = r.address } else r

-- A name is taken once in a project.
unfoldable pub name_taken : RoutableIp → List RoutableIp → Bool
name_taken ip rows =
    not (str_eq ip.name "")
    && any (λ r. not (str_eq r.id ip.id) && (str_eq r.project ip.project && str_eq r.name ip.name))
        rows

unfoldable pub same_key : IpBinding → IpBinding → Bool
same_key a b =
    str_eq a.ip_id b.ip_id
    && (str_eq a.target_type b.target_type
        && (str_eq a.target_id b.target_id
            && (str_eq a.binding_mode b.binding_mode
                && (eq_ℤ a.external_port b.external_port && str_eq a.protocol b.protocol))))

module _ (f : Faults) where
  -- By id or by name.
  unfoldable pub get_pool : String → M RoutableIpPool
  get_pool id =
      query (f get_pool_row)
        (λ db. row_of (find (λ p. str_eq p.id id || str_eq p.name id) db.pools))

  -- A pool without a status is active.
  unfoldable pub insert_pool : RoutableIpPool → M RoutableIpPool
  insert_pool p =
      let stored = if str_eq p.status "" then record p { status = pool_active } else p in
      exec (f insert_pool_row) (λ db. any (λ x. str_eq x.id p.id || str_eq x.name p.name) db.pools)
        stored (λ db. record db { pools = db.pools ++ stored ∷ [] })

  unfoldable pub insert_ip : RoutableIp → M (Unit {0})
  unfolding name_taken
  insert_ip ip =
      exec (f (insert_ip_row ip.address))
        (λ db.
          any (λ r. str_eq r.id ip.id || str_eq r.address ip.address) db.ips
          || name_taken ip db.ips)
        tt (λ db. record db { ips = db.ips ++ ip ∷ [] })

  unfoldable pub set_pool_status : String → String → M (Unit {0})
  set_pool_status id status = exec (f set_pool_row) no_key tt (λ db. record db {
    pools = map (λ p. if str_eq p.id id then record p { status = status } else p) db.pools;
  })

  unfoldable pub get_ip : String → M RoutableIp
  get_ip id = query (f get_ip_row) (λ db. row_of (find (λ r. str_eq r.id id) db.ips))

  unfoldable pub get_ip_by_address : String → M RoutableIp
  get_ip_by_address a =
      query (f get_address_row) (λ db. row_of (find (λ r. str_eq r.address a) db.ips))

  unfoldable pub first_available : String → M RoutableIp
  unfolding least
  first_available pool = query (f get_free_row) (λ db.
      row_of (least (keep (λ r. str_eq r.pool_id pool && str_eq r.status ip_available) db.ips)))

  unfoldable pub get_available_address : String → String → M RoutableIp
  get_available_address pool a = query (f get_free_row) (λ db. row_of (
      find (λ r. str_eq r.pool_id pool && (str_eq r.address a && str_eq r.status ip_available))
        db.ips))

  unfoldable pub update_ip : RoutableIp → M (Unit {0})
  unfolding updated name_taken
  update_ip ip =
      exec (f update_ip_row) (λ db. any (λ r. str_eq r.id ip.id) db.ips && name_taken ip db.ips) tt
        (λ db. record db { ips = map (updated ip) db.ips })

  unfoldable pub list_bindings : String → M (List IpBinding)
  list_bindings ip =
      query (f list_binding_rows) (λ db. ok (keep (λ b. str_eq b.ip_id ip) db.bindings))

  unfoldable pub insert_binding : IpBinding → M IpBinding
  unfolding same_key
  insert_binding b =
      exec (f insert_binding_row) (λ db. any (λ x. str_eq x.id b.id || same_key x b) db.bindings) b
        (λ db. record db { bindings = b ∷ db.bindings })

  unfoldable pub delete_bindings_for_ip : String → M (Unit {0})
  delete_bindings_for_ip ip =
      exec (f delete_binding_rows) no_key tt
        (λ db. record db { bindings = keep (λ b. not (str_eq b.ip_id ip)) db.bindings })

  -- The exclusions of a pool, and the global ones; all of them for no pool.
  unfoldable pub list_exclusions : String → M (List IpExclusion)
  list_exclusions pool = query (f list_exclusion_rows) (λ db. ok (
      if str_eq pool ""
      then db.exclusions
      else keep (λ e. str_eq e.pool_id "" || str_eq e.pool_id pool) db.exclusions))

  unfoldable pub get_exclusion : String → M IpExclusion
  get_exclusion id =
      query (f get_exclusion_row) (λ db. row_of (find (λ e. str_eq e.id id) db.exclusions))

  unfoldable pub insert_exclusion : IpExclusion → M IpExclusion
  insert_exclusion e =
      exec (f insert_exclusion_row)
        (λ db.
          any (λ x. str_eq x.id e.id || (str_eq x.address e.address && str_eq x.pool_id e.pool_id))
            db.exclusions)
        e (λ db. record db { exclusions = e ∷ db.exclusions })

  unfoldable pub delete_exclusion : String → M (Unit {0})
  delete_exclusion id =
      exec (f delete_exclusion_row) no_key tt
        (λ db. record db { exclusions = keep (λ e. not (str_eq e.id id)) db.exclusions })
