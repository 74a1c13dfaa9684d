-- ===== src/Ipam/Held.antt =====
-- An address that is in use stays in use until it is released: internal/ipam/manager.go.
pub mod Keep
pub mod Exclude
pub mod Create
pub mod Run
use Prim.Native.String.{compare}
use text.Mathlib.Text.{is_le}
use capper.Prelude.{
  Option-cases, subst, eq_iff, Bool-cases, inl, inr, ap, sym, ◌∙◌, String, Bool, true, false, not,
  ◌&&◌, ◌||◌, List, [], ◌∷◌, Option, none, some, ◌≡◌, refl, any, find, keep, map, str_eq, arith,
  All, find-All, map-All, any-map, keep-All, keep-passes,
}
use capper.Ipam.{RoutableIp, Db, ip_available, ip_reserved, ip_attached}
use capper.Ipam.Tables
use capper.Ipam.Tables.{
  Faults, M, row_of, ok, err, get_ip, update_ip, updated, least, first_available,
}
use capper.Ipam.Triple.{exec-Triple, Triple, query-Triple}

pub busy : String → Bool
busy status = str_eq status ip_reserved || str_eq status ip_attached

-- The rows of the address are in use.
pub Fits : String → RoutableIp → Type 0
unfolding busy
Fits id r = str_eq r.id id && not (busy r.status) ≡ false

pub least-All :
    (P : RoutableIp → Type 0) (rows : List RoutableIp) (r : RoutableIp)
    → All P rows
    → least rows ≡ some r
    → P r
unfolding least
least-All P [] r a e = ground arith
least-All P (x ∷ rows) r a e = elim (Option-cases (least rows)) [
  | inl none_left ↦ subst P (ground (arith, none_left, e)) a.0
  | inr (y, found) ↦
      let p = least-All P rows y a.1 found in
      elim (Bool-cases (is_le (compare x.address y.address))) [
        | inl le ↦ subst P (ground (arith, found, le, e)) a.0
        | inr gt ↦ subst P (ground (arith, found, gt, e)) p
      ]
]

pub row_of-some : {A : Type 0} (o : Option A) (a : A) → row_of o ≡ ok a → o ≡ some a
row_of-some none a e = ground arith
row_of-some (some b) a e = ground arith

module _ (id : String) where
  abbrev pub Held : Db → Type 0
  Held db = All (Fits id) db.ips

  updated-Fits : (ip r : RoutableIp) → Fits id ip → Fits id r → Fits id (updated ip r)
  unfolding Fits updated
  updated-Fits ip r h k = elim (Bool-cases (str_eq r.id ip.id)) [ inl e ↦ rw e h | inr e ↦ rw e k ]

  pub updated-id : (ip r : RoutableIp) → str_eq (updated ip r).id id ≡ str_eq r.id id
  unfolding updated
  updated-id ip r = elim (Bool-cases (str_eq r.id ip.id)) [
    | inl e ↦ rw e (ap (λ i. str_eq i id) (sym ((eq_iff r.id ip.id).0 e)))
    | inr e ↦ rw e refl
  ]

  pub update_ip-Triple :
      (f : Faults) (ip : RoutableIp) → Fits id ip → Triple Held Held (update_ip f ip) (λ _. Held)
  unfolding update_ip
  update_ip-Triple f ip h =
      exec-Triple Held (f Tables.update_ip_row) _ tt
        (λ db. record db { ips = map (updated ip) db.ips }) (λ db a. a)
        (λ db a. map-All (Fits id) (updated ip) (λ r. updated-Fits ip r h) db.ips a)

  pub find-Fits :
      (t : RoutableIp → Bool) (db : Db) (r : RoutableIp)
      → Held db
      → row_of (find t db.ips) ≡ ok r
      → Held db × (Fits id r × (t r ≡ true))
  find-Fits t db r h e = (h, find-All t (Fits id) db.ips r h (row_of-some (find t db.ips) r e))

  pub get_ip-Triple :
      (f : Faults) (i : String)
      → Triple Held Held (get_ip f i) (λ r db. Held db × (Fits id r × (str_eq r.id i ≡ true)))
  unfolding get_ip
  get_ip-Triple f i =
      query-Triple Held (f Tables.get_ip_row) (λ db. row_of (find (λ r. str_eq r.id i) db.ips))
        (λ db h. h) (λ db r h e. find-Fits (λ r. str_eq r.id i) db r h e)
