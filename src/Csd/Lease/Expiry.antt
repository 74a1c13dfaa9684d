-- ===== src/Csd/Lease/Expiry.antt =====
-- How long a lease lasts, and who may end it: the expiry loop and the releases of
-- internal/csd/server/lease_manager.go.
use capper.Prelude.{
  ℕ, ◌+◌, ◌*◌, ◌≤◌, String, Bool, true, false, not, ◌&&◌, [], ◌∷◌, Option, none, some, str_eq,
  eq_iff, ltb, if◌then◌else◌, ◌≡◌, ◌⊎◌, inl, inr, arith, keep, refl, Bool-cases, Option-cases,
}
use capper.Csd.Lease.{
  Lease, LeaseRequest, Table, Faults, lease_ttl, seconds, stored, insert, acquire, new_lease,
  expire, delete_expired, refusal, get, delete, release,
}
use capper.Csd.Lease.Errors.{Error, ok}
use capper.Csd.Lease.Exclusion.{In}

kept_head : (f : Lease → Bool) (l : Lease) (rows : Table) → f l ≡ true → In l (keep f (l ∷ rows))
kept_head f l rows h = rw h (inl refl)

acquired_row :
    (f : Faults) (req : LeaseRequest) (id : String) (now : ℕ) (rows rows' : Table) (l : Lease)
    → acquire f req id now rows ≡ (ok l, rows')
    → (l ≡ new_lease req id now) × (rows' ≡ stored (new_lease req id now) ∷ rows)
unfolding acquire insert
acquired_row f req id now rows rows' l e = ground arith

-- A lease that was acquired at `now` is still in the table after an expiry check at any time up to
-- 15 seconds later, although the table keeps whole seconds only.
pub acquire-expire :
    (f g : Faults) (req : LeaseRequest) (id : String) (now later : ℕ) (rows rows' : Table)
    (l : Lease)
    → acquire f req id now rows ≡ (ok l, rows')
    → later ≤ now + lease_ttl
    → In (stored l) (expire g later rows')
unfolding expire delete_expired stored
acquire-expire f g req id now later rows rows' l e h =
    let (p, q) = acquired_row f req id now rows rows' l e in
    rw (p, q)
      (elim (Bool-cases g.writing) [
        | inl w ↦ rw w (inl refl)
        | inr w ↦ rw w (
            kept_head (λ r. not (ltb (seconds r.expires_at) (seconds later)))
              (stored (new_lease req id now)) rows (fresh now later h))
      ])
  where
    fresh :
        (now later : ℕ)
        → later ≤ now + lease_ttl
        → not (ltb (seconds (seconds (now + lease_ttl) * 1_000_000_000)) (seconds later)) ≡ true
    fresh now later h = ground arith

get-delete :
    (id j : String) (rows : Table)
    → get j (delete id rows) ≡ (if str_eq id j then none else get j rows)
unfolding get delete
get-delete id j [] = ground arith
get-delete id j (x ∷ rows) =
    ground (arith, get-delete id j rows, eq_iff x.id id, eq_iff x.id j, eq_iff id j)

pub refused : Option Error → Bool
refused none = false
refused (some e) = true

-- A release that is refused leaves the table as it was; one that is not removes the row with the id
-- and no other, and was asked by the client that holds it.
pub release-get :
    (f : Faults) (id client j : String) (rows : Table)
    → (get j (release f id client rows).1
        ≡ (if not (refused (release f id client rows).0) && str_eq id j then none else get j rows))
      × ((refused (release f id client rows).0 ≡ true)
          ⊎ ((l : Lease) × (get id rows ≡ some l) × (l.client_id ≡ client)))
unfolding release refusal refused
release-get f id client j rows = elim (Option-cases (get id rows)) [
  | inl e ↦ (ground (arith, e), inl (ground (arith, e)))
  | inr (l, e) ↦ (ground (arith, e, get-delete id j rows), holder l e)
]
  where
    holder :
        (l : Lease)
        → get id rows ≡ some l
        → (refused (release f id client rows).0 ≡ true)
          ⊎ ((l : Lease) × (get id rows ≡ some l) × (l.client_id ≡ client))
    holder l e = elim (Bool-cases (str_eq l.client_id client)) [
      | inl c ↦ inr (l, e, (eq_iff l.client_id client).0 c)
      | inr c ↦ inl (ground (arith, e))
    ]
