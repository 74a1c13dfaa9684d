-- ===== src/Ipam/Conflict.antt =====
-- Two targets do not share a port of an address: the bindings of internal/ipam/manager.go.
pub mod Calls
pub mod Pool
use capper.Prelude.{
  String, Bool, true, false, not, ◌&&◌, ◌||◌, List, [], ◌∷◌, ◌≡◌, refl, any, keep, str_eq, arith,
}
use capper.Prelude.Int.{eq_ℤ}
use capper.Ipam.{IpBinding, Db}
use capper.Ipam.Manager
use capper.Ipam.Tables.{
  Faults, M, Result, query, pure, exec, update_ip, set_pool_status, delete_bindings_for_ip,
  insert_binding, insert_exclusion, delete_exclusion,
}
use capper.Ipam.Triple.{Triple, exec-Triple, pure-Triple, query-Triple}

-- The same address, protocol and external port for two targets.
pub clash : IpBinding → IpBinding → Bool
clash b e =
    str_eq e.ip_id b.ip_id
    && str_eq e.protocol b.protocol
    && eq_ℤ e.external_port b.external_port
    && not (str_eq e.target_type b.target_type && str_eq e.target_id b.target_id)

unfoldable pub NoClash : List IpBinding → Type 0
unfolding clash
NoClash [] = Unit {0}
NoClash (b ∷ bs) = (any (clash b) bs ≡ false) × NoClash bs

abbrev pub Clear : Db → Type 0
Clear db = NoClash db.bindings

any-keep-false :
    {A : Type 0} (f p : A → Bool) (xs : List A) → any f xs ≡ false → any f (keep p xs) ≡ false
any-keep-false f p [] h = refl
any-keep-false f p (x ∷ xs) h = ground (arith, any-keep-false f p xs)

pub keep-NoClash : (p : IpBinding → Bool) (bs : List IpBinding) → NoClash bs → NoClash (keep p bs)
unfolding NoClash
keep-NoClash p [] h = tt
keep-NoClash p (b ∷ bs) h = ground (arith, any-keep-false (clash b) p bs h.0, keep-NoClash p bs h.1)

-- The loop over the address's own bindings finds every clash.
pub any-clash :
    (b : IpBinding) (id : String) (bs : List IpBinding)
    → any (Manager.clashes b) (keep (λ e. str_eq e.ip_id id) bs) ≡ false
    → any (clash (record b { ip_id = id })) bs ≡ false
unfolding clash Manager.clashes
any-clash b id [] h = refl
any-clash b id (e ∷ bs) h = ground (arith, h, any-clash b id bs)

module _ (f : Faults) where
  pub delete_bindings_for_ip-Clear :
      (i : String) → Triple Clear Clear (delete_bindings_for_ip f i) (λ _. Clear)
  unfolding delete_bindings_for_ip
  delete_bindings_for_ip-Clear i =
      exec-Triple Clear _ _ _ _ (λ db h. h) (λ db h. keep-NoClash _ db.bindings h)

  pub insert_binding-Clear :
      (b : IpBinding)
      → Triple Clear
          (λ db. Clear db × (any (clash b) db.bindings ≡ false))
          (insert_binding f b)
          (λ _. Clear)
  unfolding insert_binding NoClash
  insert_binding-Clear b = exec-Triple Clear _ _ _ _ (λ db h. h.0) (λ db h. (h.1, h.0))

abbrev pub Clears : {A : Type 0} → M A → Type 0
Clears m = Triple Clear Clear m (λ a db. Clear db × Unit {0})

pub done : {A : Type 0} (a : A) → Clears (pure a)
done a = pure-Triple Clear a (λ db h. (h, tt))

pub query-Clears : {A : Type 0} (down : Bool) (answer : Db → Result A) → Clears (query down answer)
query-Clears down answer = query-Triple Clear down answer (λ db h. h) (λ db a h e. (h, tt))
