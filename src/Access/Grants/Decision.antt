-- ===== src/Access/Grants/Decision.antt =====
-- When `Store.Evaluate` of internal/iam/eval.go allows an action.
use capper.Prelude.{
  String, Bool, true, false, ◌&&◌, ◌||◌, List, [], ◌∷◌, Option, none, some, any, str_eq, eq_iff,
  if◌then◌else◌, ◌≡◌, refl, ◌↔◌, Any, any_iff, arith,
}
use capper.Prelude.Bytes.{Bytes}
use capper.Access.Grants.{
  Statement, Policy, Role, Grant, Queries, Verdict, denied, allowed, failed, Walk, stop, on, ◌>>=◌,
  matches_any, match_resource, statement_step, walk_statements, walk_policy, walk_policies,
  walk_role, walk_grant, walk_grants, evaluate,
}
use capper.Access.Grants.Patterns.{Matches, matches_any-Any, InScope, match_resource-InScope}

-- What a walk says, less the policy that it names.
abbrev seen : Walk → Option Bool
seen (stop p) = none
seen (on a p) = some a

abbrev outcome : Bool → Bool → Bool → Option Bool
outcome d l before = if d then none else some (before || l)

seen-bind :
    (w : Walk) (f : Bool → String → Walk) (d l d' l' a : Bool)
    → seen w ≡ outcome d l a
    → ((b : Bool) (p : String) → seen (f b p) ≡ outcome d' l' b)
    → seen (w >>= f) ≡ outcome (d || d') (l || l') a
seen-bind (stop p) f d l d' l' a e h = ground arith
seen-bind (on b p) f d l d' l' a e h = ground (arith, h b p)

pub is_allowed : Verdict → Bool
is_allowed (denied p) = false
is_allowed (allowed p) = true
is_allowed failed = false

module _ (q : Queries) (action resource : Bytes) where
  -- A statement, a policy or a grant that says "allow" or "deny" about the action on the resource. A
  -- role or policy that cannot be read says nothing.
  abbrev pub Says : String → Statement → Type 0
  Says effect s =
      (s.effect ≡ effect)
      × Any (λ p. Matches p action) s.actions
      × Any (λ p. Matches p resource) s.resources

  abbrev pub PolicySays : String → Option Policy → Type 0
  PolicySays effect none = ⊥
  PolicySays effect (some pol) = Any (Says effect) pol.statements

  abbrev pub RoleSays : String → Option Role → Type 0
  RoleSays effect none = ⊥
  RoleSays effect (some role) = Any (λ id. PolicySays effect (q.get_policy id)) role.policies

  abbrev pub GrantSays : String → Grant → Type 0
  GrantSays effect g = InScope g.resource_scope resource × RoleSays effect (q.get_role g.role_id)

  says : String → Statement → Bool
  says effect s =
      str_eq s.effect effect && (matches_any s.actions action && matches_any s.resources resource)

  policy_says : String → Option Policy → Bool
  policy_says effect none = false
  policy_says effect (some pol) = any (says effect) pol.statements

  role_says : String → Option Role → Bool
  role_says effect none = false
  role_says effect (some role) = any (λ id. policy_says effect (q.get_policy id)) role.policies

  grant_says : String → Grant → Bool
  grant_says effect g =
      match_resource g.resource_scope resource && role_says effect (q.get_role g.role_id)

  says_iff : (e : String) (s : Statement) → (says e s ≡ true) ↔ Says e s
  unfolding says
  says_iff e s = ground (
    arith,
    eq_iff s.effect e,
    matches_any-Any s.actions action,
    matches_any-Any s.resources resource,
  )

  policy_says_iff : (e : String) (p : Option Policy) → (policy_says e p ≡ true) ↔ PolicySays e p
  unfolding policy_says
  policy_says_iff e none = ground arith
  policy_says_iff e (some pol) = any_iff _ _ (says_iff e) pol.statements

  role_says_iff : (e : String) (r : Option Role) → (role_says e r ≡ true) ↔ RoleSays e r
  unfolding role_says
  role_says_iff e none = ground arith
  role_says_iff e (some role) =
      any_iff _ _ (λ id. policy_says_iff e (q.get_policy id)) role.policies

  grant_says_iff : (e : String) (g : Grant) → (grant_says e g ≡ true) ↔ GrantSays e g
  unfolding grant_says
  grant_says_iff e g = ground (
    arith,
    match_resource-InScope g.resource_scope resource,
    role_says_iff e (q.get_role g.role_id),
  )

  statement_lem :
      (pid : String) (s : Statement) (a : Bool) (p : String)
      → seen (statement_step q action resource pid s a p)
        ≡ outcome (says "deny" s) (says "allow" s) a
  unfolding statement_step says
  statement_lem pid s a p = ground (arith, eq_iff s.effect "deny", eq_iff s.effect "allow", differ)
    where
      differ : str_eq "deny" "allow" ≡ false
      differ = refl

  statements_lem :
      (pid : String) (ss : List Statement) (a : Bool) (p : String)
      → seen (walk_statements q action resource pid ss a p)
        ≡ outcome (any (says "deny") ss) (any (says "allow") ss) a
  unfolding walk_statements
  statements_lem pid [] a p = ground arith
  statements_lem pid (s ∷ ss) a p =
      seen-bind _ _ _ _ _ _ a (statement_lem pid s a p) (statements_lem pid ss)

  policy_lem :
      (o : Option Policy) (a : Bool) (p : String)
      → seen (walk_policy q action resource o a p)
        ≡ outcome (policy_says "deny" o) (policy_says "allow" o) a
  unfolding walk_policy policy_says
  policy_lem none a p = ground arith
  policy_lem (some pol) a p = statements_lem pol.id pol.statements a p

  policies_lem :
      (ids : List String) (a : Bool) (p : String)
      → seen (walk_policies q action resource ids a p)
        ≡ outcome
            (any (λ id. policy_says "deny" (q.get_policy id)) ids)
            (any (λ id. policy_says "allow" (q.get_policy id)) ids)
            a
  unfolding walk_policies
  policies_lem [] a p = ground arith
  policies_lem (id ∷ ids) a p =
      seen-bind _ _ _ _ _ _ a (policy_lem (q.get_policy id) a p) (policies_lem ids)

  role_lem :
      (o : Option Role) (a : Bool) (p : String)
      → seen (walk_role q action resource o a p)
        ≡ outcome (role_says "deny" o) (role_says "allow" o) a
  unfolding walk_role role_says
  role_lem none a p = ground arith
  role_lem (some role) a p = policies_lem role.policies a p

  grant_lem :
      (g : Grant) (a : Bool) (p : String)
      → seen (walk_grant q action resource g a p)
        ≡ outcome (grant_says "deny" g) (grant_says "allow" g) a
  unfolding walk_grant grant_says
  grant_lem g a p = ground (arith, role_lem (q.get_role g.role_id) a p)

  grants_lem :
      (gs : List Grant) (a : Bool) (p : String)
      → seen (walk_grants q action resource gs a p)
        ≡ outcome (any (grant_says "deny") gs) (any (grant_says "allow") gs) a
  unfolding walk_grants
  grants_lem [] a p = ground arith
  grants_lem (g ∷ gs) a p = seen-bind _ _ _ _ _ _ a (grant_lem g a p) (grants_lem gs)

  -- With the principal's grants at hand, the action is allowed exactly when no readable policy of a
  -- grant in scope denies it and one of them allows it, whatever the order of grants and policies.
  pub evaluate-GrantSays :
      (principal_type principal_id : String) (gs : List Grant)
      → q.grants_for_principal principal_type principal_id ≡ some gs
      → (is_allowed (evaluate q action resource principal_type principal_id) ≡ true)
        ↔ ((¬ Any (GrantSays "deny") gs) × Any (GrantSays "allow") gs)
  unfolding evaluate is_allowed
  evaluate-GrantSays principal_type principal_id gs e = ground (
    arith,
    grants_lem gs false "",
    any_iff (grant_says "deny") (GrantSays "deny") (grant_says_iff "deny") gs,
    any_iff (grant_says "allow") (GrantSays "allow") (grant_says_iff "allow") gs,
  )
