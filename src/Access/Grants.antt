-- ===== src/Access/Grants.antt =====
-- Grants, roles and policies: `Store.Evaluate` of internal/iam/eval.go and its pattern matching.
-- The queries behind it are an interface: `none` is a query that fails.
pub mod Patterns
pub mod Decision
use capper.Prelude.{
  ℕ, ◌-◌, String, Bool, true, false, not, ◌&&◌, ◌||◌, List, [], ◌∷◌, ◌++◌, Option, none, some, any,
  take, length, if◌then◌else◌, ◌≡◌, refl, ◌↔◌, ◌⊎◌, inl, inr, Any, any_iff, arith, str_eq, eq_iff,
  Bool-cases, Option-cases, or_iff,
}
use capper.Prelude.Bytes.{
  Bytes, codes, bytes_eq, bytes_eq_iff, has_prefix, has_suffix, has_prefix-append, has_prefix_rest,
  has_suffix-append, has_suffix_rest, take_of_append,
}

-- The fields of the four records that the evaluation reads.
pub record Statement : Type 0 where
  pub effect : String
  pub actions : List Bytes
  pub resources : List Bytes

pub record Policy : Type 0 where
  pub id : String
  pub statements : List Statement

pub record Role : Type 0 where
  pub id : String
  pub policies : List String

pub record Grant : Type 0 where
  pub role_id : String
  pub resource_scope : Bytes

-- GrantsForPrincipal, GetRole and GetPolicy of the store.
pub record Queries : Type 0 where
  pub grants_for_principal : String → String → Option (List Grant)
  pub get_role : String → Option Role
  pub get_policy : String → Option Policy

pub data Verdict : Type 0 where
  denied : String → Verdict
  allowed : String → Verdict
  failed : Verdict

pub match_pattern : Bytes → Bytes → Bool
match_pattern pattern value =
    if bytes_eq pattern (codes "*")
    then true
    else if has_suffix pattern (codes ":*")
    then has_prefix value (take (length pattern - 1) pattern)
    else if has_suffix pattern (codes "/*")
    then has_prefix value (take (length pattern - 1) pattern)
    else bytes_eq pattern value

pub matches_any : List Bytes → Bytes → Bool
matches_any patterns value = any (λ p. match_pattern p value) patterns

pub match_resource : Bytes → Bytes → Bool
match_resource scope resource =
    if bytes_eq scope [] || bytes_eq scope (codes "*") then true else has_prefix resource scope

-- The loops end in a deny, or carry `allowed` and `allowPolicyID` on.
pub data Walk : Type 0 where
  stop : String → Walk
  on : Bool → String → Walk

infixl 5 ◌>>=◌
abbrev pub ◌>>=◌ : Walk → (Bool → String → Walk) → Walk
stop pid >>= f = stop pid
on a pid >>= f = f a pid

conclude : Walk → Verdict
conclude (stop pid) = denied pid
conclude (on true pid) = allowed pid
conclude (on false pid) = denied ""

module _ (q : Queries) (action resource : Bytes) where
  pub statement_step : String → Statement → Bool → String → Walk
  statement_step pid s a p =
      if not (matches_any s.actions action)
      then on a p
      else if not (matches_any s.resources resource)
      then on a p
      else if str_eq s.effect "deny"
      then stop pid
      else if str_eq s.effect "allow"
      then on true pid
      else on a p

  pub walk_statements : String → List Statement → Bool → String → Walk
  walk_statements pid [] a p = on a p
  walk_statements pid (s ∷ ss) a p = statement_step pid s a p >>= walk_statements pid ss

  pub walk_policy : Option Policy → Bool → String → Walk
  walk_policy none a p = on a p
  walk_policy (some pol) a p = walk_statements pol.id pol.statements a p

  pub walk_policies : List String → Bool → String → Walk
  walk_policies [] a p = on a p
  walk_policies (id ∷ ids) a p = walk_policy (q.get_policy id) a p >>= walk_policies ids

  pub walk_role : Option Role → Bool → String → Walk
  walk_role none a p = on a p
  walk_role (some role) a p = walk_policies role.policies a p

  pub walk_grant : Grant → Bool → String → Walk
  walk_grant g a p =
      if not (match_resource g.resource_scope resource)
      then on a p
      else walk_role (q.get_role g.role_id) a p

  pub walk_grants : List Grant → Bool → String → Walk
  walk_grants [] a p = on a p
  walk_grants (g ∷ gs) a p = walk_grant g a p >>= walk_grants gs

  pub evaluate : String → String → Verdict
  unfolding conclude
  evaluate principal_type principal_id = elim (q.grants_for_principal principal_type principal_id) [
    | none ↦ failed
    | some grants ↦ conclude (walk_grants grants false "")
  ]
