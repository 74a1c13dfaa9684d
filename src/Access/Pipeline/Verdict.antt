-- ===== src/Access/Pipeline/Verdict.antt =====
-- When the pipeline of internal/authz/authz.go allows a request, stated on the patterns and effects
-- of the documents and without the order in which the code walks through them.
use capper.Prelude.{
  String, Bool, true, false, not, ◌&&◌, ◌||◌, List, [], ◌∷◌, Option, none, some, any, str_eq,
  eq_iff, if◌then◌else◌, ◌>>=◌, ◌≡◌, refl, ◌↔◌, ◌⊎◌, ◌≢◌, Any, any_iff, arith,
}
use capper.Access.Glob.{
  Matches, Covers, matches_any, resource_matches_any, matches_any-Any, resource_matches_any-Covers,
}
use capper.Access.Pipeline.{
  Request, PolicyStatement, PolicyDocument, OrgLookup, PolicySet, AuthContext, lookup,
  evaluate_statement, evaluate_statements, evaluate_documents, guardrail_denies, foreign_account,
  inactive, evaluate,
}

-- The statement is about the request, and has the effect.
abbrev pub Says : String → Request → PolicyStatement → Type 0
Says effect req s =
    (s.effect ≡ effect)
    × Any (λ p. Matches p req.action) s.actions
    × Covers s.resources req.resource_crn

says : String → Request → PolicyStatement → Bool
says effect req s =
    str_eq s.effect effect
    && (matches_any s.actions req.action && resource_matches_any s.resources req.resource_crn)

says_iff : (e : String) (req : Request) (s : PolicyStatement) → (says e req s ≡ true) ↔ Says e req s
unfolding says
says_iff e req s = ground (
  arith,
  eq_iff s.effect e,
  matches_any-Any s.actions req.action,
  resource_matches_any-Covers s.resources req.resource_crn,
)

abbrev pub SaysIn : String → Request → List PolicyDocument → Type 0
SaysIn effect req docs = Any (λ d. Any (Says effect req) d.statements) docs

says_in : String → Request → List PolicyDocument → Bool
says_in effect req docs = any (λ d. any (says effect req) d.statements) docs

says_in_iff :
    (e : String) (req : Request) (ds : List PolicyDocument)
    → (says_in e req ds ≡ true) ↔ SaysIn e req ds
unfolding says_in
says_in_iff e req ds = any_iff _ _ (λ d. any_iff _ _ (says_iff e req) d.statements) ds

-- What a walk yields: nothing if a statement denies, else whether one allows.
abbrev outcome : Bool → Bool → Bool → Option Bool
outcome denied allowed before = if denied then none else some (before || allowed)

statement_lem :
    (req : Request) (s : PolicyStatement) (a : Bool)
    → evaluate_statement req s a ≡ outcome (says "deny" req s) (says "allow" req s) a
unfolding evaluate_statement says
statement_lem req s a = ground (arith, eq_iff s.effect "deny", eq_iff s.effect "allow", deny≢allow)
  where
    deny≢allow : str_eq "deny" "allow" ≡ false
    deny≢allow = refl

outcome_seq :
    (d a d' a' b : Bool) → (outcome d a b >>= λ c. outcome d' a' c) ≡ outcome (d || d') (a || a') b
outcome_seq d a d' a' b = ground arith

statements_lem :
    (req : Request) (ss : List PolicyStatement) (a : Bool)
    → evaluate_statements req ss a
      ≡ outcome (any (says "deny" req) ss) (any (says "allow" req) ss) a
unfolding evaluate_statements
statements_lem req [] a = ground arith
statements_lem req (s ∷ ss) a =
    let d = says "deny" req s in
    let l = says "allow" req s in
    rw (statement_lem req s a)
      (ground (arith, statements_lem req ss a, statements_lem req ss (a || l)))

documents_lem :
    (req : Request) (ds : List PolicyDocument) (a : Bool)
    → evaluate_documents req ds a ≡ outcome (says_in "deny" req ds) (says_in "allow" req ds) a
unfolding evaluate_documents says_in
documents_lem req [] a = ground arith
documents_lem req (d ∷ ds) a =
    let l = any (says "allow" req) d.statements in
    rw (statements_lem req d.statements a)
      (ground (arith, documents_lem req ds a, documents_lem req ds (a || l)))

abbrev pub Active : String → Type 0
Active status = (status ≡ "") ⊎ (status ≡ "active")

-- An explicit deny in the organisation's guardrails that is about the action.
abbrev pub Guarded : Request → OrgLookup → Type 0
Guarded req org =
    Any (λ g. (g.effect ≡ "deny") × Any (λ p. Matches p req.action) g.actions) org.guardrails

-- The resource names no account, or the caller's, or the one it acts in.
abbrev pub Owned : AuthContext → Option String → Type 0
Owned auth none = Unit {0}
Owned auth (some id) = (id ≡ auth.account_id) ⊎ (id ≡ auth.acting_account_id)

-- The grounds on which a caller that passes the hard checks is let through.
abbrev pub Entitled : Request → PolicySet → Type 0
Entitled req policies =
    (req.auth.is_org_root ≡ true)
    ⊎ ((req.auth.is_account_root ≡ true)
        ⊎ ((req.auth.principal_type ≡ "system")
            ⊎ ((¬ SaysIn "deny" req policies.documents)
                × SaysIn "allow" req policies.documents
                × Owned req.auth (lookup "account_id" req.resource))))

pub record Granted (req : Request) (org : OrgLookup) (policies : PolicySet) : Type 0 where
  pub org_active : Active org.org_status
  pub account_active : Active org.account_status
  pub principal : req.auth.principal_type ≢ ""
  pub unguarded : ¬ Guarded req org
  pub entitled : Entitled req policies

Active-iff : (s : String) → (inactive s ≡ false) ↔ Active s
unfolding inactive
Active-iff s = ground (arith, eq_iff s "", eq_iff s "active")

Guarded-iff :
    (req : Request) (org : OrgLookup)
    → (any (guardrail_denies req) org.guardrails ≡ true) ↔ Guarded req org
unfolding guardrail_denies
Guarded-iff req org =
    any_iff _ _ (λ g. ground (arith, eq_iff g.effect "deny", matches_any-Any g.actions req.action))
      org.guardrails

Owned-iff :
    (auth : AuthContext) (o : Option String) → (foreign_account auth o ≡ false) ↔ Owned auth o
unfolding foreign_account
Owned-iff auth none = ground arith
Owned-iff auth (some id) =
    ground (arith, eq_iff id auth.account_id, eq_iff id auth.acting_account_id)

entitled : Request → PolicySet → Bool
entitled req policies =
    req.auth.is_org_root
    || (req.auth.is_account_root
        || (str_eq req.auth.principal_type "system"
            || (not (says_in "deny" req policies.documents)
                && (says_in "allow" req policies.documents
                    && not (foreign_account req.auth (lookup "account_id" req.resource))))))

entitled_iff :
    (req : Request) (policies : PolicySet) → (entitled req policies ≡ true) ↔ Entitled req policies
unfolding entitled
entitled_iff req policies = ground (
  arith,
  eq_iff req.auth.principal_type "system",
  says_in_iff "deny" req policies.documents,
  says_in_iff "allow" req policies.documents,
  Owned-iff req.auth (lookup "account_id" req.resource),
)

allowed_lem :
    (req : Request) (org : OrgLookup) (policies : PolicySet)
    → (evaluate req org policies).allowed ≡ (
        not (inactive org.org_status)
        && (not (inactive org.account_status)
            && (not (str_eq req.auth.principal_type "")
                && (not (any (guardrail_denies req) org.guardrails) && entitled req policies))))
unfolding evaluate entitled
allowed_lem req org policies = ground (arith, documents_lem req policies.documents false)

-- The pipeline allows a request exactly when the statuses of the organisation and of the account are each
-- active or blank, there is a principal, no guardrail denies the action, and the caller is a root user, a
-- system principal, or has a matching allow and no matching deny on a resource that names its account, the
-- account it acts in, or no account.
pub evaluate-Granted :
    (req : Request) (org : OrgLookup) (policies : PolicySet)
    → ((evaluate req org policies).allowed ≡ true) ↔ Granted req org policies
evaluate-Granted req org policies = (to, from)
  where
    to : (evaluate req org policies).allowed ≡ true → Granted req org policies
    to h = record {
      org_active = ground (arith, allowed_lem req org policies, Active-iff org.org_status);
      account_active = ground (arith, allowed_lem req org policies, Active-iff org.account_status);
      principal = ground (arith, allowed_lem req org policies, eq_iff req.auth.principal_type "");
      unguarded = ground (arith, allowed_lem req org policies, Guarded-iff req org);
      entitled = ground (arith, allowed_lem req org policies, entitled_iff req policies);
    }

    from : Granted req org policies → (evaluate req org policies).allowed ≡ true
    from g = ground (
      arith,
      allowed_lem req org policies,
      (Active-iff org.org_status).1 g.org_active,
      (Active-iff org.account_status).1 g.account_active,
      eq_iff req.auth.principal_type "",
      Guarded-iff req org,
      (entitled_iff req policies).1 g.entitled,
    )
