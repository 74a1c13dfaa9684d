-- ===== src/Access/Pipeline.antt =====
-- The authorization pipeline of internal/authz/authz.go: the request, the documents, and
-- `Evaluator.Evaluate`. A pattern, an action and a resource name are byte lists, since the code looks
-- inside them; every other Go string is only compared. `Request.Conditions`, which nothing reads, is
-- left out.
pub mod Verdict
use capper.Prelude.{
  String, Bool, true, false, not, ◌&&◌, ◌||◌, List, [], ◌∷◌, Option, none, some, any, str_eq,
  if◌then◌else◌, ◌>>=◌,
}
use capper.Prelude.Bytes.{Bytes}
use capper.Access.Glob.{matches_any, resource_matches_any}

pub record AuthContext : Type 0 where
  pub org_id : String
  pub account_id : String
  pub project_id : String
  pub principal_type : String
  pub principal_id : String
  pub principal_urn : String
  pub acting_account_id : String
  pub assumed_role_id : String
  pub session_id : String
  pub is_org_root : Bool
  pub is_account_root : Bool
  pub mfa_validated : Bool
  pub token_id : String
  pub source_ip : String
  pub user_agent : String

pub record Request : Type 0 where
  pub auth : AuthContext
  pub action : Bytes
  pub resource_crn : Bytes
  pub resource : List (String × String)

pub record Decision : Type 0 where
  pub allowed : Bool
  pub reason : String

pub record PolicyStatement : Type 0 where
  pub effect : String
  pub actions : List Bytes
  pub resources : List Bytes

pub record PolicyDocument : Type 0 where
  pub version : String
  pub statements : List PolicyStatement

pub record GuardrailDocument : Type 0 where
  pub effect : String
  pub actions : List Bytes

pub record OrgLookup : Type 0 where
  pub org_status : String
  pub account_status : String
  pub guardrails : List GuardrailDocument

pub record PolicySet : Type 0 where
  pub documents : List PolicyDocument

abbrev pub effect_allow : String
effect_allow = "allow"

abbrev pub effect_deny : String
effect_deny = "deny"

abbrev allow : String → Decision
allow reason = record { allowed = true; reason = reason }

abbrev deny : String → Decision
deny reason = record { allowed = false; reason = reason }

-- The first entry of a map with the key.
pub lookup : String → List (String × String) → Option String
lookup k [] = none
lookup k ((j, v) ∷ m) = if str_eq j k then some v else lookup k m

-- A status that is given and is not "active" stops the pipeline.
pub inactive : String → Bool
inactive status = not (str_eq status "") && not (str_eq status "active")

-- The body of the loop over the statements: `none` is `return denied-by-policy`, and `some` carries
-- `explicitAllow` to the next statement.
pub evaluate_statement : Request → PolicyStatement → Bool → Option Bool
evaluate_statement req stmt explicit_allow =
    if not (matches_any stmt.actions req.action)
    then some explicit_allow
    else if not (resource_matches_any stmt.resources req.resource_crn)
    then some explicit_allow
    else if str_eq stmt.effect effect_deny
    then none
    else if str_eq stmt.effect effect_allow
    then some true
    else some explicit_allow

pub evaluate_statements : Request → List PolicyStatement → Bool → Option Bool
evaluate_statements req [] explicit_allow = some explicit_allow
evaluate_statements req (stmt ∷ stmts) explicit_allow =
    evaluate_statement req stmt explicit_allow >>= λ a. evaluate_statements req stmts a

pub evaluate_documents : Request → List PolicyDocument → Bool → Option Bool
evaluate_documents req [] explicit_allow = some explicit_allow
evaluate_documents req (doc ∷ docs) explicit_allow =
    evaluate_statements req doc.statements explicit_allow >>= λ a. evaluate_documents req docs a

pub guardrail_denies : Request → GuardrailDocument → Bool
guardrail_denies req g = str_eq g.effect "deny" && matches_any g.actions req.action

-- The resource names an account that is neither the caller's nor the one it acts in.
pub foreign_account : AuthContext → Option String → Bool
foreign_account auth none = false
foreign_account auth (some id) =
    not (str_eq id auth.account_id) && not (str_eq id auth.acting_account_id)

pub evaluate : Request → OrgLookup → PolicySet → Decision
unfolding inactive guardrail_denies foreign_account
evaluate req org policies =
    if inactive org.org_status
    then deny "denied-org-not-active"
    else if inactive org.account_status
    then deny "denied-account-not-active"
    else if str_eq req.auth.principal_type ""
    then deny "denied-no-principal"
    else if any (guardrail_denies req) org.guardrails
    then deny "denied-by-guardrail"
    else if req.auth.is_org_root || req.auth.is_account_root
    then allow "allowed-root-user"
    else if str_eq req.auth.principal_type "system"
    then allow "allowed-system"
    else elim (evaluate_documents req policies.documents false) [
      | none ↦ deny "denied-by-policy"
      | some explicit_allow ↦
          if not explicit_allow
          then deny "denied-no-matching-allow"
          else if foreign_account req.auth (lookup "account_id" req.resource)
          then deny "denied-by-ownership"
          else allow "allowed-by-policy"
    ]
