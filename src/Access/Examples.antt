-- ===== src/Access/Examples.antt =====
-- The theorems on internal/authz and internal/iam at concrete requests, grants and texts.
use capper.Prelude.{
  true, false, List, [], ◌∷◌, none, some, ◌≡◌, ◌↔◌, Any, refl, arith, str_eq, if◌then◌else◌,
}
use capper.Prelude.Bytes.{codes}
use capper.Access.Glob
use capper.Access.Pipeline
use capper.Access.Pipeline.{AuthContext, Request, OrgLookup, PolicySet}
use capper.Access.Pipeline.Verdict.{Granted, evaluate-Granted}
use capper.Access.Crn.{Crn, IsPrintable, build_crn, parse_crn, parse_crn-build_crn}
use capper.Access.Grants
use capper.Access.Grants.{Grant, Queries, Policy, Role}
use capper.Access.Grants.Patterns.{InScope, match_resource-InScope}
use capper.Access.Grants.Decision.{is_allowed, GrantSays, evaluate-GrantSays}

abbrev caller : AuthContext
caller = record {
  org_id = "org";
  account_id = "acct";
  project_id = "proj";
  principal_type = "user";
  principal_id = "ann";
  principal_urn = "urn";
  acting_account_id = "";
  assumed_role_id = "";
  session_id = "s";
  is_org_root = false;
  is_account_root = false;
  mfa_validated = true;
  token_id = "t";
  source_ip = "";
  user_agent = "";
}

abbrev request : Request
request = record {
  auth = caller;
  action = codes "volume:attach";
  resource_crn = codes "crn:capper:storage:::acct:volume/1";
  resource = ("account_id", "acct") ∷ [];
}

abbrev org : OrgLookup
org = record {
  org_status = "active";
  account_status = "";
  guardrails = record { effect = "deny"; actions = codes "org:*" ∷ [] } ∷ [];
}

abbrev policies : PolicySet
policies = record {
  documents =
      record {
        version = "1";
        statements =
            record { effect = "allow"; actions = codes "volume:*" ∷ []; resources = codes "*" ∷ [] }
            ∷ [];
      }
      ∷ [];
}

evaluate-Granted_example :
    ((Pipeline.evaluate request org policies).allowed ≡ true) ↔ Granted request org policies
evaluate-Granted_example = evaluate-Granted request org policies

match_glob-Matches_example :
    (Glob.match_glob (codes "volume:*") (codes "volume:attach") ≡ true)
    ↔ Glob.Matches (codes "volume:*") (codes "volume:attach")
match_glob-Matches_example = Glob.match_glob-Matches (codes "volume:*") (codes "volume:attach")

abbrev volume : Crn
volume = record {
  service = codes "storage";
  realm = [];
  region = codes "eu";
  account_id = codes "acct";
  resource_type = codes "volume";
  resource_id = codes "a:b/c";
}

volume-IsPrintable : IsPrintable volume
volume-IsPrintable = record {
  service = omega arith;
  realm = omega arith;
  region = omega arith;
  account_id = omega arith;
  resource_type = omega arith;
}

parse_crn-build_crn_example : parse_crn (build_crn volume) ≡ some volume
parse_crn-build_crn_example = parse_crn-build_crn volume volume-IsPrintable

match_resource-InScope_example :
    (Grants.match_resource (codes "project:default") (codes "project:default2") ≡ true)
    ↔ InScope (codes "project:default") (codes "project:default2")
match_resource-InScope_example =
    match_resource-InScope (codes "project:default") (codes "project:default2")

abbrev operator_grants : List Grant
operator_grants = record { role_id = "operator"; resource_scope = codes "project:" } ∷ []

abbrev queries : Queries
queries = record {
  grants_for_principal = λ kind name. some operator_grants;
  get_role = λ name.
      if str_eq name "operator"
      then some (record { id = "operator"; policies = "vm" ∷ "lost" ∷ [] })
      else none;
  get_policy = λ name.
      if str_eq name "vm"
      then some (record {
        id = "vm";
        statements =
            record { effect = "allow"; actions = codes "vm:*" ∷ []; resources = codes "*" ∷ [] }
            ∷ [];
      })
      else none;
}

evaluate-GrantSays_example :
    (is_allowed (Grants.evaluate queries (codes "vm:start") (codes "project:a") "user" "ann")
      ≡ true)
    ↔ ((¬ Any (GrantSays queries (codes "vm:start") (codes "project:a") "deny") operator_grants)
        × Any (GrantSays queries (codes "vm:start") (codes "project:a") "allow") operator_grants)
evaluate-GrantSays_example =
    evaluate-GrantSays queries (codes "vm:start") (codes "project:a") "user" "ann" operator_grants
      refl
