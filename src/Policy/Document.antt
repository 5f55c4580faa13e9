-- ===== src/Policy/Document.antt =====
-- internal/policy/policy.go: parsed documents, and the request that they are evaluated against.
use opens.Prelude.{Bool, Option, List, Bytes, Map}

-- `Effect`; parseStatement refuses any other text.
pub data Effect : Type 0 where
  allow deny : Effect

pub record Principal : Type 0 where
  pub everyone : Bool
  pub aws : List Bytes
  pub federated : List Bytes
  pub service : List Bytes
  pub canonical : List Bytes

-- operator → key → values
abbrev pub Conditions : Type 0
Conditions = Map (Map (List Bytes))

pub record Statement : Type 0 where
  pub sid : Bytes
  pub effect : Effect
  pub principal : Option Principal
  pub not_principal : Option Principal
  pub actions : List Bytes
  pub not_actions : List Bytes
  pub resources : List Bytes
  pub not_resources : List Bytes
  pub conditions : Conditions

pub record Document : Type 0 where
  pub version : Bytes
  pub id : Bytes
  pub statements : List Statement

pub record Args : Type 0 where
  pub action : Bytes
  pub resource : Bytes
  pub principal_arn : Bytes
  pub canonical_id : Bytes
  pub anonymous : Bool
  pub conditions : Map (List Bytes)
  pub vars : Map Bytes

pub data Decision : Type 0 where
  no_match allowed denied : Decision
