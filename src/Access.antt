-- ===== src/Access.antt =====
-- `RBACEngine` of src/swe_team/agent_rbac.py. The YAML of the roles file is what the parser makes
-- of it; a task or severity of a condition that is one text is the list of it, and an empty list
-- and no condition are the same, as in the source. Models, descriptions and merge policies are
-- carried by the source and read by no operation here.
pub mod Grants
use swe_squad.Prelude.{
  String, Bool, true, false, ◌&&◌, ◌||◌, not, Option, none, some, List, [], ◌∷◌, any, Dict, lookup,
  insert, str_eq, if◌then◌else◌,
}

pub record AgentRole : Type 0 where
  pub enabled : Bool
  pub permissions : List String
  pub deny : List String

abbrev pub is_in : String → List String → Bool
is_in s texts = any (λ t. str_eq t s) texts

unfoldable pub has_permission : String → AgentRole → Bool
has_permission task r =
    if not r.enabled then false else if is_in task r.deny then false else is_in task r.permissions

-- `condition` is its tasks and its severities.
pub record Override : Type 0 where
  pub rule : String
  pub tasks : List String
  pub severities : List String
  pub allow_agents : List String
  pub is_strict : Bool

-- A role whose data are no mapping cannot be made.
pub data RolesFile : Type 0 where
  missing unreadable : RolesFile
  parsed : List (String × Option AgentRole) → List Override → RolesFile

pub record RbacEngine : Type 0 where
  pub roles : Dict AgentRole
  pub overrides : List Override

-- The roles up to the first that cannot be made, and whether each could.
unfoldable pub load_roles :
    List (String × Option AgentRole) → Dict AgentRole → Dict AgentRole × Bool
load_roles [] roles = (roles, true)
load_roles ((name, none) ∷ rest) roles = (roles, false)
load_roles ((name, some r) ∷ rest) roles = load_roles rest (insert name r roles)

-- `_load`
unfoldable pub load : RolesFile → RbacEngine → RbacEngine
load missing e = e
load unreadable e = e
load (parsed data_roles overrides) e =
    let (roles, ok) = load_roles data_roles e.roles in
    record { roles = roles; overrides = if ok then overrides else e.overrides }

abbrev pub no_roles : RbacEngine
no_roles = record { roles = []; overrides = [] }

-- `reload`, and `__init__` on a new engine.
unfoldable pub reload : RolesFile → RbacEngine → RbacEngine
reload file e = load file (record e { roles = []; overrides = [] })

pub data Reason : Type 0 where
  unknown_agent disabled denied granted not_permitted : Reason
  granted_by : String → Reason

-- The tests of an override, of which those that fail go on to the next. The severity of the
-- context is empty if it has none.
abbrev pub is_empty : List String → Bool
is_empty [] = true
is_empty (x ∷ xs) = false

unfoldable pub override_applies : (agent task severity : String) → Override → Bool
override_applies agent task severity o =
    if not (is_in agent o.allow_agents)
    then false
    else if not (is_empty o.tasks) && not (is_in task o.tasks)
    then false
    else if (not (is_empty o.severities) && not (str_eq severity ""))
        && not (is_in severity o.severities)
    then false
    else if o.is_strict && not (is_in agent o.allow_agents)
    then false
    else true

unfoldable pub check_overrides : (agent task severity : String) → List Override → Bool × Reason
check_overrides agent task severity [] = (false, not_permitted)
check_overrides agent task severity (o ∷ os) =
    let rest = check_overrides agent task severity os in
    if override_applies agent task severity o then (true, granted_by o.rule) else rest

abbrev check_role : (agent task severity : String) → List Override → AgentRole → Bool × Reason
check_role agent task severity overrides r =
    if not r.enabled
    then (false, disabled)
    else if is_in task r.deny
    then (false, denied)
    else if has_permission task r
    then (true, granted)
    else check_overrides agent task severity overrides

unfoldable pub check_permission : (agent task severity : String) → RbacEngine → Bool × Reason
check_permission agent task severity e = elim (lookup agent e.roles) [
  | none ↦ (false, unknown_agent)
  | some r ↦ check_role agent task severity e.overrides r
]

-- `PermissionDeniedError`, with the reason.
pub data Enforced : Type 0 where
  passes : Enforced
  permission_denied : Reason → Enforced

unfoldable pub enforce : (agent task severity : String) → RbacEngine → Enforced
enforce agent task severity e =
    let (allowed, reason) = check_permission agent task severity e in
    if not allowed then permission_denied reason else passes
