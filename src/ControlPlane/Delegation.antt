-- ===== src/ControlPlane/Delegation.antt =====
-- thor-control-plane/crates/thor-control-server/src/delegation.rs: which operator may issue which
-- command. Roles and actions arrive as strings, as in the claims of a token.
pub mod Hierarchy
pub mod Privileged
mod Tests
use Prim.Native.Char.{code}
use Prim.Native.String
use Prim.Native.String.{◌++◌}
use thor_firewall_smart.Prelude.Text.{strip_prefix}
use thor_firewall_smart.Prelude.{
  String, Bool, true, false, not, ◌&&◌, ◌||◌, Option, none, some, List, [], ◌∷◌, ◌==◌, nat_eq,
  string_eq, if◌then◌else◌, contains,
}

pub data OperatorRole : Type 0 where
  super_admin soc_admin soc_analyst : OperatorRole
  agent_group_manager : List String → OperatorRole

pub data CommandAction : Type 0 where
  quarantine_process release_process block_ip unblock_ip update_policy delete_policy : CommandAction
  get_status view_alerts submit_feedback : CommandAction
  system_shutdown rotate_signing_key manage_operators : CommandAction

-- `str::split(',')`: at least one piece, pieces may be empty.
unfoldable pub split_comma : String → List String
split_comma String.[] = "" ∷ []
split_comma (String.◌∷◌ c s) = elim (split_comma s) [
  | [] ↦ []
  | w ∷ ws ↦ if code c == b',' then "" ∷ w ∷ ws else String.◌∷◌ c w ∷ ws
]

unfoldable pub group_ids : Option String → List String
group_ids none = []
group_ids (some g) = split_comma g

unfoldable pub role_from_str : String → OperatorRole
role_from_str s =
    if s == "super_admin"
    then super_admin
    else if s == "soc_admin"
    then soc_admin
    else if s == "soc_analyst"
    then soc_analyst
    else agent_group_manager (group_ids (strip_prefix s "group:"))

unfoldable pub action_from_str : String → CommandAction
action_from_str s =
    if s == "quarantine_process"
    then quarantine_process
    else if s == "release_process"
    then release_process
    else if s == "block_ip"
    then block_ip
    else if s == "unblock_ip"
    then unblock_ip
    else if s == "update_policy"
    then update_policy
    else if s == "delete_policy"
    then delete_policy
    else if s == "get_status"
    then get_status
    else if s == "view_alerts"
    then view_alerts
    else if s == "submit_feedback"
    then submit_feedback
    else if s == "system_shutdown"
    then system_shutdown
    else if s == "rotate_signing_key"
    then rotate_signing_key
    else if s == "manage_operators"
    then manage_operators
    else get_status

-- The `matches!` of the three limited roles.
unfoldable pub soc_admin_may : CommandAction → Bool
soc_admin_may system_shutdown = false
soc_admin_may rotate_signing_key = false
soc_admin_may _ = true

unfoldable pub soc_analyst_may : CommandAction → Bool
soc_analyst_may get_status = true
soc_analyst_may submit_feedback = true
soc_analyst_may view_alerts = true
soc_analyst_may _ = false

unfoldable pub group_manager_may : CommandAction → Bool
group_manager_may quarantine_process = true
group_manager_may release_process = true
group_manager_may block_ip = true
group_manager_may update_policy = true
group_manager_may get_status = true
group_manager_may _ = false

unfoldable pub in_group : List String → Option String → Bool
in_group gs none = false
in_group gs (some g) = contains gs g

unfoldable pub can_execute : OperatorRole → CommandAction → Option String → Bool
unfolding soc_admin_may soc_analyst_may group_manager_may
can_execute super_admin a g = true
can_execute soc_admin a g = soc_admin_may a
can_execute soc_analyst a g = soc_analyst_may a
can_execute (agent_group_manager gs) a g = in_group gs g && group_manager_may a

pub data DelegationResult : Type 0 where
  approved : (operator_id action agent_id : String) → DelegationResult
  denied : (reason : String) → DelegationResult

denial : String → String → String → String
denial role action agent =
    "Role '" ++ role ++ "' is not authorized to execute '" ++ action ++ "' on agent '" ++ agent
    ++ "'"

unfoldable pub validate : String → String → String → String → Option String → DelegationResult
unfolding can_execute denial
validate operator_id operator_role action agent_id agent_group =
    if can_execute (role_from_str operator_role) (action_from_str action) agent_group
    then approved operator_id action agent_id
    else denied (denial operator_role action agent_id)

unfoldable pub is_approved : DelegationResult → Bool
is_approved (approved o a i) = true
is_approved (denied r) = false

unfoldable pub denial_reason : DelegationResult → Option String
denial_reason (approved o a i) = none
denial_reason (denied r) = some r
