-- ===== src/ControlPlane/Delegation/Privileged.antt =====
-- thor-control-plane/crates/thor-control-server/src/delegation.rs: the commands that need a
-- particular role, the scope of group managers, and strings that name no command.
use text.Mathlib.TextEquality.{eq_iff}
use thor_firewall_smart.Prelude.{
  String, true, false, ◌≡◌, refl, ◌≢◌, ◌↔◌, List, [], ◌∷◌, ◌∙◌, ◌⊎◌, inl, inr, Bool-cases, ◌==◌,
  Option, none, some, arith, contains, string_eq,
}
use thor_firewall_smart.Prelude.Text.{strip_prefix}
use thor_firewall_smart.ControlPlane.Delegation.{
  CommandAction, soc_admin, agent_group_manager, get_status, can_execute, role_from_str,
  action_from_str, validate, is_approved, approved, group_ids, in_group,
}
use thor_firewall_smart.ControlPlane.Delegation.Hierarchy.{
  validate-soc_admin, is_approved-validate, role_from_str-soc_admin,
}

abbrev pub command_names : List String
command_names =
    "quarantine_process" ∷ "release_process" ∷ "block_ip" ∷ "unblock_ip" ∷ "update_policy"
    ∷ "delete_policy" ∷ "get_status" ∷ "view_alerts" ∷ "submit_feedback" ∷ "system_shutdown"
    ∷ "rotate_signing_key" ∷ "manage_operators" ∷ []

-- The commands that `can_execute` refuses to every role but the first.
abbrev pub IsPrivileged : String → Type 0
IsPrivileged s = (s ≡ "system_shutdown") ⊎ (s ≡ "rotate_signing_key")

privileged→IsPrivileged :
    (s : String) (g : Option String)
    → can_execute soc_admin (action_from_str s) g ≡ false
    → IsPrivileged s
unfolding action_from_str can_execute
privileged→IsPrivileged s g h =
    ground (arith, eq_iff s "system_shutdown", eq_iff s "rotate_signing_key")

IsPrivileged→soc_admin :
    (s : String) (g : Option String)
    → IsPrivileged s
    → can_execute soc_admin (action_from_str s) g ≡ false
unfolding action_from_str can_execute
IsPrivileged→soc_admin s g (inl e) = rw e
IsPrivileged→soc_admin s g (inr e) = rw e

can_execute_super_admin :
    (a : CommandAction) (g : Option String) → can_execute (role_from_str "super_admin") a g ≡ true
unfolding can_execute role_from_str
can_execute_super_admin a g = refl

-- Only the string "super_admin" is let through to shut the system down or rotate the signing key.
pub validate-IsPrivileged :
    (o role action i : String) (g : Option String)
    → IsPrivileged action
    → (is_approved (validate o role action i g) ≡ true) ↔ (role ≡ "super_admin")
validate-IsPrivileged o role action i g p = (needs, suffices)
  where
    needs : is_approved (validate o role action i g) ≡ true → role ≡ "super_admin"
    needs h = elim (Bool-cases (role == "super_admin")) [
      | inl e ↦ (eq_iff role "super_admin").0 e
      | inr n ↦ cc (
        validate-soc_admin o role action i g (λ e. cc ((eq_iff role "super_admin").1 e)) h,
        is_approved-validate o "soc_admin" action i g,
        role_from_str-soc_admin,
        IsPrivileged→soc_admin action g p,
      )
    ]

    suffices : role ≡ "super_admin" → is_approved (validate o role action i g) ≡ true
    suffices e = rw (is_approved-validate, e) (can_execute_super_admin _ g)

-- An operator with the role "soc_admin" is approved for every other command, "manage_operators"
-- included, and for every string that names no command.
pub validate-soc_admin_iff :
    (o action i : String) (g : Option String)
    → (is_approved (validate o "soc_admin" action i g) ≡ true)
      ↔ ((action ≢ "system_shutdown") × (action ≢ "rotate_signing_key"))
validate-soc_admin_iff o action i g = (refused, allowed)
  where
    as_admin :
        is_approved (validate o "soc_admin" action i g)
        ≡ can_execute soc_admin (action_from_str action) g
    as_admin = rw (is_approved-validate, role_from_str-soc_admin)

    refused :
        is_approved (validate o "soc_admin" action i g) ≡ true
        → (action ≢ "system_shutdown") × (action ≢ "rotate_signing_key")
    refused h = (
      λ e. cc (h, as_admin, IsPrivileged→soc_admin action g (inl e)),
      λ e. cc (h, as_admin, IsPrivileged→soc_admin action g (inr e)),
    )

    allowed :
        (action ≢ "system_shutdown") × (action ≢ "rotate_signing_key")
        → is_approved (validate o "soc_admin" action i g) ≡ true
    allowed n = elim (Bool-cases (can_execute soc_admin (action_from_str action) g)) [
      | inl t ↦ as_admin ∙ t
      | inr f ↦ elim (privileged→IsPrivileged action g f) [
        | inl e ↦ absurd (n.0 e)
        | inr e ↦ absurd (n.1 e)
      ]
    ]

role_from_str_other :
    (s : String)
    → s ≢ "super_admin"
    → s ≢ "soc_admin"
    → s ≢ "soc_analyst"
    → role_from_str s ≡ agent_group_manager (group_ids (strip_prefix s "group:"))
unfolding role_from_str
role_from_str_other s n1 n2 n3 =
    ground (arith, eq_iff s "super_admin", eq_iff s "soc_admin", eq_iff s "soc_analyst")

can_execute-group :
    (gs : List String) (a : CommandAction) (g : Option String)
    → can_execute (agent_group_manager gs) a g ≡ true
    → (h : String) × (g ≡ some h) × (contains gs h ≡ true)
unfolding can_execute in_group
can_execute-group gs a none h = cc
can_execute-group gs a (some x) h = (x, refl, ground arith)

-- A role string other than the three fixed names is approved only on an agent whose group it lists,
-- behind the prefix "group:".
pub validate-in_group :
    (o role action i : String) (g : Option String)
    → role ≢ "super_admin"
    → role ≢ "soc_admin"
    → role ≢ "soc_analyst"
    → is_approved (validate o role action i g) ≡ true
    → (h : String) × (g ≡ some h) × (contains (group_ids (strip_prefix role "group:")) h ≡ true)
validate-in_group o role action i g n1 n2 n3 h =
    can_execute-group _ (action_from_str action) g
      (rw (is_approved-validate, role_from_str_other role n1 n2 n3) at h)

action_from_str-unknown :
    (s : String) → contains command_names s ≡ false → action_from_str s ≡ get_status
unfolding action_from_str contains
action_from_str-unknown s h = ground arith

can_execute_analyst :
    (g : Option String) → can_execute (role_from_str "soc_analyst") get_status g ≡ true
unfolding can_execute role_from_str
can_execute_analyst g = refl

validate_allowed :
    (o role action i : String) (g : Option String)
    → can_execute (role_from_str role) (action_from_str action) g ≡ true
    → validate o role action i g ≡ approved o action i
unfolding validate
validate_allowed o role action i g h = rw h

get_status_known : action_from_str "get_status" ≡ get_status
unfolding action_from_str
get_status_known = refl

-- A string that names no command is decided as "get_status" is; an analyst is approved for it, and
-- the approval carries the string itself.
pub validate-unknown :
    (o role action i : String) (g : Option String)
    → contains command_names action ≡ false
    → (is_approved (validate o role action i g) ≡ is_approved (validate o role "get_status" i g))
      × (validate o "soc_analyst" action i g ≡ approved o action i)
validate-unknown o role action i g h =
    let e = action_from_str-unknown action h in
    (
      rw (is_approved-validate, is_approved-validate, e, get_status_known) refl,
      validate_allowed o "soc_analyst" action i g (rw e (can_execute_analyst g)),
    )
