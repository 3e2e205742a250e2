-- ===== src/ControlPlane/Delegation/Tests.antt =====
-- thor-control-plane/crates/thor-control-server/src/delegation.rs: tests.
use thor_firewall_smart.Prelude.{
  ◌≡◌, refl, ◌≢◌, ◌↔◌, String, true, false, none, some, [], ◌∷◌, inl, contains, string_eq,
}
use thor_firewall_smart.Prelude.Text.{strip_prefix}
use thor_firewall_smart.ControlPlane.Delegation.{
  validate, is_approved, split_comma, group_ids, role_from_str, action_from_str, in_group,
}
use thor_firewall_smart.ControlPlane.Delegation.Privileged.{
  validate-IsPrivileged, validate-soc_admin_iff,
}

groups : split_comma "emea,apac" ≡ "emea" ∷ "apac" ∷ []
unfolding split_comma
groups = refl

manager_blocks :
    is_approved (validate "op" "group:emea,apac" "block_ip" "agent-1" (some "apac")) ≡ true
unfolding validate is_approved role_from_str action_from_str strip_prefix group_ids split_comma
    in_group contains
manager_blocks = refl

analyst_refused : is_approved (validate "op" "soc_analyst" "block_ip" "agent-1" none) ≡ false
unfolding validate is_approved role_from_str action_from_str strip_prefix group_ids split_comma
analyst_refused = refl

validate-IsPrivileged_example :
    (is_approved (validate "op" "soc_admin" "system_shutdown" "agent-1" none) ≡ true)
    ↔ (◌≡◌ {A = String} "soc_admin" "super_admin")
validate-IsPrivileged_example =
    validate-IsPrivileged "op" "soc_admin" "system_shutdown" "agent-1" none (inl refl)

validate-soc_admin_iff_example :
    (is_approved (validate "op" "soc_admin" "manage_operators" "agent-1" none) ≡ true) ↔ (
      (◌≢◌ {A = String} "manage_operators" "system_shutdown")
      × (◌≢◌ {A = String} "manage_operators" "rotate_signing_key"))
validate-soc_admin_iff_example = validate-soc_admin_iff "op" "manage_operators" "agent-1" none
