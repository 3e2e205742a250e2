-- ===== src/ControlPlane/Delegation/Hierarchy.antt =====
-- thor-control-plane/crates/thor-control-server/src/delegation.rs: the order of the roles.
use text.Mathlib.TextEquality.{eq_iff}
use thor_firewall_smart.Prelude.{String, true, ◌≡◌, refl, ◌≢◌, Option, arith}
use thor_firewall_smart.ControlPlane.Delegation.{
  OperatorRole, CommandAction, super_admin, soc_admin, can_execute, role_from_str, action_from_str,
  validate, is_approved,
}

pub can_execute-soc_admin :
    (r : OperatorRole) (a : CommandAction) (g : Option String)
    → r ≢ super_admin
    → can_execute r a g ≡ true
    → can_execute soc_admin a g ≡ true
unfolding can_execute
can_execute-soc_admin r a g n h = ground arith

pub role_from_str-eq-super_admin : (s : String) → role_from_str s ≡ super_admin → s ≡ "super_admin"
unfolding role_from_str
role_from_str-eq-super_admin s h = ground (arith, eq_iff s "super_admin")

pub role_from_str-soc_admin : role_from_str "soc_admin" ≡ soc_admin
unfolding role_from_str
role_from_str-soc_admin = refl

pub is_approved-validate :
    (o role action i : String) (g : Option String)
    → is_approved (validate o role action i g)
      ≡ can_execute (role_from_str role) (action_from_str action) g
unfolding validate is_approved
is_approved-validate o role action i g = ground arith

-- Whatever a role string other than "super_admin" may do, "soc_admin" may do.
pub validate-soc_admin :
    (o role action i : String) (g : Option String)
    → role ≢ "super_admin"
    → is_approved (validate o role action i g) ≡ true
    → is_approved (validate o "soc_admin" action i g) ≡ true
validate-soc_admin o role action i g n h =
    rw (is_approved-validate, role_from_str-soc_admin)
      (can_execute-soc_admin (role_from_str role) (action_from_str action) g
        (λ e. n (role_from_str-eq-super_admin role e)) (rw is_approved-validate at h))
