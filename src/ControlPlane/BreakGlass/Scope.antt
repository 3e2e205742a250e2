-- ===== src/ControlPlane/BreakGlass/Scope.antt =====
-- thor-control-plane/crates/thor-control-server/src/break_glass.rs: how an emergency ends, and the
-- fields of a token that decide nothing.
use thor_firewall_smart.Prelude.{
  ℕ, ◌≡◌, refl, ◌≢◌, String, true, false, List, arith, ok, Option-cases, Bool-cases, string_eq, inl,
  inr,
}
use thor_firewall_smart.Prelude.Dict.{insert}
use thor_firewall_smart.ControlPlane.BreakGlass.{
  BreakGlassCommand, BreakGlassToken, SystemEmergencyState, Crates, freeze_ai, restore_normal,
  apply_command, log_activation, process_token, process,
}

-- Every flag of the one state is still set in the other.
pub record KeepsFlags (s t : SystemEmergencyState) : Type 0 where
  pub active_kept : s.active ≡ true → t.active ≡ true
  pub ai_frozen_kept : s.ai_frozen ≡ true → t.ai_frozen ≡ true
  pub block_all_kept : s.block_all ≡ true → t.block_all ≡ true
  pub allow_all_kept : s.allow_all ≡ true → t.allow_all ≡ true

KeepsFlags-refl : (s : SystemEmergencyState) → KeepsFlags s s
KeepsFlags-refl s = ground arith

apply_command-KeepsFlags :
    (cmd : BreakGlassCommand) (s : SystemEmergencyState)
    → cmd ≢ restore_normal
    → KeepsFlags s (apply_command cmd s)
unfolding apply_command
apply_command-KeepsFlags freeze_ai s n = ground arith
apply_command-KeepsFlags _ s n = ground arith

module _ (c : Crates) (now : ℕ) where
  process_token-KeepsFlags :
      (t : BreakGlassToken) (s : SystemEmergencyState)
      → (process_token c now t s).0 ≢ ok restore_normal
      → KeepsFlags s (process_token c now t s).1
  unfolding process_token log_activation
  process_token-KeepsFlags t s n =
      let fresh = record s { consumed_nonces = insert t.nonce tt s.consumed_nonces } in
      ground (arith, apply_command-KeepsFlags t.command fresh)

  -- Whatever the message, a flag is cleared only by an executed RestoreNormal.
  pub process-KeepsFlags :
      (token_json signature : List ℕ) (s : SystemEmergencyState)
      → (process c now token_json signature s).0 ≢ ok restore_normal
      → KeepsFlags s (process c now token_json signature s).1
  unfolding process
  process-KeepsFlags token_json signature s n = elim (Bool-cases (c.verify token_json signature)) [
    | inl e ↦ elim (Option-cases (c.from_slice token_json)) [
      | inl none_left ↦ rw (e, none_left, process) (KeepsFlags-refl s)
      | inr (t, p) ↦ rw (e, p, process) (process_token-KeepsFlags t s (rw (e, p, process) at n))
    ]
    | inr e ↦ rw (e, process) (KeepsFlags-refl s)
  ]

  -- An executed RestoreNormal clears every flag.
  pub process_restore_normal :
      (token_json signature : List ℕ) (s : SystemEmergencyState)
      → (process c now token_json signature s).0 ≡ ok restore_normal
      → let u = (process c now token_json signature s).1 in
        (u.active ≡ false) × (u.ai_frozen ≡ false) × (u.block_all ≡ false) × (u.allow_all ≡ false)
  unfolding process process_token log_activation apply_command
  process_restore_normal token_json signature s h = ground arith

  -- The time of issue and the scope of a token change neither the decision nor the new state: the
  -- life of a token is not bounded, and a command for one agent is applied to the whole system.
  pub process_token_ignores :
      (t : BreakGlassToken) (issued_at : ℕ) (target_scope : String) (s : SystemEmergencyState)
      → process_token c now (record t { issued_at = issued_at; target_scope = target_scope }) s
        ≡ process_token c now t s
  unfolding process_token log_activation
  process_token_ignores t issued_at target_scope s = refl
