-- ===== src/ControlPlane/BreakGlass/Executed.antt =====
-- thor-control-plane/crates/thor-control-server/src/break_glass.rs: what the execution of a token does
-- to the state.
use thor_firewall_smart.Prelude.{
  ℕ, ◌≡◌, ap, refl, String, string_eq, Bool, ◌||◌, true, false, [], ◌∷◌, arith, ltb, ◌==◌,
  if◌then◌else◌,
}
use mathlib.Core.List.{◌++◌ as append}
use thor_firewall_smart.Prelude.Dict.{Dict, insert, contains_key}
use thor_firewall_smart.Prelude.Dict.Laws.{lookup-insert}
use thor_firewall_smart.ControlPlane.BreakGlass.{
  BreakGlassCommand, BreakGlassActivation, full_lockdown, emergency_block_all, force_allow_all,
  restore_normal, BreakGlassToken, SystemEmergencyState, Crates, apply_command, log_activation,
  debug_command, process_token, freeze_ai,
}

pub apply_command-nonces :
    (cmd : BreakGlassCommand) (s : SystemEmergencyState)
    → (apply_command cmd s).consumed_nonces ≡ s.consumed_nonces
unfolding apply_command
apply_command-nonces freeze_ai s = refl
apply_command-nonces _ s = refl

apply_command-log :
    (cmd : BreakGlassCommand) (s : SystemEmergencyState)
    → (apply_command cmd s).activation_log ≡ s.activation_log
unfolding apply_command
apply_command-log freeze_ai s = refl
apply_command-log _ s = refl

pub insert-IsConsumed :
    (n k : String) (m : Dict String (Unit {0}))
    → contains_key n (insert k tt m) ≡ (if k == n then true else contains_key n m)
insert-IsConsumed n k m = ground (arith, lookup-insert k n tt m)

-- Which flags a command sets.
abbrev pub freezes : BreakGlassCommand → Bool
freezes freeze_ai = true
freezes full_lockdown = true
freezes _ = false

abbrev pub blocks : BreakGlassCommand → Bool
blocks emergency_block_all = true
blocks full_lockdown = true
blocks _ = false

abbrev pub allows : BreakGlassCommand → Bool
allows force_allow_all = true
allows _ = false

-- A flag afterwards: set by the command, or kept unless the command restores normal operation.
abbrev pub flag_after : Bool → BreakGlassCommand → Bool → Bool
flag_after sets restore_normal old = false
flag_after sets _ old = sets || old

-- The effects of a token that is executed: the flags, its nonce, and one entry of the log.
pub record IsExecuted (c : Crates) (now : ℕ) (t : BreakGlassToken) (s d : SystemEmergencyState)
    : Type 0 where
  pub frozen : d.ai_frozen ≡ flag_after (freezes t.command) t.command s.ai_frozen
  pub blocked : d.block_all ≡ flag_after (blocks t.command) t.command s.block_all
  pub allowed : d.allow_all ≡ flag_after (allows t.command) t.command s.allow_all
  pub active :
      d.active
      ≡ flag_after (freezes t.command || blocks t.command || allows t.command) t.command s.active
  pub nonces :
      (n : String)
      → contains_key n d.consumed_nonces
        ≡ (if t.nonce == n then true else contains_key n s.consumed_nonces)
  pub logged :
      (a : BreakGlassActivation) × (d.activation_log ≡ append s.activation_log (a ∷ []))
      × (a.timestamp ≡ now)
      × (a.issued_by ≡ t.issued_by)
      × (a.command ≡ debug_command c t.command)
      × (a.reason ≡ t.reason)

pub process_token-IsExecuted :
    (c : Crates) (now : ℕ) (t : BreakGlassToken) (s : SystemEmergencyState)
    → ltb t.expires_at now ≡ false
    → contains_key t.nonce s.consumed_nonces ≡ false
    → IsExecuted c now t s (process_token c now t s).1
unfolding process_token apply_command log_activation
process_token-IsExecuted c now t s unexpired unused =
    let fresh = record s { consumed_nonces = insert t.nonce tt s.consumed_nonces } in
    let activation : BreakGlassActivation = record {
      timestamp = now;
      issued_by = t.issued_by;
      command = debug_command c t.command;
      reason = t.reason;
    } in
    rw (unexpired, unused)
      record {
        frozen = ground arith;
        blocked = ground arith;
        allowed = ground arith;
        active = ground arith;
        nonces = λ n. ground (
          arith,
          apply_command-nonces t.command fresh,
          insert-IsConsumed n t.nonce s.consumed_nonces,
        );
        logged = (
          activation,
          ap (λ l. append l (activation ∷ [])) (apply_command-log t.command fresh),
          refl,
          refl,
          refl,
          refl,
        );
      }
