-- ===== src/ControlPlane/BreakGlass.antt =====
-- thor-control-plane/crates/thor-control-server/src/break_glass.rs: signed emergency commands.
-- Signatures, JSON and the debug form of a string come from crates: they are the parameter `Crates`.
-- The clock is an argument, in seconds since the epoch. One call of `process` runs at a time.
pub mod Executed
pub mod Replay
pub mod Flags
pub mod Scope
mod Tests
use thor_firewall_smart.Prelude.{
  ℕ, String, Bool, true, false, Option, none, some, List, [], ◌∷◌, ltb, if◌then◌else◌, Result, ok,
  err, string_eq,
}
use thor_firewall_smart.Prelude.Dict.{Dict, insert, contains_key}
use Prim.Native.String.{◌++◌}
use mathlib.Core.List.{◌++◌ as append}

pub data BreakGlassCommand : Type 0 where
  freeze_ai force_allow_all emergency_block_all full_lockdown restore_normal : BreakGlassCommand
  revoke_agent : String → BreakGlassCommand

pub record BreakGlassToken : Type 0 where
  pub issued_at : ℕ
  pub expires_at : ℕ
  pub issued_by : String
  pub command : BreakGlassCommand
  pub target_scope : String
  pub reason : String
  pub nonce : String

pub record BreakGlassActivation : Type 0 where
  pub timestamp : ℕ
  pub issued_by : String
  pub command : String
  pub reason : String

pub record SystemEmergencyState : Type 0 where
  pub active : Bool
  pub ai_frozen : Bool
  pub block_all : Bool
  pub allow_all : Bool
  pub consumed_nonces : Dict String (Unit {0})
  pub activation_log : List BreakGlassActivation

pub data BreakGlassError : Type 0 where
  invalid_signature token_expired malformed_token replay_attack : BreakGlassError

-- ed25519_dalek under the distributed key, serde_json, and `{:?}` of a string.
pub record Crates : Type 0 where
  pub verify : List ℕ → List ℕ → Bool
  pub from_slice : List ℕ → Option BreakGlassToken
  pub debug_str : String → String

abbrev pub new : SystemEmergencyState
new = record {
  active = false;
  ai_frozen = false;
  block_all = false;
  allow_all = false;
  consumed_nonces = [];
  activation_log = [];
}

unfoldable pub apply_command : BreakGlassCommand → SystemEmergencyState → SystemEmergencyState
apply_command freeze_ai s = record s { ai_frozen = true; active = true }
apply_command emergency_block_all s = record s { block_all = true; active = true }
apply_command force_allow_all s = record s { allow_all = true; active = true }
apply_command full_lockdown s = record s { ai_frozen = true; block_all = true; active = true }
apply_command (revoke_agent agent_id) s = s
apply_command restore_normal s = record s {
  ai_frozen = false;
  block_all = false;
  allow_all = false;
  active = false;
}

module _ (c : Crates) where
  -- `format!("{:?}", token.command)`
  pub debug_command : BreakGlassCommand → String
  debug_command freeze_ai = "FreezeAi"
  debug_command force_allow_all = "ForceAllowAll"
  debug_command emergency_block_all = "EmergencyBlockAll"
  debug_command full_lockdown = "FullLockdown"
  debug_command (revoke_agent agent_id) = "RevokeAgent { agent_id: " ++ c.debug_str agent_id ++ " }"
  debug_command restore_normal = "RestoreNormal"

  pub log_activation : ℕ → BreakGlassToken → SystemEmergencyState → SystemEmergencyState
  log_activation now t s = record s { activation_log = append s.activation_log (activation ∷ []) }
    where
      activation : BreakGlassActivation
      activation = record {
        timestamp = now;
        issued_by = t.issued_by;
        command = debug_command t.command;
        reason = t.reason;
      }

  -- Steps 3 to 6: expiry, replay, execution and the log.
  unfoldable pub process_token :
      ℕ
      → BreakGlassToken
      → SystemEmergencyState
      → Result BreakGlassError BreakGlassCommand × SystemEmergencyState
  process_token now t s =
      if ltb t.expires_at now
      then (err token_expired, s)
      else if contains_key t.nonce s.consumed_nonces
      then (err replay_attack, s)
      else (
        ok t.command,
        log_activation now t (
            apply_command t.command
              (record s { consumed_nonces = insert t.nonce tt s.consumed_nonces })),
      )

  unfoldable pub process :
      ℕ
      → List ℕ
      → List ℕ
      → SystemEmergencyState
      → Result BreakGlassError BreakGlassCommand × SystemEmergencyState
  unfolding process_token
  process now token_json signature s =
      if c.verify token_json signature
      then elim (c.from_slice token_json) [
        | none ↦ (err malformed_token, s)
        | some t ↦ process_token now t s
      ]
      else (err invalid_signature, s)

  -- A history of calls: the clock, the message and the signature of each.
  unfoldable pub process_all :
      List (ℕ × List ℕ × List ℕ) → SystemEmergencyState → SystemEmergencyState
  process_all [] s = s
  process_all ((now, token_json, signature) ∷ calls) s =
      process_all calls (process now token_json signature s).1
