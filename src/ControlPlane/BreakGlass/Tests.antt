-- ===== src/ControlPlane/BreakGlass/Tests.antt =====
-- thor-control-plane/crates/thor-control-server/src/break_glass.rs: tests, with a toy signature and
-- a toy encoding.
use thor_firewall_smart.Prelude.{
  ℕ, ◌≡◌, refl, ◌≢◌, Bool, true, false, Option, none, some, List, [], ◌∷◌, ok, err, string_eq,
}
use thor_firewall_smart.Prelude.Dict.{lookup, insert}
use thor_firewall_smart.ControlPlane.BreakGlass.{
  BreakGlassToken, SystemEmergencyState, Crates, full_lockdown, restore_normal, replay_attack, new,
  process, process_all, log_activation, apply_command,
}
use thor_firewall_smart.ControlPlane.BreakGlass.Flags.{IsCoherent, process_all-new-IsCoherent}
use thor_firewall_smart.ControlPlane.BreakGlass.Replay.{process-refused, process_once}

abbrev lockdown : BreakGlassToken
lockdown = record {
  issued_at = 100;
  expires_at = 700;
  issued_by = "CISO";
  command = full_lockdown;
  target_scope = "global";
  reason = "drill";
  nonce = "n1";
}

abbrev restore : BreakGlassToken
restore = record lockdown { command = restore_normal; nonce = "n2" }

-- A message of one byte is a lockdown, a longer one restores.
abbrev decode : List ℕ → Option BreakGlassToken
decode [] = none
decode (x ∷ []) = some lockdown
decode (x ∷ y ∷ r) = some restore

abbrev signed : List ℕ → List ℕ → Bool
signed j [] = false
signed j (x ∷ r) = true

abbrev toy : Crates
toy = record { verify = signed; from_slice = decode; debug_str = λ s. s }

abbrev locked : SystemEmergencyState
locked = (process toy 200 (1 ∷ []) (9 ∷ []) new).1

replayed : (process toy 300 (1 ∷ []) (9 ∷ []) locked).0 ≡ err replay_attack
unfolding process lookup insert apply_command log_activation
replayed = refl

restored : (process toy 300 (1 ∷ 1 ∷ []) (9 ∷ []) locked).0 ≡ ok restore_normal
unfolding process lookup insert apply_command log_activation
restored = refl

process_all-new-IsCoherent_example :
    IsCoherent (process_all toy ((200, 1 ∷ [], 9 ∷ []) ∷ (300, 1 ∷ 1 ∷ [], 9 ∷ []) ∷ []) new)
process_all-new-IsCoherent_example =
    process_all-new-IsCoherent toy ((200, 1 ∷ [], 9 ∷ []) ∷ (300, 1 ∷ 1 ∷ [], 9 ∷ []) ∷ [])

process-refused_example : (process toy 300 (1 ∷ []) (9 ∷ []) locked).1 ≡ locked
process-refused_example = process-refused toy 300 (1 ∷ []) (9 ∷ []) locked replay_attack replayed

process_once_example :
    (process toy 400 (2 ∷ []) (8 ∷ []) (process_all toy ((300, 1 ∷ 1 ∷ [], 9 ∷ []) ∷ []) locked)).0
    ≢ ok full_lockdown
unfolding process lookup
process_once_example =
    process_once toy 200 400 (1 ∷ []) (9 ∷ []) (2 ∷ []) (8 ∷ []) lockdown lockdown full_lockdown
      full_lockdown new ((300, 1 ∷ 1 ∷ [], 9 ∷ []) ∷ []) refl refl refl refl
