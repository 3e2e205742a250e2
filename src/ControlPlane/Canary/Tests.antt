-- ===== src/ControlPlane/Canary/Tests.antt =====
-- canary_rollout.rs with three agents and thousandths for `f64`.
use thor_firewall_smart.Prelude.{ℕ, zero, suc, ◌≡◌, true, none, some, List, [], ◌∷◌, string_eq}
use thor_firewall_smart.Prelude.F64.Toy.{thousandths}
use thor_firewall_smart.ControlPlane.Canary.{
  RolloutPhase, rollout, PolicyVersion, Controller, new_controller, new_metrics, register_agent,
  begin_rollout, tick,
}
use thor_firewall_smart.ControlPlane.Canary.Pool.{
  registered, begun, ticked, started, stepped, IsCoherent, Reaches-IsCoherent,
}
use thor_firewall_smart.ControlPlane.Canary.Phases.{TickOutcome, tick-outcome}
use thor_firewall_smart.ControlPlane.Canary.Stable.{
  Event, outcome_recorded, run, begin_rollout-stable,
}

abbrev policy : ℕ → PolicyVersion
policy v = record { version = v; policy_type = "SIGMA"; rule_id = "rule"; content = "content" }

-- A controller of three agents in a given phase that began at 0.
abbrev in_phase : RolloutPhase → Controller
in_phase p = record {
  current_phase = p;
  new_policy = some (policy 2);
  stable_policy = some (policy 1);
  canary_agents = ("a", tt) ∷ [];
  agent_metrics = ("a", new_metrics) ∷ ("b", new_metrics) ∷ ("c", new_metrics) ∷ [];
  all_agents = "a" ∷ "b" ∷ "c" ∷ [];
  phase_started_at = 0;
}

Reaches-IsCoherent_example :
    IsCoherent
      (tick thousandths 400000
        (begin_rollout thousandths 5 (policy 1) (register_agent "a" (new_controller 0)))).1
Reaches-IsCoherent_example = Reaches-IsCoherent thousandths (
    stepped (stepped (stepped started (registered "a" (new_controller 0))) (begun 5 (policy 1) _))
      (ticked 400000 _))

tick-outcome_example :
    TickOutcome thousandths 400000 (in_phase rollout) (tick thousandths 400000 (in_phase rollout)).1
tick-outcome_example = tick-outcome thousandths 400000 (in_phase rollout)

-- Twenty false positives of the one agent, and the tick that rolls back.
abbrev false_alarms : ℕ → List (Event thousandths)
false_alarms zero = Event.ticked 10 ∷ []
false_alarms (suc n) = outcome_recorded "a" true ∷ false_alarms n

begin_rollout-stable_example :
    let start = register_agent "a" (new_controller 0) in
    let rolled = run thousandths (false_alarms 20) (begin_rollout thousandths 5 (policy 1) start) in
    let d = begin_rollout thousandths 20 (policy 2) rolled in
    (rolled.stable_policy ≡ none)
    × (d.stable_policy ≡ some (policy 1))
    × (d.new_policy ≡ some (policy 2))
unfolding register_agent
begin_rollout-stable_example =
    begin_rollout-stable thousandths 5 20 (policy 1) (policy 2) (false_alarms 20)
      (register_agent "a" (new_controller 0))
