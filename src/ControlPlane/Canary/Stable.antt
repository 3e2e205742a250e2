-- ===== src/ControlPlane/Canary/Stable.antt =====
-- canary_rollout.rs: which policy a rollback goes back to.
use thor_firewall_smart.Prelude.{
  ℕ, ◌≡◌, refl, String, Option, none, some, List, [], ◌∷◌, Bool, ◌∙◌, Bool-cases, Option-cases, inl,
  inr, ltb, ◌-◌, length, ◌==◌, nat_eq, string_eq,
}
use thor_firewall_smart.Prelude.Dict.{lookup}
use thor_firewall_smart.Prelude.F64.{F64}
use thor_firewall_smart.ControlPlane.Canary.{
  RolloutPhase, PolicyVersion, Controller, begin_rollout, apply_canary_phase, tick, monitor,
  rollback, advance_phase, advance_to, is_settled, register_agent, record_alert_outcome,
  calculate_canary_fpr, fpr_rollback_threshold, observation_window, next_phase,
}

module _ (float : F64) where
  -- What happens between two rollouts.
  pub data Event : Type 0 where
    agent_registered : (id : String) → Event
    ticked : (now : ℕ) → Event
    outcome_recorded : (id : String) (is_false_positive : Bool) → Event

  abbrev pub run : List Event → Controller → Controller
  run [] c = c
  run (agent_registered id ∷ es) c = run es (register_agent id c)
  run (ticked now ∷ es) c = run es (tick float now c).1
  run (outcome_recorded id b ∷ es) c = run es (record_alert_outcome id b c)

  abbrev pub SamePolicies : Controller → Controller → Type 0
  SamePolicies c d = (d.new_policy ≡ c.new_policy) × (d.stable_policy ≡ c.stable_policy)

  advance_to-policies :
      (now : ℕ) (c : Controller) (o : Option (RolloutPhase × float.F))
      → SamePolicies c (advance_to float now c o).1
  unfolding advance_to
  advance_to-policies now c none = (refl, refl)
  advance_to-policies now c (some (phase, fraction)) = (refl, refl)

  tick-policies : (now : ℕ) (c : Controller) → SamePolicies c (tick float now c).1
  unfolding tick monitor rollback advance_phase
  tick-policies now c = elim (Bool-cases (is_settled float c.current_phase)) [
    | inl settled ↦ rw settled (refl, refl)
    | inr going ↦
        elim (Bool-cases (float.lt (fpr_rollback_threshold float) (calculate_canary_fpr float c))) [
          | inl over ↦ rw (going, over) (refl, refl)
          | inr fine ↦ elim (Bool-cases (ltb (now - c.phase_started_at) observation_window)) [
            | inl waiting ↦ rw (going, fine, waiting) (refl, refl)
            | inr waited ↦ elim (Bool-cases (length c.all_agents == 0)) [
              | inl nobody ↦ rw (going, fine, waited, nobody) (refl, refl)
              | inr agents ↦
                  rw (going, fine, waited, agents)
                    (advance_to-policies now c (next_phase float c.current_phase))
            ]
          ]
        ]
  ]

  record_alert_outcome-policies :
      (id : String) (b : Bool) (c : Controller) → SamePolicies c (record_alert_outcome id b c)
  unfolding record_alert_outcome
  record_alert_outcome-policies id b c = elim (Option-cases (lookup id c.agent_metrics)) [
    | inl e ↦ rw (record_alert_outcome, e) (refl, refl)
    | inr (m, e) ↦ rw (record_alert_outcome, e) (refl, refl)
  ]

  run-policies : (es : List Event) (c : Controller) → SamePolicies c (run es c)
  unfolding register_agent
  run-policies [] c = (refl, refl)
  run-policies (agent_registered id ∷ es) c = run-policies es (register_agent id c)
  run-policies (ticked now ∷ es) c =
      let (a, b) = run-policies es (tick float now c).1 in
      let (x, y) = tick-policies now c in (a ∙ x, b ∙ y)
  run-policies (outcome_recorded id o ∷ es) c =
      let (a, b) = run-policies es (record_alert_outcome id o c) in
      let (x, y) = record_alert_outcome-policies id o c in (a ∙ x, b ∙ y)

  -- A policy is the one to go back to in the next rollout even if it was itself rolled back: with
  -- any events in between, the policy of one rollout is the stable policy of the next.
  pub begin_rollout-stable :
      (now later : ℕ) (first second : PolicyVersion) (es : List Event) (c : Controller)
      → let rolled = run es (begin_rollout float now first c) in
        let d = begin_rollout float later second rolled in
        (rolled.stable_policy ≡ c.new_policy)
        × (d.stable_policy ≡ some first)
        × (d.new_policy ≡ some second)
  unfolding begin_rollout apply_canary_phase
  begin_rollout-stable now later first second es c =
      let (same_new, same_stable) = run-policies es (begin_rollout float now first c) in
      (same_stable, same_new, refl)
