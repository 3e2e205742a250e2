-- ===== src/ControlPlane/Canary/Pool.antt =====
-- canary_rollout.rs: which agents run the new policy.
use thor_firewall_smart.Prelude.{
  ℕ, zero, suc, ◌≡◌, refl, String, Bool, true, false, ◌||◌, Option, none, some, List, [], ◌∷◌,
  arith, length, take, ltb, ◌-◌, nat_eq, contains, string_eq, ◌==◌, Bool-cases, Option-cases, inl,
  inr, eq_iff,
}
use thor_firewall_smart.Prelude.Dict.{Dict, lookup, insert, contains_key}
use thor_firewall_smart.Prelude.Dict.Laws.{lookup-insert}
use thor_firewall_smart.Prelude.F64.{F64}
use thor_firewall_smart.ControlPlane.Canary.{
  RolloutPhase, idle, rolled_back, PolicyVersion, Controller, new_controller, add_agent,
  register_agent, record_alert_outcome, is_canary_agent, insert_all, next_phase, advance_phase,
  advance_to, is_settled, apply_canary_phase, begin_rollout, rollback, monitor, tick,
  observation_window, calculate_canary_fpr, fpr_rollback_threshold, canary_count, target_count,
}

contains_key-insert :
    (at key : String) (m : Dict String (Unit {0}))
    → contains_key key (insert at tt m) ≡ (at == key || contains_key key m)
contains_key-insert at key m = ground (arith, lookup-insert at key tt m)

pub contains_key-insert_all :
    (key : String) (ids : List String) (pool : Dict String (Unit {0}))
    → contains_key key (insert_all ids pool) ≡ (contains ids key || contains_key key pool)
unfolding insert_all contains
contains_key-insert_all key [] pool = refl
contains_key-insert_all key (id ∷ ids) pool = ground (
  arith,
  contains_key-insert_all key ids (insert id tt pool),
  contains_key-insert id key pool,
  eq_iff id key,
  eq_iff key id,
)

contains-take :
    (key : String) (n : ℕ) (ids : List String)
    → contains (take n ids) key ≡ true
    → contains ids key ≡ true
unfolding contains
contains-take key zero ids h = ground arith
contains-take key (suc n) [] h = ground arith
contains-take key (suc n) (id ∷ ids) h = ground (arith, contains-take key n ids)

pub contains-add_agent :
    (id key : String) (ids : List String)
    → contains (add_agent id ids) key ≡ (key == id || contains ids key)
unfolding contains add_agent
contains-add_agent id key [] = refl
contains-add_agent id key (a ∷ ids) = ground (arith, contains-add_agent id key ids)

-- A phase in which some agents run the new policy.
abbrev pub is_underway : RolloutPhase → Bool
is_underway idle = false
is_underway (rolled_back reason) = false
is_underway _ = true

-- Only registered agents are in the pool, and none before a rollout or after a rollback.
pub record IsCoherent (c : Controller) : Type 0 where
  pub registered : (id : String) → is_canary_agent id c ≡ true → contains c.all_agents id ≡ true
  pub idle_lem : is_underway c.current_phase ≡ false → c.canary_agents ≡ []

module _ (float : F64) where
  pub data Step : Controller → Controller → Type 0 where
    registered : (id : String) (c : Controller) → Step c (register_agent id c)
    begun : (now : ℕ) (p : PolicyVersion) (c : Controller) → Step c (begin_rollout float now p c)
    ticked : (now : ℕ) (c : Controller) → Step c (tick float now c).1
    recorded :
        (id : String) (is_false_positive : Bool) (c : Controller)
        → Step c (record_alert_outcome id is_false_positive c)

  pub data Reaches (start : Controller) : Controller → Type 0 where
    started : Reaches start start
    stepped : {c d : Controller} → Reaches start c → Step c d → Reaches start d

  register_agent-IsCoherent :
      (id : String) (c : Controller) → IsCoherent c → IsCoherent (register_agent id c)
  unfolding register_agent
  register_agent-IsCoherent id c h = record {
    registered =
        λ key k. ground (arith, h.registered key k, contains-add_agent id key c.all_agents);
    idle_lem = h.idle_lem;
  }

  taken-registered :
      (n : ℕ) (c : Controller) (id : String)
      → contains_key id (insert_all (take n c.all_agents) []) ≡ true
      → contains c.all_agents id ≡ true
  unfolding lookup
  taken-registered n c id h =
      contains-take id n c.all_agents
        (ground (arith, contains_key-insert_all id (take n c.all_agents) [], h))

  begin_rollout-IsCoherent :
      (now : ℕ) (p : PolicyVersion) (c : Controller) → IsCoherent (begin_rollout float now p c)
  unfolding begin_rollout apply_canary_phase
  begin_rollout-IsCoherent now p c = record {
    registered = taken-registered (canary_count float (length c.all_agents)) c;
    idle_lem = λ e. ground arith;
  }

  next_phase-is_underway :
      (phase next : RolloutPhase) (fraction : float.F)
      → next_phase float phase ≡ some (next, fraction)
      → is_underway next ≡ true
  unfolding next_phase
  next_phase-is_underway phase next fraction h = ground arith

  advance_to-IsCoherent :
      (now : ℕ) (c : Controller) (o : Option (RolloutPhase × float.F))
      → next_phase float c.current_phase ≡ o
      → IsCoherent c
      → IsCoherent (advance_to float now c o).1
  unfolding advance_to
  advance_to-IsCoherent now c none e h = h
  advance_to-IsCoherent now c (some (phase, fraction)) e h = record {
    registered = taken-registered (target_count float (length c.all_agents) fraction) c;
    idle_lem = λ stopped.
        absurd (ground (arith, stopped, next_phase-is_underway c.current_phase phase fraction e));
  }

  advance_phase-IsCoherent :
      (now : ℕ) (c : Controller) → IsCoherent c → IsCoherent (advance_phase float now c).1
  unfolding advance_phase
  advance_phase-IsCoherent now c h = elim (Bool-cases (length c.all_agents == 0)) [
    | inl nobody ↦ rw nobody h
    | inr some_agents ↦
        rw some_agents (advance_to-IsCoherent now c (next_phase float c.current_phase) refl h)
  ]

  monitor-IsCoherent :
      (now : ℕ) (c : Controller) → IsCoherent c → IsCoherent (monitor float now c).1
  unfolding monitor rollback lookup
  monitor-IsCoherent now c h =
      elim (Bool-cases (float.lt (fpr_rollback_threshold float) (calculate_canary_fpr float c))) [
        | inl over ↦
            rw over record { registered = λ id k. absurd (ground (arith, k)); idle_lem = λ e. refl }
        | inr fine ↦ elim (Bool-cases (ltb (now - c.phase_started_at) observation_window)) [
          | inl waiting ↦ rw (fine, waiting) h
          | inr waited ↦ rw (fine, waited) (advance_phase-IsCoherent now c h)
        ]
      ]

  tick-IsCoherent : (now : ℕ) (c : Controller) → IsCoherent c → IsCoherent (tick float now c).1
  unfolding tick
  tick-IsCoherent now c h = elim (Bool-cases (is_settled float c.current_phase)) [
    | inl settled ↦ rw settled h
    | inr going ↦ rw going (monitor-IsCoherent now c h)
  ]

  record_alert_outcome-IsCoherent :
      (id : String) (b : Bool) (c : Controller)
      → IsCoherent c
      → IsCoherent (record_alert_outcome id b c)
  unfolding record_alert_outcome
  record_alert_outcome-IsCoherent id b c h = elim (Option-cases (lookup id c.agent_metrics)) [
    | inl e ↦ rw (record_alert_outcome, e) h
    | inr (m, e) ↦
        rw (record_alert_outcome, e) record { registered = h.registered; idle_lem = h.idle_lem }
  ]

  Step-IsCoherent : {c d : Controller} → Step c d → IsCoherent c → IsCoherent d
  Step-IsCoherent (registered id c) h = register_agent-IsCoherent id c h
  Step-IsCoherent (begun now p c) h = begin_rollout-IsCoherent now p c
  Step-IsCoherent (ticked now c) h = tick-IsCoherent now c h
  Step-IsCoherent (recorded id b c) h = record_alert_outcome-IsCoherent id b c h

  -- After any calls on a new controller, only registered agents run the new policy, and none does
  -- before the first rollout or after a rollback.
  pub Reaches-IsCoherent :
      {now : ℕ} {c : Controller} → Reaches (new_controller now) c → IsCoherent c
  unfolding lookup
  Reaches-IsCoherent started = record {
    registered = λ id k. absurd (ground (arith, k));
    idle_lem = λ e. refl;
  }
  Reaches-IsCoherent (stepped before step) = Step-IsCoherent step (Reaches-IsCoherent before)
