-- ===== src/ControlPlane/Canary.antt =====
-- thor-control-plane/crates/thor-control-server/src/canary_rollout.rs: the rollout controller. The
-- order in which the pool is iterated is that of its entries; instants are milliseconds.
pub mod Metrics
pub mod Pool
pub mod Phases
pub mod Stable
mod Tests
use Prim.Native.String.{◌++◌}
use thor_firewall_smart.Prelude.{
  ℕ, suc, ◌-◌, ◌*◌, String, Bool, true, false, Option, none, some, List, [], ◌∷◌, length, drop,
  take, filterb, ltb, leb, if◌then◌else◌, contains, string_eq, nat_eq, ◌==◌,
}
use thor_firewall_smart.Prelude.Dict.{Dict, lookup, lookup_or, insert, contains_key}
use thor_firewall_smart.Prelude.F64.{F64}

abbrev pub observation_window : ℕ
observation_window = 300 * 1000

abbrev pub min_sample_size : ℕ
min_sample_size = 20

pub data RolloutPhase : Type 0 where
  idle : RolloutPhase
  canary : RolloutPhase
  early : RolloutPhase
  rollout : RolloutPhase
  full : RolloutPhase
  rolled_back : (reason : String) → RolloutPhase

pub record PolicyVersion : Type 0 where
  pub version : ℕ
  pub policy_type : String
  pub rule_id : String
  pub content : String

pub record AgentMetrics : Type 0 where
  pub alert_outcomes : List Bool

abbrev pub new_metrics : AgentMetrics
new_metrics = record { alert_outcomes = [] }

unfoldable pub push_back : List Bool → Bool → List Bool
push_back [] b = b ∷ []
push_back (c ∷ cs) b = c ∷ push_back cs b

-- `record`
unfoldable pub record_outcome : Bool → AgentMetrics → AgentMetrics
record_outcome is_false_positive m = record {
  alert_outcomes =
      push_back
        (if leb 200 (length m.alert_outcomes) then drop 1 m.alert_outcomes else m.alert_outcomes)
        is_false_positive;
}

pub record Controller : Type 0 where
  pub current_phase : RolloutPhase
  pub new_policy : Option PolicyVersion
  pub stable_policy : Option PolicyVersion
  pub canary_agents : Dict String (Unit {0})
  pub agent_metrics : Dict String AgentMetrics
  pub all_agents : List String
  pub phase_started_at : ℕ

abbrev pub new_controller : ℕ → Controller
new_controller now = record {
  current_phase = idle;
  new_policy = none;
  stable_policy = none;
  canary_agents = [];
  agent_metrics = [];
  all_agents = [];
  phase_started_at = now;
}

unfoldable pub add_agent : String → List String → List String
add_agent id [] = id ∷ []
add_agent id (a ∷ agents) = a ∷ add_agent id agents

unfoldable pub register_agent : String → Controller → Controller
register_agent id c = record c {
  all_agents = if contains c.all_agents id then c.all_agents else add_agent id c.all_agents;
  agent_metrics =
      if contains_key id c.agent_metrics
      then c.agent_metrics
      else insert id new_metrics c.agent_metrics;
}

unfoldable pub record_alert_outcome : String → Bool → Controller → Controller
record_alert_outcome id is_false_positive c = elim (lookup id c.agent_metrics) [
  | none ↦ c
  | some m ↦ record c {
    agent_metrics = insert id (record_outcome is_false_positive m) c.agent_metrics;
  }
]

abbrev pub is_canary_agent : String → Controller → Bool
is_canary_agent id c = contains_key id c.canary_agents

-- The loop that inserts each agent into the pool.
unfoldable pub insert_all : List String → Dict String (Unit {0}) → Dict String (Unit {0})
insert_all [] pool = pool
insert_all (id ∷ ids) pool = insert_all ids (insert id tt pool)

module _ (float : F64) where
  abbrev pub fpr_rollback_threshold : float.F
  fpr_rollback_threshold = float.literal 5 2

  abbrev pub zero_rate : float.F
  zero_rate = float.literal 0 0

  unfoldable pub fpr : AgentMetrics → float.F
  fpr m =
      if ltb (length m.alert_outcomes) min_sample_size
      then zero_rate
      else float.div (float.of_ℕ (length (filterb (λ x. x) m.alert_outcomes)))
          (float.of_ℕ (length m.alert_outcomes))

  -- The sum over the pool's agents that have metrics, from a starting value.
  unfoldable pub sum_fpr : Dict String (Unit {0}) → Dict String AgentMetrics → float.F → float.F
  sum_fpr [] metrics total = total
  sum_fpr ((id, u) ∷ pool) metrics total = elim (lookup id metrics) [
    | none ↦ sum_fpr pool metrics total
    | some m ↦ sum_fpr pool metrics (float.add total (fpr m))
  ]

  unfoldable pub calculate_canary_fpr : Controller → float.F
  calculate_canary_fpr c = elim c.canary_agents [
    | [] ↦ zero_rate
    | a ∷ rest ↦
        float.div (sum_fpr c.canary_agents c.agent_metrics zero_rate)
          (float.of_ℕ (length c.canary_agents))
  ]

  -- The phase that follows, and its share of the agents.
  unfoldable pub next_phase : RolloutPhase → Option (RolloutPhase × float.F)
  next_phase canary = some (early, float.literal 10 2)
  next_phase early = some (rollout, float.literal 50 2)
  next_phase rollout = some (full, float.literal 100 2)
  next_phase idle = none
  next_phase full = none
  next_phase (rolled_back reason) = none

  abbrev pub target_count : ℕ → float.F → ℕ
  target_count n fraction = float.to_usize (float.ceil (float.mul (float.of_ℕ n) fraction))

  -- What is done with the outcome of the `match` on the phase.
  unfoldable pub advance_to :
      ℕ → Controller → Option (RolloutPhase × float.F) → RolloutPhase × Controller
  advance_to now c none = (c.current_phase, c)
  advance_to now c (some (phase, fraction)) = (
    phase,
    record c {
      canary_agents =
          insert_all (take (target_count (length c.all_agents) fraction) c.all_agents) [];
      current_phase = phase;
      phase_started_at = now;
    },
  )

  unfoldable pub advance_phase : ℕ → Controller → RolloutPhase × Controller
  advance_phase now c =
      if length c.all_agents == 0 then (idle, c) else advance_to now c (next_phase c.current_phase)

  abbrev pub canary_count : ℕ → ℕ
  canary_count n =
      float.to_usize (float.max (float.mul (float.of_ℕ n) (float.literal 1 2)) (float.literal 1 0))

  unfoldable pub apply_canary_phase : Controller → Controller
  apply_canary_phase c = record c {
    canary_agents = insert_all (take (canary_count (length c.all_agents)) c.all_agents) [];
  }

  unfoldable pub begin_rollout : ℕ → PolicyVersion → Controller → Controller
  begin_rollout now policy c = apply_canary_phase (record c {
    stable_policy = c.new_policy;
    new_policy = some policy;
    current_phase = canary;
    phase_started_at = now;
  })

  unfoldable pub rollback : String → Controller → RolloutPhase × Controller
  rollback reason c =
      (rolled_back reason, record c { canary_agents = []; current_phase = rolled_back reason })

  abbrev pub percent : float.F → String
  percent x = float.one_decimal (float.mul x (float.literal 100 0))

  -- What the monitoring does in a phase that is under way.
  unfoldable pub monitor : ℕ → Controller → RolloutPhase × Controller
  monitor now c =
      let rate = calculate_canary_fpr c in
      if float.lt fpr_rollback_threshold rate
      then rollback
          ("FPR " ++ percent rate ++ "% > threshold " ++ percent fpr_rollback_threshold ++ "%") c
      else if ltb (now - c.phase_started_at) observation_window
      then (c.current_phase, c)
      else advance_phase now c

  -- The phases in which `tick` returns at once.
  abbrev pub is_settled : RolloutPhase → Bool
  is_settled idle = true
  is_settled full = true
  is_settled (rolled_back reason) = true
  is_settled canary = false
  is_settled early = false
  is_settled rollout = false

  unfoldable pub tick : ℕ → Controller → RolloutPhase × Controller
  tick now c = if is_settled c.current_phase then (c.current_phase, c) else monitor now c
