-- ===== src/Soar/Response.antt =====
-- crates/thor-agent/src/soar/mod.rs: the response to an alert. Each action is what its text is
-- formatted from. The confidence is an `f32`. The calls of the kernel and of TheHive are parameters;
-- those of the isolator and of the forensics, whose results are not used, are left out.
pub mod Stages
pub mod Suspension
mod Tests
use thor_firewall_smart.Prelude.{
  ℕ, ◌+◌, ◌%◌, ◌^◌, String, Bool, true, false, Option, none, some, List, [], ◌∷◌, ◌++◌,
  if◌then◌else◌, string_eq, Result, ok, err,
}
use thor_firewall_smart.Prelude.Dict.{Dict, insert}
use thor_firewall_smart.Prelude.F64.{F64}
use thor_firewall_smart.Soar.Blocking.{SoarEngine, BlockError, auto_block_ip}
use thor_firewall_smart.Soar.Correlator.{
  Alert, ThreatLevel, critical, high, medium, low, unknown, Buckets, ingest,
}
use thor_firewall_smart.Soar.Suspender.{Signal, SignalError, ProcessSuspender, suspend_process}

-- The further fields of an alert that the response reads.
pub record ScoredAlert (F : Type 0) : Type 0 where
  pub id : String
  pub alert : Alert
  pub confidence_score : F
  pub xai_explanation : Option String
  pub process_name : Option String

pub data Action : Type 0 where
  block_skipped : (reason : BlockError) → Action
  ip_blocked traffic_shaped deep_inspection : (ip : String) → Action
  process_quarantined process_network_isolated : (pid : ℕ) → Action
  era_interdiction era_shaping era_quarantine_hitl_pending era_quarantine : Action
  era_allow_with_telemetry forensics_captured : Action
  thehive_case : (id : String) → Action

pub record Response : Type 0 where
  pub engine : SoarEngine
  pub correlator : Buckets
  pub shaped_ips : Dict String ℕ
  pub inspecting_ips : Dict String Bool
  pub suspender : ProcessSuspender
  pub thehive_url : Option String
  pub total_alerts : ℕ

-- `threat_level == Critical || threat_level == High`
abbrev pub is_severe : ThreatLevel → Bool
is_severe critical = true
is_severe high = true
is_severe medium = false
is_severe low = false
is_severe unknown = false

abbrev pub block_action : String → Result BlockError (Unit {0}) → Action
block_action ip (ok u) = ip_blocked ip
block_action ip (err reason) = block_skipped reason

-- The three stages that act on the source or on the process.
unfoldable pub interdict : ℕ → Option String → Response → List Action × Response
interdict now none s = (era_interdiction ∷ [], s)
interdict now (some ip) s =
    let (result, e) = auto_block_ip now ip s.engine in
    (block_action ip result ∷ era_interdiction ∷ [], record s { engine = e })

unfoldable pub shape : Option String → Response → List Action × Response
shape none s = (era_shaping ∷ [], s)
shape (some ip) s = (
  traffic_shaped ip ∷ era_shaping ∷ [],
  record s { shaped_ips = insert ip 1_000_000 s.shaped_ips },
)

unfoldable pub inspect : Option String → Response → List Action × Response
inspect none s = ([], s)
inspect (some ip) s =
    (deep_inspection ip ∷ [], record s { inspecting_ips = insert ip true s.inspecting_ips })

abbrev pub suspend_actions : ℕ → Result SignalError (Unit {0}) → List Action
suspend_actions pid (ok u) = process_quarantined pid ∷ era_quarantine_hitl_pending ∷ []
suspend_actions pid (err e) = process_network_isolated pid ∷ []

abbrev pub forensics_actions : ThreatLevel → Option ℕ → List Action
forensics_actions level none = []
forensics_actions level (some pid) = if is_severe level then forensics_captured ∷ [] else []

module _ (float : F64) (kill : List (ℕ × Signal) → ℕ → Signal → Bool)
    (create_thehive_alert : String → ScoredAlert float.F → Option String)
    (ml_anomaly_score : float.F → String) where
  abbrev pub explanation : ScoredAlert float.F → String
  explanation a = elim a.xai_explanation [ none ↦ ml_anomaly_score a.confidence_score | some e ↦ e ]

  abbrev pub process_name_of : ScoredAlert float.F → String
  process_name_of a = elim a.process_name [ none ↦ "unknown" | some n ↦ n ]

  unfoldable pub suspend : ℕ → ScoredAlert float.F → Option ℕ → Response → List Action × Response
  suspend now a none s = ([], s)
  suspend now a (some pid) s =
      let (result, p) =
        suspend_process kill now pid a.id (explanation a) (process_name_of a) s.suspender in
      (suspend_actions pid result, record s { suspender = p })

  unfoldable pub quarantine : ℕ → ScoredAlert float.F → Response → List Action × Response
  quarantine now a s =
      let (first, t) = inspect a.alert.src_ip s in
      let (second, u) = suspend now a a.alert.pid t in (first ++ second ++ (era_quarantine ∷ []), u)

  -- The choice by confidence.
  unfoldable pub enforce : ℕ → ScoredAlert float.F → Response → List Action × Response
  enforce now a s =
      if float.le (float.literal 90 2) a.confidence_score
      then interdict now a.alert.src_ip s
      else if float.le (float.literal 70 2) a.confidence_score
      then shape a.alert.src_ip s
      else if float.le (float.literal 50 2) a.confidence_score
      then quarantine now a s
      else (era_allow_with_telemetry ∷ [], s)

  abbrev pub thehive_actions : Option String → ScoredAlert float.F → List Action
  thehive_actions none a = []
  thehive_actions (some url) a = elim (create_thehive_alert url a) [
    | none ↦ []
    | some case_id ↦ thehive_case case_id ∷ []
  ]

  unfoldable pub respond : ℕ → ScoredAlert float.F → Response → List Action × Response
  respond now a s =
      let (actions, t) =
        enforce now a (record s { correlator = ingest now a.alert s.correlator }) in
      (
        actions
            ++ forensics_actions a.alert.threat_level a.alert.pid
            ++ thehive_actions t.thehive_url a,
        record t { total_alerts = (t.total_alerts + 1) % 2 ^ 64 },
      )
