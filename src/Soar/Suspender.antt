-- ===== src/Soar/Suspender.antt =====
-- crates/thor-agent/src/soar/isolation.rs: suspended processes and their registry. Whether a signal
-- can be sent is the kernel's: a parameter that sees the signals sent so far, the last one first.
pub mod Tracked
mod Tests
use thor_firewall_smart.Prelude.{
  ℕ, String, Bool, true, false, Option, none, some, List, [], ◌∷◌, if◌then◌else◌, nat_eq, map,
  Result, ok, err,
}
use thor_firewall_smart.Prelude.Dict.{Dict, lookup, insert, remove}

pub data Signal : Type 0 where
  sigstop sigcont sigterm sigkill : Signal

pub record QuarantineEntry : Type 0 where
  pub pid : ℕ
  pub suspended_at : ℕ
  pub alert_id : String
  pub xai_explanation : String
  pub process_name : String
  pub is_network_isolated : Bool

-- The registry, and the signals that were sent.
pub record ProcessSuspender : Type 0 where
  pub active_quarantines : Dict ℕ QuarantineEntry
  pub sent : List (ℕ × Signal)

abbrev pub new_suspender : ProcessSuspender
new_suspender = record { active_quarantines = []; sent = [] }

-- What the message of an error is formatted from.
pub data SignalError : Type 0 where
  signal_failed : (signal : Signal) (pid : ℕ) → SignalError

unfoldable pub get_quarantine : ℕ → ProcessSuspender → Option QuarantineEntry
get_quarantine pid p = lookup pid p.active_quarantines

unfoldable pub list_quarantined : ProcessSuspender → List QuarantineEntry
list_quarantined p = map (λ e. e.1) p.active_quarantines

unfoldable pub mark_network_isolated : ℕ → ProcessSuspender → ProcessSuspender
mark_network_isolated pid p = elim (lookup pid p.active_quarantines) [
  | none ↦ p
  | some e ↦ record p {
    active_quarantines = insert pid (record e { is_network_isolated = true }) p.active_quarantines;
  }
]

module _ (kill : List (ℕ × Signal) → ℕ → Signal → Bool) where
  unfoldable pub suspend_process :
      ℕ
      → ℕ
      → (alert_id xai_explanation process_name : String) → ProcessSuspender
      → Result SignalError (Unit {0}) × ProcessSuspender
  suspend_process now pid alert_id xai_explanation process_name p =
      if kill p.sent pid sigstop
      then (
        ok tt,
        record {
          sent = (pid, sigstop) ∷ p.sent;
          active_quarantines =
              insert pid
                (record {
                  pid = pid;
                  suspended_at = now;
                  alert_id = alert_id;
                  xai_explanation = xai_explanation;
                  process_name = process_name;
                  is_network_isolated = false;
                })
                p.active_quarantines;
        },
      )
      else (err (signal_failed sigstop pid), p)

  unfoldable pub resume_process :
      ℕ → ProcessSuspender → Result SignalError (Unit {0}) × ProcessSuspender
  resume_process pid p =
      if kill p.sent pid sigcont
      then (
        ok tt,
        record {
          sent = (pid, sigcont) ∷ p.sent;
          active_quarantines = remove pid p.active_quarantines;
        },
      )
      else (err (signal_failed sigcont pid), p)

  -- The first signal may fail.
  unfoldable pub terminate_process :
      ℕ → ProcessSuspender → Result SignalError (Unit {0}) × ProcessSuspender
  terminate_process pid p =
      let sent = if kill p.sent pid sigterm then (pid, sigterm) ∷ p.sent else p.sent in
      if kill sent pid sigkill
      then (
        ok tt,
        record {
          sent = (pid, sigkill) ∷ sent;
          active_quarantines = remove pid p.active_quarantines;
        },
      )
      else (err (signal_failed sigkill pid), record p { sent = sent })
