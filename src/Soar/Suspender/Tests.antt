-- ===== src/Soar/Suspender/Tests.antt =====
-- soar/isolation.rs: one process that is suspended, marked and resumed, and one that is ended.
use thor_firewall_smart.Prelude.{ℕ, Bool, true, List}
use thor_firewall_smart.Soar.Suspender.{
  Signal, ProcessSuspender, new_suspender, suspend_process, resume_process, terminate_process,
  mark_network_isolated,
}
use thor_firewall_smart.Soar.Suspender.Tracked.{
  suspended, resumed, terminated, marked, started, stepped, IsTracked, Reaches-IsTracked,
}

abbrev allowed : List (ℕ × Signal) → ℕ → Signal → Bool
allowed sent pid s = true

abbrev both_suspended : ProcessSuspender
both_suspended =
    (suspend_process allowed 6 43 "a2" "x" "sh"
      (mark_network_isolated 42 (suspend_process allowed 5 42 "a1" "x" "sh" new_suspender).1)).1

Reaches-IsTracked_example :
    IsTracked (terminate_process allowed 43 (resume_process allowed 42 both_suspended).1).1
Reaches-IsTracked_example = Reaches-IsTracked allowed (
    stepped
      (stepped
        (stepped (stepped (stepped started (suspended 5 42 "a1" "x" "sh" _)) (marked 42 _))
          (suspended 6 43 "a2" "x" "sh" _))
        (resumed 42 _))
      (terminated 43 _))
