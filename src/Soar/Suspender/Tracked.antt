-- ===== src/Soar/Suspender/Tracked.antt =====
-- soar/isolation.rs: the registry agrees with the signals sent.
use thor_firewall_smart.Prelude.{
  ℕ, ◌≡◌, String, Bool, true, false, some, List, [], ◌∷◌, if◌then◌else◌, ◌==◌, nat_eq, nat_beq_iff,
  arith, Bool-cases, Option-cases, inl, inr, refl,
}
use thor_firewall_smart.Prelude.Dict.{lookup, remove, contains_key}
use thor_firewall_smart.Prelude.Dict.Laws.{
  IsDistinct, insert-IsDistinct, remove-IsDistinct, lookup-insert, lookup-remove,
}
use thor_firewall_smart.Soar.Suspender.{
  Signal, sigstop, sigcont, sigterm, sigkill, QuarantineEntry, ProcessSuspender, new_suspender,
  mark_network_isolated, suspend_process, resume_process, terminate_process,
}

-- Whether the last signal that stops, resumes or ends a process stopped it.
unfoldable pub is_stopped : ℕ → List (ℕ × Signal) → Bool
is_stopped pid [] = false
is_stopped pid ((p, sigstop) ∷ sent) = if p == pid then true else is_stopped pid sent
is_stopped pid ((p, sigcont) ∷ sent) = if p == pid then false else is_stopped pid sent
is_stopped pid ((p, sigkill) ∷ sent) = if p == pid then false else is_stopped pid sent
is_stopped pid ((p, sigterm) ∷ sent) = is_stopped pid sent

-- The registry holds exactly the processes that are stopped, each under its own number.
pub record IsTracked (p : ProcessSuspender) : Type 0 where
  pub distinct : IsDistinct p.active_quarantines
  pub stopped : (pid : ℕ) → contains_key pid p.active_quarantines ≡ is_stopped pid p.sent
  pub own_pid :
      (pid : ℕ) (e : QuarantineEntry) → lookup pid p.active_quarantines ≡ some e → e.pid ≡ pid

mark_network_isolated-IsTracked :
    (pid : ℕ) (p : ProcessSuspender) → IsTracked p → IsTracked (mark_network_isolated pid p)
unfolding mark_network_isolated
mark_network_isolated-IsTracked pid p t = elim (Option-cases (lookup pid p.active_quarantines)) [
  | inl e ↦ rw (mark_network_isolated, e) t
  | inr (q, e) ↦
      let marked = record q { is_network_isolated = true } in
      rw (mark_network_isolated, e)
        record {
          distinct = insert-IsDistinct pid marked p.active_quarantines t.distinct;
          stopped = λ other. ground (
            arith,
            lookup-insert pid other marked p.active_quarantines,
            t.stopped other,
            e,
            t.stopped pid,
            nat_beq_iff pid other,
          );
          own_pid = λ other f h. ground (
            arith,
            lookup-insert pid other marked p.active_quarantines,
            t.own_pid other f,
            e,
            t.own_pid pid q,
            nat_beq_iff pid other,
            h,
          );
        }
]

module _ (kill : List (ℕ × Signal) → ℕ → Signal → Bool) where
  suspend_process-IsTracked :
      (now pid : ℕ) (a x n : String) (p : ProcessSuspender)
      → IsTracked p
      → IsTracked (suspend_process kill now pid a x n p).1
  unfolding suspend_process is_stopped
  suspend_process-IsTracked now pid a x n p t = elim (Bool-cases (kill p.sent pid sigstop)) [
    | inl sent ↦
        let e : QuarantineEntry = record {
          pid = pid;
          suspended_at = now;
          alert_id = a;
          xai_explanation = x;
          process_name = n;
          is_network_isolated = false;
        } in
        rw sent record {
          distinct = insert-IsDistinct pid e p.active_quarantines t.distinct;
          stopped = λ other. ground (
            arith,
            lookup-insert pid other e p.active_quarantines,
            t.stopped other,
            nat_beq_iff pid other,
          );
          own_pid = λ other f h. ground (
            arith,
            lookup-insert pid other e p.active_quarantines,
            t.own_pid other f,
            nat_beq_iff pid other,
            h,
          );
        }
    | inr failed ↦ rw failed t
  ]

  -- A process that is resumed or ended leaves the registry.
  removed-IsTracked :
      (pid : ℕ) (s : Signal) (p : ProcessSuspender)
      → ((other : ℕ)
          → is_stopped other ((pid, s) ∷ p.sent)
            ≡ (if pid == other then false else is_stopped other p.sent))
      → IsTracked p
      → IsTracked (record {
        sent = (pid, s) ∷ p.sent;
        active_quarantines = remove pid p.active_quarantines;
      })
  removed-IsTracked pid s p ends t = record {
    distinct = remove-IsDistinct pid p.active_quarantines t.distinct;
    stopped = λ other. ground (
      arith,
      lookup-remove pid other p.active_quarantines t.distinct,
      t.stopped other,
      ends other,
    );
    own_pid = λ other f h.
        ground
          (arith, lookup-remove pid other p.active_quarantines t.distinct, t.own_pid other f, h);
  }

  resume_process-IsTracked :
      (pid : ℕ) (p : ProcessSuspender) → IsTracked p → IsTracked (resume_process kill pid p).1
  unfolding resume_process is_stopped
  resume_process-IsTracked pid p t = elim (Bool-cases (kill p.sent pid sigcont)) [
    | inl sent ↦ rw sent (removed-IsTracked pid sigcont p (λ other. refl) t)
    | inr failed ↦ rw failed t
  ]

  terminated-IsTracked :
      (pid : ℕ) (p : ProcessSuspender)
      → IsTracked p
      → IsTracked (record p { sent = (pid, sigterm) ∷ p.sent })
  unfolding is_stopped
  terminated-IsTracked pid p t = record {
    distinct = t.distinct;
    stopped = t.stopped;
    own_pid = t.own_pid;
  }

  terminate_process-IsTracked :
      (pid : ℕ) (p : ProcessSuspender) → IsTracked p → IsTracked (terminate_process kill pid p).1
  unfolding terminate_process is_stopped
  terminate_process-IsTracked pid p t = elim (Bool-cases (kill p.sent pid sigterm)) [
    | inl asked ↦
        let q : ProcessSuspender = record p { sent = (pid, sigterm) ∷ p.sent } in
        let u : IsTracked q = terminated-IsTracked pid p t in
        elim (Bool-cases (kill q.sent pid sigkill)) [
          | inl sent ↦ rw (asked, sent) (removed-IsTracked pid sigkill q (λ other. refl) u)
          | inr failed ↦ rw (asked, failed) u
        ]
    | inr unasked ↦ elim (Bool-cases (kill p.sent pid sigkill)) [
      | inl sent ↦ rw (unasked, sent) (removed-IsTracked pid sigkill p (λ other. refl) t)
      | inr failed ↦ rw (unasked, failed) t
    ]
  ]

  -- One call.
  pub data Step : ProcessSuspender → ProcessSuspender → Type 0 where
    suspended :
        (now pid : ℕ) (alert_id xai_explanation process_name : String) (p : ProcessSuspender)
        → Step p (suspend_process kill now pid alert_id xai_explanation process_name p).1
    resumed : (pid : ℕ) (p : ProcessSuspender) → Step p (resume_process kill pid p).1
    terminated : (pid : ℕ) (p : ProcessSuspender) → Step p (terminate_process kill pid p).1
    marked : (pid : ℕ) (p : ProcessSuspender) → Step p (mark_network_isolated pid p)

  pub data Reaches : ProcessSuspender → Type 0 where
    started : Reaches new_suspender
    stepped : {p q : ProcessSuspender} → Reaches p → Step p q → Reaches q

  Step-IsTracked : {p q : ProcessSuspender} → Step p q → IsTracked p → IsTracked q
  Step-IsTracked (suspended now pid a x n p) t = suspend_process-IsTracked now pid a x n p t
  Step-IsTracked (resumed pid p) t = resume_process-IsTracked pid p t
  Step-IsTracked (terminated pid p) t = terminate_process-IsTracked pid p t
  Step-IsTracked (marked pid p) t = mark_network_isolated-IsTracked pid p t

  -- After any calls, of which the kernel may refuse any signal, the registry holds exactly the
  -- processes whose last stop, continue or kill signal stopped them, each under its own number.
  pub Reaches-IsTracked : {p : ProcessSuspender} → Reaches p → IsTracked p
  unfolding is_stopped lookup
  Reaches-IsTracked started = record {
    distinct = tt;
    stopped = λ pid. refl;
    own_pid = λ pid e h. absurd (ground (arith, h));
  }
  Reaches-IsTracked (stepped before step) = Step-IsTracked step (Reaches-IsTracked before)
