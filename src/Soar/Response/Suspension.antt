-- ===== src/Soar/Response/Suspension.antt =====
-- soar/mod.rs: when a response suspends a process.
use thor_firewall_smart.Prelude.{
  ℕ, ◌≡◌, refl, sym, ap, ◌∙◌, String, Bool, true, false, Option, none, some, List, string_eq,
  nat_eq, nat_beq_iff, arith, Bool-cases, inl, inr,
}
use thor_firewall_smart.Prelude.Dict.{contains_key}
use thor_firewall_smart.Prelude.Dict.Laws.{lookup-insert}
use thor_firewall_smart.Prelude.F64.{F64}
use thor_firewall_smart.Soar.Correlator.{ingest}
use thor_firewall_smart.Soar.Suspender.{
  Signal, sigstop, ProcessSuspender, QuarantineEntry, suspend_process,
}
use thor_firewall_smart.Soar.Response.Stages.{at_least, shape-kept, inspect-kept}
use thor_firewall_smart.Soar.Response.{
  ScoredAlert, Response, interdict, inspect, suspend, quarantine, enforce, respond, explanation,
  process_name_of,
}

module _ (kill : List (ℕ × Signal) → ℕ → Signal → Bool) where
  suspended-suspend_process :
      (now pid other : ℕ) (a x n : String) (p : ProcessSuspender)
      → contains_key other p.active_quarantines ≡ false
      → contains_key other (suspend_process kill now pid a x n p).1.active_quarantines ≡ true
      → (pid ≡ other) × (kill p.sent pid sigstop ≡ true)
  unfolding suspend_process
  suspended-suspend_process now pid other a x n p old new =
      let e : QuarantineEntry = record {
        pid = pid;
        suspended_at = now;
        alert_id = a;
        xai_explanation = x;
        process_name = n;
        is_network_isolated = false;
      } in
      ground
        (arith, lookup-insert pid other e p.active_quarantines, nat_beq_iff pid other, old, new)

interdict-kept :
    (now : ℕ) (source : Option String) (s : Response)
    → (interdict now source s).1.suspender ≡ s.suspender
unfolding interdict
interdict-kept now none s = refl
interdict-kept now (some ip) s = refl

module _ (float : F64) (kill : List (ℕ × Signal) → ℕ → Signal → Bool)
    (create_thehive_alert : String → ScoredAlert float.F → Option String)
    (ml_anomaly_score : float.F → String) where
  suspend-suspended :
      (now : ℕ) (a : ScoredAlert float.F) (source : Option ℕ) (s : Response) (pid : ℕ)
      → contains_key pid s.suspender.active_quarantines ≡ false
      → contains_key pid
          (suspend float kill create_thehive_alert ml_anomaly_score now a source
            s).1.suspender.active_quarantines
        ≡ true
      → (source ≡ some pid) × (kill s.suspender.sent pid sigstop ≡ true)
  unfolding suspend
  suspend-suspended now a none s pid old new = absurd (ground (arith, old, new))
  suspend-suspended now a (some p) s pid old new =
      let (same, sent) =
        suspended-suspend_process kill now p pid a.id
          (explanation float kill create_thehive_alert ml_anomaly_score a)
          (process_name_of float kill create_thehive_alert ml_anomaly_score a) s.suspender old
          new in
      (ap some same, rw⁻¹ same sent)

  kept-suspended :
      {P : Type 0} (pid : ℕ) (p q : ProcessSuspender)
      → q ≡ p
      → contains_key pid p.active_quarantines ≡ false
      → contains_key pid q.active_quarantines ≡ true
      → P
  kept-suspended pid p q same old new =
      let still : contains_key pid q.active_quarantines ≡ false =
        ap (λ (p : ProcessSuspender). contains_key pid p.active_quarantines) same ∙ old in
      absurd (ground (arith, still, new))

  abbrev Suspends : ℕ → ScoredAlert float.F → Response → Type 0
  Suspends pid a s =
      (at_least float 50 a ≡ true)
      × (at_least float 70 a ≡ false)
      × (a.alert.pid ≡ some pid)
      × (kill s.suspender.sent pid sigstop ≡ true)

  quarantine-suspended :
      (now : ℕ) (a : ScoredAlert float.F) (s : Response) (pid : ℕ)
      → contains_key pid s.suspender.active_quarantines ≡ false
      → contains_key pid
          (quarantine float kill create_thehive_alert ml_anomaly_score now a
            s).1.suspender.active_quarantines
        ≡ true
      → (a.alert.pid ≡ some pid) × (kill s.suspender.sent pid sigstop ≡ true)
  unfolding quarantine
  quarantine-suspended now a s pid old new =
      go (inspect a.alert.src_ip s).1 (inspect-kept a.alert.src_ip s).1 new
    where
      go :
          (t : Response)
          → t.suspender ≡ s.suspender
          → contains_key pid
              (suspend float kill create_thehive_alert ml_anomaly_score now a a.alert.pid
                t).1.suspender.active_quarantines
            ≡ true
          → (a.alert.pid ≡ some pid) × (kill s.suspender.sent pid sigstop ≡ true)
      go t same new =
          let old_t : contains_key pid t.suspender.active_quarantines ≡ false =
            ap (λ (p : ProcessSuspender). contains_key pid p.active_quarantines) same ∙ old in
          let (source, sent) = suspend-suspended now a a.alert.pid t pid old_t new in
          (source, ap (λ (p : ProcessSuspender). kill p.sent pid sigstop) (sym same) ∙ sent)

  enforce-suspended :
      (now : ℕ) (a : ScoredAlert float.F) (s : Response) (pid : ℕ)
      → contains_key pid s.suspender.active_quarantines ≡ false
      → contains_key pid
          (enforce float kill create_thehive_alert ml_anomaly_score now a
            s).1.suspender.active_quarantines
        ≡ true
      → Suspends pid a s
  unfolding enforce
  enforce-suspended now a s pid old = elim (Bool-cases (at_least float 90 a)) [
    | inl highest ↦
        rw highest (kept-suspended pid s.suspender _ (interdict-kept now a.alert.src_ip s) old)
    | inr below ↦ elim (Bool-cases (at_least float 70 a)) [
      | inl shaping ↦
          rw (below, shaping) (kept-suspended pid s.suspender _ (shape-kept a.alert.src_ip s).1 old)
      | inr lower ↦ elim (Bool-cases (at_least float 50 a)) [
        | inl third ↦
            rw (below, lower, third)
              (λ new.
                let (source, sent) = quarantine-suspended now a s pid old new in
                (refl, refl, source, sent))
        | inr lowest ↦
            rw (below, lower, lowest) (kept-suspended pid s.suspender s.suspender refl old)
      ]
    ]
  ]

  -- A response suspends a process only if the alert names it with a confidence of at least 0.50 and
  -- below 0.70, and the kernel takes the stop signal.
  pub respond-suspended :
      (now : ℕ) (a : ScoredAlert float.F) (s : Response) (pid : ℕ)
      → contains_key pid s.suspender.active_quarantines ≡ false
      → contains_key pid
          (respond float kill create_thehive_alert ml_anomaly_score now a
            s).1.suspender.active_quarantines
        ≡ true
      → (at_least float 50 a ≡ true)
        × (at_least float 70 a ≡ false)
        × (a.alert.pid ≡ some pid)
        × (kill s.suspender.sent pid sigstop ≡ true)
  unfolding respond
  respond-suspended now a s pid old new =
      enforce-suspended now a (record s { correlator = ingest now a.alert s.correlator }) pid old
        new
