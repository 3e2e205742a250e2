-- ===== src/Soar/Response/Stages.antt =====
-- soar/mod.rs: what a response may do at which confidence.
use thor_firewall_smart.Prelude.{
  ℕ, ◌≡◌, refl, ap, ◌∙◌, String, Bool, true, false, Option, none, some, List, string_eq, nat_eq,
  eq_iff, arith, Bool-cases, inl, inr,
}
use thor_firewall_smart.Prelude.Dict.{contains_key}
use thor_firewall_smart.Prelude.Dict.Laws.{lookup-insert}
use thor_firewall_smart.Prelude.F64.{F64}
use thor_firewall_smart.Soar.Breaker.{check_and_increment}
use thor_firewall_smart.Soar.Blocking.{SoarEngine, is_whitelisted, auto_block_ip}
use thor_firewall_smart.Soar.Correlator.{ingest}
use thor_firewall_smart.Soar.Suspender.{Signal}
use thor_firewall_smart.Soar.Response.{
  ScoredAlert, Response, interdict, shape, inspect, suspend, quarantine, enforce, respond,
}

-- The confidence is at least so many hundredths.
abbrev pub at_least : (float : F64) → ℕ → ScoredAlert float.F → Bool
at_least float hundredths a = float.le (float.literal hundredths 2) a.confidence_score

blocked-auto_block_ip :
    (now : ℕ) (ip other : String) (e : SoarEngine)
    → contains_key other e.blocked_ips ≡ false
    → contains_key other (auto_block_ip now ip e).1.blocked_ips ≡ true
    → (ip ≡ other) × (is_whitelisted e.whitelist other ≡ false)
unfolding auto_block_ip check_and_increment
blocked-auto_block_ip now ip other e old new =
    ground (arith, lookup-insert ip other tt e.blocked_ips, eq_iff ip other)

interdict-blocked :
    (now : ℕ) (source : Option String) (s : Response) (ip : String)
    → contains_key ip s.engine.blocked_ips ≡ false
    → contains_key ip (interdict now source s).1.engine.blocked_ips ≡ true
    → (source ≡ some ip) × (is_whitelisted s.engine.whitelist ip ≡ false)
unfolding interdict
interdict-blocked now none s ip old new = absurd (ground (arith, old, new))
interdict-blocked now (some source) s ip old new =
    let (same, free) = blocked-auto_block_ip now source ip s.engine old new in (ap some same, free)

-- The engine that blocks is not touched below the highest stage, nor the registry of processes
-- outside the third.
pub shape-kept :
    (source : Option String) (s : Response)
    → ((shape source s).1.engine ≡ s.engine) × ((shape source s).1.suspender ≡ s.suspender)
unfolding shape
shape-kept none s = (refl, refl)
shape-kept (some ip) s = (refl, refl)

pub inspect-kept :
    (source : Option String) (s : Response)
    → ((inspect source s).1.engine ≡ s.engine) × ((inspect source s).1.suspender ≡ s.suspender)
unfolding inspect
inspect-kept none s = (refl, refl)
inspect-kept (some ip) s = (refl, refl)

module _ (float : F64) (kill : List (ℕ × Signal) → ℕ → Signal → Bool)
    (create_thehive_alert : String → ScoredAlert float.F → Option String)
    (ml_anomaly_score : float.F → String) where
  suspend-engine :
      (now : ℕ) (a : ScoredAlert float.F) (pid : Option ℕ) (s : Response)
      → (suspend float kill create_thehive_alert ml_anomaly_score now a pid s).1.engine ≡ s.engine
  unfolding suspend
  suspend-engine now a none s = refl
  suspend-engine now a (some pid) s = refl

  quarantine-engine :
      (now : ℕ) (a : ScoredAlert float.F) (s : Response)
      → (quarantine float kill create_thehive_alert ml_anomaly_score now a s).1.engine ≡ s.engine
  unfolding quarantine
  quarantine-engine now a s =
      suspend-engine now a a.alert.pid (inspect a.alert.src_ip s).1
      ∙ (inspect-kept a.alert.src_ip s).0

  abbrev Blocks : String → ScoredAlert float.F → Response → Type 0
  Blocks ip a s =
      (at_least float 90 a ≡ true)
      × (a.alert.src_ip ≡ some ip)
      × (is_whitelisted s.engine.whitelist ip ≡ false)

  -- With an engine that is as before nothing is newly blocked.
  kept-blocked :
      {P : Type 0} (ip : String) (e f : SoarEngine)
      → f ≡ e
      → contains_key ip e.blocked_ips ≡ false
      → contains_key ip f.blocked_ips ≡ true
      → P
  kept-blocked ip e f same old new =
      let still : contains_key ip f.blocked_ips ≡ false =
        ap (λ (e : SoarEngine). contains_key ip e.blocked_ips) same ∙ old in
      absurd (ground (arith, still, new))

  enforce-blocked :
      (now : ℕ) (a : ScoredAlert float.F) (s : Response) (ip : String)
      → contains_key ip s.engine.blocked_ips ≡ false
      → contains_key ip
          (enforce float kill create_thehive_alert ml_anomaly_score now a s).1.engine.blocked_ips
        ≡ true
      → Blocks ip a s
  unfolding enforce
  enforce-blocked now a s ip old = elim (Bool-cases (at_least float 90 a)) [
    | inl highest ↦ rw highest (λ new.
        let (source, free) = interdict-blocked now a.alert.src_ip s ip old new in
        (refl, source, free))
    | inr below ↦ elim (Bool-cases (at_least float 70 a)) [
      | inl shaping ↦
          rw (below, shaping) (kept-blocked ip s.engine _ (shape-kept a.alert.src_ip s).0 old)
      | inr lower ↦ elim (Bool-cases (at_least float 50 a)) [
        | inl third ↦
            rw (below, lower, third) (kept-blocked ip s.engine _ (quarantine-engine now a s) old)
        | inr lowest ↦ rw (below, lower, lowest) (kept-blocked ip s.engine s.engine refl old)
      ]
    ]
  ]

  -- A response blocks an address only if the alert names it as its source with a confidence of at
  -- least 0.90 and the whitelist does not exempt it.
  pub respond-blocked :
      (now : ℕ) (a : ScoredAlert float.F) (s : Response) (ip : String)
      → contains_key ip s.engine.blocked_ips ≡ false
      → contains_key ip
          (respond float kill create_thehive_alert ml_anomaly_score now a s).1.engine.blocked_ips
        ≡ true
      → (at_least float 90 a ≡ true)
        × (a.alert.src_ip ≡ some ip)
        × (is_whitelisted s.engine.whitelist ip ≡ false)
  unfolding respond
  respond-blocked now a s ip old new =
      enforce-blocked now a (record s { correlator = ingest now a.alert s.correlator }) ip old new
