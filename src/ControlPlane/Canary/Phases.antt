-- ===== src/ControlPlane/Canary/Phases.antt =====
-- canary_rollout.rs: the order of the phases.
use thor_firewall_smart.Prelude.{
  ℕ, ◌-◌, ◌≡◌, ◌≢◌, refl, sym, ap, subst, ◌∙◌, same_refl, String, Bool, true, false, Option, none,
  some, List, [], ◌∷◌, arith, length, take, take-all, leb, ltb, contains, string_eq, nat_eq, ◌==◌,
  Bool-cases, inl, inr,
}
use thor_firewall_smart.Prelude.Dict.{contains_key, lookup}
use thor_firewall_smart.Prelude.F64.{F64}
use thor_firewall_smart.ControlPlane.Canary.{
  RolloutPhase, idle, canary, early, rollout, full, rolled_back, Controller, is_canary_agent,
  insert_all, next_phase, is_settled, advance_phase, advance_to, rollback, monitor, tick,
  observation_window, calculate_canary_fpr, fpr_rollback_threshold, target_count, register_agent,
}
use thor_firewall_smart.ControlPlane.Canary.Pool.{contains_key-insert_all, contains-add_agent}

length-zero : (xs : List String) → (length xs == 0) ≡ true → xs ≡ []
length-zero [] h = refl
length-zero (x ∷ xs) h = ground (arith, h)

registered : (xs : List String) → (length xs == 0) ≡ false → xs ≢ []
registered [] h e = absurd (ground (arith, h))
registered (x ∷ xs) h e = cc (e)

module _ (float : F64) where
  abbrev pub is_over : Controller → Bool
  is_over c = float.lt (fpr_rollback_threshold float) (calculate_canary_fpr float c)

  abbrev pub has_waited : ℕ → Controller → Bool
  has_waited now c = leb observation_window (now - c.phase_started_at)

  -- The phases in their order, each with the share of the agents that it begins with.
  pub data Follows : RolloutPhase → RolloutPhase → float.F → Type 0 where
    canary_early : Follows canary early (float.literal 10 2)
    early_rollout : Follows early rollout (float.literal 50 2)
    rollout_full : Follows rollout full (float.literal 100 2)

  abbrev pub IsGoing : Controller → Type 0
  IsGoing c = is_settled float c.current_phase ≡ false

  -- What a tick does: the five cases exclude each other.
  pub data TickOutcome (now : ℕ) (c d : Controller) : Type 0 where
    settled : is_settled float c.current_phase ≡ true → d ≡ c → TickOutcome now c d
    rolled :
        IsGoing c
        → is_over c ≡ true
        → d.canary_agents ≡ []
        → (reason : String) × (d.current_phase ≡ rolled_back reason)
        → TickOutcome now c d
    waiting : IsGoing c → is_over c ≡ false → has_waited now c ≡ false → d ≡ c → TickOutcome now c d
    without_agents :
        IsGoing c
        → is_over c ≡ false
        → has_waited now c ≡ true
        → c.all_agents ≡ []
        → d ≡ c
        → TickOutcome now c d
    advanced :
        (fraction : float.F)
        → is_over c ≡ false
        → has_waited now c ≡ true
        → c.all_agents ≢ []
        → Follows c.current_phase d.current_phase fraction
        → d.phase_started_at ≡ now
        → d.all_agents ≡ c.all_agents
        → ((id : String)
            → is_canary_agent id d
              ≡ contains (take (target_count float (length c.all_agents) fraction) c.all_agents) id)
        → TickOutcome now c d

  pair_of :
      (p : RolloutPhase) (a b : RolloutPhase × float.F)
      → some a ≡ some b
      → Follows p a.0 a.1
      → Follows p b.0 b.1
  pair_of p a b h follows =
      subst (λ (r : RolloutPhase × float.F). Follows p r.0 r.1) (ground (arith, h)) follows

  next_phase-Follows :
      (p q : RolloutPhase) (f : float.F) → next_phase float p ≡ some (q, f) → Follows p q f
  unfolding next_phase
  next_phase-Follows canary q f h = pair_of canary (early, float.literal 10 2) (q, f) h canary_early
  next_phase-Follows early q f h =
      pair_of early (rollout, float.literal 50 2) (q, f) h early_rollout
  next_phase-Follows rollout q f h =
      pair_of rollout (full, float.literal 100 2) (q, f) h rollout_full
  next_phase-Follows idle q f h = absurd (ground (arith, h))
  next_phase-Follows full q f h = absurd (ground (arith, h))
  next_phase-Follows (rolled_back reason) q f h = absurd (ground (arith, h))

  next_phase-none : (p : RolloutPhase) → next_phase float p ≡ none → is_settled float p ≡ true
  unfolding next_phase
  next_phase-none p h = ground arith

  advance_to-outcome :
      (now : ℕ) (c : Controller) (o : Option (RolloutPhase × float.F))
      → next_phase float c.current_phase ≡ o
      → is_settled float c.current_phase ≡ false
      → is_over c ≡ false
      → has_waited now c ≡ true
      → c.all_agents ≢ []
      → TickOutcome now c (advance_to float now c o).1
  unfolding advance_to lookup
  advance_to-outcome now c none e going fine waited agents =
      absurd (ground (arith, next_phase-none c.current_phase e, going))
  advance_to-outcome now c (some (phase, fraction)) e going fine waited agents =
      let ids = take (target_count float (length c.all_agents) fraction) c.all_agents in
      advanced fraction fine waited agents (next_phase-Follows c.current_phase phase fraction e)
        refl refl λ id. ground (arith, contains_key-insert_all id ids [])

  -- A tick leaves the controller as it is if no rollout is under way. It empties the pool and rolls
  -- back if one is and the rate is over the threshold. With the rate in bounds, it leaves the
  -- controller as it is if the observation window has not passed, and, after the window, if no agent
  -- is registered; otherwise it goes on to the phase that follows, counts from now, and the pool is
  -- then the first agents of the list, as many as the share of the new phase makes.
  pub tick-outcome : (now : ℕ) (c : Controller) → TickOutcome now c (tick float now c).1
  unfolding tick monitor rollback advance_phase
  tick-outcome now c = elim (Bool-cases (is_settled float c.current_phase)) [
    | inl rests ↦ rw rests (settled rests refl)
    | inr going ↦ elim (Bool-cases (is_over c)) [
      | inl over ↦ rw (going, over) (rolled going over refl (_, refl))
      | inr fine ↦ elim (Bool-cases (ltb (now - c.phase_started_at) observation_window)) [
        | inl early_on ↦
            let short : has_waited now c ≡ false = ground (arith, early_on) in
            rw (going, fine, early_on) (waiting going fine short refl)
        | inr waited ↦
            let enough : has_waited now c ≡ true = ground (arith, waited) in
            elim (Bool-cases (length c.all_agents == 0)) [
              | inl nobody ↦
                  rw (going, fine, waited, nobody)
                    (without_agents going fine enough (length-zero c.all_agents nobody) refl)
              | inr agents ↦
                  rw (going, fine, waited, agents)
                    (advance_to-outcome now c (next_phase float c.current_phase) refl going fine
                      enough (registered c.all_agents agents))
            ]
      ]
    ]
  ]

  contains-nonempty :
      (ids : List String) (id : String) → contains ids id ≡ true → (length ids == 0) ≡ false
  unfolding contains
  contains-nonempty [] id h = absurd (ground (arith, h))
  contains-nonempty (x ∷ xs) id h = ground arith

  contains_key-take_all :
      (n : ℕ) (ids : List String) (id : String)
      → n ≡ length ids
      → contains ids id ≡ true
      → contains_key id (insert_all (take n ids) []) ≡ true
  unfolding lookup
  contains_key-take_all n ids id e h =
      ground
        (arith, contains_key-insert_all id (take n ids) [], take-all n ids (omega (arith, e)), h)

  -- When the rollout phase ends with a rate in bounds, after the wait, every registered agent is
  -- in the pool, provided that the count of the agents, as an `f64`, times 1.0, rounded up, is
  -- that count again.
  pub tick_full :
      (now : ℕ) (c : Controller) (id : String)
      → c.current_phase ≡ rollout
      → is_over c ≡ false
      → has_waited now c ≡ true
      → contains c.all_agents id ≡ true
      → target_count float (length c.all_agents) (float.literal 100 2) ≡ length c.all_agents
      → let (phase, d) = tick float now c in
        (phase ≡ full) × (d.current_phase ≡ full) × (is_canary_agent id d ≡ true)
  unfolding tick monitor advance_phase advance_to next_phase
  tick_full now c id at fine waited known exact =
      let going : is_settled float c.current_phase ≡ false = ap (is_settled float) at in
      let over : ltb (now - c.phase_started_at) observation_window ≡ false =
        ground (arith, waited) in
      let next : next_phase float c.current_phase ≡ some (full, float.literal 100 2) =
        ap (next_phase float) at ∙ last_phase in
      rw (going, fine, over, contains-nonempty c.all_agents id known, next)
        (refl, refl, contains_key-take_all _ c.all_agents id exact known)
    where
      last_phase : next_phase float rollout ≡ some (full, float.literal 100 2)
      last_phase = refl

  abbrev pub ticks : List ℕ → Controller → Controller
  ticks [] c = c
  ticks (now ∷ times) c = ticks times (tick float now c).1

  ticks-settled :
      (times : List ℕ) (c : Controller)
      → is_settled float c.current_phase ≡ true
      → ticks times c ≡ c
  unfolding tick
  ticks-settled [] c h = refl
  ticks-settled (now ∷ times) c h = ap (ticks times) (same_after now) ∙ ticks-settled times c h
    where
      same_after : (now : ℕ) → (tick float now c).1 ≡ c
      same_after now = rw h refl

  -- An agent outside the pool that registers after the last phase is reached is still outside it
  -- after any number of ticks.
  pub register_agent_late :
      (times : List ℕ) (c : Controller) (id : String)
      → c.current_phase ≡ full
      → is_canary_agent id c ≡ false
      → let d = ticks times (register_agent id c) in
        (is_canary_agent id d ≡ false) × (contains d.all_agents id ≡ true)
  unfolding register_agent
  register_agent_late times c id at new =
      subst (λ d. (is_canary_agent id d ≡ false) × (contains d.all_agents id ≡ true))
        (sym (ticks-settled times (register_agent id c) (ap (is_settled float) at))) (new, listed)
    where
      listed : contains (register_agent id c).all_agents id ≡ true
      listed = ground (arith, contains-add_agent id id c.all_agents, same_refl id)
