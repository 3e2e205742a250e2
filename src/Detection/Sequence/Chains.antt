-- ===== src/Detection/Sequence/Chains.antt =====
-- sequence_detector.rs: chains of events, and the steps of a slot along them.
use Prim.Native.String.{String}
use mathlib.Core.List.{◌++◌ as append}
use thor_firewall_smart.Prelude.{
  ℕ, ◌+◌, ◌-◌, ◌≡◌, ◌≤◌, ◌<◌, refl, ap, Bool, true, false, ◌&&◌, Option, none, some, List, [], ◌∷◌,
  length, get_elem?, ltb, if◌then◌else◌, ◌==◌, nat_eq, string_eq, Bool-cases, inl, inr, arith,
}
use thor_firewall_smart.Detection.Sequence.{
  PendingSequence, SequenceAlert, SequenceDetector, key_eq, is_expired, event_description,
  make_alert, extract_entity_key, process_rule,
}
use thor_firewall_smart.Detection.Stages.{SequenceRule, SequenceStage, EnrichedEvent, matches}
use thor_firewall_smart.Detection.Sequence.Acts.{
  Slot, live_slot, started, fire_slot, restart_slot, step_slot,
}
use thor_firewall_smart.Detection.Sequence.Fired.{Sighting, hits}

-- The events of a rule, the oldest first: the alert of the last one, and the detector behind it.
abbrev pub observe_rule :
    SequenceRule
    → Sighting
    → List Sighting
    → SequenceDetector
    → Option SequenceAlert × SequenceDetector
observe_rule rule s [] d = process_rule s.0 rule s.1 d
observe_rule rule s (u ∷ us) d = observe_rule rule u us (process_rule s.0 rule s.1 d).1

-- From the stage `k` on, all stages are due in order by events of the entity, within the window of a
-- sequence that began at `t`; the last event is `e`, and `ds` are the descriptions of those that due.
-- In between are events of other entities, and events that due neither the due stage nor the first.
pub data Chain (rule : SequenceRule) (entity : String) (t : ℕ)
    : ℕ → Sighting → List Sighting → EnrichedEvent → List String → Type 0 where
  last :
      (now k : ℕ) (e : EnrichedEvent)
      → extract_entity_key rule e ≡ entity
      → hits rule k e ≡ true
      → k + 1 ≡ length rule.stages
      → now - t ≤ rule.window
      → Chain rule entity t k (now, e) [] e (event_description e ∷ [])
  due :
      {u : Sighting} {us : List Sighting} {f : EnrichedEvent} {ds : List String} (now k : ℕ)
      (e : EnrichedEvent)
      → extract_entity_key rule e ≡ entity
      → hits rule k e ≡ true
      → k + 1 < length rule.stages
      → now - t ≤ rule.window
      → Chain rule entity t (k + 1) u us f ds
      → Chain rule entity t k (now, e) (u ∷ us) f (event_description e ∷ ds)
  idle :
      {u : Sighting} {us : List Sighting} {f : EnrichedEvent} {ds : List String} (now k : ℕ)
      (e : EnrichedEvent)
      → extract_entity_key rule e ≡ entity
      → hits rule k e ≡ false
      → hits rule 0 e ≡ false
      → now - t ≤ rule.window
      → Chain rule entity t k u us f ds
      → Chain rule entity t k (now, e) (u ∷ us) f ds
  other :
      {u : Sighting} {us : List Sighting} {f : EnrichedEvent} {ds : List String} (now k : ℕ)
      (e : EnrichedEvent)
      → (extract_entity_key rule e == entity) ≡ false
      → Chain rule entity t k u us f ds
      → Chain rule entity t k (now, e) (u ∷ us) f ds

abbrev pub waiting : SequenceRule → ℕ → ℕ → List String → PendingSequence
waiting rule t k ds = record {
  next_stage = k;
  window_start = t;
  rule_window = rule.window;
  stage_events = ds;
}

module _ (rule : SequenceRule) (now t k : ℕ) (e : EnrichedEvent) (ds : List String) where
  abbrev p : PendingSequence
  p = waiting rule t k ds

  pub live_waiting : now - t ≤ rule.window → live_slot now (some p) ≡ some p
  unfolding is_expired
  live_waiting in_time =
      let no : ltb rule.window (now - t) ≡ false = ground (arith, in_time) in rw no refl

  pub step_hit :
      0 < k → hits rule k e ≡ true → step_slot now rule e (some p) ≡ fire_slot now rule e (some p)
  step_hit positive m = at (get_elem? rule.stages k) m
    where
      at :
          (stage : Option SequenceStage)
          → (let b : Bool = elim stage [ none ↦ false | some s ↦ matches s.predicate e ] in b)
            ≡ true
          → (let r : Option SequenceAlert × Slot = elim stage [
            | none ↦ (none, some p)
            | some s ↦
                if matches s.predicate e
                then fire_slot now rule e (some p)
                else (none, restart_slot now rule e (some p))
          ] in
              r)
            ≡ fire_slot now rule e (some p)
      at none m = absurd (ground (arith, m))
      at (some s) m = rw m refl

  restart_idle : hits rule 0 e ≡ false → restart_slot now rule e (some p) ≡ some p
  restart_idle z = at (get_elem? rule.stages 0) z
    where
      at :
          (zeroth : Option SequenceStage)
          → (let b : Bool = elim zeroth [ none ↦ false | some s ↦ matches s.predicate e ] in b)
            ≡ false
          → (let r : Slot = elim zeroth [
            | none ↦ some p
            | some s ↦
                if ltb 0 k && matches s.predicate e then some (started now rule e) else some p
          ] in
              r)
            ≡ some p
      at none z = refl
      at (some s) z = elim (Bool-cases (ltb 0 k)) [ inl b ↦ rw (b, z) refl | inr b ↦ rw b refl ]

  pub step_idle :
      hits rule k e ≡ false → hits rule 0 e ≡ false → step_slot now rule e (some p) ≡ (none, some p)
  step_idle m z = at (get_elem? rule.stages k) m
    where
      at :
          (stage : Option SequenceStage)
          → (let b : Bool = elim stage [ none ↦ false | some s ↦ matches s.predicate e ] in b)
            ≡ false
          → (let r : Option SequenceAlert × Slot = elim stage [
            | none ↦ (none, some p)
            | some s ↦
                if matches s.predicate e
                then fire_slot now rule e (some p)
                else (none, restart_slot now rule e (some p))
          ] in
              r)
            ≡ (none, some p)
      at none m = refl
      at (some s) m = rw m (ap (λ o. (none, o)) (restart_idle z))

  pub fire_last :
      0 < k
      → k + 1 ≡ length rule.stages
      → fire_slot now rule e (some p)
        ≡ (some (make_alert rule e (append ds (event_description e ∷ []))), none)
  fire_last positive end =
      let no : (k == 0) ≡ false = ground (arith, positive) in
      let yes_last : (k == length rule.stages - 1) ≡ true = ground (arith, end) in
      rw (no, yes_last) refl

  pub fire_middle :
      0 < k
      → k + 1 < length rule.stages
      → fire_slot now rule e (some p)
        ≡ (none, some (waiting rule t (k + 1) (append ds (event_description e ∷ []))))
  fire_middle positive more =
      let no : (k == 0) ≡ false = ground (arith, positive) in
      let not_last : (k == length rule.stages - 1) ≡ false = ground (arith, more) in
      rw (no, not_last) refl
