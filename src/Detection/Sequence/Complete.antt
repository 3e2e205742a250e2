-- ===== src/Detection/Sequence/Complete.antt =====
-- sequence_detector.rs: a sequence whose stages come in order, within the window, is reported.
use Prim.Native.String.{String}
use mathlib.Core.List.{◌++◌ as append, append_assoc}
use thor_firewall_smart.Prelude.{
  ℕ, ◌-◌, ◌≡◌, ◌≤◌, ◌<◌, refl, ap, subst, ◌∙◌, Bool, true, false, Option, none, some, List, [], ◌∷◌,
  length, get_elem?, if◌then◌else◌, ◌==◌, nat_eq, string_eq, same_refl, Bool-cases, inl, inr, arith,
}
use thor_firewall_smart.Prelude.Dict.Laws.{IsDistinct}
use thor_firewall_smart.Detection.Sequence.{
  SequenceAlert, SequenceDetector, key_eq, event_description, make_alert, extract_entity_key,
  process_rule,
}
use thor_firewall_smart.Detection.Stages.{SequenceRule, SequenceStage, EnrichedEvent, matches}
use thor_firewall_smart.Detection.Sequence.Slot.{process_rule-Acts}
use thor_firewall_smart.Detection.Sequence.Acts.{
  Slot, slot, slot_key, live_slot, stage_of, started, fire_slot, restart_slot, step_slot, Acts,
}
use thor_firewall_smart.Detection.Sequence.Fired.{Sighting, hits, get_elem?-lt}
use thor_firewall_smart.Detection.Sequence.Chains.{
  observe_rule, Chain, last, due, idle, other, waiting, live_waiting, step_hit, step_idle,
  fire_last, fire_middle,
}

-- An event of the entity, while a sequence of it is pending and in time.
waiting-Acts :
    (rule : SequenceRule) (entity : String) (now t k : ℕ) (e : EnrichedEvent) (ds : List String)
    (d : SequenceDetector)
    → extract_entity_key rule e ≡ entity
    → now - t ≤ rule.window
    → IsDistinct d.pending
    → slot (rule.id, entity) d ≡ some (waiting rule t k ds)
    → Acts
        (rule.id, entity)
        d
        (step_slot now rule e (some (waiting rule t k ds)))
        (process_rule now rule e d)
waiting-Acts rule entity now t k e ds d same in_time distinct held =
    subst
      (λ x.
        Acts (rule.id, x) d (step_slot now rule e (some (waiting rule t k ds)))
          (process_rule now rule e d))
      same
      (subst (λ o. Acts (slot_key rule e) d (step_slot now rule e o) (process_rule now rule e d))
        (ap (live_slot now) (ap (λ x. slot (rule.id, x) d) same ∙ held)
          ∙ live_waiting rule now t k e ds in_time)
        (process_rule-Acts now rule e d distinct))

reported-Chain :
    (rule : SequenceRule) (entity : String) (t : ℕ) {k : ℕ} {s : Sighting} {us : List Sighting}
    {f : EnrichedEvent} {ds : List String}
    → Chain rule entity t k s us f ds
    → (before : List String) (d : SequenceDetector) → 0 < k
    → IsDistinct d.pending
    → slot (rule.id, entity) d ≡ some (waiting rule t k before)
    → ((observe_rule rule s us d).0 ≡ some (make_alert rule f (append before ds)))
      × (slot (rule.id, entity) (observe_rule rule s us d).1 ≡ none)
reported-Chain rule entity t (last now k e same m end in_time) before d positive distinct held =
    let acts = waiting-Acts rule entity now t k e before d same in_time distinct held in
    let stepped =
      step_hit rule now t k e before positive m ∙ fire_last rule now t k e before positive end in
    (acts.alert ∙ ap (λ r. r.0) stepped, acts.here ∙ ap (λ r. r.1) stepped)
reported-Chain rule entity t (due {u} {us} {f} {ds} now k e same m more in_time rest) before d
      positive distinct held =
    let acts = waiting-Acts rule entity now t k e before d same in_time distinct held in
    let stepped =
      step_hit rule now t k e before positive m ∙ fire_middle rule now t k e before positive more in
    let desc = event_description e ∷ [] in
    let (reported, gone) =
      reported-Chain rule entity t rest (append before desc) (process_rule now rule e d).1
        (omega arith) acts.keys_distinct (acts.here ∙ ap (λ r. r.1) stepped) in
    (reported ∙ ap (λ x. some (make_alert rule f x)) (append_assoc before desc ds), gone)
reported-Chain rule entity t (idle now k e same m z in_time rest) before d positive distinct held =
    let acts = waiting-Acts rule entity now t k e before d same in_time distinct held in
    reported-Chain rule entity t rest before (process_rule now rule e d).1 positive
      acts.keys_distinct (acts.here ∙ ap (λ r. r.1) (step_idle rule now t k e before m z))
reported-Chain rule entity t (other now k e differ rest) before d positive distinct held =
    let acts = process_rule-Acts now rule e d distinct in
    reported-Chain rule entity t rest before (process_rule now rule e d).1 positive
      acts.keys_distinct
      (acts.elsewhere (rule.id, entity) (rw (same_refl rule.id, differ) refl) ∙ held)

step_first :
    (rule : SequenceRule) (now : ℕ) (e : EnrichedEvent)
    → hits rule 0 e ≡ true
    → step_slot now rule e none ≡ (none, some (started now rule e))
step_first rule now e m = at (get_elem? rule.stages 0) m
  where
    at :
        (stage : Option SequenceStage)
        → (let b : Bool = elim stage [ none ↦ false | some s ↦ matches s.predicate e ] in b) ≡ true
        → (let r : Option SequenceAlert × Slot = elim stage [
          | none ↦ (none, none)
          | some s ↦
              if matches s.predicate e
              then fire_slot now rule e none
              else (none, restart_slot now rule e none)
        ] in
            r)
          ≡ (none, some (started now rule e))
    at none m = absurd (ground (arith, m))
    at (some s) m = rw m refl

-- When nothing is pending for a rule and an entity, an event of the entity hits the first stage, and
-- later events due the other stages in order, within the window from the first, then the last of them
-- is reported, with the descriptions of those that due, and nothing is pending behind it. Events of
-- other entities may come in between, and such of the entity as due neither the due stage nor the
-- first.
pub observe_rule-Chain :
    (rule : SequenceRule) (entity : String) (t : ℕ) (e : EnrichedEvent) (u : Sighting)
    (us : List Sighting) (f : EnrichedEvent) (ds : List String) (d : SequenceDetector)
    → IsDistinct d.pending
    → slot (rule.id, entity) d ≡ none
    → extract_entity_key rule e ≡ entity
    → hits rule 0 e ≡ true
    → Chain rule entity t 1 u us f ds
    → ((observe_rule rule (t, e) (u ∷ us) d).0
        ≡ some (make_alert rule f (event_description e ∷ ds)))
      × (slot (rule.id, entity) (observe_rule rule (t, e) (u ∷ us) d).1 ≡ none)
observe_rule-Chain rule entity t e u us f ds d distinct empty same m chain =
    let acts =
      subst (λ x. Acts (rule.id, x) d (step_slot t rule e none) (process_rule t rule e d)) same
        (subst (λ o. Acts (slot_key rule e) d (step_slot t rule e o) (process_rule t rule e d))
          (ap (live_slot t) (ap (λ x. slot (rule.id, x) d) same ∙ empty))
          (process_rule-Acts t rule e d distinct)) in
    reported-Chain rule entity t chain (event_description e ∷ []) (process_rule t rule e d).1
      (omega arith) acts.keys_distinct (acts.here ∙ ap (λ r. r.1) (step_first rule t e m))

silent :
    (rule : SequenceRule) (now : ℕ) (e : EnrichedEvent) (o : Slot) (stage : Option SequenceStage)
    → length rule.stages ≡ 1
    → get_elem? rule.stages (stage_of o) ≡ stage
    → (let r : Option SequenceAlert × Slot = elim stage [
      | none ↦ (none, o)
      | some s ↦
          if matches s.predicate e
          then fire_slot now rule e o
          else (none, restart_slot now rule e o)
    ] in
        r.0)
      ≡ none
silent rule now e o none one found = refl
silent rule now e o (some s) one found =
    let zeroth : (stage_of o == 0) ≡ true =
      ground (arith, get_elem?-lt rule.stages (stage_of o) s found, one) in
    elim (Bool-cases (matches s.predicate e)) [ inl m ↦ rw (m, zeroth) refl | inr m ↦ rw m refl ]

-- A rule with a single stage never raises an alert, whatever the event and whatever is pending.
pub process_rule-single :
    (rule : SequenceRule) (now : ℕ) (e : EnrichedEvent) (d : SequenceDetector)
    → IsDistinct d.pending
    → length rule.stages ≡ 1
    → (process_rule now rule e d).0 ≡ none
process_rule-single rule now e d distinct one =
    let o = live_slot now (slot (slot_key rule e) d) in
    (process_rule-Acts now rule e d distinct).alert
    ∙ silent rule now e o (get_elem? rule.stages (stage_of o)) one refl
