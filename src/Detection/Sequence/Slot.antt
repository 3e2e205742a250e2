-- ===== src/Detection/Sequence/Slot.antt =====
-- sequence_detector.rs: what an event does to the pending sequence of one rule and one entity.
use thor_firewall_smart.Prelude.{
  ℕ, ◌≡◌, refl, subst, ◌∙◌, true, false, none, some, if◌then◌else◌, ◌==◌, nat_eq, same_refl,
  same→eq, Bool-cases, inl, inr,
}
use thor_firewall_smart.Prelude.Dict.{remove}
use thor_firewall_smart.Prelude.Dict.Laws.{IsDistinct, lookup-remove, remove-IsDistinct}
use thor_firewall_smart.Detection.Sequence.{
  PendingSequence, SequenceDetector, SeqKey, key_eq, is_expired, with_pending, next_stage_idx,
  process_rule,
}
use thor_firewall_smart.Detection.Stages.{SequenceRule, EnrichedEvent}
use thor_firewall_smart.Detection.Sequence.Acts.{
  Slot, slot_key, live_slot, stage_of, step_slot, slot, Acts, dispatch, dispatch-Acts, removed-Acts,
}

next_stage_idx-none :
    (now : ℕ) (key : SeqKey) (d : SequenceDetector)
    → slot key d ≡ none
    → (0, d) ≡ next_stage_idx now key d
unfolding next_stage_idx
next_stage_idx-none now key d e = rw (e, next_stage_idx) refl

next_stage_idx-live :
    (now : ℕ) (key : SeqKey) (d : SequenceDetector) (p : PendingSequence)
    → slot key d ≡ some p
    → is_expired now p ≡ false
    → (p.next_stage, d) ≡ next_stage_idx now key d
unfolding next_stage_idx
next_stage_idx-live now key d p e live = rw (e, next_stage_idx, live) refl

next_stage_idx-expired :
    (now : ℕ) (key : SeqKey) (d : SequenceDetector) (p : PendingSequence)
    → slot key d ≡ some p
    → is_expired now p ≡ true
    → (0, with_pending (remove key d.pending) d) ≡ next_stage_idx now key d
unfolding next_stage_idx
next_stage_idx-expired now key d p e expired = rw (e, next_stage_idx, expired) refl

-- Where the call goes on, and what is in the slot there, are known.
dispatch_at :
    (now : ℕ) (rule : SequenceRule) (e : EnrichedEvent) (d : SequenceDetector) (o : Slot)
    (at : ℕ × SequenceDetector)
    → IsDistinct d.pending
    → slot (slot_key rule e) d ≡ o
    → (stage_of o, d) ≡ at
    → Acts
        (slot_key rule e)
        d
        (step_slot now rule e o)
        (dispatch now rule (slot_key rule e) e at.0 at.1)
dispatch_at now rule e d o at distinct held there =
    let key = slot_key rule e in
    subst (λ a. Acts key d (step_slot now rule e o) (dispatch now rule key e a.0 a.1)) there
      (subst (λ s. Acts key d (step_slot now rule e s) (dispatch now rule key e (stage_of s) d))
        held (dispatch-Acts now rule key e d distinct))

process_rule_at :
    (now : ℕ) (rule : SequenceRule) (e : EnrichedEvent) (d : SequenceDetector) (o : Slot)
    → IsDistinct d.pending
    → slot (slot_key rule e) d ≡ o
    → Acts (slot_key rule e) d (step_slot now rule e (live_slot now o)) (process_rule now rule e d)
unfolding process_rule
process_rule_at now rule e d none distinct empty =
    let key = slot_key rule e in
    dispatch_at now rule e d none (next_stage_idx now key d) distinct empty
      (next_stage_idx-none now key d empty)
process_rule_at now rule e d (some p) distinct held = elim (Bool-cases (is_expired now p)) [
  | inl expired ↦
      let key = slot_key rule e in
      let d' = with_pending (remove key d.pending) d in
      let gone : slot key d' ≡ none =
        lookup-remove key key d.pending distinct ∙ rw (same_refl key) refl in
      rw expired (
        removed-Acts key d (step_slot now rule e none) (process_rule now rule e d) distinct (
          subst (λ a. Acts key d' (step_slot now rule e none) (dispatch now rule key e a.0 a.1))
            (next_stage_idx-expired now key d p held expired)
            (dispatch_at now rule e d' none (0, d') (remove-IsDistinct key d.pending distinct) gone
              refl)))
  | inr live ↦
      let key = slot_key rule e in
      rw live (
        dispatch_at now rule e d (some p) (next_stage_idx now key d) distinct held
          (next_stage_idx-live now key d p held live))
]

pub process_rule-Acts :
    (now : ℕ) (rule : SequenceRule) (e : EnrichedEvent) (d : SequenceDetector)
    → IsDistinct d.pending
    → Acts
        (slot_key rule e)
        d
        (step_slot now rule e (live_slot now (slot (slot_key rule e) d)))
        (process_rule now rule e d)
process_rule-Acts now rule e d distinct =
    process_rule_at now rule e d (slot (slot_key rule e) d) distinct refl

-- An event acts on a rule through the pending sequence of the rule and the event's entity alone: the
-- alert, and what is then pending for the two, are those of the step of that one slot, in which an
-- expired sequence counts as none; the sequences of other rules and entities, and the rules, are
-- unchanged. No key of the map occurs twice before.
pub process_rule-step_slot :
    (now : ℕ) (rule : SequenceRule) (e : EnrichedEvent) (d : SequenceDetector)
    → IsDistinct d.pending
    → (let stepped = step_slot now rule e (live_slot now (slot (slot_key rule e) d)) in
        let r = process_rule now rule e d in
        (r.0 ≡ stepped.0)
        × ((j : SeqKey) → slot j r.1 ≡ (if slot_key rule e == j then stepped.1 else slot j d))
        × (r.1.rules ≡ d.rules))
process_rule-step_slot now rule e d distinct =
    let acts = process_rule-Acts now rule e d distinct in
    let key = slot_key rule e in
    let r = process_rule now rule e d in
    (
      acts.alert,
      λ j. elim (Bool-cases (key == j)) [
        | inl same ↦ rw same (
            subst (λ k. slot k r.1 ≡ (step_slot now rule e (live_slot now (slot key d))).1)
              (same→eq key j same) acts.here)
        | inr differ ↦ rw differ (acts.elsewhere j differ)
      ],
      acts.rules_kept,
    )
