-- ===== src/Detection/Sequence/Acts.antt =====
-- sequence_detector.rs: what a call may do to the slot of one rule and one entity.
use Prim.Native.String.{String}
use thor_firewall_smart.Prelude.{
  ℕ, ◌-◌, ◌≡◌, refl, subst, ◌∙◌, false, ◌&&◌, Option, none, some, length, get_elem?, ltb,
  if◌then◌else◌, ◌==◌, nat_eq, same_refl, Bool-cases, inl, inr,
}
use thor_firewall_smart.Prelude.Dict.{insert, lookup, remove}
use thor_firewall_smart.Prelude.Dict.Laws.{
  IsDistinct, lookup-insert, lookup-remove, insert-IsDistinct, remove-IsDistinct,
}
use thor_firewall_smart.Detection.Sequence.{
  PendingSequence, SequenceAlert, SequenceDetector, SeqKey, key_eq, same_key, new_pending,
  is_expired, event_description, make_alert, extract_entity_key, with_pending, start, restart,
  events_with, complete, advanced, fire,
}
use thor_firewall_smart.Detection.Stages.{SequenceRule, SequenceStage, EnrichedEvent, matches}

abbrev pub Slot : Type 0
Slot = Option PendingSequence

abbrev pub slot_key : SequenceRule → EnrichedEvent → SeqKey
slot_key rule e = (rule.id, extract_entity_key rule e)

-- The pending sequence, unless it is expired.
abbrev pub live_slot : ℕ → Slot → Slot
live_slot now none = none
live_slot now (some p) = if is_expired now p then none else some p

abbrev pub stage_of : Slot → ℕ
stage_of none = 0
stage_of (some p) = p.next_stage

abbrev pub started : ℕ → SequenceRule → EnrichedEvent → PendingSequence
started now rule e = new_pending now (event_description e) rule.window

abbrev pub fire_slot : ℕ → SequenceRule → EnrichedEvent → Slot → Option SequenceAlert × Slot
fire_slot now rule e o =
    let desc = event_description e in
    if stage_of o == 0
    then (none, some (started now rule e))
    else if stage_of o == length rule.stages - 1
    then (some (make_alert rule e (events_with o desc)), none)
    else (none, elim o [ none ↦ none | some p ↦ some (advanced desc p) ])

abbrev pub restart_slot : ℕ → SequenceRule → EnrichedEvent → Slot → Slot
restart_slot now rule e o = elim (get_elem? rule.stages 0) [
  | none ↦ o
  | some stage ↦
      if ltb 0 (stage_of o) && matches stage.predicate e then some (started now rule e) else o
]

abbrev pub step_slot : ℕ → SequenceRule → EnrichedEvent → Slot → Option SequenceAlert × Slot
step_slot now rule e o = elim (get_elem? rule.stages (stage_of o)) [
  | none ↦ (none, o)
  | some stage ↦
      if matches stage.predicate e
      then fire_slot now rule e o
      else (none, restart_slot now rule e o)
]

abbrev pub slot : SeqKey → SequenceDetector → Slot
slot key d = lookup key d.pending

-- What is asked of a result: the alert and the slot are those given, the other slots and the rules are
-- unchanged, and no key occurs twice.
pub record Acts (key : SeqKey) (d : SequenceDetector) (to : Option SequenceAlert × Slot)
    (r : Option SequenceAlert × SequenceDetector) : Type 0 where
  pub alert : r.0 ≡ to.0
  pub here : slot key r.1 ≡ to.1
  pub elsewhere : (j : SeqKey) → same_key key j ≡ false → slot j r.1 ≡ slot j d
  pub rules_kept : r.1.rules ≡ d.rules
  pub keys_distinct : IsDistinct r.1.pending

inserted-Acts :
    (a : Option SequenceAlert) (key : SeqKey) (p : PendingSequence) (d : SequenceDetector)
    → IsDistinct d.pending
    → Acts key d (a, some p) (a, with_pending (insert key p d.pending) d)
inserted-Acts a key p d distinct = record {
  alert = refl;
  here = lookup-insert key key p d.pending ∙ rw (same_refl key) refl;
  elsewhere = λ j differ. lookup-insert key j p d.pending ∙ rw differ refl;
  rules_kept = refl;
  keys_distinct = insert-IsDistinct key p d.pending distinct;
}

same-Acts :
    (key : SeqKey) (d : SequenceDetector)
    → IsDistinct d.pending
    → Acts key d (none, slot key d) (none, d)
same-Acts key d distinct = record {
  alert = refl;
  here = refl;
  elsewhere = λ j differ. refl;
  rules_kept = refl;
  keys_distinct = distinct;
}

complete-Acts :
    (a : Option SequenceAlert) (key : SeqKey) (d : SequenceDetector)
    → IsDistinct d.pending
    → Acts key d (a, none) (a, complete key d)
complete-Acts a key d distinct = record {
  alert = refl;
  here = lookup-remove key key d.pending distinct ∙ rw (same_refl key) refl;
  elsewhere = λ j differ. lookup-remove key j d.pending distinct ∙ rw differ refl;
  rules_kept = refl;
  keys_distinct = remove-IsDistinct key d.pending distinct;
}

advance-Acts :
    (key : SeqKey) (desc : String) (d : SequenceDetector) (o : Slot)
    → IsDistinct d.pending
    → slot key d ≡ o
    → Acts key d
        (none, elim o [ none ↦ none | some p ↦ some (advanced desc p) ])
        (
          none,
          elim o [ none ↦ d | some p ↦ with_pending (insert key (advanced desc p) d.pending) d ],
        )
advance-Acts key desc d none distinct e =
    subst (λ s. Acts key d (none, s) (none, d)) e (same-Acts key d distinct)
advance-Acts key desc d (some p) distinct e = inserted-Acts none key (advanced desc p) d distinct

fire-Acts :
    (now : ℕ) (rule : SequenceRule) (key : SeqKey) (e : EnrichedEvent) (d : SequenceDetector)
    → IsDistinct d.pending
    → Acts key d (fire_slot now rule e (slot key d)) (fire now rule key e (stage_of (slot key d)) d)
unfolding fire
fire-Acts now rule key e d distinct = elim (Bool-cases (stage_of (slot key d) == 0)) [
  | inl zeroth ↦ rw zeroth (inserted-Acts none key (started now rule e) d distinct)
  | inr later ↦ rw later (elim (Bool-cases (stage_of (slot key d) == length rule.stages - 1)) [
    | inl last ↦ rw last (
        complete-Acts (some (make_alert rule e (events_with (slot key d) (event_description e))))
          key d distinct)
    | inr middle ↦ rw middle (advance-Acts key (event_description e) d (slot key d) distinct refl)
  ])
]

restart-Acts :
    (now : ℕ) (rule : SequenceRule) (key : SeqKey) (e : EnrichedEvent) (d : SequenceDetector)
    (stage : Option SequenceStage)
    → IsDistinct d.pending
    → Acts key d
        (
          none,
          elim stage [
            | none ↦ slot key d
            | some s ↦
                if ltb 0 (stage_of (slot key d)) && matches s.predicate e
                then some (started now rule e)
                else slot key d
          ],
        )
        (
          none,
          elim stage [
            | none ↦ d
            | some s ↦
                if ltb 0 (stage_of (slot key d)) && matches s.predicate e
                then start now rule key e d
                else d
          ],
        )
restart-Acts now rule key e d none distinct = same-Acts key d distinct
restart-Acts now rule key e d (some s) distinct =
    elim (Bool-cases (ltb 0 (stage_of (slot key d)) && matches s.predicate e)) [
      | inl again ↦ rw again (inserted-Acts none key (started now rule e) d distinct)
      | inr other ↦ rw other (same-Acts key d distinct)
    ]

-- The call from where the next stage is known.
abbrev pub dispatch :
    ℕ
    → SequenceRule
    → SeqKey
    → EnrichedEvent
    → ℕ
    → SequenceDetector
    → Option SequenceAlert × SequenceDetector
dispatch now rule key e idx d = elim (get_elem? rule.stages idx) [
  | none ↦ (none, d)
  | some stage ↦
      if matches stage.predicate e
      then fire now rule key e idx d
      else (none, restart now rule key e idx d)
]

pub dispatch-Acts :
    (now : ℕ) (rule : SequenceRule) (key : SeqKey) (e : EnrichedEvent) (d : SequenceDetector)
    → IsDistinct d.pending
    → Acts key d
        (step_slot now rule e (slot key d))
        (dispatch now rule key e (stage_of (slot key d)) d)
dispatch-Acts now rule key e d distinct = at (get_elem? rule.stages (stage_of (slot key d)))
  where
    at :
        (stage : Option SequenceStage)
        → Acts key d
            (elim stage [
              | none ↦ (none, slot key d)
              | some s ↦
                  if matches s.predicate e
                  then fire_slot now rule e (slot key d)
                  else (none, restart_slot now rule e (slot key d))
            ])
            (elim stage [
              | none ↦ (none, d)
              | some s ↦
                  if matches s.predicate e
                  then fire now rule key e (stage_of (slot key d)) d
                  else (none, restart now rule key e (stage_of (slot key d)) d)
            ])
    at none = same-Acts key d distinct
    at (some s) = elim (Bool-cases (matches s.predicate e)) [
      | inl hit ↦ rw hit (fire-Acts now rule key e d distinct)
      | inr miss ↦ rw miss (restart-Acts now rule key e d (get_elem? rule.stages 0) distinct)
    ]

-- An expired sequence is removed first.
pub removed-Acts :
    (key : SeqKey) (d : SequenceDetector) (to : Option SequenceAlert × Slot)
    (r : Option SequenceAlert × SequenceDetector)
    → IsDistinct d.pending
    → Acts key (with_pending (remove key d.pending) d) to r
    → Acts key d to r
removed-Acts key d to r distinct acts = record {
  alert = acts.alert;
  here = acts.here;
  elsewhere = λ j differ.
      acts.elsewhere j differ ∙ (lookup-remove key j d.pending distinct ∙ rw differ refl);
  rules_kept = acts.rules_kept;
  keys_distinct = acts.keys_distinct;
}
