-- ===== src/Detection/Sequence/Warranted.antt =====
-- sequence_detector.rs: an alert of a detector is warranted by the events it has seen.
use Prim.Native.String.{String}
use thor_firewall_smart.Prelude.{
  ℕ, ◌-◌, ◌≡◌, refl, sym, subst, ◌∙◌, Bool, not, none, some, List, [], ◌∷◌, All, if◌then◌else◌,
  ◌==◌, string_eq, nat_eq, Bool-cases, inl, inr, if-both, ltb,
}
use thor_firewall_smart.Prelude.Dict.{lookup, retain}
use thor_firewall_smart.Prelude.Dict.Laws.{IsDistinct, lookup-retain, retain-IsDistinct}
use thor_firewall_smart.Detection.Sequence.{
  PendingSequence, SequenceDetector, SeqKey, key_eq, is_expired, new_detector, rand_u8, ceiling,
  inline_evict_expired, process_rules, process, cleanup_expired, with_pending,
}
use thor_firewall_smart.Detection.Stages.{SequenceRule, EnrichedEvent}
use thor_firewall_smart.Detection.Sequence.Acts.{Slot, slot}
use thor_firewall_smart.Detection.Sequence.Fired.{Sighting, IsTrue}
use thor_firewall_smart.Detection.Sequence.Rounds.{
  RuleIsTrue, HasDistinctIds, IsWarranted, process_rules-IsWarranted, process_rules-IsDistinct,
  rules-process_rules,
}

-- The state of a detector of these rules that has seen these events.
record HasSeen (rules : List SequenceRule) (h : List Sighting) (d : SequenceDetector) : Type 0 where
  rules_are : d.rules ≡ rules
  truths : All (RuleIsTrue h d) rules
  keys_distinct : IsDistinct d.pending

kept-IsTrue :
    (rule : SequenceRule) (entity : String) (h : List Sighting)
    (keep : SeqKey → PendingSequence → Bool) (key : SeqKey) (o : Slot)
    → IsTrue rule entity h o
    → IsTrue rule entity h (elim o [ none ↦ none | some p ↦ if keep key p then some p else none ])
kept-IsTrue rule entity h keep key none t = tt
kept-IsTrue rule entity h keep key (some p) t = if-both (IsTrue rule entity h) (keep key p) t tt

retained_true :
    (keep : SeqKey → PendingSequence → Bool) (rules : List SequenceRule) (h : List Sighting)
    (d : SequenceDetector)
    → IsDistinct d.pending
    → All (RuleIsTrue h d) rules
    → All (RuleIsTrue h (with_pending (retain keep d.pending) d)) rules
retained_true keep [] h d distinct truths = tt
retained_true keep (r ∷ rs) h d distinct (true_r, truths) = (
  λ entity.
      subst (IsTrue r entity h) (sym (lookup-retain keep (r.id, entity) d.pending distinct))
        (kept-IsTrue r entity h keep (r.id, entity) (slot (r.id, entity) d) (true_r entity)),
  retained_true keep rs h d distinct truths,
)

retained_seen :
    (keep : SeqKey → PendingSequence → Bool) (rules : List SequenceRule) (h : List Sighting)
    (d : SequenceDetector)
    → HasSeen rules h d
    → HasSeen rules h (with_pending (retain keep d.pending) d)
retained_seen keep rules h d seen = record {
  rules_are = seen.rules_are;
  truths = retained_true keep rules h d seen.keys_distinct seen.truths;
  keys_distinct = retain-IsDistinct keep d.pending seen.keys_distinct;
}

seen_rules :
    (now : ℕ) (rules : List SequenceRule) (e : EnrichedEvent) (h : List Sighting)
    (d : SequenceDetector)
    → HasDistinctIds rules
    → HasSeen rules h d
    → All (IsWarranted rules now e h) (process_rules now d.rules e d).0
      × HasSeen rules ((now, e) ∷ h) (process_rules now d.rules e d).1
seen_rules now rules e h d ids seen =
    let (warranted, after) =
      process_rules-IsWarranted now rules e h d ids seen.keys_distinct seen.truths in
    subst
      (λ rs.
        All (IsWarranted rules now e h) (process_rules now rs e d).0
        × HasSeen rules ((now, e) ∷ h) (process_rules now rs e d).1)
      (sym seen.rules_are)
      (
        warranted,
        record {
          rules_are = rules-process_rules now rules e d seen.keys_distinct ∙ seen.rules_are;
          truths = after;
          keys_distinct = process_rules-IsDistinct now rules e d seen.keys_distinct;
        },
      )

process-seen :
    (now : ℕ) (rules : List SequenceRule) (e : EnrichedEvent) (h : List Sighting)
    (d : SequenceDetector)
    → HasDistinctIds rules
    → HasSeen rules h d
    → All (IsWarranted rules now e h) (process now e d).0
      × HasSeen rules ((now, e) ∷ h) (process now e d).1
unfolding process inline_evict_expired
process-seen now rules e h d ids seen =
    let drawn = (rand_u8 d).1 in
    let seen_drawn : HasSeen rules h drawn = record {
      rules_are = seen.rules_are;
      truths = seen.truths;
      keys_distinct = seen.keys_distinct;
    } in
    elim (Bool-cases ((rand_u8 d).0 == 0)) [
      | inl sweeps ↦ rw sweeps (
          seen_rules now rules e h (inline_evict_expired now drawn) ids (
            retained_seen (λ k p. not (ltb ceiling (now - p.window_start))) rules h drawn
              seen_drawn))
      | inr not_now ↦ rw not_now (seen_rules now rules e h drawn ids seen_drawn)
    ]

-- The calls of a detector, the newest first.
pub data Call : Type 0 where
  observe : ℕ → EnrichedEvent → Call
  clean : ℕ → Call

abbrev pub after_calls : List Call → SequenceDetector → SequenceDetector
after_calls [] d = d
after_calls (observe now e ∷ cs) d = (process now e (after_calls cs d)).1
after_calls (clean now ∷ cs) d = (cleanup_expired now (after_calls cs d)).1

abbrev pub sightings : List Call → List Sighting
sightings [] = []
sightings (observe now e ∷ cs) = (now, e) ∷ sightings cs
sightings (clean now ∷ cs) = sightings cs

cleaned_seen :
    (now : ℕ) (rules : List SequenceRule) (h : List Sighting) (d : SequenceDetector)
    → HasSeen rules h d
    → HasSeen rules h (cleanup_expired now d).1
unfolding cleanup_expired
cleaned_seen now rules h d seen =
    let kept = retained_seen (λ k p. not (is_expired now p)) rules h d seen in
    record { rules_are = kept.rules_are; truths = kept.truths; keys_distinct = kept.keys_distinct }

new_true :
    (rules all_rules : List SequenceRule) (seed : ℕ)
    → All (RuleIsTrue [] (new_detector all_rules seed)) rules
unfolding new_detector lookup
new_true [] all_rules seed = tt
new_true (r ∷ rs) all_rules seed = (λ entity. tt, new_true rs all_rules seed)

after_calls-HasSeen :
    (rules : List SequenceRule) (seed : ℕ) (cs : List Call)
    → HasDistinctIds rules
    → HasSeen rules (sightings cs) (after_calls cs (new_detector rules seed))
after_calls-HasSeen rules seed [] ids =
    unfold new_detector in
    record { rules_are = refl; truths = new_true rules rules seed; keys_distinct = tt }
after_calls-HasSeen rules seed (observe now e ∷ cs) ids =
    (process-seen now rules e (sightings cs) (after_calls cs (new_detector rules seed)) ids
      (after_calls-HasSeen rules seed cs ids)).1
after_calls-HasSeen rules seed (clean now ∷ cs) ids =
    cleaned_seen now rules (sightings cs) (after_calls cs (new_detector rules seed))
      (after_calls-HasSeen rules seed cs ids)

-- After any calls of a detector whose rules have distinct identifiers, each alert of an event is of one
-- of the rules: events of the entity of the present event have hit all its stages but the last, one
-- after the other, and the present event hits the last, within the window from the first. The alert
-- describes these events in order.
pub process-IsWarranted :
    (rules : List SequenceRule) (seed : ℕ) (cs : List Call) (now : ℕ) (e : EnrichedEvent)
    → HasDistinctIds rules
    → All
        (IsWarranted rules now e (sightings cs))
        (process now e (after_calls cs (new_detector rules seed))).0
process-IsWarranted rules seed cs now e ids =
    (process-seen now rules e (sightings cs) (after_calls cs (new_detector rules seed)) ids
      (after_calls-HasSeen rules seed cs ids)).0
