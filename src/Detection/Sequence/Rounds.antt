-- ===== src/Detection/Sequence/Rounds.antt =====
-- sequence_detector.rs: the rounds over the rules for one event.
use Prim.Native.String.{String}
use mathlib.Core.List.{Mem, mem-cons_self, mem-cons_of_mem}
use thor_firewall_smart.Prelude.{
  ℕ, ◌≡◌, refl, sym, subst, ◌∙◌, false, Option, none, some, List, [], ◌∷◌, All, ◌==◌, string_eq,
  nat_eq, same_refl, same→eq, Bool-cases, inl, inr,
}
use thor_firewall_smart.Prelude.Dict.Laws.{IsDistinct}
use thor_firewall_smart.Detection.Sequence.{
  SequenceAlert, SequenceDetector, key_eq, extract_entity_key, process_rule, process_rules,
}
use thor_firewall_smart.Detection.Stages.{SequenceRule, EnrichedEvent}
use thor_firewall_smart.Detection.Sequence.Slot.{process_rule-Acts}
use thor_firewall_smart.Detection.Sequence.Acts.{slot}
use thor_firewall_smart.Detection.Sequence.Fired.{
  Sighting, IsTrue, later-IsTrue, Completes, AlertCompletes, step_slot-Stepped,
}

-- What is pending for a rule is true to the history, for each entity.
abbrev pub RuleIsTrue : List Sighting → SequenceDetector → SequenceRule → Type 0
RuleIsTrue h d rule = (entity : String) → IsTrue rule entity h (slot (rule.id, entity) d)

abbrev pub IsOtherId : String → SequenceRule → Type 0
IsOtherId id rule = (rule.id == id) ≡ false

-- No two rules have one identifier.
abbrev pub HasDistinctIds : List SequenceRule → Type 0
HasDistinctIds [] = Unit
HasDistinctIds (r ∷ rs) =
    All (IsOtherId r.id) rs × All (λ q. (r.id == q.id) ≡ false) rs × HasDistinctIds rs

-- One of the rules is complete with the present event.
abbrev pub IsWarranted :
    List SequenceRule → ℕ → EnrichedEvent → List Sighting → SequenceAlert → Type 0
IsWarranted rules now e h a = (rule : SequenceRule) × Mem rule rules × Completes rule now e h a

other_slot :
    (now : ℕ) (rule : SequenceRule) (e : EnrichedEvent) (d : SequenceDetector) (id entity : String)
    → IsDistinct d.pending
    → (rule.id == id) ≡ false
    → slot (id, entity) (process_rule now rule e d).1 ≡ slot (id, entity) d
other_slot now rule e d id entity distinct differ =
    (process_rule-Acts now rule e d distinct).elsewhere (id, entity) (rw differ refl)

process_rule-IsDistinct :
    (now : ℕ) (rule : SequenceRule) (e : EnrichedEvent) (d : SequenceDetector)
    → IsDistinct d.pending
    → IsDistinct (process_rule now rule e d).1.pending
process_rule-IsDistinct now rule e d distinct =
    (process_rule-Acts now rule e d distinct).keys_distinct

-- The slots of an identifier that none of the rules has are left alone.
process_rules-other :
    (now : ℕ) (rules : List SequenceRule) (e : EnrichedEvent) (d : SequenceDetector)
    (id entity : String)
    → IsDistinct d.pending
    → All (IsOtherId id) rules
    → slot (id, entity) (process_rules now rules e d).1 ≡ slot (id, entity) d
unfolding process_rules
process_rules-other now [] e d id entity distinct others = refl
process_rules-other now (r ∷ rs) e d id entity distinct (other, others) =
    process_rules-other now rs e (process_rule now r e d).1 id entity
      (process_rule-IsDistinct now r e d distinct) others
    ∙ other_slot now r e d id entity distinct other

rule_stepped :
    (now : ℕ) (rule : SequenceRule) (e : EnrichedEvent) (h : List Sighting) (d : SequenceDetector)
    → IsDistinct d.pending
    → RuleIsTrue h d rule
    → AlertCompletes rule now e h (process_rule now rule e d).0
      × RuleIsTrue ((now, e) ∷ h) (process_rule now rule e d).1 rule
rule_stepped now rule e h d distinct truths =
    let here = extract_entity_key rule e in
    let acts = process_rule-Acts now rule e d distinct in
    let (completes, holds) =
      step_slot-Stepped rule now e h (slot (rule.id, here) d) (truths here) in
    (
      subst (AlertCompletes rule now e h) (sym acts.alert) completes,
      λ entity. elim (Bool-cases (here == entity)) [
        | inl same ↦
            subst
              (λ x. IsTrue rule x ((now, e) ∷ h) (slot (rule.id, x) (process_rule now rule e d).1))
              (same→eq here entity same)
              (subst (IsTrue rule here ((now, e) ∷ h)) (sym acts.here) holds)
        | inr differ ↦
            subst (IsTrue rule entity ((now, e) ∷ h))
              (sym (acts.elsewhere (rule.id, entity) (rw (same_refl rule.id, differ) refl)))
              (later-IsTrue rule entity h (now, e) (slot (rule.id, entity) d) (truths entity))
      ],
    )

others_true :
    (now : ℕ) (rule : SequenceRule) (rules : List SequenceRule) (e : EnrichedEvent)
    (h : List Sighting) (d : SequenceDetector)
    → IsDistinct d.pending
    → All (λ q. (rule.id == q.id) ≡ false) rules
    → All (RuleIsTrue h d) rules
    → All (RuleIsTrue h (process_rule now rule e d).1) rules
others_true now rule [] e h d distinct differ truths = tt
others_true now rule (q ∷ qs) e h d distinct (differ, differs) (true_q, truths) = (
  λ entity.
      subst (IsTrue q entity h) (sym (other_slot now rule e d q.id entity distinct differ))
        (true_q entity),
  others_true now rule qs e h d distinct differs truths,
)

more-IsWarranted :
    (r : SequenceRule) (rs : List SequenceRule) (now : ℕ) (e : EnrichedEvent) (h : List Sighting)
    (alerts : List SequenceAlert)
    → All (IsWarranted rs now e h) alerts
    → All (IsWarranted (r ∷ rs) now e h) alerts
more-IsWarranted r rs now e h [] w = tt
more-IsWarranted r rs now e h (a ∷ as_) ((rule, m, completes), ws) =
    ((rule, mem-cons_of_mem r m, completes), more-IsWarranted r rs now e h as_ ws)

cons-IsWarranted :
    (r : SequenceRule) (rs : List SequenceRule) (now : ℕ) (e : EnrichedEvent) (h : List Sighting)
    (o : Option SequenceAlert) (alerts : List SequenceAlert)
    → AlertCompletes r now e h o
    → All (IsWarranted (r ∷ rs) now e h) alerts
    → All (IsWarranted (r ∷ rs) now e h) (elim o [ none ↦ alerts | some a ↦ a ∷ alerts ])
cons-IsWarranted r rs now e h none alerts c w = w
cons-IsWarranted r rs now e h (some a) alerts c w = ((r, mem-cons_self, c), w)

-- The alerts of one event over some rules, and what is pending for them behind it.
pub process_rules-IsWarranted :
    (now : ℕ) (rules : List SequenceRule) (e : EnrichedEvent) (h : List Sighting)
    (d : SequenceDetector)
    → HasDistinctIds rules
    → IsDistinct d.pending
    → All (RuleIsTrue h d) rules
    → All (IsWarranted rules now e h) (process_rules now rules e d).0
      × All (RuleIsTrue ((now, e) ∷ h) (process_rules now rules e d).1) rules
unfolding process_rules
process_rules-IsWarranted now [] e h d ids distinct truths = (tt, tt)
process_rules-IsWarranted now (r ∷ rs) e h d (others, differs, ids) distinct (true_r, truths) =
    let one = process_rule now r e d in
    let distinct_one = process_rule-IsDistinct now r e d distinct in
    let (completes, true_one) = rule_stepped now r e h d distinct true_r in
    let (warranted, after) =
      process_rules-IsWarranted now rs e h one.1 ids distinct_one
        (others_true now r rs e h d distinct differs truths) in
    (
      cons-IsWarranted r rs now e h one.0 (process_rules now rs e one.1).0 completes
          (more-IsWarranted r rs now e h (process_rules now rs e one.1).0 warranted),
      (
        λ entity.
            subst (IsTrue r entity ((now, e) ∷ h))
              (sym (process_rules-other now rs e one.1 r.id entity distinct_one others))
              (true_one entity),
        after,
      ),
    )

pub process_rules-IsDistinct :
    (now : ℕ) (rules : List SequenceRule) (e : EnrichedEvent) (d : SequenceDetector)
    → IsDistinct d.pending
    → IsDistinct (process_rules now rules e d).1.pending
unfolding process_rules
process_rules-IsDistinct now [] e d distinct = distinct
process_rules-IsDistinct now (r ∷ rs) e d distinct =
    process_rules-IsDistinct now rs e (process_rule now r e d).1
      (process_rule-IsDistinct now r e d distinct)

pub rules-process_rules :
    (now : ℕ) (rules : List SequenceRule) (e : EnrichedEvent) (d : SequenceDetector)
    → IsDistinct d.pending
    → (process_rules now rules e d).1.rules ≡ d.rules
unfolding process_rules
rules-process_rules now [] e d distinct = refl
rules-process_rules now (r ∷ rs) e d distinct =
    rules-process_rules now rs e (process_rule now r e d).1
      (process_rule-IsDistinct now r e d distinct)
    ∙ (process_rule-Acts now r e d distinct).rules_kept
