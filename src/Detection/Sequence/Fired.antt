-- ===== src/Detection/Sequence/Fired.antt =====
-- sequence_detector.rs: the stages that have fired for a rule and an entity, in a history of events.
use Prim.Native.String.{String}
use mathlib.Core.List.{◌++◌ as append}
use thor_firewall_smart.Prelude.{
  ℕ, zero, suc, ◌+◌, ◌-◌, ◌≡◌, ◌≤◌, ◌<◌, refl, subst, Bool, true, false, ◌&&◌, Option, none, some,
  List, [], ◌∷◌, length, get_elem?, ltb, if◌then◌else◌, ◌==◌, nat_eq, Bool-cases, inl, inr, arith,
  and-eq-true, nat_beq_iff,
}
use thor_firewall_smart.Detection.Sequence.{
  PendingSequence, SequenceAlert, is_expired, event_description, make_alert, extract_entity_key,
}
use thor_firewall_smart.Detection.Stages.{SequenceRule, SequenceStage, EnrichedEvent, matches}
use thor_firewall_smart.Detection.Sequence.Acts.{
  Slot, live_slot, stage_of, started, fire_slot, restart_slot, step_slot,
}

-- An event and the time of its call.
abbrev pub Sighting : Type 0
Sighting = ℕ × EnrichedEvent

abbrev pub hits : SequenceRule → ℕ → EnrichedEvent → Bool
hits rule k e = elim (get_elem? rule.stages k) [ none ↦ false | some s ↦ matches s.predicate e ]

-- In a history, the newest event first, so many stages of the rule have been hit one after the other by
-- events of the entity; with their descriptions in order, and the time of the first.
pub data Fired (rule : SequenceRule) (entity : String)
    : List Sighting → ℕ → List String → ℕ → Type 0 where
  first :
      (now : ℕ) (e : EnrichedEvent) (h : List Sighting)
      → hits rule 0 e ≡ true
      → extract_entity_key rule e ≡ entity
      → Fired rule entity ((now, e) ∷ h) 1 (event_description e ∷ []) now
  next :
      {h : List Sighting} {k : ℕ} {ds : List String} {t : ℕ} (now : ℕ) (e : EnrichedEvent)
      → Fired rule entity h k ds t
      → hits rule k e ≡ true
      → extract_entity_key rule e ≡ entity
      → Fired rule entity ((now, e) ∷ h) (k + 1) (append ds (event_description e ∷ [])) t
  later :
      {h : List Sighting} {k : ℕ} {ds : List String} {t : ℕ} (s : Sighting)
      → Fired rule entity h k ds t
      → Fired rule entity (s ∷ h) k ds t

-- What is pending is what has fired, with the window of the rule.
abbrev pub IsTrue : SequenceRule → String → List Sighting → Slot → Type 0
IsTrue rule entity h none = Unit
IsTrue rule entity h (some p) =
    Fired rule entity h p.next_stage p.stage_events p.window_start × (p.rule_window ≡ rule.window)

-- Earlier events have hit all stages but the last, the present event hits the last, within the window
-- from the first, and the alert describes these events in order.
abbrev pub Completes : SequenceRule → ℕ → EnrichedEvent → List Sighting → SequenceAlert → Type 0
Completes rule now e h a =
    (k : ℕ) × (ds : List String) × (t : ℕ) × (a
      ≡ make_alert rule e (append ds (event_description e ∷ [])))
    × Fired rule (extract_entity_key rule e) h k ds t
    × (hits rule k e ≡ true)
    × (k + 1 ≡ length rule.stages)
    × (now - t ≤ rule.window)

abbrev pub AlertCompletes :
    SequenceRule → ℕ → EnrichedEvent → List Sighting → Option SequenceAlert → Type 0
AlertCompletes rule now e h none = Unit
AlertCompletes rule now e h (some a) = Completes rule now e h a

-- The result of the step of a slot.
abbrev pub Stepped :
    SequenceRule → ℕ → EnrichedEvent → List Sighting → Option SequenceAlert × Slot → Type 0
Stepped rule now e h r =
    AlertCompletes rule now e h r.0 × IsTrue rule (extract_entity_key rule e) ((now, e) ∷ h) r.1

pub later-IsTrue :
    (rule : SequenceRule) (entity : String) (h : List Sighting) (s : Sighting) (o : Slot)
    → IsTrue rule entity h o
    → IsTrue rule entity (s ∷ h) o
later-IsTrue rule entity h s none t = tt
later-IsTrue rule entity h s (some p) (f, w) = (later s f, w)

-- The window of what is pending is not over.
abbrev IsInTime : ℕ → Slot → Type 0
IsInTime now none = Unit
IsInTime now (some p) = now - p.window_start ≤ p.rule_window

live_slot-IsInTime : (now : ℕ) (o : Slot) → IsInTime now (live_slot now o)
unfolding is_expired
live_slot-IsInTime now none = tt
live_slot-IsInTime now (some p) = elim (Bool-cases (is_expired now p)) [
  | inl over ↦ rw over tt
  | inr live ↦ rw live (ground (arith, live))
]

live_slot-IsTrue :
    (rule : SequenceRule) (entity : String) (h : List Sighting) (now : ℕ) (o : Slot)
    → IsTrue rule entity h o
    → IsTrue rule entity h (live_slot now o)
live_slot-IsTrue rule entity h now none t = tt
live_slot-IsTrue rule entity h now (some p) t = elim (Bool-cases (is_expired now p)) [
  | inl over ↦ rw over tt
  | inr live ↦ rw live t
]

pub get_elem?-lt : {A : Type 0} (l : List A) (k : ℕ) (x : A) → get_elem? l k ≡ some x → k < length l
get_elem?-lt [] k x e = absurd (clash e)
  where
    clash : {A : Type 0} {x : A} → none ≡ some x → ⊥
    clash p = cc
get_elem?-lt (y ∷ l) zero x e = omega arith
get_elem?-lt (y ∷ l) (suc k) x e = omega (arith, get_elem?-lt l k x e)

module _ (rule : SequenceRule) (now : ℕ) (e : EnrichedEvent) (h : List Sighting) where
  abbrev here : String
  here = extract_entity_key rule e

  hit_at :
      (k : ℕ) (s : SequenceStage)
      → get_elem? rule.stages k ≡ some s
      → matches s.predicate e ≡ true
      → hits rule k e ≡ true
  hit_at k s found m = rw (found, hits) m

  started-IsTrue :
      hits rule 0 e ≡ true → IsTrue rule here ((now, e) ∷ h) (some (started now rule e))
  started-IsTrue m = (first now e h m refl, refl)

  restart-IsTrue :
      (o : Slot) (zeroth : Option SequenceStage)
      → get_elem? rule.stages 0 ≡ zeroth
      → IsTrue rule here h o
      → IsTrue rule here ((now, e) ∷ h) (elim zeroth [
        | none ↦ o
        | some s ↦
            if ltb 0 (stage_of o) && matches s.predicate e then some (started now rule e) else o
      ])
  restart-IsTrue o none found t = later-IsTrue rule here h (now, e) o t
  restart-IsTrue o (some s) found t =
      elim (Bool-cases (ltb 0 (stage_of o) && matches s.predicate e)) [
        | inl again ↦ rw again (
            started-IsTrue
              (hit_at 0 s found (and-eq-true (ltb 0 (stage_of o)) (matches s.predicate e) again).1))
        | inr other ↦ rw other (later-IsTrue rule here h (now, e) o t)
      ]

  fire-Stepped :
      (p : PendingSequence)
      → Fired rule here h p.next_stage p.stage_events p.window_start
      → p.rule_window ≡ rule.window
      → now - p.window_start ≤ rule.window
      → hits rule p.next_stage e ≡ true
      → p.next_stage < length rule.stages
      → Stepped rule now e h (fire_slot now rule e (some p))
  fire-Stepped p fired same_window in_time m lt = elim (Bool-cases (p.next_stage == 0)) [
    | inl zeroth ↦ rw zeroth (
      tt,
      started-IsTrue (subst (λ k. hits rule k e ≡ true) ((nat_beq_iff p.next_stage 0).0 zeroth) m),
    )
    | inr later_stage ↦ rw later_stage (elim (Bool-cases (p.next_stage == length rule.stages - 1)) [
      | inl last ↦
          let all_fired : p.next_stage + 1 ≡ length rule.stages =
            omega (arith, (nat_beq_iff p.next_stage (length rule.stages - 1)).0 last, lt) in
          rw last
            ((p.next_stage, p.stage_events, p.window_start, refl, fired, m, all_fired, in_time), tt)
      | inr middle ↦ rw middle (tt, (next now e fired m refl, same_window))
    ])
  ]

  -- The step of a slot that is not expired.
  step-Stepped :
      (o : Slot) (stage : Option SequenceStage)
      → get_elem? rule.stages (stage_of o) ≡ stage
      → IsTrue rule here h o
      → IsInTime now o
      → Stepped rule now e h (elim stage [
        | none ↦ (none, o)
        | some s ↦
            if matches s.predicate e
            then fire_slot now rule e o
            else (none, restart_slot now rule e o)
      ])
  step-Stepped o none found t live = (tt, later-IsTrue rule here h (now, e) o t)
  step-Stepped none (some s) found t live = elim (Bool-cases (matches s.predicate e)) [
    | inl m ↦ rw m (tt, started-IsTrue (hit_at 0 s found m))
    | inr m ↦ rw m (tt, restart-IsTrue none (get_elem? rule.stages 0) refl t)
  ]
  step-Stepped (some p) (some s) found (fired, w) live = elim (Bool-cases (matches s.predicate e)) [
    | inl m ↦ rw m (
        fire-Stepped p fired w (subst (λ w. now - p.window_start ≤ w) w live)
          (hit_at p.next_stage s found m) (get_elem?-lt rule.stages p.next_stage s found))
    | inr m ↦ rw m (tt, restart-IsTrue (some p) (get_elem? rule.stages 0) refl (fired, w))
  ]

-- The step of a slot keeps it true to the history, and completes a sequence only when all stages have
-- fired.
pub step_slot-Stepped :
    (rule : SequenceRule) (now : ℕ) (e : EnrichedEvent) (h : List Sighting) (o : Slot)
    → IsTrue rule (extract_entity_key rule e) h o
    → Stepped rule now e h (step_slot now rule e (live_slot now o))
step_slot-Stepped rule now e h o t =
    let live = live_slot now o in
    step-Stepped rule now e h live (get_elem? rule.stages (stage_of live)) refl
      (live_slot-IsTrue rule (extract_entity_key rule e) h now o t) (live_slot-IsInTime now o)
