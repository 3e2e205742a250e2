-- ===== src/Detection/Sequence.antt =====
-- crates/thor-agent/src/detection/sequence_detector.rs: sequences of events. Times are nanoseconds,
-- and a call takes what it reads from the clock. Of an event the raw part is what `source` returns; of
-- an alert its identifier and its date are left out.
pub mod Builtin
pub mod Acts
pub mod Slot
pub mod Fired
pub mod Rounds
pub mod Warranted
pub mod Chains
pub mod Complete
mod Tests
use Prim.Native.String.{String, ◌++◌}
use mathlib.Core.List.{◌++◌ as append}
use thor_firewall_smart.Prelude.{
  ℕ, zero, suc, ◌+◌, ◌-◌, ◌*◌, ◌/◌, ◌%◌, ◌^◌, ◌≡◌, ◌↔◌, Bool, true, false, not, ◌&&◌, ◌||◌, Option,
  none, some, List, [], ◌∷◌, length, get_elem?, ltb, if◌then◌else◌, ◌==◌, string_eq, nat_eq,
  PartialEq, eq_iff, arith, contains,
}
use thor_firewall_smart.Prelude.Text.{contains_str, join}
use thor_firewall_smart.Prelude.Int.{to_string, pos}
use thor_firewall_smart.Prelude.Dict.{Dict, insert, lookup, remove, retain}
use thor_firewall_smart.Soar.Correlator.{ThreatLevel}
use thor_firewall_smart.Detection.Stages.{
  EntityField, EnrichedEvent, hostname, user_id, pid, predicate, SequenceRule, unwrap_or, matches,
  src_ip,
}

pub record PendingSequence : Type 0 where
  pub next_stage : ℕ
  pub window_start : ℕ
  pub rule_window : ℕ
  pub stage_events : List String

abbrev pub new_pending : ℕ → String → ℕ → PendingSequence
new_pending now desc window = record {
  next_stage = 1;
  window_start = now;
  rule_window = window;
  stage_events = desc ∷ [];
}

unfoldable pub is_expired : ℕ → PendingSequence → Bool
is_expired now p = ltb p.rule_window (now - p.window_start)

abbrev pub SeqKey : Type 0
SeqKey = String × String

abbrev pub same_key : SeqKey → SeqKey → Bool
same_key (a, b) (c, d) = a == c && b == d

pub same_key_iff : (j k : SeqKey) → (same_key j k ≡ true) ↔ (j ≡ k)
same_key_iff (a, b) (c, d) = ground (arith, eq_iff a c, eq_iff b d)

instance abbrev pub key_eq : PartialEq SeqKey
key_eq = record { same = same_key; same_iff = same_key_iff }

-- `seed` is the static of `rand_u8`.
pub record SequenceDetector : Type 0 where
  pub rules : List SequenceRule
  pub pending : Dict SeqKey PendingSequence
  pub completed_count : ℕ
  pub evicted_count : ℕ
  pub seed : ℕ

pub record SequenceAlert : Type 0 where
  pub source : String
  pub rule_name : String
  pub threat_level : ThreatLevel
  pub description : String
  pub pid : Option ℕ
  pub process_name : Option String
  pub src_ip : Option String
  pub dst_ip : Option String
  pub raw_event_type : String

unfoldable pub new_detector : List SequenceRule → ℕ → SequenceDetector
new_detector rules seed = record {
  rules = rules;
  pending = [];
  completed_count = 0;
  evicted_count = 0;
  seed = seed;
}

unfoldable pub event_description : EnrichedEvent → String
event_description e =
    "["
    ++ (unwrap_or e.event_type "?"
        ++ ("] cmd="
            ++ (unwrap_or e.command_line "?"
                ++ (" proc="
                    ++ (unwrap_or e.process_name "?" ++ (" host=" ++ unwrap_or e.hostname "?"))))))

abbrev pub entity_of : EntityField → EnrichedEvent → String
entity_of hostname e = unwrap_or e.hostname "unknown"
entity_of pid e = elim e.pid [ none ↦ "0" | some p ↦ to_string (pos p) ]
entity_of user_id e = unwrap_or e.user_id "unknown"
entity_of src_ip e = unwrap_or e.src_ip_str "0.0.0.0"

unfoldable pub extract_entity_key : SequenceRule → EnrichedEvent → String
extract_entity_key rule e = elim rule.stages [
  | [] ↦ "global"
  | stage ∷ stages ↦ entity_of stage.entity_field e
]

unfoldable pub make_alert : SequenceRule → EnrichedEvent → List String → SequenceAlert
make_alert rule e stage_events = record {
  source = unwrap_or e.hostname "unknown";
  rule_name = "Sequence:" ++ rule.title;
  threat_level = rule.threat_level;
  description =
      "[SequenceDetector] "
      ++ (rule.description
          ++ (" | stages="
              ++ (to_string (pos (length rule.stages))
                  ++ (" | chain: " ++ join " → " stage_events))));
  pid = e.pid;
  process_name = e.process_name;
  src_ip = e.src_ip_str;
  dst_ip = e.dst_ip_str;
  raw_event_type = e.raw_source;
}

abbrev pub with_pending : Dict SeqKey PendingSequence → SequenceDetector → SequenceDetector
with_pending m d = record d { pending = m }

-- The next stage for a key; an expired sequence is removed.
unfoldable pub next_stage_idx : ℕ → SeqKey → SequenceDetector → ℕ × SequenceDetector
next_stage_idx now key d = elim (lookup key d.pending) [
  | none ↦ (0, d)
  | some p ↦
      if is_expired now p then (0, with_pending (remove key d.pending) d) else (p.next_stage, d)
]

abbrev pub start : ℕ → SequenceRule → SeqKey → EnrichedEvent → SequenceDetector → SequenceDetector
start now rule key e d =
    with_pending (insert key (new_pending now (event_description e) rule.window) d.pending) d

-- The first stage again, in place of the one that was due.
abbrev pub restart :
    ℕ → SequenceRule → SeqKey → EnrichedEvent → ℕ → SequenceDetector → SequenceDetector
restart now rule key e idx d = elim (get_elem? rule.stages 0) [
  | none ↦ d
  | some stage ↦ if ltb 0 idx && matches stage.predicate e then start now rule key e d else d
]

abbrev pub events_with : Option PendingSequence → String → List String
events_with none desc = desc ∷ []
events_with (some p) desc = append p.stage_events (desc ∷ [])

abbrev pub complete : SeqKey → SequenceDetector → SequenceDetector
complete key d = record d {
  pending = remove key d.pending;
  completed_count = (d.completed_count + 1) % 2 ^ 64;
}

abbrev pub advanced : String → PendingSequence → PendingSequence
advanced desc p = record p {
  next_stage = p.next_stage + 1;
  stage_events = append p.stage_events (desc ∷ []);
}

abbrev pub advance : SeqKey → String → SequenceDetector → SequenceDetector
advance key desc d = elim (lookup key d.pending) [
  | none ↦ d
  | some p ↦ with_pending (insert key (advanced desc p) d.pending) d
]

-- What follows when the due stage matches.
unfoldable pub fire :
    ℕ
    → SequenceRule
    → SeqKey
    → EnrichedEvent
    → ℕ
    → SequenceDetector
    → Option SequenceAlert × SequenceDetector
fire now rule key e idx d =
    let desc = event_description e in
    if idx == 0
    then (none, start now rule key e d)
    else if idx == length rule.stages - 1
    then (some (make_alert rule e (events_with (lookup key d.pending) desc)), complete key d)
    else (none, advance key desc d)

unfoldable pub process_rule :
    ℕ → SequenceRule → EnrichedEvent → SequenceDetector → Option SequenceAlert × SequenceDetector
process_rule now rule e d =
    let key : SeqKey = (rule.id, extract_entity_key rule e) in
    let at = next_stage_idx now key d in
    elim (get_elem? rule.stages at.0) [
      | none ↦ (none, at.1)
      | some stage ↦
          if matches stage.predicate e
          then fire now rule key e at.0 at.1
          else (none, restart now rule key e at.0 at.1)
    ]

-- `rand_u8`: the seed is read before the step is added.
abbrev pub rand_u8 : SequenceDetector → ℕ × SequenceDetector
rand_u8 d = (d.seed / 2 ^ 56, record d { seed = (d.seed + 11400714819323198485) % 2 ^ 64 })

-- Ten minutes.
abbrev pub ceiling : ℕ
ceiling = 600 * 10 ^ 9

unfoldable pub inline_evict_expired : ℕ → SequenceDetector → SequenceDetector
inline_evict_expired now d =
    with_pending (retain (λ k p. not (ltb ceiling (now - p.window_start))) d.pending) d

unfoldable pub process_rules :
    ℕ → List SequenceRule → EnrichedEvent → SequenceDetector → List SequenceAlert × SequenceDetector
process_rules now [] e d = ([], d)
process_rules now (rule ∷ rules) e d =
    let one = process_rule now rule e d in
    let more = process_rules now rules e one.1 in
    (elim one.0 [ none ↦ more.0 | some a ↦ a ∷ more.0 ], more.1)

unfoldable pub process :
    ℕ → EnrichedEvent → SequenceDetector → List SequenceAlert × SequenceDetector
process now e d =
    let drawn = rand_u8 d in
    let swept = if drawn.0 == 0 then inline_evict_expired now drawn.1 else drawn.1 in
    process_rules now swept.rules e swept

-- The number of entries evicted.
unfoldable pub cleanup_expired : ℕ → SequenceDetector → ℕ × SequenceDetector
cleanup_expired now d =
    let live = retain (λ k p. not (is_expired now p)) d.pending in
    let evicted = length d.pending - length live in
    (evicted, record d { pending = live; evicted_count = (d.evicted_count + evicted) % 2 ^ 64 })

abbrev pub pending_count : SequenceDetector → ℕ
pending_count d = length d.pending
