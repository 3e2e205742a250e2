-- ===== src/Detection/Sequence/Tests.antt =====
-- sequence_detector.rs: runs of the rules that are built in.
use Prim.Native.String.{String}
use thor_firewall_smart.Prelude.{
  ◌≡◌, refl, none, some, List, [], ◌∷◌, length, All, arith, if◌then◌else◌, ◌==◌,
}
use thor_firewall_smart.Prelude.Text.{contains_str, starts_with}
use thor_firewall_smart.Prelude.Dict.{insert, lookup, remove, retain}
use thor_firewall_smart.Detection.Sequence.{
  SeqKey, key_eq, SequenceDetector, is_expired, event_description, extract_entity_key, make_alert,
  next_stage_idx, fire, process_rule, process_rules, process, inline_evict_expired, cleanup_expired,
  new_detector,
}
use thor_firewall_smart.Detection.Stages.{
  EnrichedEvent, SequenceRule, hostname, matches, command_contains,
}
use thor_firewall_smart.Detection.Sequence.Slot.{process_rule-step_slot}
use thor_firewall_smart.Detection.Sequence.Acts.{slot_key, slot, step_slot, live_slot}
use thor_firewall_smart.Detection.Sequence.Warranted.{
  Call, observe, clean, after_calls, sightings, process-IsWarranted,
}
use thor_firewall_smart.Detection.Sequence.Rounds.{IsWarranted}
use thor_firewall_smart.Detection.Sequence.Complete.{observe_rule-Chain, process_rule-single}
use thor_firewall_smart.Detection.Sequence.Chains.{observe_rule, Chain, last, due, idle, other}
use thor_firewall_smart.Detection.Sequence.Builtin.{builtin_rules, process_hollowing}

abbrev on_host : String → String → EnrichedEvent
on_host host command = record {
  raw_source = "xdp";
  hostname = some host;
  src_ip_str = none;
  dst_ip_str = none;
  command_line = some command;
  process_name = none;
  event_type = none;
  user_id = none;
  pid = none;
}

abbrev suspended : EnrichedEvent
suspended = on_host "victim" "NtCreateProcess CREATE_SUSPENDED"

abbrev unmap : EnrichedEvent
unmap = on_host "victim" "NtUnmapViewOfSection base=0x400000"

abbrev write : EnrichedEvent
write = on_host "victim" "WriteProcessMemory pid=1234"

abbrev resume : EnrichedEvent
resume = on_host "victim" "ResumeThread tid=5678"

abbrev listing : EnrichedEvent
listing = on_host "victim" "ls"

abbrev elsewhere : EnrichedEvent
elsewhere = on_host "other" "ResumeThread"

abbrev calls : List Call
calls = observe 3 write ∷ clean 2 ∷ observe 2 unmap ∷ observe 1 suspended ∷ []

full_chain : length (process 4 resume (after_calls calls (new_detector builtin_rules 7))).0 ≡ 1
unfolding process process_rules process_rule next_stage_idx fire matches is_expired
    extract_entity_key event_description make_alert inline_evict_expired cleanup_expired
    new_detector insert lookup remove retain contains_str starts_with
full_chain = refl

process-IsWarranted_example :
    All
      (IsWarranted builtin_rules 4 resume (sightings calls))
      (process 4 resume (after_calls calls (new_detector builtin_rules 7))).0
process-IsWarranted_example =
    process-IsWarranted builtin_rules 7 calls 4 resume
      ((refl, (refl, tt)), (refl, (refl, tt)), ((refl, tt), (refl, tt), (tt, tt, tt)))

abbrev fresh : SequenceDetector
unfolding new_detector
fresh = new_detector builtin_rules 7

process_rule-step_slot_example :
    (let stepped =
        step_slot 1 process_hollowing suspended
          (live_slot 1 (slot (slot_key process_hollowing suspended) fresh)) in
      let r = process_rule 1 process_hollowing suspended fresh in
      (r.0 ≡ stepped.0)
      × ((j : SeqKey)
          → slot j r.1
            ≡ (if slot_key process_hollowing suspended == j then stepped.1 else slot j fresh))
      × (r.1.rules ≡ fresh.rules))
unfolding new_detector
process_rule-step_slot_example = process_rule-step_slot 1 process_hollowing suspended fresh tt

victim-Chain :
    Chain process_hollowing "victim" 1 1
      (2, listing)
      ((3, unmap) ∷ (4, elsewhere) ∷ (5, write) ∷ (6, resume) ∷ [])
      resume
      (event_description unmap ∷ event_description write ∷ event_description resume ∷ [])
unfolding extract_entity_key matches contains_str starts_with
victim-Chain = idle 2 1 listing refl refl refl (omega arith) (
    due 3 1 unmap refl refl (omega arith) (omega arith) (
      other 4 2 elsewhere refl (
        due 5 2 write refl refl (omega arith) (omega arith)
          (last 6 3 resume refl refl refl (omega arith)))))

observe_rule-Chain_example :
    ((observe_rule process_hollowing
        (1, suspended)
        ((2, listing) ∷ (3, unmap) ∷ (4, elsewhere) ∷ (5, write) ∷ (6, resume) ∷ [])
        fresh).0
      ≡ some (
          make_alert process_hollowing resume (
            event_description suspended
            ∷ event_description unmap
            ∷ event_description write
            ∷ event_description resume
            ∷ [])))
    × (slot
          ("thor-seq-001-process-hollowing", "victim")
          (observe_rule process_hollowing
            (1, suspended)
            ((2, listing) ∷ (3, unmap) ∷ (4, elsewhere) ∷ (5, write) ∷ (6, resume) ∷ [])
            fresh).1
        ≡ none)
unfolding new_detector lookup extract_entity_key matches contains_str starts_with
observe_rule-Chain_example =
    observe_rule-Chain process_hollowing "victim" 1 suspended (2, listing)
      ((3, unmap) ∷ (4, elsewhere) ∷ (5, write) ∷ (6, resume) ∷ []) resume
      (event_description unmap ∷ event_description write ∷ event_description resume ∷ []) fresh tt
      refl refl refl victim-Chain

abbrev single : SequenceRule
single = record process_hollowing {
  stages =
      record { name = "only"; entity_field = hostname; predicate = command_contains ("ls" ∷ []) }
      ∷ [];
}

process_rule-single_example : (process_rule 9 single listing fresh).0 ≡ none
unfolding new_detector
process_rule-single_example = process_rule-single single 9 listing fresh tt refl
