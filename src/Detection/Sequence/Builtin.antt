-- ===== src/Detection/Sequence/Builtin.antt =====
-- sequence_detector.rs: the rules that are built in.
use Prim.Native.String.{String}
use thor_firewall_smart.Prelude.{ℕ, ◌*◌, ◌^◌, List, [], ◌∷◌}
use thor_firewall_smart.Soar.Correlator.{critical}
use thor_firewall_smart.Detection.Sequence.{SequenceDetector, new_detector}
use thor_firewall_smart.Detection.Stages.{
  EntityField, hostname, user_id, src_ip, StagePredicate, Predicates, predicate, SequenceStage,
  SequenceRule, command_contains, or_of, no_predicates,
}

-- `Duration::from_secs`
abbrev pub from_secs : ℕ → ℕ
from_secs n = n * 10 ^ 9

-- A compound of patterns of the command line.
abbrev or_contains : List (List String) → Predicates
or_contains [] = no_predicates
or_contains (ps ∷ pss) = predicate (command_contains ps) (or_contains pss)

abbrev stage : String → EntityField → StagePredicate → SequenceStage
stage name field p = record { name = name; entity_field = field; predicate = p }

abbrev pub process_hollowing : SequenceRule
process_hollowing = record {
  id = "thor-seq-001-process-hollowing";
  title = "Process Hollowing Chain";
  description = "Detects the 4-stage Process Hollowing injection technique";
  threat_level = critical;
  window = from_secs 30;
  tags = "attack.t1055.012" ∷ "attack.defense_evasion" ∷ [];
  stages =
      stage "suspend_target" hostname
        (or_of (or_contains (("CREATE_SUSPENDED" ∷ []) ∷ ("NtCreateProcess" ∷ []) ∷ [])))
      ∷ stage "unmap_memory" hostname
          (command_contains ("NtUnmapViewOfSection" ∷ "ZwUnmapViewOfSection" ∷ []))
      ∷ stage "write_payload" hostname
          (or_of (or_contains (("WriteProcessMemory" ∷ []) ∷ ("NtWriteVirtualMemory" ∷ []) ∷ [])))
      ∷ stage "resume_thread" hostname (command_contains ("SetThreadContext" ∷ "ResumeThread" ∷ []))
      ∷ [];
}

abbrev pub credential_dumping : SequenceRule
credential_dumping = record {
  id = "thor-seq-002-credential-dumping";
  title = "Credential Dumping Attack Chain";
  description = "Detects the 4-stage credential harvesting sequence";
  threat_level = critical;
  window = from_secs 300;
  tags = "attack.t1003" ∷ "attack.credential_access" ∷ [];
  stages =
      stage "privilege_escalation" user_id
        (command_contains ("sudo su" ∷ "sudo -i" ∷ "pkexec" ∷ "SeDebugPrivilege" ∷ []))
      ∷ stage "credential_access" user_id (
          or_of (
            or_contains (
              ("sekurlsa" ∷ "lsadump" ∷ [])
              ∷ ("procdump -ma lsass" ∷ [])
              ∷ ("/etc/shadow" ∷ [])
              ∷ [])))
      ∷ stage "dump_creation" user_id (command_contains (".dmp" ∷ "lsass.dmp" ∷ "minidump" ∷ []))
      ∷ stage "exfiltration" user_id
          (or_of (or_contains (("curl -F" ∷ []) ∷ ("scp " ∷ []) ∷ ("rsync " ∷ []) ∷ [])))
      ∷ [];
}

abbrev pub lateral_movement : SequenceRule
lateral_movement = record {
  id = "thor-seq-003-lateral-movement";
  title = "Lateral Movement Attack Chain";
  description = "Detects discovery → auth → exec → persistence lateral movement sequence";
  threat_level = critical;
  window = from_secs 600;
  tags = "attack.t1021" ∷ "attack.lateral_movement" ∷ [];
  stages =
      stage "network_discovery" src_ip
        (command_contains ("nmap " ∷ "masscan " ∷ "arp-scan " ∷ "netdiscover " ∷ []))
      ∷ stage "auth_success" src_ip
          (or_of (or_contains (("ssh " ∷ []) ∷ ("smbclient" ∷ []) ∷ ("winrm" ∷ []) ∷ [])))
      ∷ stage "remote_execution" src_ip
          (command_contains ("psexec" ∷ "wmiexec" ∷ "Invoke-Command" ∷ "atexec" ∷ []))
      ∷ stage "persistence" src_ip (
          or_of (
            or_contains
              (("crontab -e" ∷ []) ∷ ("systemctl enable" ∷ []) ∷ ("schtasks /create" ∷ []) ∷ [])))
      ∷ [];
}

abbrev pub builtin_rules : List SequenceRule
builtin_rules = process_hollowing ∷ credential_dumping ∷ lateral_movement ∷ []

abbrev pub with_builtin_rules : ℕ → SequenceDetector
with_builtin_rules seed = new_detector builtin_rules seed
