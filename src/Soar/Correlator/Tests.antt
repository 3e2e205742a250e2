-- ===== src/Soar/Correlator/Tests.antt =====
-- soar/mod.rs: two alerts of one address, and one without an address.
use thor_firewall_smart.Prelude.{
  ℕ, Bool, true, false, map, ◌+◌, ◌≡◌, ◌≤◌, String, some, List, [], ◌∷◌, arith, length, string_eq,
  refl,
}
use thor_firewall_smart.Soar.Correlator.{
  Alert, high, low, ThreatLevel, CorrelationKey, BucketEntry, keys_of, ingest, flush, aggregate,
  pid, src_ip, pid_keys, ip_keys,
}
use thor_firewall_smart.Soar.Correlator.Counts.{filed, arriving, grouped, lone, filed-flush-ingest}
use thor_firewall_smart.Soar.Correlator.Sealing.{Call, ingested, flushed, run, run-flush-empty}

abbrev alert : String → ThreatLevel → Alert
alert rule level = record {
  timestamp = 7;
  rule_name = rule;
  threat_level = level;
  pid = some 42;
  src_ip = some "192.168.1.100";
}

abbrev rfc : ℕ → String
rfc n = "1970"

abbrev debug : CorrelationKey → String
debug k = "key"

abbrev minute : ℕ
minute = 60_000_000_000

abbrev entries : List BucketEntry
entries =
    record { received_at = 1; alert = alert "scan" low }
    ∷ record { received_at = 2; alert = alert "flood" high }
    ∷ []

keys_of_alert : length (keys_of (alert "scan" low)) ≡ 2
unfolding keys_of pid_keys ip_keys
keys_of_alert = refl

abbrev scan_low : BucketEntry
scan_low = record { received_at = 5; alert = alert "scan" low }

-- The entries under the process, of which one has waited for a minute.
abbrev of_process : CorrelationKey → BucketEntry → Bool
of_process (pid p) e = true
of_process (src_ip ip) e = false

filed-flush-ingest_example :
    let before = ingest 5 (alert "scan" low) ((pid 42, entries) ∷ []) in
    let (rs, kept) = flush rfc debug (9 + minute) before in
    (filed of_process ((pid 42, entries) ∷ [])
        + arriving of_process scan_low (keys_of (alert "scan" low))
      ≡ filed of_process kept
        + filed of_process (grouped (9 + minute) before)
        + filed of_process (lone (9 + minute) before))
    × (rs ≡ map (λ b. aggregate rfc debug b.0 b.1) (grouped (9 + minute) before))
    × (map (λ r. r.alert_count) rs ≡ map (λ b. length b.1) (grouped (9 + minute) before))
    × (1 ≤ length (keys_of (alert "scan" low)))
    × (length (keys_of (alert "scan" low)) ≤ 2)
filed-flush-ingest_example =
    filed-flush-ingest rfc debug of_process 5 (9 + minute) (alert "scan" low)
      ((pid 42, entries) ∷ [])

abbrev calls : List Call
calls = ingested 3 (alert "scan" low) ∷ flushed 4 ∷ ingested 5 (alert "flood" high) ∷ []

run-flush-empty_example : (flush rfc debug (5 + minute) (run rfc debug calls [])).1 ≡ []
run-flush-empty_example =
    run-flush-empty rfc debug 5 (5 + minute) calls (omega arith, (omega arith, (omega arith, tt)))
      (omega arith)

abbrev rules : List String
rules = "scan" ∷ "flood" ∷ []
