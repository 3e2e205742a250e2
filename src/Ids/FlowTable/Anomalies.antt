-- ===== src/Ids/FlowTable/Anomalies.antt =====
-- crates/thor-agent/src/ids/flow.rs: which anomalies a TCP packet raises.
use thor_firewall_smart.Prelude.{
  ℕ, ◌+◌, ◌*◌, ◌≤◌, ◌≡◌, ◌↔◌, Bool, true, false, ◌||◌, List, [], ◌∷◌, arith, nat_eq,
}
use thor_firewall_smart.Prelude.Dict.{lookup_or}
use thor_firewall_smart.Prelude.Dict.Laws.{lookup-insert}
use thor_firewall_smart.Prelude.F64.{F64}
use thor_firewall_smart.Ids.Flow.{
  flow_key, flow_key_eq, TcpFlags, canonical, is_forward, is_syn_only,
}
use thor_firewall_smart.Ids.FlowTable.{
  FlowAnomaly, syn_flood, port_scan, pps_spike, bps_spike, long_idle, rst_storm, FlowTable,
  count_syn, release_half_open, rate_anomalies, apply_flags, record_at, record_tcp, second,
}

abbrev pub same_anomaly : FlowAnomaly → FlowAnomaly → Bool
same_anomaly syn_flood syn_flood = true
same_anomaly port_scan port_scan = true
same_anomaly pps_spike pps_spike = true
same_anomaly bps_spike bps_spike = true
same_anomaly long_idle long_idle = true
same_anomaly rst_storm rst_storm = true
same_anomaly _ _ = false

abbrev pub reports : FlowAnomaly → List FlowAnomaly → Bool
reports a [] = false
reports a (b ∷ bs) = same_anomaly a b || reports a bs

module _ (f : F64) (now later src dst sport dport : ℕ) (flags : TcpFlags) (payload_len : ℕ) where
  open f use {F}

  -- One packet, by the counter that it finds.
  pub record_tcp_syn_flood :
      (t : FlowTable F)
      → let r = record_tcp f now later src dst sport dport flags payload_len t in
        let key = flow_key src dst sport dport 6 in
        (reports syn_flood r.1 ≡ true) ↔ (
          (is_syn_only flags ≡ true)
          × (is_forward key ≡ true)
          × (t.syn_flood_thr ≤ count_syn src t.half_open))
  unfolding record_tcp record_at rate_anomalies canonical
  record_tcp_syn_flood t = ground arith

  -- Unless the call itself takes more than five minutes, no flow is reported as idle for long,
  -- whatever time has passed since its last packet.
  pub record_tcp_long_idle :
      (t : FlowTable F)
      → later ≤ now + 300 * second
      → reports long_idle (record_tcp f now later src dst sport dport flags payload_len t).1 ≡ false
  unfolding record_tcp record_at rate_anomalies apply_flags
  record_tcp_long_idle t h = ground arith

  -- A packet from the higher end raises no counter of half-open connections.
  pub record_tcp_half_open :
      (t : FlowTable F) (ip : ℕ)
      → is_forward (flow_key src dst sport dport 6) ≡ false
      → lookup_or ip 0 (record_tcp f now later src dst sport dport flags payload_len t).0.half_open
        ≤ lookup_or ip 0 t.half_open
  unfolding record_tcp record_at release_half_open canonical
  record_tcp_half_open t ip h = grind (arith, λ (k j v : ℕ). lookup-insert k j v t.half_open)
