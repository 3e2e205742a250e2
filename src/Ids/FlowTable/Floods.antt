-- ===== src/Ids/FlowTable/Floods.antt =====
-- crates/thor-agent/src/ids/flow.rs: the half-open connections of an address over a run of packets,
-- and when they are reported as a flood.
use thor_firewall_smart.Prelude.{
  ℕ, suc, ◌+◌, ◌^◌, ◌≤◌, ◌<◌, ◌≡◌, ◌↔◌, refl, ◌∙◌, Bool, true, false, ◌&&◌, ◌||◌, List, [], ◌∷◌,
  arith, nat_eq, ◌==◌, All, if◌then◌else◌, Bool-cases, inl, inr,
}
use thor_firewall_smart.Prelude.Dict.{lookup_or}
use thor_firewall_smart.Prelude.Dict.Laws.{lookup-insert}
use thor_firewall_smart.Prelude.F64.{F64}
use thor_firewall_smart.Ids.Flow.{flow_key_eq, canonical, is_forward, is_syn_only, is_syn_ack}
use thor_firewall_smart.Ids.FlowTable.{
  FlowAnomaly, syn_flood, FlowTable, count_syn, record_at, record_tcp,
}
use thor_firewall_smart.Ids.FlowTable.Anomalies.{reports, record_tcp_syn_flood}
use thor_firewall_smart.Ids.FlowTable.Handshake.{Packet, raw_key, record_packets}

-- A packet that releases no half-open connection.
abbrev pub IsQuiet : Packet → Type 0
IsQuiet p = (is_syn_ack p.flags || p.flags.rst) ≡ false

-- A SYN without ACK, FIN and RST from the lower end of its connection.
abbrev pub opens : Packet → Bool
opens p = is_syn_only p.flags && is_forward (raw_key p)

-- How many of the packets are such SYNs of an address.
abbrev pub syns_of : ℕ → List Packet → ℕ
syns_of ip [] = 0
syns_of ip (p ∷ ps) = if opens p && p.src == ip then suc (syns_of ip ps) else syns_of ip ps

module _ (f : F64) where
  open f use {F}

  abbrev pub half_open_of : ℕ → FlowTable F → ℕ
  half_open_of ip t = lookup_or ip 0 t.half_open

  abbrev pub record_one : Packet → FlowTable F → FlowTable F × List FlowAnomaly
  record_one p t = record_tcp f p.now p.later p.src p.dst p.sport p.dport p.flags p.payload_len t

  threshold-record_one :
      (p : Packet) (t : FlowTable F) → (record_one p t).0.syn_flood_thr ≡ t.syn_flood_thr
  unfolding record_tcp record_at
  threshold-record_one p t = refl

  half_open-record_one :
      (ip : ℕ) (p : Packet) (t : FlowTable F)
      → IsQuiet p
      → half_open_of ip (record_one p t).0
        ≡ (if opens p && p.src == ip then count_syn ip t.half_open else half_open_of ip t)
  unfolding record_tcp record_at canonical
  half_open-record_one ip p t quiet =
      ground (arith, quiet, lookup-insert p.src ip (count_syn p.src t.half_open) t.half_open)

  counted :
      (ip : ℕ) (p : Packet) (t : FlowTable F)
      → IsQuiet p
      → (opens p && p.src == ip) ≡ true
      → half_open_of ip t + 1 < 2 ^ 32
      → half_open_of ip (record_one p t).0 ≡ half_open_of ip t + 1
  unfolding count_syn
  counted ip p t quiet counts small =
      half_open-record_one ip p t quiet ∙ rw counts (omega (arith, small))

  threshold-record_packets :
      (ps : List Packet) (t : FlowTable F) → (record_packets f ps t).syn_flood_thr ≡ t.syn_flood_thr
  unfolding record_packets
  threshold-record_packets [] t = refl
  threshold-record_packets (p ∷ ps) t =
      threshold-record_packets ps (record_one p t).0 ∙ threshold-record_one p t

  half_open-record_packets :
      (ip : ℕ) (ps : List Packet) (t : FlowTable F)
      → All IsQuiet ps
      → half_open_of ip t + syns_of ip ps < 2 ^ 32
      → half_open_of ip (record_packets f ps t) ≡ half_open_of ip t + syns_of ip ps
  unfolding record_packets
  half_open-record_packets ip [] t quiet small = omega arith
  half_open-record_packets ip (p ∷ ps) t quiet small =
      let u = (record_one p t).0 in
      elim (Bool-cases (opens p && p.src == ip)) [
        | inl counts ↦
            let room : half_open_of ip t + suc (syns_of ip ps) < 2 ^ 32 =
              ground (arith, small, counts) in
            let step = counted ip p t quiet.0 counts (omega (arith, room)) in
            let rest = half_open-record_packets ip ps u quiet.1 (omega (arith, step, room)) in
            rw counts (omega (arith, rest, step))
        | inr other ↦
            let step : half_open_of ip u ≡ half_open_of ip t =
              half_open-record_one ip p t quiet.0 ∙ rw other refl in
            let room : half_open_of ip t + syns_of ip ps < 2 ^ 32 = ground (arith, small, other) in
            let rest = half_open-record_packets ip ps u quiet.1 (omega (arith, step, room)) in
            rw other (omega (arith, rest, step))
      ]

  -- After packets of which none is a SYN-ACK or has RST, a packet is reported as a SYN flood exactly
  -- if it is a SYN without ACK, FIN and RST from the lower end of its connection, and such SYNs of its
  -- address, together with the half-open connections that the table had for it and with the packet
  -- itself, are at least as many as the threshold; the number is below 2 ^ 32.
  pub record_packets-syn_flood :
      (t : FlowTable F) (ps : List Packet) (p : Packet)
      → All IsQuiet ps
      → half_open_of p.src t + syns_of p.src ps + 1 < 2 ^ 32
      → (reports syn_flood (record_one p (record_packets f ps t)).1 ≡ true)
        ↔ ((opens p ≡ true) × (t.syn_flood_thr ≤ half_open_of p.src t + syns_of p.src ps + 1))
  unfolding count_syn
  record_packets-syn_flood t ps p quiet small =
      let u = record_packets f ps t in
      let held = half_open-record_packets p.src ps t quiet (omega (arith, small)) in
      let count : count_syn p.src u.half_open ≡ half_open_of p.src t + syns_of p.src ps + 1 =
        omega (arith, held, small) in
      let one =
        record_tcp_syn_flood f p.now p.later p.src p.dst p.sport p.dport p.flags p.payload_len u in
      ground (arith, one, count, threshold-record_packets ps t)
