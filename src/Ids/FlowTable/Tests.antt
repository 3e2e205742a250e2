-- ===== src/Ids/FlowTable/Tests.antt =====
-- crates/thor-agent/src/ids/flow.rs: tests of the flows and the table.
use thor_firewall_smart.Prelude.{
  ◌+◌, ℕ, ◌*◌, ◌≤◌, ◌≡◌, ◌↔◌, refl, true, false, List, [], ◌∷◌, arith, ap, nat_eq,
}
use thor_firewall_smart.Prelude.Dict.{lookup, insert}
use thor_firewall_smart.Prelude.F64.Toy.{thousandths}
use thor_firewall_smart.Ids.Flow.{
  syn_sent, established, FlowKey, flow_key, flow_key_eq, swap_ends, TcpFlags, canonical,
  apply_state, from_byte,
}
use thor_firewall_smart.Ids.Flow.Machine.{has_handshake}
use thor_firewall_smart.Ids.FlowTable.{
  syn_flood, FlowEntry, FlowTable, new_table, new_entry, record_tcp, record_at, apply_flags, second,
}
use thor_firewall_smart.Ids.FlowTable.Table.{tcp, udp, sweep, run, IsNormal, run-new_table-IsNormal}
use thor_firewall_smart.Ids.FlowTable.Anomalies.{reports}
use thor_firewall_smart.Ids.FlowTable.Floods.{opens, syns_of, record_packets-syn_flood}
use thor_firewall_smart.Ids.FlowTable.Handshake.{
  Packet, state_of, packets_of, record_packets, record_packets-handshake, record_packets_three,
}

abbrev no_flags : TcpFlags
no_flags = record { syn = false; ack = false; fin = false; rst = false; psh = false; urg = false }

abbrev syn : TcpFlags
syn = record no_flags { syn = true }

abbrev syn_ack : TcpFlags
syn_ack = record no_flags { syn = true; ack = true }

abbrev ack : TcpFlags
ack = record no_flags { ack = true }

from_byte-syn_ack : from_byte 0x12 ≡ syn_ack
unfolding from_byte
from_byte-syn_ack = refl

-- 10.0.0.1:50000 to 10.0.0.2:80
abbrev low_client : FlowKey
low_client = flow_key 0x0a00_0001 0x0a00_0002 50000 80 6

abbrev packet : ℕ → FlowKey → TcpFlags → Packet
packet now k flags = record {
  now = now;
  later = now;
  src = k.src_ip;
  dst = k.dst_ip;
  sport = k.src_port;
  dport = k.dst_port;
  flags = flags;
  payload_len = 100;
}

abbrev handshake : FlowKey → List Packet
handshake k = packet 1 k syn ∷ packet 2 (swap_ends k) syn_ack ∷ packet 3 k ack ∷ []

abbrev table : FlowTable ℕ
table = new_table

abbrev opened : FlowTable ℕ
opened = record_packets thousandths (handshake low_client) table

low_client_established : state_of low_client opened ≡ established
unfolding record_packets record_tcp record_at apply_flags new_entry apply_state lookup insert
    canonical
low_client_established = refl

high_client_stuck :
    state_of low_client (record_packets thousandths (handshake (swap_ends low_client)) table)
    ≡ syn_sent
unfolding record_packets record_tcp record_at apply_flags new_entry apply_state lookup insert
    canonical
high_client_stuck = refl

run-new_table-IsNormal_example : IsNormal (
    run thousandths
      (tcp 1 1 9 5 80 1000 syn 0 ∷ udp 2 5 9 53 53 10 ∷ sweep (40 * second) ∷ [])
      new_table)
run-new_table-IsNormal_example =
    run-new_table-IsNormal thousandths
      (tcp 1 1 9 5 80 1000 syn 0 ∷ udp 2 5 9 53 53 10 ∷ sweep (40 * second) ∷ [])

abbrev entry : FlowEntry ℕ
entry = new_entry thousandths 0 low_client

abbrev held : FlowTable ℕ
held = record table { flows = (low_client, entry) ∷ [] }

abbrev syn_from : ℕ → ℕ → Packet
syn_from src sport = record {
  now = 1;
  later = 1;
  src = src;
  dst = 9;
  sport = sport;
  dport = 80;
  flags = syn;
  payload_len = 0;
}

-- The third SYN of one address, with one of another address between.
record_packets-syn_flood_example :
    let watched = record table { syn_flood_thr = 3 } in
    let before = syn_from 5 1000 ∷ syn_from 4 1000 ∷ syn_from 5 1001 ∷ [] in
    (reports syn_flood
        (record_tcp thousandths 1 1 5 9 1002 80 syn 0 (record_packets thousandths before watched)).1
      ≡ true)
    ↔ ((opens (syn_from 5 1002) ≡ true) × (3 ≤ 0 + syns_of 5 before + 1))
unfolding lookup
record_packets-syn_flood_example =
    record_packets-syn_flood thousandths (record table { syn_flood_thr = 3 })
      (syn_from 5 1000 ∷ syn_from 4 1000 ∷ syn_from 5 1001 ∷ []) (syn_from 5 1002)
      (refl, (refl, (refl, tt))) (omega arith)

record_packets-handshake_example :
    has_handshake (packets_of low_client (handshake low_client)) ≡ true
unfolding record_packets record_tcp record_at apply_flags new_entry apply_state lookup insert
    canonical
record_packets-handshake_example =
    record_packets-handshake thousandths (handshake low_client) low_client (omega arith)
      (λ e. cc (e))

abbrev high_client : FlowKey
high_client = swap_ends low_client

record_packets_three_example :
    state_of (canonical high_client).0 (record_packets thousandths (handshake high_client) table)
    ≡ syn_sent
unfolding lookup canonical
record_packets_three_example =
    record_packets_three thousandths (packet 1 high_client syn) (packet 2 low_client syn_ack)
      (packet 3 high_client ack) high_client table
      (λ e. absurd (omega (arith, ap (λ (k : FlowKey). k.src_port) e))) refl refl refl refl refl
      refl refl
