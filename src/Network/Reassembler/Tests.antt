-- ===== src/Network/Reassembler/Tests.antt =====
-- crates/thor-agent/src/network/reassembler.rs on small segments.
use thor_firewall_smart.Prelude.{
  ℕ, ◌≡◌, ◌≤◌, ◌≢◌, ◌++◌, refl, ap, true, false, some, List, [], ◌∷◌, arith, take, length,
}
use thor_firewall_smart.Network.Reassembler.{
  FlowKey, flow_key_eq, canonical, FlowStream, new_stream, TcpReassembler, new_reassembler,
  push_payload, push, close_flow, drain_ooo, insert_sorted, accept, yield_or_keep,
}
use thor_firewall_smart.Network.Reassembler.Runs.{Arrival, push_all}
use thor_firewall_smart.Network.Reassembler.Prefix.{push_all-prefix}
use thor_firewall_smart.Network.Reassembler.Complete.{in_order, joined, push_all-in_order}
use thor_firewall_smart.Network.Reassembler.Directions.{swap_ends}
use thor_firewall_smart.Network.Reassembler.Limits.{
  pushed, closed, started, stepped, IsWithinLimits, Reaches-IsWithinLimits,
}
use thor_firewall_smart.Network.Reassembler.Overtaken.{push_all-overtaken, gained_by}

abbrev key : FlowKey
key = record { src_ip = 10; dst_ip = 11; src_port = 12345; dst_port = 80; protocol = 6 }

abbrev segment : ℕ → List ℕ → Arrival
segment seq payload = record { now = 1; seq = seq; payload = payload }

-- Ten bytes that a peer sends.
abbrev sent : List ℕ
sent = 0 ∷ 1 ∷ 2 ∷ 3 ∷ 4 ∷ 5 ∷ 6 ∷ 7 ∷ 8 ∷ 9 ∷ []

-- A gap, the segment that fills it, one sent again, and one that overlaps.
abbrev shuffled : List Arrival
shuffled =
    segment 105 (5 ∷ 6 ∷ [])
    ∷ segment 102 (2 ∷ 3 ∷ 4 ∷ [])
    ∷ segment 102 (2 ∷ 3 ∷ 4 ∷ [])
    ∷ segment 106 (6 ∷ 7 ∷ 8 ∷ [])
    ∷ []

push_all-prefix_example :
    let (got, t) = push_all 4 100 (segment 100 (0 ∷ 1 ∷ []) ∷ shuffled) (new_stream 0) in
    (k : ℕ) × (got ++ t.assembled ≡ take k sent) × (k ≤ length sent)
push_all-prefix_example =
    push_all-prefix 100 sent (omega arith) 0 4 100 (segment 100 (0 ∷ 1 ∷ [])) shuffled refl
      (omega arith)
      (
        record { offset = 0; seq_lem = refl; payload_lem = refl; inside = omega arith },
        (
          record { offset = 5; seq_lem = refl; payload_lem = refl; inside = omega arith },
          (
            record { offset = 2; seq_lem = refl; payload_lem = refl; inside = omega arith },
            (
              record { offset = 2; seq_lem = refl; payload_lem = refl; inside = omega arith },
              (record { offset = 6; seq_lem = refl; payload_lem = refl; inside = omega arith }, tt),
            ),
          ),
        ),
      )

-- The numbers wrap after the second chunk.
abbrev chunks : List (List ℕ)
chunks = (1 ∷ 2 ∷ []) ∷ (3 ∷ []) ∷ [] ∷ (4 ∷ 5 ∷ 6 ∷ []) ∷ []

push_all-in_order_example :
    let (got, t) = push_all 3 100 (in_order 1 4294967293 chunks) (new_stream 0) in
    got ++ t.assembled ≡ joined chunks
push_all-in_order_example = push_all-in_order 0 1 4294967293 3 100 chunks (omega arith)

reply : FlowKey
reply = swap_ends key

apart : key ≢ swap_ends key
apart e = absurd (omega (arith, ap (λ (k : FlowKey). k.src_ip) e))

abbrev dns : FlowKey
dns = record key { dst_port = 53 }

elsewhere : (canonical dns).0 ≢ (canonical key).0
unfolding canonical
elsewhere e = absurd (omega (arith, ap (λ (k : FlowKey). k.dst_port) e))

abbrev after_calls : TcpReassembler
after_calls =
    (close_flow key false
      (push_payload 6 key (2 ∷ 3 ∷ []) 9 true
        (push_payload 5 key (1 ∷ []) 7 false new_reassembler).1).1).1

Reaches-IsWithinLimits_example : IsWithinLimits after_calls
Reaches-IsWithinLimits_example =
    Reaches-IsWithinLimits
      (stepped
        (stepped (stepped started (pushed 5 key (1 ∷ []) 7 false new_reassembler))
          (pushed 6 key (2 ∷ 3 ∷ []) 9 true _))
        (closed key false _))
      record { positive = omega arith; bounded = tt }

-- The segment at 112 was buffered, then one up to 113 was in order.
abbrev overtaken : FlowStream
overtaken = record {
  ooo_buffer = (112, 12 ∷ []) ∷ [];
  next_seq = some 113;
  assembled = 9 ∷ 10 ∷ 11 ∷ 12 ∷ [];
  last_seen = 1;
  total_bytes = 4;
}

overtaken_reached :
    (push_all 512 100
      (segment 109 (9 ∷ []) ∷ segment 112 (12 ∷ []) ∷ segment 110 (10 ∷ 11 ∷ 12 ∷ []) ∷ [])
      (new_stream 0)).1
    ≡ overtaken
unfolding push accept drain_ooo insert_sorted yield_or_keep
overtaken_reached = refl

push_all-overtaken_example :
    let arrivals = segment 115 (15 ∷ []) ∷ segment 113 (13 ∷ 14 ∷ []) ∷ [] in
    let (got, t) = push_all 512 100 arrivals overtaken in
    got ++ t.assembled ≡ (9 ∷ 10 ∷ 11 ∷ 12 ∷ []) ++ gained_by 113 arrivals
push_all-overtaken_example =
    push_all-overtaken 512 100 112 113 (segment 115 (15 ∷ []) ∷ segment 113 (13 ∷ 14 ∷ []) ∷ [])
      overtaken (omega arith, (omega arith, tt))
      record {
        next_lem = refl;
        later = omega arith;
        no_wrap = omega arith;
        held = 12 ∷ [];
        behind = [];
        buffer_lem = refl;
      }

-- Ten bytes are held back with a cap of four.
held_over_cap :
    let s = record (new_stream 0) { next_seq = some 100 } in
    (push 1 200 sent 4 4 s).1.ooo_buffer ≡ (200, sent) ∷ []
unfolding push accept insert_sorted yield_or_keep
held_over_cap = refl
