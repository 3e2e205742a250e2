-- ===== src/Network/Reassembler/Directions.antt =====
-- crates/thor-agent/src/network/reassembler.rs: the two directions of a connection.
use thor_firewall_smart.Prelude.{
  ℕ, ◌≡◌, ◌≢◌, Bool, not, List, arith, if◌then◌else◌, Bool-cases, inl, inr, refl, sym,
}
use thor_firewall_smart.Prelude.Dict.{lookup, lookup_or, insert}
use thor_firewall_smart.Prelude.Dict.Laws.{lookup-insert_self, lookup-insert}
use thor_firewall_smart.Network.Reassembler.{
  FlowKey, canonical, TcpReassembler, push_payload, is_first, FlowStream, new_stream, push,
  flow_key_eq,
}

abbrev pub swap_ends : FlowKey → FlowKey
swap_ends k = record k {
  src_ip = k.dst_ip;
  dst_ip = k.src_ip;
  src_port = k.dst_port;
  dst_port = k.src_port;
}

canonical-swap_ends :
    (k : FlowKey)
    → (k ≢ swap_ends k)
    → canonical (swap_ends k) ≡ ((canonical k).0, not (canonical k).1)
unfolding canonical
canonical-swap_ends k = ground arith

is_first-not : (b c : Bool) → is_first (not b) (not c) ≡ is_first b c
is_first-not b c = ground arith

-- A payload that is pushed under the reversed key, with the other direction named, is handled
-- as under the key itself, unless the two ends of the connection are the same.
pub push_payload-swap_ends :
    (now : ℕ) (key : FlowKey) (payload : List ℕ) (seq : ℕ) (is_client_to_server : Bool)
    (r : TcpReassembler)
    → (key ≢ swap_ends key)
    → push_payload now (swap_ends key) payload seq (not is_client_to_server) r
      ≡ push_payload now key payload seq is_client_to_server r
unfolding push_payload
push_payload-swap_ends now key payload seq c r apart =
    rw (canonical-swap_ends key apart, is_first-not c (canonical key).1) refl

-- The two streams of a connection, as the table has them.
abbrev pub streams_of : ℕ → FlowKey → TcpReassembler → FlowStream × FlowStream
streams_of now key r = lookup_or (canonical key).0 (new_stream now, new_stream now) r.streams

abbrev pub stream_of : ℕ → FlowKey → Bool → TcpReassembler → FlowStream
stream_of now key is_client_to_server r =
    if is_first is_client_to_server (canonical key).1
    then (streams_of now key r).0
    else (streams_of now key r).1

is_first-other : (b c : Bool) → is_first (not b) c ≡ not (is_first b c)
is_first-other b c = ground arith

lookup-insert_other :
    (k j : FlowKey) (v : FlowStream × FlowStream) (r : TcpReassembler)
    → j ≢ k
    → lookup j (insert k v r.streams) ≡ lookup j r.streams
lookup-insert_other k j v r apart =
    ground
      (arith, lookup-insert k j v r.streams, flow_key_eq.same_iff k j, λ (e : k ≡ j). apart (sym e))

-- A payload goes to the stream of its own direction and leaves the other direction of the
-- connection, and any other connection, as they were.
pub push_payload-stream_of :
    (now : ℕ) (key : FlowKey) (payload : List ℕ) (seq : ℕ) (c : Bool) (r : TcpReassembler)
    (other : FlowKey)
    → (canonical other).0 ≢ (canonical key).0
    → let (got, t) = push_payload now key payload seq c r in
      let (expected, s) =
        push now seq payload r.yield_threshold r.max_buffer_size (stream_of now key c r) in
      (got ≡ expected)
      × (stream_of now key c t ≡ s)
      × (stream_of now key (not c) t ≡ stream_of now key (not c) r)
      × (lookup (canonical other).0 t.streams ≡ lookup (canonical other).0 r.streams)
unfolding push_payload
push_payload-stream_of now key payload seq c r other apart =
    elim (Bool-cases (is_first c (canonical key).1)) [
      | inl e ↦
          rw (e, is_first-other c (canonical key).1, e, lookup-insert_self)
            (refl, refl, refl, lookup-insert_other _ _ _ r apart)
      | inr e ↦
          rw (e, is_first-other c (canonical key).1, e, lookup-insert_self)
            (refl, refl, refl, lookup-insert_other _ _ _ r apart)
    ]
