-- ===== src/Ids/FlowTable/Table.antt =====
-- crates/thor-agent/src/ids/flow.rs: the table holds one entry for a connection, and the sweep
-- removes what is closed or idle.
use thor_firewall_smart.Prelude.{
  ℕ, ◌+◌, ◌-◌, ◌<◌, ◌↔◌, ◌%◌, ◌^◌, ◌≡◌, refl, Bool, true, false, some, List, [], ◌∷◌, arith, length,
  if◌then◌else◌, ◌==◌, nat_eq,
}
use thor_firewall_smart.Prelude.Dict.{Dict, lookup, insert, retain}
use thor_firewall_smart.Prelude.Dict.Laws.{
  IsDistinct, insert-IsDistinct, retain-IsDistinct, lookup-retain, length-retain,
}
use thor_firewall_smart.Prelude.F64.{F64}
use thor_firewall_smart.Ids.Flow.{
  FlowKey, flow_key, flow_key_eq, FlowDir, TcpFlags, client_to_server, server_to_client, canonical,
  is_forward, is_closed,
}
use thor_firewall_smart.Ids.FlowTable.{
  FlowStats, FlowEntry, FlowTable, new_table, total_packets, total_bytes, count_packet,
  record_delay, record_packet, record_at, record_tcp, record_udp, sweep_expired, is_live,
}

-- Every key of the table is canonical.
abbrev pub AllForward {ℓ} : {V : Type ℓ} → Dict FlowKey V → Type 0
AllForward [] = Unit
AllForward ((k, v) ∷ m) = (is_forward k ≡ true) × AllForward m

module _ {ℓ} {V : Type ℓ} where
  insert-AllForward :
      (k : FlowKey) (v : V) (m : Dict FlowKey V)
      → is_forward k ≡ true
      → AllForward m
      → AllForward (insert k v m)
  unfolding insert
  insert-AllForward k v [] h a = (h, tt)
  insert-AllForward k v ((i, w) ∷ m) h a = ground (arith, insert-AllForward k v m h a.1)

  retain-AllForward :
      (p : FlowKey → V → Bool) (m : Dict FlowKey V) → AllForward m → AllForward (retain p m)
  unfolding retain
  retain-AllForward p [] a = tt
  retain-AllForward p ((i, w) ∷ m) a = ground (arith, retain-AllForward p m a.1)

canonical-forward : (k : FlowKey) → is_forward (canonical k).0 ≡ true
unfolding canonical
canonical-forward k = ground arith

pub record IsNormal {F : Type 0} (t : FlowTable F) : Type 0 where
  pub distinct : IsDistinct t.flows
  pub all_forward : AllForward t.flows

-- The calls that change the table.
pub data FlowCall : Type 0 where
  tcp : (now later src dst sport dport : ℕ) → TcpFlags → ℕ → FlowCall
  udp : (now src dst sport dport payload_len : ℕ) → FlowCall
  sweep : ℕ → FlowCall

module _ (f : F64) where
  open f use {F}

  pub step : FlowCall → FlowTable F → FlowTable F
  step (tcp now later src dst sport dport flags len) t =
      (record_tcp f now later src dst sport dport flags len t).0
  step (udp now src dst sport dport len) t = record_udp f now src dst sport dport len t
  step (sweep now) t = (sweep_expired now t).0

  pub run : List FlowCall → FlowTable F → FlowTable F
  run [] t = t
  run (c ∷ cs) t = run cs (step c t)

  step-IsNormal : (c : FlowCall) (t : FlowTable F) → IsNormal t → IsNormal (step c t)
  unfolding step record_tcp record_at record_udp sweep_expired
  step-IsNormal (tcp now later src dst sport dport flags len) t v =
      let k = (canonical (flow_key src dst sport dport 6)).0 in
      record {
        distinct = insert-IsDistinct k _ t.flows v.distinct;
        all_forward = insert-AllForward k _ t.flows (canonical-forward _) v.all_forward;
      }
  step-IsNormal (udp now src dst sport dport len) t v =
      let k = (canonical (flow_key src dst sport dport 17)).0 in
      record {
        distinct = insert-IsDistinct k _ t.flows v.distinct;
        all_forward = insert-AllForward k _ t.flows (canonical-forward _) v.all_forward;
      }
  step-IsNormal (sweep now) t v = record {
    distinct = retain-IsDistinct (is_live t now) t.flows v.distinct;
    all_forward = retain-AllForward (is_live t now) t.flows v.all_forward;
  }

  run-IsNormal : (cs : List FlowCall) (t : FlowTable F) → IsNormal t → IsNormal (run cs t)
  unfolding run
  run-IsNormal [] t v = v
  run-IsNormal (c ∷ cs) t v = run-IsNormal cs (step c t) (step-IsNormal c t v)

  -- After any history of calls the keys of the table are distinct, and the lower end of each comes
  -- first: the two directions of a connection never have two entries.
  pub run-new_table-IsNormal : (cs : List FlowCall) → IsNormal (run cs new_table)
  run-new_table-IsNormal cs = run-IsNormal cs new_table (record { distinct = tt; all_forward = tt })

  -- A packet adds one to the total of packets and its length to the total of bytes, as `u64`.
  pub record_packet-totals :
      (now bytes : ℕ) (dir : FlowDir) (s : FlowStats F)
      → (total_packets (record_packet f now dir bytes s) ≡ (total_packets s + 1) % 2 ^ 64)
        × (total_bytes (record_packet f now dir bytes s) ≡ (total_bytes s + bytes) % 2 ^ 64)
  unfolding total_packets total_bytes record_packet record_delay count_packet
  record_packet-totals now bytes client_to_server s = ground arith
  record_packet-totals now bytes server_to_client s = ground arith

module _ {F : Type 0} where
  -- The idle time that a flow is granted.
  abbrev pub timeout : FlowTable F → FlowKey → ℕ
  timeout t k = if k.protocol == 6 then t.tcp_timeout else t.udp_timeout

  -- A flow is in the table after the sweep exactly if it was, is not closed, and has been idle for
  -- less than the time of its protocol. The sweep tells how many it removed, and leaves the
  -- counters of half-open connections as they were.
  pub sweep_expired_lem :
      (now : ℕ) (t : FlowTable F) (k : FlowKey) (e : FlowEntry F)
      → IsDistinct t.flows
      → let (u, removed) = sweep_expired now t in
        ((lookup k u.flows ≡ some e) ↔ (
          (lookup k t.flows ≡ some e)
          × (is_closed e.state ≡ false)
          × (now - e.last_seen < timeout t k)))
        × (removed + length u.flows ≡ length t.flows)
        × (u.half_open ≡ t.half_open)
  unfolding sweep_expired is_live
  sweep_expired_lem now t k e d = (
    ground (arith, lookup-retain (is_live t now) k t.flows d),
    omega (arith, length-retain (is_live t now) t.flows),
    refl,
  )
