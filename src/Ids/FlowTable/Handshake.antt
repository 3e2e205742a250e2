-- ===== src/Ids/FlowTable/Handshake.antt =====
-- crates/thor-agent/src/ids/flow.rs: the table runs the state machine of each flow on that flow's
-- packets alone, and what the order of the addresses does to the handshake.
use thor_firewall_smart.Prelude.{
  ℕ, ◌≤◌, ◌≡◌, ◌≢◌, refl, ◌∙◌, true, false, none, some, List, [], ◌∷◌, arith, ap, same→eq,
  same_refl, Bool-cases, inl, inr, if◌then◌else◌, ◌==◌,
}
use thor_firewall_smart.Prelude.Dict.{Dict, lookup, lookup_or, insert}
use thor_firewall_smart.Prelude.Dict.Laws.{lookup-insert}
use thor_firewall_smart.Prelude.F64.{F64}
use thor_firewall_smart.Ids.Flow.{
  TcpState, syn_sent, established, reset, FlowKey, flow_key, flow_key_eq, swap_ends, FlowDir,
  TcpFlags, client_to_server, server_to_client, canonical, is_forward, is_syn_only, is_syn_ack,
  is_ack_only, apply_state, apply_all,
}
use thor_firewall_smart.Ids.Flow.Machine.{stage, has_handshake, syn_sent-handshake}
use thor_firewall_smart.Ids.FlowTable.{
  FlowEntry, FlowTable, new_table, new_entry, apply_flags, record_at, record_tcp,
}

-- A TCP packet as it is handed to the table.
pub record Packet : Type 0 where
  pub now : ℕ
  pub later : ℕ
  pub src : ℕ
  pub dst : ℕ
  pub sport : ℕ
  pub dport : ℕ
  pub flags : TcpFlags
  pub payload_len : ℕ

abbrev pub raw_key : Packet → FlowKey
raw_key p = flow_key p.src p.dst p.sport p.dport 6

-- The state of a flow; a flow that is not in the table has not begun.
abbrev pub state_in : {F : Type 0} → FlowKey → Dict FlowKey (FlowEntry F) → TcpState
state_in k m = elim (lookup k m) [ none ↦ syn_sent | some e ↦ e.state ]

abbrev pub state_of : {F : Type 0} → FlowKey → FlowTable F → TcpState
state_of k t = state_in k t.flows

state_in-insert :
    {F : Type 0} (key k : FlowKey) (e : FlowEntry F) (m : Dict FlowKey (FlowEntry F))
    → state_in k (insert key e m) ≡ (if key == k then e.state else state_in k m)
state_in-insert key k e m = ground (arith, lookup-insert key k e m)

if_eq :
    (key k : FlowKey) (g : FlowKey → TcpState) (x : TcpState)
    → (if key == k then g key else x) ≡ (if key == k then g k else x)
if_eq key k g x = elim (Bool-cases (key == k)) [
  | inl e ↦ rw (e) (ap g (same→eq key k e))
  | inr n ↦ rw n
]

-- The packets of one flow, with their directions.
abbrev pub packets_of : FlowKey → List Packet → List (FlowDir × TcpFlags)
packets_of k [] = []
packets_of k (p ∷ ps) =
    let (key, dir) = canonical (raw_key p) in
    if key == k then (dir, p.flags) ∷ packets_of k ps else packets_of k ps

apply_if :
    (key k : FlowKey) (dir : FlowDir) (flags : TcpFlags) (s : TcpState)
    (ps : List (FlowDir × TcpFlags))
    → apply_all (if key == k then apply_state s dir flags else s) ps
      ≡ apply_all s (if key == k then (dir, flags) ∷ ps else ps)
unfolding apply_all
apply_if key k dir flags s ps = elim (Bool-cases (key == k)) [ inl e ↦ rw e | inr n ↦ rw n ]

canonical_forward : (k : FlowKey) → is_forward k ≡ true → canonical k ≡ (k, client_to_server)
unfolding canonical
canonical_forward k h = rw h

canonical_backward :
    (k : FlowKey) → is_forward k ≡ false → canonical k ≡ (swap_ends k, server_to_client)
unfolding canonical
canonical_backward k h = rw h

swap_forward :
    (k : FlowKey) → k ≢ swap_ends k → is_forward k ≡ true → is_forward (swap_ends k) ≡ false
swap_forward k n h = ground arith

swap_backward : (k : FlowKey) → is_forward k ≡ false → is_forward (swap_ends k) ≡ true
swap_backward k h = ground arith

packets_of_three :
    (p q r : Packet) (c : FlowKey) (d e : FlowDir)
    → canonical (raw_key p) ≡ (c, d)
    → canonical (raw_key q) ≡ (c, e)
    → canonical (raw_key r) ≡ (c, d)
    → packets_of c (p ∷ q ∷ r ∷ []) ≡ (d, p.flags) ∷ (e, q.flags) ∷ (d, r.flags) ∷ []
packets_of_three p q r c d e hp hq hr = rw (hp, hq, hr, same_refl c)

module _ (f g h : TcpFlags) (syn : is_syn_only f ≡ true) (answer : is_syn_ack g ≡ true)
    (confirm : is_ack_only h ≡ true) where
  three_forward :
      apply_all syn_sent
        ((client_to_server, f) ∷ (server_to_client, g) ∷ (client_to_server, h) ∷ [])
      ≡ established
  unfolding apply_all apply_state
  three_forward = ground arith

  three_backward :
      apply_all syn_sent
        ((server_to_client, f) ∷ (client_to_server, g) ∷ (server_to_client, h) ∷ [])
      ≡ syn_sent
  unfolding apply_all apply_state
  three_backward = ground arith

module _ (f : F64) where
  open f use {F}

  unfoldable pub record_packets : List Packet → FlowTable F → FlowTable F
  record_packets [] t = t
  record_packets (p ∷ ps) t =
      record_packets ps
        (record_tcp f p.now p.later p.src p.dst p.sport p.dport p.flags p.payload_len t).0

  old-state :
      (now : ℕ) (key : FlowKey) (m : Dict FlowKey (FlowEntry F))
      → (lookup_or key (new_entry f now key) m).state ≡ state_in key m
  unfolding new_entry
  old-state now key m = ground arith

  state_of-record_at :
      (now later : ℕ) (key k : FlowKey) (dir : FlowDir) (flags : TcpFlags) (len : ℕ)
      (t : FlowTable F)
      → state_of k (record_at f now later key dir flags len t).0
        ≡ (if key == k then apply_state (state_of k t) dir flags else state_of k t)
  unfolding record_at apply_flags
  state_of-record_at now later key k dir flags len t =
      state_in-insert key k _ t.flows
      ∙ (rw (old-state now key t.flows)
          (if_eq key k (λ j. apply_state (state_in j t.flows) dir flags) (state_of k t)))

  -- Whatever packets of other flows come between, the state of a flow is what its own packets make
  -- of it.
  pub state_of-record_packets :
      (ps : List Packet) (k : FlowKey) (t : FlowTable F)
      → state_of k (record_packets ps t) ≡ apply_all (state_of k t) (packets_of k ps)
  unfolding record_packets record_tcp apply_all
  state_of-record_packets [] k t = refl
  state_of-record_packets (p ∷ ps) k t =
      let (key, dir) = canonical (raw_key p) in
      state_of-record_packets ps k _
      ∙ (rw (state_of-record_at p.now p.later key k dir p.flags p.payload_len t)
          (apply_if key k dir p.flags (state_of k t) (packets_of k ps)))

  -- A flow of a table that began empty is past the handshake, and not reset, only if its packets
  -- hold a SYN-ACK towards the lower end and, later, an ACK from there.
  pub record_packets-handshake :
      (ps : List Packet) (k : FlowKey)
      → let s = state_of k (record_packets ps new_table) in
        2 ≤ stage s → s ≢ reset → has_handshake (packets_of k ps) ≡ true
  unfolding lookup
  record_packets-handshake ps k h n =
      let e = state_of-record_packets ps k new_table in
      syn_sent-handshake (packets_of k ps) (rw e at h) (rw e at n)

  -- The three packets of a handshake establish a connection whose client is the lower end. They
  -- leave one whose client is the higher end as it was.
  pub record_packets_three :
      (p q r : Packet) (k : FlowKey) (t : FlowTable F)
      → k ≢ swap_ends k
      → raw_key p ≡ k
      → raw_key q ≡ swap_ends k
      → raw_key r ≡ k
      → is_syn_only p.flags ≡ true
      → is_syn_ack q.flags ≡ true
      → is_ack_only r.flags ≡ true
      → state_of (canonical k).0 t ≡ syn_sent
      → state_of (canonical k).0 (record_packets (p ∷ q ∷ r ∷ []) t)
        ≡ (if is_forward k then established else syn_sent)
  record_packets_three p q r k t ne ep eq er hp hq hr s = elim (Bool-cases (is_forward k)) [
    | inl e ↦
        let there = canonical_forward k e in
        let back = canonical_backward (swap_ends k) (swap_forward k ne e) in
        rw (state_of-record_packets, s, e, there)
          (rw
            (packets_of_three p q r k client_to_server server_to_client (rw ep there) (rw eq back)
              (rw er there))
            (three_forward p.flags q.flags r.flags hp hq hr))
    | inr e ↦
        let there = canonical_backward k e in
        let back = canonical_forward (swap_ends k) (swap_backward k e) in
        rw (state_of-record_packets, s, e, there)
          (rw
            (packets_of_three p q r (swap_ends k) server_to_client client_to_server (rw ep there)
              (rw eq back) (rw er there))
            (three_backward p.flags q.flags r.flags hp hq hr))
  ]
