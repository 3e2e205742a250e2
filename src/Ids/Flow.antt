-- ===== src/Ids/Flow.antt =====
-- crates/thor-agent/src/ids/flow.rs: keys, flags and the state machine of one flow.
pub mod Keys
pub mod Machine
use Prim.Native.Nat.{bit_and}
use thor_firewall_smart.Prelude.{
  ℕ, Bool, true, false, not, ◌&&◌, ◌||◌, ◌≡◌, ◌↔◌, ltb, leb, ◌==◌, nat_eq, nat_beq_iff,
  if◌then◌else◌, PartialEq, arith, List, [], ◌∷◌,
}

pub data TcpState : Type 0 where
  syn_sent syn_received established fin_wait1 fin_wait2 close_wait closing time_wait : TcpState
  closed reset : TcpState

unfoldable pub is_closed : TcpState → Bool
is_closed closed = true
is_closed reset = true
is_closed _ = false

unfoldable pub is_half_open : TcpState → Bool
is_half_open syn_sent = true
is_half_open syn_received = true
is_half_open _ = false

unfoldable pub is_active : TcpState → Bool
is_active closed = false
is_active reset = false
is_active _ = true

pub record TcpFlags : Type 0 where
  pub syn : Bool
  pub ack : Bool
  pub fin : Bool
  pub rst : Bool
  pub psh : Bool
  pub urg : Bool

unfoldable pub from_byte : ℕ → TcpFlags
from_byte byte = record {
  urg = not (bit_and byte 0x20 == 0);
  ack = not (bit_and byte 0x10 == 0);
  psh = not (bit_and byte 0x08 == 0);
  rst = not (bit_and byte 0x04 == 0);
  syn = not (bit_and byte 0x02 == 0);
  fin = not (bit_and byte 0x01 == 0);
}

abbrev pub is_syn_only : TcpFlags → Bool
is_syn_only f = f.syn && not f.ack && not f.fin && not f.rst

abbrev pub is_syn_ack : TcpFlags → Bool
is_syn_ack f = f.syn && f.ack && not f.fin && not f.rst

abbrev pub is_fin_ack : TcpFlags → Bool
is_fin_ack f = f.fin && f.ack && not f.rst

abbrev pub is_ack_only : TcpFlags → Bool
is_ack_only f = f.ack && not f.syn && not f.fin && not f.rst

pub data FlowDir : Type 0 where
  client_to_server server_to_client : FlowDir

pub record FlowKey : Type 0 where
  pub src_ip : ℕ
  pub dst_ip : ℕ
  pub src_port : ℕ
  pub dst_port : ℕ
  pub protocol : ℕ

abbrev pub flow_key : ℕ → ℕ → ℕ → ℕ → ℕ → FlowKey
flow_key src dst sport dport proto = record {
  src_ip = src;
  dst_ip = dst;
  src_port = sport;
  dst_port = dport;
  protocol = proto;
}

abbrev pub same_key : FlowKey → FlowKey → Bool
same_key k l =
    k.src_ip == l.src_ip
    && k.dst_ip == l.dst_ip
    && k.src_port == l.src_port
    && k.dst_port == l.dst_port
    && k.protocol == l.protocol

pub same_key_iff : (k l : FlowKey) → (same_key k l ≡ true) ↔ (k ≡ l)
same_key_iff k l = ground arith

instance abbrev pub flow_key_eq : PartialEq FlowKey
flow_key_eq = record { same = same_key; same_iff = same_key_iff }

-- The key with the two ends swapped.
abbrev pub swap_ends : FlowKey → FlowKey
swap_ends k = flow_key k.dst_ip k.src_ip k.dst_port k.src_port k.protocol

abbrev pub is_forward : FlowKey → Bool
is_forward k = ltb k.src_ip k.dst_ip || k.src_ip == k.dst_ip && leb k.src_port k.dst_port

unfoldable pub canonical : FlowKey → FlowKey × FlowDir
canonical k = if is_forward k then (k, client_to_server) else (swap_ends k, server_to_client)

-- The `match` of `apply_flags`.
unfoldable pub next_state : TcpState → FlowDir → TcpFlags → TcpState
next_state syn_sent server_to_client f = if is_syn_ack f then syn_received else syn_sent
next_state syn_received client_to_server f = if is_ack_only f then established else syn_received
next_state established client_to_server f = if f.fin then fin_wait1 else established
next_state fin_wait1 server_to_client f = if is_ack_only f then fin_wait2 else fin_wait1
next_state fin_wait2 server_to_client f = if f.fin then time_wait else fin_wait2
next_state time_wait d f = closed
next_state established server_to_client f = if f.fin then close_wait else established
next_state close_wait client_to_server f = if f.fin then closing else close_wait
next_state closing d f = closed
next_state s d f = s

-- The state after a packet.
unfoldable pub apply_state : TcpState → FlowDir → TcpFlags → TcpState
unfolding next_state
apply_state s d f = if f.rst then reset else next_state s d f

-- The state after the packets of a flow, oldest first.
unfoldable pub apply_all : TcpState → List (FlowDir × TcpFlags) → TcpState
apply_all s [] = s
apply_all s ((d, f) ∷ ps) = apply_all (apply_state s d f) ps
