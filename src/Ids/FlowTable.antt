-- ===== src/Ids/FlowTable.antt =====
-- crates/thor-agent/src/ids/flow.rs: statistics, entries and the flow table. Instants and durations
-- are nanoseconds. A call reads the clock at its start, and again for its last checks.
pub mod Table
pub mod Handshake
pub mod Anomalies
pub mod Floods
mod Tests
use thor_firewall_smart.Prelude.{
  ℕ, ◌+◌, ◌-◌, ◌*◌, ◌/◌, ◌%◌, ◌^◌, Bool, true, false, not, ◌&&◌, ◌||◌, Option, none, some, String,
  List, [], ◌∷◌, ◌++◌, ltb, leb, ◌==◌, nat_eq, if◌then◌else◌, length, filterb,
}
use thor_firewall_smart.Prelude.Dict.{Dict, lookup, lookup_or, insert, retain}
use thor_firewall_smart.Prelude.F64.{F64}
use thor_firewall_smart.Ids.Flow.{
  TcpState, syn_sent, established, is_closed, is_half_open, TcpFlags, is_syn_only, is_syn_ack,
  FlowDir, client_to_server, server_to_client, FlowKey, flow_key, flow_key_eq, canonical,
  apply_state,
}

pub record FlowStats (F : Type 0) : Type 0 where
  pub packets_c2s : ℕ
  pub packets_s2c : ℕ
  pub bytes_c2s : ℕ
  pub bytes_s2c : ℕ
  pub last_packet : Option ℕ
  pub start_time : Option ℕ
  pub ema_ipd_ms : F

pub record FlowEntry (F : Type 0) : Type 0 where
  pub key : FlowKey
  pub state : TcpState
  pub stats : FlowStats F
  pub created_at : ℕ
  pub last_seen : ℕ
  pub app_proto : Option String

pub data FlowAnomaly : Type 0 where
  syn_flood port_scan pps_spike bps_spike long_idle rst_storm : FlowAnomaly

pub record FlowTable (F : Type 0) : Type 0 where
  pub flows : Dict FlowKey (FlowEntry F)
  pub tcp_timeout : ℕ
  pub udp_timeout : ℕ
  pub half_open : Dict ℕ ℕ
  pub syn_flood_thr : ℕ

abbrev pub second : ℕ
second = 1_000_000_000

abbrev pub forward : FlowDir → Bool
forward client_to_server = true
forward server_to_client = false

-- One more half-open connection of an address; a `u32` that wraps.
pub count_syn : ℕ → Dict ℕ ℕ → ℕ
count_syn ip half = (lookup_or ip 0 half + 1) % 2 ^ 32

-- `saturating_sub(1)` where the address has a counter.
pub release_half_open : ℕ → Dict ℕ ℕ → Dict ℕ ℕ
release_half_open ip half = elim (lookup ip half) [ none ↦ half | some c ↦ insert ip (c - 1) half ]

module _ {F : Type 0} where
  abbrev pub new_table : FlowTable F
  new_table = record {
    flows = [];
    tcp_timeout = 30 * second;
    udp_timeout = 10 * second;
    half_open = [];
    syn_flood_thr = 100;
  }

  pub total_packets : FlowStats F → ℕ
  total_packets s = (s.packets_c2s + s.packets_s2c) % 2 ^ 64

  pub total_bytes : FlowStats F → ℕ
  total_bytes s = (s.bytes_c2s + s.bytes_s2c) % 2 ^ 64

  -- The last `match` of `record_packet`.
  pub count_packet : FlowDir → ℕ → FlowStats F → FlowStats F
  count_packet client_to_server bytes s = record s {
    packets_c2s = (s.packets_c2s + 1) % 2 ^ 64;
    bytes_c2s = (s.bytes_c2s + bytes) % 2 ^ 64;
  }
  count_packet server_to_client bytes s = record s {
    packets_s2c = (s.packets_s2c + 1) % 2 ^ 64;
    bytes_s2c = (s.bytes_s2c + bytes) % 2 ^ 64;
  }

  pub apply_flags : ℕ → TcpFlags → FlowDir → FlowEntry F → FlowEntry F
  apply_flags now flags dir e = record e { last_seen = now; state = apply_state e.state dir flags }

  -- The test of `retain` in `sweep_expired`.
  pub is_live : FlowTable F → ℕ → FlowKey → FlowEntry F → Bool
  is_live t now k e =
      if is_closed e.state
      then false
      else ltb (now - e.last_seen) (if k.protocol == 6 then t.tcp_timeout else t.udp_timeout)

  unfoldable pub sweep_expired : ℕ → FlowTable F → FlowTable F × ℕ
  sweep_expired now t =
      let kept = retain (is_live t now) t.flows in
      (record t { flows = kept }, length t.flows - length kept)

  unfoldable pub half_open_count : FlowTable F → ℕ
  half_open_count t = length (filterb (λ e. is_half_open e.1.state) t.flows)

  unfoldable pub get_flow_stats : (src dst sport dport : ℕ) → FlowTable F → Option (FlowStats F)
  get_flow_stats src dst sport dport t =
      elim (lookup (canonical (flow_key src dst sport dport 6)).0 t.flows) [
        | none ↦ none
        | some e ↦ some e.stats
      ]

module _ (f : F64) where
  open f use {F, literal, of_ℕ, add, mul, div, lt}

  pub new_entry : ℕ → FlowKey → FlowEntry F
  new_entry now key = record {
    key = key;
    state = syn_sent;
    stats = record {
      packets_c2s = 0;
      packets_s2c = 0;
      bytes_c2s = 0;
      bytes_s2c = 0;
      last_packet = none;
      start_time = none;
      ema_ipd_ms = literal 0 0;
    };
    created_at = now;
    last_seen = now;
    app_proto = none;
  }

  -- The moving average of the delay between packets, or the start time.
  pub record_delay : ℕ → FlowStats F → FlowStats F
  record_delay now s = elim s.last_packet [
    | none ↦ record s { start_time = some now; last_packet = some now }
    | some last ↦ record s {
      ema_ipd_ms =
          add (mul (literal 875 3) s.ema_ipd_ms)
            (mul (literal 125 3) (of_ℕ ((now - last) / 1_000_000)));
      last_packet = some now;
    }
  ]

  pub record_packet : ℕ → FlowDir → ℕ → FlowStats F → FlowStats F
  record_packet now dir bytes s = count_packet dir bytes (record_delay now s)

  pub as_secs_f64 : ℕ → F
  as_secs_f64 d = add (of_ℕ (d / second)) (div (of_ℕ (d % second)) (of_ℕ second))

  -- `pps` and `bps`: a total per second since the start.
  pub rate : ℕ → Option ℕ → ℕ → F
  rate total none now = literal 0 0
  rate total (some start) now =
      let elapsed = as_secs_f64 (now - start) in
      if lt (literal 0 0) elapsed then div (of_ℕ total) elapsed else literal 0 0

  pub pps : ℕ → FlowStats F → F
  pps now s = rate (total_packets s) s.start_time now

  pub bps : ℕ → FlowStats F → F
  bps now s = rate (total_bytes s) s.start_time now

  -- The rate checks at the end of `record_tcp`.
  pub rate_anomalies : ℕ → FlowEntry F → List FlowAnomaly
  rate_anomalies later e =
      (if lt (literal 10_000 0) (pps later e.stats) then pps_spike ∷ [] else [])
      ++ ((if lt (literal 100_000_000 0) (bps later e.stats) then bps_spike ∷ [] else [])
          ++ (if ltb (300 * second) (later - e.last_seen) then long_idle ∷ [] else []))

  -- The body of `record_tcp` at the canonical key and direction.
  unfoldable pub record_at :
      ℕ → ℕ → FlowKey → FlowDir → TcpFlags → ℕ → FlowTable F → FlowTable F × List FlowAnomaly
  record_at now later key dir flags payload_len t =
      let old = lookup_or key (new_entry now key) t.flows in
      let entry =
        apply_flags now flags dir
          (record old { stats = record_packet now dir payload_len old.stats }) in
      let counted = is_syn_only flags && forward dir in
      let count = count_syn key.src_ip t.half_open in
      let half = if counted then insert key.src_ip count t.half_open else t.half_open in
      let released = (is_syn_ack flags || flags.rst) && is_half_open old.state in
      (
        record t {
          flows = insert key entry t.flows;
          half_open = if released then release_half_open key.src_ip half else half;
        },
        (if counted && leb t.syn_flood_thr count then syn_flood ∷ [] else [])
            ++ rate_anomalies later entry,
      )

  unfoldable pub record_tcp :
      ℕ
      → ℕ
      → (src dst sport dport : ℕ) → TcpFlags
      → ℕ
      → FlowTable F
      → FlowTable F × List FlowAnomaly
  record_tcp now later src dst sport dport flags payload_len t =
      let (key, dir) = canonical (flow_key src dst sport dport 6) in
      record_at now later key dir flags payload_len t

  unfoldable pub record_udp : ℕ → (src dst sport dport : ℕ) → ℕ → FlowTable F → FlowTable F
  record_udp now src dst sport dport payload_len t =
      let raw = flow_key src dst sport dport 17 in
      let (key, dir) = canonical raw in
      let old = lookup_or key (record (new_entry now raw) { state = established }) t.flows in
      record t {
        flows =
            insert key
              (record old { stats = record_packet now dir payload_len old.stats; last_seen = now })
              t.flows;
      }
