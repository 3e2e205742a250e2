-- ===== src/Network/Reassembler.antt =====
-- crates/thor-agent/src/network/reassembler.rs: the stream of one direction, and the table of
-- streams. Instants are nanoseconds, sequence numbers are taken modulo 2 ^ 32, a byte is a number.
pub mod Runs
pub mod Prefix
pub mod Complete
pub mod Bounded
pub mod Limits
pub mod Overtaken
pub mod Directions
mod Tests
use thor_firewall_smart.Prelude.{
  ℕ, ◌+◌, ◌-◌, ◌*◌, ◌%◌, ◌^◌, ◌≡◌, ◌↔◌, Bool, true, false, not, ◌&&◌, ◌||◌, Option, none, some,
  List, [], ◌∷◌, ◌++◌, arith, length, ltb, leb, if◌then◌else◌, ◌==◌, nat_eq, nat_beq_iff, PartialEq,
}
use thor_firewall_smart.Prelude.Dict.{Dict, lookup, lookup_or, insert, remove, retain}

pub record FlowKey : Type 0 where
  pub src_ip : ℕ
  pub dst_ip : ℕ
  pub src_port : ℕ
  pub dst_port : ℕ
  pub protocol : ℕ

abbrev pub same_key : FlowKey → FlowKey → Bool
same_key k l =
    k.src_ip == l.src_ip
    && k.dst_ip == l.dst_ip
    && k.src_port == l.src_port
    && k.dst_port == l.dst_port
    && k.protocol == l.protocol

pub same_key_iff : (k l : FlowKey) → (same_key k l ≡ true) ↔ (k ≡ l)
same_key_iff k l = ground arith

instance abbrev pub flow_key_eq : PartialEq FlowKey
flow_key_eq = record { same = same_key; same_iff = same_key_iff }

-- The key with the lower end first, and whether it is the key itself.
unfoldable pub canonical : FlowKey → FlowKey × Bool
canonical k =
    if ltb k.src_ip k.dst_ip || k.src_ip == k.dst_ip && leb k.src_port k.dst_port
    then (k, true)
    else (
      record {
        src_ip = k.dst_ip;
        dst_ip = k.src_ip;
        src_port = k.dst_port;
        dst_port = k.src_port;
        protocol = k.protocol;
      },
      false,
    )

-- `BTreeMap<u32, Vec<u8>>`: the entries by rising key.
abbrev pub Segments : Type 0
Segments = List (ℕ × List ℕ)

unfoldable pub insert_sorted : ℕ → List ℕ → Segments → Segments
insert_sorted k v [] = (k, v) ∷ []
insert_sorted k v ((j, w) ∷ m) =
    if ltb k j
    then (k, v) ∷ (j, w) ∷ m
    else if k == j
    then (j, v) ∷ m
    else (j, w) ∷ insert_sorted k v m

pub record FlowStream : Type 0 where
  pub ooo_buffer : Segments
  pub next_seq : Option ℕ
  pub assembled : List ℕ
  pub last_seen : ℕ
  pub total_bytes : ℕ

abbrev pub new_stream : ℕ → FlowStream
new_stream now = record {
  ooo_buffer = [];
  next_seq = none;
  assembled = [];
  last_seen = now;
  total_bytes = 0;
}

abbrev pub wrapping_add : ℕ → ℕ → ℕ
wrapping_add a b = (a + b) % 2 ^ 32

abbrev pub wrapping_sub : ℕ → ℕ → ℕ
wrapping_sub a b = (a + 2 ^ 32 - b) % 2 ^ 32

-- The stream after a segment that begins where the last one ended, at `seq`.
abbrev pub append_segment : ℕ → List ℕ → FlowStream → FlowStream
append_segment seq data_ s = record s {
  assembled = s.assembled ++ data_;
  total_bytes = s.total_bytes + length data_;
  next_seq = some (wrapping_add seq (length data_));
}

-- The loop takes the first entry as long as it is the expected one.
unfoldable pub drain_ooo : Segments → ℕ → FlowStream → FlowStream
drain_ooo [] expected s = record s { ooo_buffer = [] }
drain_ooo ((seq, data_) ∷ rest) expected s =
    let more = drain_ooo rest (wrapping_add expected (length data_)) (append_segment seq data_ s) in
    if seq == expected then more else record s { ooo_buffer = (seq, data_) ∷ rest }

-- The `match` on the next expected number.
unfoldable pub accept : ℕ → List ℕ → Option ℕ → FlowStream → FlowStream
accept seq data_ none s = append_segment seq data_ s
accept seq data_ (some expected) s =
    if seq == expected
    then drain_ooo s.ooo_buffer (wrapping_add expected (length data_)) (append_segment seq data_ s)
    else if ltb (wrapping_sub seq expected) 0x8000_0000
    then record s { ooo_buffer = insert_sorted seq data_ s.ooo_buffer }
    else s

-- `split`, and the count of what is left.
abbrev pub split : FlowStream → Option (List ℕ) × FlowStream
split s = (some s.assembled, record s { assembled = []; total_bytes = 0 })

unfoldable pub yield_or_keep : ℕ → ℕ → FlowStream → Option (List ℕ) × FlowStream
yield_or_keep yield_at cap s =
    if ltb cap s.total_bytes
    then split s
    else if leb yield_at (length s.assembled)
    then split s
    else (none, s)

unfoldable pub push : ℕ → ℕ → List ℕ → ℕ → ℕ → FlowStream → Option (List ℕ) × FlowStream
push now seq [] yield_at cap s = (none, record s { last_seen = now })
push now seq (b ∷ bs) yield_at cap s =
    let t = record s { last_seen = now } in
    yield_or_keep yield_at cap (accept seq (b ∷ bs) t.next_seq t)

unfoldable pub flush : FlowStream → Option (List ℕ) × FlowStream
flush s = elim s.assembled [
  | [] ↦ (none, s)
  | b ∷ bs ↦ (some s.assembled, record s { assembled = []; total_bytes = 0 })
]

abbrev pub is_stale : ℕ → ℕ → FlowStream → Bool
is_stale now timeout s = ltb timeout (now - s.last_seen)

pub record TcpReassembler : Type 0 where
  pub streams : Dict FlowKey (FlowStream × FlowStream)
  pub max_buffer_size : ℕ
  pub yield_threshold : ℕ
  pub timeout : ℕ

abbrev pub new_reassembler : TcpReassembler
new_reassembler = record {
  streams = [];
  max_buffer_size = 64 * 1024;
  yield_threshold = 512;
  timeout = 60 * 1_000_000_000;
}

unfoldable pub with_yield_threshold : ℕ → TcpReassembler → TcpReassembler
with_yield_threshold bytes r = record r { yield_threshold = bytes }

-- Which of the two streams of an entry a payload belongs to.
abbrev pub is_first : Bool → Bool → Bool
is_first true forward = forward
is_first false forward = not forward

unfoldable pub push_payload :
    ℕ → FlowKey → List ℕ → ℕ → Bool → TcpReassembler → Option (List ℕ) × TcpReassembler
push_payload now key payload seq is_client_to_server r =
    let (k, forward) = canonical key in
    let (c2s, s2c) = lookup_or k (new_stream now, new_stream now) r.streams in
    let first = push now seq payload r.yield_threshold r.max_buffer_size c2s in
    let second = push now seq payload r.yield_threshold r.max_buffer_size s2c in
    if is_first is_client_to_server forward
    then (first.0, record r { streams = insert k (first.1, s2c) r.streams })
    else (second.0, record r { streams = insert k (c2s, second.1) r.streams })

unfoldable pub close_flow : FlowKey → Bool → TcpReassembler → Option (List ℕ) × TcpReassembler
close_flow key is_client_to_server r =
    let (k, forward) = canonical key in
    elim (lookup k r.streams) [
      | none ↦ (none, r)
      | some (c2s, s2c) ↦
          if is_first is_client_to_server forward
          then ((flush c2s).0, record r { streams = insert k ((flush c2s).1, s2c) r.streams })
          else ((flush s2c).0, record r { streams = insert k (c2s, (flush s2c).1) r.streams })
    ]

unfoldable pub remove_flow : FlowKey → TcpReassembler → TcpReassembler
remove_flow key r = record r { streams = remove (canonical key).0 r.streams }

unfoldable pub cleanup_stale_flows : ℕ → TcpReassembler → TcpReassembler
cleanup_stale_flows now r = record r {
  streams =
      retain (λ _ ss. not (is_stale now r.timeout ss.0) || not (is_stale now r.timeout ss.1))
        r.streams;
}
