-- ===== src/Network/Reassembler/Bounded.antt =====
-- crates/thor-agent/src/network/reassembler.rs: the threshold and the cap of one stream.
use thor_firewall_smart.Prelude.{
  ℕ, ◌≡◌, ◌≤◌, ◌<◌, refl, sym, subst, Option, none, some, List, [], ◌∷◌, arith, length,
  length-append, ltb, leb, Bool-cases, inl, inr, nat_eq,
}
use thor_firewall_smart.Network.Reassembler.{
  flow_key_eq, Segments, FlowStream, append_segment, drain_ooo, accept, split, yield_or_keep, push,
  flush, wrapping_add,
}

-- The count is that of the assembled bytes, which stay below the threshold and within the cap.
pub record IsBounded (yield_at cap : ℕ) (s : FlowStream) : Type 0 where
  pub count_lem : s.total_bytes ≡ length s.assembled
  pub below : length s.assembled < yield_at
  pub within : length s.assembled ≤ cap

drain_ooo-count :
    (m : Segments) (e : ℕ) (s : FlowStream)
    → s.total_bytes ≡ length s.assembled
    → let t = drain_ooo m e s in t.total_bytes ≡ length t.assembled
unfolding drain_ooo
drain_ooo-count [] e s h = h
drain_ooo-count ((q, w) ∷ m) e s h = ground (
  arith,
  drain_ooo-count m (wrapping_add e (length w)) (append_segment q w s),
  length-append s.assembled w,
)

accept-count :
    (seq : ℕ) (payload : List ℕ) (next : Option ℕ) (s : FlowStream)
    → s.total_bytes ≡ length s.assembled
    → let t = accept seq payload next s in t.total_bytes ≡ length t.assembled
unfolding accept
accept-count seq payload none s h = omega (arith, length-append s.assembled payload)
accept-count seq payload (some e) s h = ground (
  arith,
  length-append s.assembled payload,
  drain_ooo-count s.ooo_buffer (wrapping_add e (length payload)) (append_segment seq payload s),
)

yield_or_keep-IsBounded :
    (yield_at cap : ℕ) (s : FlowStream)
    → 0 < yield_at
    → s.total_bytes ≡ length s.assembled
    → IsBounded yield_at cap (yield_or_keep yield_at cap s).1
unfolding yield_or_keep
yield_or_keep-IsBounded yield_at cap s positive h = elim (Bool-cases (ltb cap s.total_bytes)) [
  | inl over ↦ rw over handed
  | inr fits ↦ elim (Bool-cases (leb yield_at (length s.assembled))) [
    | inl enough ↦ rw (fits, enough) handed
    | inr few ↦
        rw (fits, few)
          record { count_lem = h; below = ground (arith, few); within = ground (arith, fits, h) }
  ]
]
  where
    handed : IsBounded yield_at cap (split s).1
    handed = record { count_lem = refl; below = positive; within = omega arith }

pub push-IsBounded :
    (now seq yield_at cap : ℕ) (payload : List ℕ) (s : FlowStream)
    → 0 < yield_at
    → IsBounded yield_at cap s
    → IsBounded yield_at cap (push now seq payload yield_at cap s).1
unfolding push
push-IsBounded now seq yield_at cap [] s positive b = record {
  count_lem = b.count_lem;
  below = b.below;
  within = b.within;
}
push-IsBounded now seq yield_at cap (x ∷ xs) s positive b =
    yield_or_keep-IsBounded yield_at cap _ positive
      (accept-count seq (x ∷ xs) s.next_seq (record s { last_seen = now }) b.count_lem)

pub flush-IsBounded :
    (yield_at cap : ℕ) (s : FlowStream)
    → 0 < yield_at
    → IsBounded yield_at cap s
    → IsBounded yield_at cap (flush s).1
unfolding flush
flush-IsBounded yield_at cap s positive b =
    subst (IsBounded yield_at cap) (sym flushed)
      record { count_lem = refl; below = positive; within = omega arith }
  where
    flushed : (flush s).1 ≡ record s { assembled = []; total_bytes = 0 }
    flushed = ground (arith, b.count_lem)
