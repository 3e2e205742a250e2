-- ===== src/Network/Reassembler/Overtaken.antt =====
-- crates/thor-agent/src/network/reassembler.rs: segments that are held back for good.
use mathlib.Core.List.{append_assoc, append-nil}
use thor_firewall_smart.Prelude.{
  ℕ, ◌+◌, ◌%◌, ◌^◌, ◌≡◌, ◌<◌, refl, sym, ap, subst, ◌∙◌, false, Option, some, List, [], ◌∷◌, ◌++◌,
  arith, length, All, ltb, leb, if◌then◌else◌, Bool-cases, inl, inr, ◌==◌, nat_eq, nat_beq_iff,
}
use thor_firewall_smart.Network.Reassembler.{
  Segments, FlowStream, append_segment, drain_ooo, accept, split, yield_or_keep, push, wrapping_add,
  wrapping_sub, insert_sorted,
}
use thor_firewall_smart.Network.Reassembler.Runs.{delivered, Arrival, push_all}

-- A segment at `low` is buffered, and the stream already expects a later number.
pub record IsOvertaken (low expected : ℕ) (s : FlowStream) : Type 0 where
  pub next_lem : s.next_seq ≡ some expected
  pub later : low < expected
  pub no_wrap : expected < 2 ^ 31
  pub held : List ℕ
  pub behind : Segments
  pub buffer_lem : s.ooo_buffer ≡ (low, held) ∷ behind

-- The segment ends before sequence number 2 ^ 31.
abbrev pub IsLow : Arrival → Type 0
IsLow a = a.seq + length a.payload < 2 ^ 31

-- What a segment that is the expected one brings, and what is expected after it.
abbrev pub gained : ℕ → Arrival → List ℕ
gained e a = if a.seq == e then a.payload else []

abbrev pub expected_after : ℕ → Arrival → ℕ
expected_after e a = if a.seq == e then wrapping_add e (length a.payload) else e

-- The bytes of the segments that are the expected one when they arrive.
abbrev pub gained_by : ℕ → List Arrival → List ℕ
gained_by e [] = []
gained_by e (a ∷ rest) = gained e a ++ gained_by (expected_after e a) rest

drain_ooo-overtaken :
    (low e : ℕ) (w : List ℕ) (m : Segments) (s : FlowStream)
    → low < e
    → drain_ooo ((low, w) ∷ m) e s ≡ record s { ooo_buffer = (low, w) ∷ m }
unfolding drain_ooo
drain_ooo-overtaken low e w m s h = rw not_next refl
  where
    not_next : (low == e) ≡ false
    not_next = ground arith

insert_sorted-overtaken :
    (low seq : ℕ) (w payload : List ℕ) (m : Segments)
    → low < seq
    → insert_sorted seq payload ((low, w) ∷ m) ≡ (low, w) ∷ insert_sorted seq payload m
unfolding insert_sorted
insert_sorted-overtaken low seq w payload m h = ground arith

-- What one segment makes of an overtaken stream.
abbrev Moves : ℕ → ℕ → Arrival → FlowStream → FlowStream → Type 0
Moves low e a s t =
    IsOvertaken low (expected_after e a) t × (t.assembled ≡ s.assembled ++ gained e a)

accept-IsOvertaken :
    (low e : ℕ) (a : Arrival) (s : FlowStream)
    → IsLow a
    → IsOvertaken low e s
    → Moves low e a s (accept a.seq a.payload (some e) s)
unfolding accept
accept-IsOvertaken low e a s low_a o =
    let n = length a.payload in
    elim (Bool-cases (a.seq == e)) [
      | inl at ↦
          let same_seq : a.seq ≡ e = (nat_beq_iff _ _).0 at in
          let plain : wrapping_add e n ≡ e + n = omega (arith, same_seq, low_a) in
          let t = append_segment a.seq a.payload s in
          rw (at, plain)
            (subst (Moves_at t)
              (sym (
                ap (λ m. drain_ooo m (e + n) t) o.buffer_lem
                ∙ drain_ooo-overtaken low (e + n) o.held o.behind t (omega (arith, o.later))))
              (
                record {
                  next_lem = ap some (omega (arith, same_seq, low_a));
                  later = omega (arith, o.later);
                  no_wrap = omega (arith, same_seq, low_a);
                  held = o.held;
                  behind = o.behind;
                  buffer_lem = refl;
                },
                refl,
              ))
      | inr not_next ↦ elim (Bool-cases (ltb (wrapping_sub a.seq e) 0x8000_0000)) [
        | inl ahead ↦
            rw (not_next, ahead)
              (
                record {
                  next_lem = o.next_lem;
                  later = o.later;
                  no_wrap = o.no_wrap;
                  held = o.held;
                  behind = insert_sorted a.seq a.payload o.behind;
                  buffer_lem =
                      ap (insert_sorted a.seq a.payload) o.buffer_lem
                      ∙ insert_sorted-overtaken low a.seq o.held a.payload o.behind
                          (ground (arith, ahead, not_next, o.later, o.no_wrap, low_a));
                },
                sym (append-nil s.assembled),
              )
        | inr past ↦ rw (not_next, past) (o, sym (append-nil s.assembled))
      ]
    ]
  where
    Moves_at : FlowStream → FlowStream → Type 0
    Moves_at t u = IsOvertaken low (e + length a.payload) u × (u.assembled ≡ t.assembled)

abbrev Handed : ℕ → ℕ → List ℕ → Option (List ℕ) × FlowStream → Type 0
Handed low e bytes r = IsOvertaken low e r.1 × (delivered r.0 ++ r.1.assembled ≡ bytes)

yield_or_keep-IsOvertaken :
    (yield_at cap low e : ℕ) (s : FlowStream)
    → IsOvertaken low e s
    → Handed low e s.assembled (yield_or_keep yield_at cap s)
unfolding yield_or_keep
yield_or_keep-IsOvertaken yield_at cap low e s o = elim (Bool-cases (ltb cap s.total_bytes)) [
  | inl over ↦ rw over (handed, append-nil s.assembled)
  | inr fits ↦ elim (Bool-cases (leb yield_at (length s.assembled))) [
    | inl enough ↦ rw (fits, enough) (handed, append-nil s.assembled)
    | inr few ↦ rw (fits, few) (o, refl)
  ]
]
  where
    handed : IsOvertaken low e (split s).1
    handed = record {
      next_lem = o.next_lem;
      later = o.later;
      no_wrap = o.no_wrap;
      held = o.held;
      behind = o.behind;
      buffer_lem = o.buffer_lem;
    }

at_later :
    (now low e : ℕ) (s : FlowStream)
    → IsOvertaken low e s
    → IsOvertaken low e (record s { last_seen = now })
at_later now low e s o = record {
  next_lem = o.next_lem;
  later = o.later;
  no_wrap = o.no_wrap;
  held = o.held;
  behind = o.behind;
  buffer_lem = o.buffer_lem;
}

push-IsOvertaken :
    (yield_at cap low e now seq : ℕ) (payload : List ℕ) (s : FlowStream)
    → let a : Arrival = record { now = now; seq = seq; payload = payload } in
      IsLow a
      → IsOvertaken low e s
      → Handed low
          (expected_after e a)
          (s.assembled ++ gained e a)
          (push now seq payload yield_at cap s)
unfolding push
push-IsOvertaken yield_at cap low e now seq [] s low_a o = elim (Bool-cases (seq == e)) [
  | inl at ↦ rw (at, same_e) (at_later now low e s o, sym (append-nil s.assembled))
  | inr n ↦ rw n (at_later now low e s o, sym (append-nil s.assembled))
]
  where
    same_e : (e + 0) % 2 ^ 32 ≡ e
    same_e = omega (arith, o.no_wrap)
push-IsOvertaken yield_at cap low e now seq (b ∷ bs) s low_a o =
    let a : Arrival = record { now = now; seq = seq; payload = b ∷ bs } in
    let t : FlowStream = record s { last_seen = now } in
    let u = accept seq (b ∷ bs) (some e) t in
    let (v, gains) = accept-IsOvertaken low e a t low_a (at_later now low e s o) in
    let (w, handed) = yield_or_keep-IsOvertaken yield_at cap low (expected_after e a) u v in
    subst
      (λ q.
        Handed low (expected_after e a) (s.assembled ++ gained e a)
          (yield_or_keep yield_at cap (accept seq (b ∷ bs) q t)))
      (sym o.next_lem) (w, handed ∙ gains)

-- Once a stream expects a number past a segment that it holds back (and none reaches 2 ^ 31), no
-- held-back segment is handed out any more, whatever arrives: a run adds the bytes of exactly the
-- segments that are the expected one when they arrive.
pub push_all-overtaken :
    (yield_at cap low e : ℕ) (arrivals : List Arrival) (s : FlowStream)
    → All IsLow arrivals
    → IsOvertaken low e s
    → let (got, t) = push_all yield_at cap arrivals s in
      got ++ t.assembled ≡ s.assembled ++ gained_by e arrivals
push_all-overtaken yield_at cap low e [] s low_all o = sym (append-nil s.assembled)
push_all-overtaken yield_at cap low e (a ∷ rest) s low_all o =
    let r = push a.now a.seq a.payload yield_at cap s in
    let (v, handed) = push-IsOvertaken yield_at cap low e a.now a.seq a.payload s low_all.0 o in
    let ih = push_all-overtaken yield_at cap low (expected_after e a) rest r.1 low_all.1 v in
    append_assoc (delivered r.0) _ _
    ∙ ap (λ z. delivered r.0 ++ z) ih
    ∙ sym (append_assoc (delivered r.0) r.1.assembled _)
    ∙ ap (λ z. z ++ gained_by (expected_after e a) rest) handed
    ∙ append_assoc s.assembled (gained e a) _
