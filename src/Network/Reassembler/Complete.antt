-- ===== src/Network/Reassembler/Complete.antt =====
-- crates/thor-agent/src/network/reassembler.rs: segments in order, and two that are swapped.
use mathlib.Core.List.{append_assoc, append-nil}
use thor_firewall_smart.Prelude.{
  ℕ, suc, ◌+◌, ◌%◌, ◌^◌, ◌<◌, ◌≡◌, refl, sym, ap, ◌∙◌, true, false, Option, some, List, [], ◌∷◌,
  ◌++◌, arith, length, ◌==◌, nat_eq, ltb, leb, Bool-cases, inl, inr, nat_beq_iff, lt→ltb,
}
use thor_firewall_smart.Network.Reassembler.{
  FlowStream, Segments, new_stream, insert_sorted, wrapping_add, wrapping_sub, drain_ooo, accept,
  yield_or_keep, push,
}
use thor_firewall_smart.Network.Reassembler.Runs.{delivered, Arrival, push_all}

-- The chunks of a stream as they arrive in order from sequence number `seq`.
abbrev pub in_order : ℕ → ℕ → List (List ℕ) → List Arrival
in_order now seq [] = []
in_order now seq (c ∷ cs) =
    record { now = now; seq = seq; payload = c }
    ∷ in_order (suc now) (wrapping_add seq (length c)) cs

abbrev pub joined : List (List ℕ) → List ℕ
joined [] = []
joined (c ∷ cs) = c ++ joined cs

-- A stream that expects `seq`.
abbrev pub expecting : ℕ → Segments → List ℕ → ℕ → ℕ → FlowStream
expecting seq buffer bytes now total = record {
  ooo_buffer = buffer;
  next_seq = some seq;
  assembled = bytes;
  last_seen = now;
  total_bytes = total;
}

-- Whether or not the assembled bytes are handed out, none is lost and the rest stays.
abbrev Keeps : ℕ → Segments → List ℕ → Option (List ℕ) × FlowStream → Type 0
Keeps seq buffer bytes r =
    (rest : List ℕ) × (now : ℕ) × (total : ℕ) × (r.1 ≡ expecting seq buffer rest now total)
    × (delivered r.0 ++ rest ≡ bytes)

yield_or_keep-Keeps :
    (yield_at cap seq now total : ℕ) (buffer : Segments) (bytes : List ℕ)
    → Keeps seq buffer bytes (yield_or_keep yield_at cap (expecting seq buffer bytes now total))
unfolding yield_or_keep
yield_or_keep-Keeps yield_at cap seq now total buffer bytes = elim (Bool-cases (ltb cap total)) [
  | inl over ↦ rw over ([], now, 0, refl, append-nil bytes)
  | inr fits ↦ elim (Bool-cases (leb yield_at (length bytes))) [
    | inl enough ↦ rw (fits, enough) ([], now, 0, refl, append-nil bytes)
    | inr few ↦ rw (fits, few) (bytes, now, total, refl, refl)
  ]
]

push-Keeps :
    (now seq yield_at cap last total : ℕ) (payload bytes : List ℕ)
    → seq < 2 ^ 32
    → Keeps
        (wrapping_add seq (length payload))
        []
        (bytes ++ payload)
        (push now seq payload yield_at cap (expecting seq [] bytes last total))
unfolding push accept drain_ooo
push-Keeps now seq yield_at cap last total [] bytes small =
    let same_seq : (seq + 0) % 2 ^ 32 ≡ seq = omega arith in
    (bytes, now, total, rw same_seq refl, sym (append-nil bytes))
push-Keeps now seq yield_at cap last total (b ∷ bs) bytes small =
    rw ((nat_beq_iff seq seq).1 refl) (
      yield_or_keep-Keeps yield_at cap (wrapping_add seq (length (b ∷ bs))) now
        (total + length (b ∷ bs)) [] (bytes ++ (b ∷ bs)))

-- What a further run makes of a stream that keeps the bytes.
after-Keeps :
    (more : FlowStream → List ℕ × FlowStream) (r : Option (List ℕ) × FlowStream) (seq : ℕ)
    (buffer : Segments) (bytes tail : List ℕ)
    → Keeps seq buffer bytes r
    → ((rest : List ℕ) (now total : ℕ)
        → let (got, t) = more (expecting seq buffer rest now total) in
          got ++ t.assembled ≡ rest ++ tail)
    → (delivered r.0 ++ (more r.1).0) ++ (more r.1).1.assembled ≡ bytes ++ tail
after-Keeps more r seq buffer bytes tail (rest, now, total, e, kept) after =
    let d = delivered r.0 in
    ap (λ t. (d ++ (more t).0) ++ (more t).1.assembled) e
    ∙ append_assoc d _ _
    ∙ ap (λ z. d ++ z) (after rest now total)
    ∙ sym (append_assoc d rest tail)
    ∙ ap (λ z. z ++ tail) kept

push_all-expecting :
    (now seq yield_at cap last total : ℕ) (bytes : List ℕ) (chunks : List (List ℕ))
    → seq < 2 ^ 32
    → let (got, t) =
        push_all yield_at cap (in_order now seq chunks) (expecting seq [] bytes last total) in
      got ++ t.assembled ≡ bytes ++ joined chunks
push_all-expecting now seq yield_at cap last total bytes [] small = sym (append-nil bytes)
push_all-expecting now seq yield_at cap last total bytes (c ∷ cs) small =
    let next = wrapping_add seq (length c) in
    after-Keeps (push_all yield_at cap (in_order (suc now) next cs))
      (push now seq c yield_at cap (expecting seq [] bytes last total)) next [] (bytes ++ c)
      (joined cs) (push-Keeps now seq yield_at cap last total c bytes small)
      (λ rest now' total'.
        push_all-expecting (suc now) next yield_at cap now' total' rest cs (omega arith))
    ∙ append_assoc bytes c (joined cs)

-- A new stream that takes chunks in order hands out all their bytes or still has them assembled,
-- whatever the threshold and the cap, and also across the wrap of the sequence numbers.
pub push_all-in_order :
    (now0 now seq yield_at cap : ℕ) (chunks : List (List ℕ))
    → seq < 2 ^ 32
    → let (got, t) = push_all yield_at cap (in_order now seq chunks) (new_stream now0) in
      got ++ t.assembled ≡ joined chunks
unfolding push accept
push_all-in_order now0 now seq yield_at cap [] small = refl
push_all-in_order now0 now seq yield_at cap ([] ∷ cs) small =
    let same_seq : (seq + 0) % 2 ^ 32 ≡ seq = omega arith in
    rw same_seq (push_all-in_order now (suc now) seq yield_at cap cs small)
push_all-in_order now0 now seq yield_at cap ((b ∷ bs) ∷ cs) small =
    let next = wrapping_add seq (length (b ∷ bs)) in
    let n = 0 + length (b ∷ bs) in
    after-Keeps (push_all yield_at cap (in_order (suc now) next cs))
      (yield_or_keep yield_at cap (expecting next [] (b ∷ bs) now n)) next [] (b ∷ bs) (joined cs)
      (yield_or_keep-Keeps yield_at cap next now n [] (b ∷ bs))
      (λ rest now' total'.
        push_all-expecting (suc now) next yield_at cap now' total' rest cs (omega arith))

push-buffers :
    (now seq yield_at cap last total : ℕ) (ahead payload bytes : List ℕ)
    → seq < 2 ^ 32
    → 0 < length ahead
    → length ahead < 2 ^ 31
    → 0 < length payload
    → Keeps seq ((wrapping_add seq (length ahead), payload) ∷ []) bytes (
        push now
          (wrapping_add seq (length ahead))
          payload
          yield_at
          cap
          (expecting seq [] bytes last total))
unfolding push accept insert_sorted
push-buffers now seq yield_at cap last total ahead [] bytes small some_ahead near nonempty =
    absurd (omega (arith, nonempty))
push-buffers now seq yield_at cap last total ahead (b ∷ bs) bytes small some_ahead near nonempty =
    let at = wrapping_add seq (length ahead) in
    let not_next : (at == seq) ≡ false = ground arith in
    let future : ltb (wrapping_sub at seq) 0x8000_0000 ≡ true = lt→ltb _ _ (omega arith) in
    rw (not_next, future) (yield_or_keep-Keeps yield_at cap seq now total ((at, b ∷ bs) ∷ []) bytes)

push-fills :
    (now seq yield_at cap last total : ℕ) (first second bytes : List ℕ)
    → 0 < length first
    → let at = wrapping_add seq (length first) in
      Keeps
        (wrapping_add at (length second))
        []
        ((bytes ++ first) ++ second)
        (push now seq first yield_at cap (expecting seq ((at, second) ∷ []) bytes last total))
unfolding push accept drain_ooo
push-fills now seq yield_at cap last total [] second bytes nonempty =
    absurd (omega (arith, nonempty))
push-fills now seq yield_at cap last total (b ∷ bs) second bytes nonempty =
    let at = wrapping_add seq (length (b ∷ bs)) in
    rw ((nat_beq_iff seq seq).1 refl, (nat_beq_iff at at).1 refl)
      (yield_or_keep-Keeps yield_at cap (wrapping_add at (length second)) now
        (total + length (b ∷ bs) + length second) [] ((bytes ++ (b ∷ bs)) ++ second))

-- The second of two segments arrives before the first, to a stream that expects the first and
-- holds nothing back: what is handed out and assembled in the end is what was assembled before,
-- then the first segment, then the second.
pub push_all-swapped :
    (now seq yield_at cap last total : ℕ) (first second bytes : List ℕ)
    → seq < 2 ^ 32
    → 0 < length first
    → length first < 2 ^ 31
    → 0 < length second
    → let at = wrapping_add seq (length first) in
      let (got, t) =
        push_all yield_at cap
          (record { now = now; seq = at; payload = second }
            ∷ record { now = suc now; seq = seq; payload = first }
            ∷ [])
          (expecting seq [] bytes last total) in
      got ++ t.assembled ≡ bytes ++ first ++ second
push_all-swapped now seq yield_at cap last total first second bytes small nonempty near
      some_second =
    let at = wrapping_add seq (length first) in
    let last_one : Arrival = record { now = suc now; seq = seq; payload = first } in
    after-Keeps (push_all yield_at cap (last_one ∷ []))
      (push now at second yield_at cap (expecting seq [] bytes last total)) seq ((at, second) ∷ [])
      bytes (first ++ second)
      (push-buffers now seq yield_at cap last total first second bytes small nonempty near
        some_second)
      (λ rest now' total'.
        after-Keeps (push_all yield_at cap [])
          (push (suc now) seq first yield_at cap
            (expecting seq ((at, second) ∷ []) rest now' total'))
          (wrapping_add at (length second)) [] ((rest ++ first) ++ second) []
          (push-fills (suc now) seq yield_at cap now' total' first second rest nonempty)
          (λ rest' now'' total''. sym (append-nil rest'))
        ∙ append-nil ((rest ++ first) ++ second)
        ∙ append_assoc rest first second)
    ∙ sym (append_assoc bytes first second)
