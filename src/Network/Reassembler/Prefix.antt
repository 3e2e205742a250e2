-- ===== src/Network/Reassembler/Prefix.antt =====
-- crates/thor-agent/src/network/reassembler.rs: what is delivered is what was sent, in order.
use Prim.Native.Nat.add
use mathlib.Core.List.{append_assoc, append-nil}
use thor_firewall_smart.Prelude.{
  ℕ, zero, suc, ◌+◌, ◌%◌, ◌^◌, ◌≤◌, ◌<◌, ◌≡◌, refl, sym, ap, subst, ◌∙◌, Option, some, List, [],
  ◌∷◌, ◌++◌, arith, length, take, drop, All, ◌==◌, nat_eq, ltb, leb, Bool-cases, inl, inr,
  nat_beq_iff,
}
use thor_firewall_smart.Network.Reassembler.Runs.{delivered, Arrival, push_all}
use thor_firewall_smart.Network.Reassembler.{
  FlowStream, Segments, new_stream, insert_sorted, append_segment, wrapping_add, wrapping_sub,
  drain_ooo, accept, split, yield_or_keep, push,
}

take-nil : (n : ℕ) → take {A = ℕ} n [] ≡ []
take-nil zero = refl
take-nil (suc n) = refl

take-append-take-drop : (k n : ℕ) (xs : List ℕ) → take k xs ++ take n (drop k xs) ≡ take (k + n) xs
take-append-take-drop zero n xs = ap (λ m. take m xs) (omega arith)
take-append-take-drop (suc k) n [] = take-nil n ∙ sym (take-nil (suc k + n))
take-append-take-drop (suc k) n (x ∷ xs) = rw add.suc (ap (◌∷◌ x) (take-append-take-drop k n xs))

module _ (base : ℕ) (bytes : List ℕ) where
  -- The segment lies in the stream that begins at sequence number `base`.
  pub record Fits (seq : ℕ) (payload : List ℕ) : Type 0 where
    pub offset : ℕ
    pub seq_lem : seq ≡ (base + offset) % 2 ^ 32
    pub payload_lem : payload ≡ take (length payload) (drop offset bytes)
    pub inside : offset + length payload ≤ length bytes

  -- The first `k` bytes of the stream have been delivered or assembled.
  pub record IsUpTo (k : ℕ) (out : List ℕ) (s : FlowStream) : Type 0 where
    pub next_lem : s.next_seq ≡ some ((base + k) % 2 ^ 32)
    pub prefix_lem : out ++ s.assembled ≡ take k bytes
    pub within : k ≤ length bytes

  abbrev pub AllFit : Segments → Type 0
  AllFit m = All (λ e. Fits e.0 e.1) m

  module _ (short : length bytes < 2 ^ 31) where
    same_offset :
        (k o : ℕ)
        → k ≤ length bytes
        → o ≤ length bytes
        → (base + o) % 2 ^ 32 ≡ (base + k) % 2 ^ 32
        → o ≡ k
    same_offset k o hk ho e = omega arith

    append-IsUpTo :
        (k seq : ℕ) (out payload : List ℕ) (s : FlowStream)
        → IsUpTo k out s
        → Fits seq payload
        → seq ≡ (base + k) % 2 ^ 32
        → IsUpTo (k + length payload) out (append_segment seq payload s)
    append-IsUpTo k seq out payload s u f e = record {
      next_lem = ap some (omega arith);
      prefix_lem =
          sym (append_assoc out s.assembled payload)
          ∙ ap (λ z. z ++ payload) u.prefix_lem
          ∙ ap (λ z. take k bytes ++ z)
              (f.payload_lem ∙ ap (λ o. take (length payload) (drop o bytes)) at_k)
          ∙ take-append-take-drop k (length payload) bytes;
      within = omega (arith, at_k, f.inside);
    }
      where
        at_k : f.offset ≡ k
        at_k = same_offset k f.offset u.within (omega (arith, f.inside)) (sym f.seq_lem ∙ e)

    -- What the loop leaves: more of the stream, and only segments that fit.
    drain_ooo-IsUpTo :
        (m : Segments) (k : ℕ) (out : List ℕ) (s : FlowStream)
        → AllFit m
        → IsUpTo k out s
        → let t = drain_ooo m ((base + k) % 2 ^ 32) s in
          (j : ℕ) × IsUpTo j out t × AllFit t.ooo_buffer
    unfolding drain_ooo
    drain_ooo-IsUpTo [] k out s a u =
        (k, record { next_lem = u.next_lem; prefix_lem = u.prefix_lem; within = u.within }, tt)
    drain_ooo-IsUpTo ((seq, payload) ∷ rest) k out s a u =
        elim (Bool-cases (seq == (base + k) % 2 ^ 32)) [
          | inl e ↦
              let at : seq ≡ (base + k) % 2 ^ 32 = (nat_beq_iff _ _).0 e in
              let after : wrapping_add ((base + k) % 2 ^ 32) (length payload)
                  ≡ (base + (k + length payload)) % 2 ^ 32 =
                omega arith in
              rw (e, after)
                (drain_ooo-IsUpTo rest (k + length payload) out (append_segment seq payload s) a.1
                  (append-IsUpTo k seq out payload s u a.0 at))
          | inr e ↦
              rw e (
                k,
                record { next_lem = u.next_lem; prefix_lem = u.prefix_lem; within = u.within },
                a,
              )
        ]

    buffered :
        (s : FlowStream) (k : ℕ) (out : List ℕ) {m : Segments}
        → IsUpTo k out s
        → IsUpTo k out (record s { ooo_buffer = m })
    buffered s k out u = record {
      next_lem = u.next_lem;
      prefix_lem = u.prefix_lem;
      within = u.within;
    }

    insert_sorted-AllFit :
        (seq : ℕ) (payload : List ℕ) (m : Segments)
        → Fits seq payload
        → AllFit m
        → AllFit (insert_sorted seq payload m)
    unfolding insert_sorted
    insert_sorted-AllFit seq payload [] f a = (f, tt)
    insert_sorted-AllFit seq payload ((j, w) ∷ m) f a = elim (Bool-cases (ltb seq j)) [
      | inl lower ↦ rw lower (f, a)
      | inr rest ↦ elim (Bool-cases (seq == j)) [
        | inl e ↦ rw (rest, e) (subst (λ q. Fits q payload) ((nat_beq_iff seq j).0 e) f, a.1)
        | inr n ↦ rw (rest, n) (a.0, insert_sorted-AllFit seq payload m f a.1)
      ]
    ]

    accept-IsUpTo :
        (seq k : ℕ) (out payload : List ℕ) (s : FlowStream)
        → Fits seq payload
        → AllFit s.ooo_buffer
        → IsUpTo k out s
        → let t = accept seq payload (some ((base + k) % 2 ^ 32)) s in
          (j : ℕ) × IsUpTo j out t × AllFit t.ooo_buffer
    unfolding accept
    accept-IsUpTo seq k out payload s f a u = elim (Bool-cases (seq == (base + k) % 2 ^ 32)) [
      | inl e ↦
          let at : seq ≡ (base + k) % 2 ^ 32 = (nat_beq_iff _ _).0 e in
          let after : wrapping_add ((base + k) % 2 ^ 32) (length payload)
              ≡ (base + (k + length payload)) % 2 ^ 32 =
            omega arith in
          rw (e, after)
            (drain_ooo-IsUpTo s.ooo_buffer (k + length payload) out (append_segment seq payload s) a
              (append-IsUpTo k seq out payload s u f at))
      | inr n ↦ elim (Bool-cases (ltb (wrapping_sub seq ((base + k) % 2 ^ 32)) 0x8000_0000)) [
        | inl ahead ↦
            rw (n, ahead) (k, buffered s k out u, insert_sorted-AllFit seq payload s.ooo_buffer f a)
        | inr past ↦ rw (n, past) (k, u, a)
      ]
    ]

    yield_or_keep-IsUpTo :
        (yield_at cap k : ℕ) (out : List ℕ) (s : FlowStream)
        → IsUpTo k out s
        → let (got, t) = yield_or_keep yield_at cap s in
          IsUpTo k (out ++ delivered got) t × (t.ooo_buffer ≡ s.ooo_buffer)
    unfolding yield_or_keep
    yield_or_keep-IsUpTo yield_at cap k out s u = elim (Bool-cases (ltb cap s.total_bytes)) [
      | inl over ↦ rw over (handed, refl)
      | inr fits ↦ elim (Bool-cases (leb yield_at (length s.assembled))) [
        | inl enough ↦ rw (fits, enough) (handed, refl)
        | inr few ↦ rw (fits, few) (rw append-nil u, refl)
      ]
    ]
      where
        handed : IsUpTo k (out ++ s.assembled) (split s).1
        handed = record {
          next_lem = u.next_lem;
          prefix_lem = append-nil (out ++ s.assembled) ∙ u.prefix_lem;
          within = u.within;
        }

    -- What holds once a segment has been taken.
    abbrev Onward : List ℕ → Option (List ℕ) × FlowStream → Type 0
    Onward out r = (j : ℕ) × IsUpTo j (out ++ delivered r.0) r.1 × AllFit r.1.ooo_buffer

    accept-yield_or_keep :
        (seq yield_at cap k : ℕ) (out payload : List ℕ) (s : FlowStream)
        → Fits seq payload
        → AllFit s.ooo_buffer
        → IsUpTo k out s
        → Onward out
            (yield_or_keep yield_at cap (accept seq payload (some ((base + k) % 2 ^ 32)) s))
    accept-yield_or_keep seq yield_at cap k out payload s f a u =
        let t = accept seq payload (some ((base + k) % 2 ^ 32)) s in
        let (j, v, all) = accept-IsUpTo seq k out payload s f a u in
        let (w, same_buffer) = yield_or_keep-IsUpTo yield_at cap j out t v in
        (j, w, subst AllFit (sym same_buffer) all)

    push-IsUpTo :
        (now seq yield_at cap k : ℕ) (out payload : List ℕ) (s : FlowStream)
        → Fits seq payload
        → AllFit s.ooo_buffer
        → IsUpTo k out s
        → Onward out (push now seq payload yield_at cap s)
    unfolding push
    push-IsUpTo now seq yield_at cap k out [] s f a u = (
      k,
      rw append-nil
          (record { next_lem = u.next_lem; prefix_lem = u.prefix_lem; within = u.within }),
      a,
    )
    push-IsUpTo now seq yield_at cap k out (b ∷ bs) s f a u =
        let t : FlowStream = record s { last_seen = now } in
        subst (λ q. Onward out (yield_or_keep yield_at cap (accept seq (b ∷ bs) q t)))
          (sym u.next_lem)
          (accept-yield_or_keep seq yield_at cap k out (b ∷ bs) t f a
            (record { next_lem = u.next_lem; prefix_lem = u.prefix_lem; within = u.within }))

    push_all-IsUpTo :
        (arrivals : List Arrival) (yield_at cap k : ℕ) (out : List ℕ) (s : FlowStream)
        → All (λ a. Fits a.seq a.payload) arrivals
        → AllFit s.ooo_buffer
        → IsUpTo k out s
        → let (got, t) = push_all yield_at cap arrivals s in (j : ℕ) × IsUpTo j (out ++ got) t
    push_all-IsUpTo [] yield_at cap k out s fits a u = (k, rw append-nil u)
    push_all-IsUpTo (a ∷ rest) yield_at cap k out s fits all u =
        let r = push a.now a.seq a.payload yield_at cap s in
        let (j, v, all_r) = push-IsUpTo a.now a.seq yield_at cap k out a.payload s fits.0 all u in
        let (i, w) =
          push_all-IsUpTo rest yield_at cap j (out ++ delivered r.0) r.1 fits.1 all_r v in
        (
          i,
          subst (λ z. IsUpTo i z (push_all yield_at cap rest r.1).1)
              (append_assoc out (delivered r.0) (push_all yield_at cap rest r.1).0) w,
        )

    first-IsUpTo :
        (now0 now yield_at cap : ℕ) (payload : List ℕ)
        → 0 < length payload
        → Fits base payload
        → Onward [] (push now base payload yield_at cap (new_stream now0))
    unfolding push accept
    first-IsUpTo now0 now yield_at cap [] nonempty f = absurd (omega (arith, nonempty))
    first-IsUpTo now0 now yield_at cap (b ∷ bs) nonempty f =
        let t = append_segment base (b ∷ bs) (new_stream now) in
        let (v, same_buffer) = yield_or_keep-IsUpTo yield_at cap (length (b ∷ bs)) [] t record {
          next_lem = refl;
          prefix_lem = f.payload_lem ∙ ap (λ o. take (length (b ∷ bs)) (drop o bytes)) at_start;
          within = omega (arith, f.inside);
        } in
        (length (b ∷ bs), v, subst AllFit (sym same_buffer) tt)
      where
        at_start : f.offset ≡ 0
        at_start = omega (arith, f.seq_lem, f.inside)

    -- A new stream whose first segment is not empty and starts the bytes that the peer sends,
    -- fewer than 2 ^ 31, takes segments of these bytes in any order, repeated or overlapping:
    -- what the calls hand out, followed by what is assembled, is a prefix of the bytes sent.
    pub push_all-prefix :
        (now0 yield_at cap : ℕ) (first : Arrival) (rest : List Arrival)
        → first.seq ≡ base
        → 0 < length first.payload
        → All (λ a. Fits a.seq a.payload) (first ∷ rest)
        → let (got, t) = push_all yield_at cap (first ∷ rest) (new_stream now0) in
          (k : ℕ) × (got ++ t.assembled ≡ take k bytes) × (k ≤ length bytes)
    push_all-prefix now0 yield_at cap first rest e nonempty fits =
        let r = push first.now first.seq first.payload yield_at cap (new_stream now0) in
        let (j, v, all) : Onward [] r =
          subst (λ q. Onward [] (push first.now q first.payload yield_at cap (new_stream now0)))
            (sym e)
            (first-IsUpTo now0 first.now yield_at cap first.payload nonempty
              (subst (λ q. Fits q first.payload) e fits.0)) in
        let (k, w) = push_all-IsUpTo rest yield_at cap j (delivered r.0) r.1 fits.1 all v in
        (k, w.prefix_lem, w.within)
