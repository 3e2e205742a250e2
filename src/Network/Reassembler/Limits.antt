-- ===== src/Network/Reassembler/Limits.antt =====
-- crates/thor-agent/src/network/reassembler.rs: the threshold and the cap, over any run of calls.
use thor_firewall_smart.Prelude.{
  ℕ, ◌⊎◌, ◌≡◌, ◌<◌, refl, Bool, none, some, List, [], ◌∷◌, arith, All, Bool-cases, inl, inr, ◌==◌,
  nat_eq,
}
use thor_firewall_smart.Prelude.Dict.{Dict, lookup, lookup_or, insert, remove, retain}
use thor_firewall_smart.Network.Reassembler.{
  FlowKey, flow_key_eq, canonical, FlowStream, new_stream, TcpReassembler, push_payload, close_flow,
  remove_flow, cleanup_stale_flows, is_first,
}
use thor_firewall_smart.Network.Reassembler.Bounded.{IsBounded, push-IsBounded, flush-IsBounded}

-- Both streams of every connection are bounded, and the settings allow an empty one.
pub record IsWithinLimits (r : TcpReassembler) : Type 0 where
  pub positive : 0 < r.yield_threshold
  pub bounded :
      All
        (λ e.
          IsBounded r.yield_threshold r.max_buffer_size e.1.0
          × IsBounded r.yield_threshold r.max_buffer_size e.1.1)
        r.streams

module _ (P : FlowStream × FlowStream → Type 0) where
  abbrev Values : Dict FlowKey (FlowStream × FlowStream) → Type 0
  Values m = All (λ e. P e.1) m

  insert-Values :
      (k : FlowKey) (v : FlowStream × FlowStream) (m : Dict FlowKey (FlowStream × FlowStream))
      → P v
      → Values m
      → Values (insert k v m)
  unfolding insert
  insert-Values k v [] p a = (p, tt)
  insert-Values k v ((j, w) ∷ m) p a = elim (Bool-cases (j == k)) [
    | inl e ↦ rw e (p, a.1)
    | inr n ↦ rw n (a.0, insert-Values k v m p a.1)
  ]

  remove-Values :
      (k : FlowKey) (m : Dict FlowKey (FlowStream × FlowStream)) → Values m → Values (remove k m)
  unfolding remove
  remove-Values k [] a = tt
  remove-Values k ((j, w) ∷ m) a = elim (Bool-cases (j == k)) [
    | inl e ↦ rw e a.1
    | inr n ↦ rw n (a.0, remove-Values k m a.1)
  ]

  retain-Values :
      (p : FlowKey → FlowStream × FlowStream → Bool) (m : Dict FlowKey (FlowStream × FlowStream))
      → Values m
      → Values (retain p m)
  unfolding retain
  retain-Values p [] a = tt
  retain-Values p ((j, w) ∷ m) a = elim (Bool-cases (p j w)) [
    | inl e ↦ rw e (a.0, retain-Values p m a.1)
    | inr n ↦ rw n (retain-Values p m a.1)
  ]

  lookup-Values :
      (k : FlowKey) (m : Dict FlowKey (FlowStream × FlowStream))
      → Values m
      → (lookup k m ≡ none) ⊎ ((v : FlowStream × FlowStream) × (lookup k m ≡ some v) × P v)
  unfolding lookup
  lookup-Values k [] a = inl refl
  lookup-Values k ((j, w) ∷ m) a = elim (Bool-cases (j == k)) [
    | inl e ↦ rw e (inr (w, refl, a.0))
    | inr n ↦ rw n (lookup-Values k m a.1)
  ]

  lookup_or-Values :
      (k : FlowKey) (v : FlowStream × FlowStream) (m : Dict FlowKey (FlowStream × FlowStream))
      → P v
      → Values m
      → P (lookup_or k v m)
  lookup_or-Values k v m p a = elim (lookup-Values k m a) [
    | inl e ↦ rw e p
    | inr (w, e, pw) ↦ rw e pw
  ]

-- One call, or the clean-up.
pub data Step : TcpReassembler → TcpReassembler → Type 0 where
  pushed :
      (now : ℕ) (key : FlowKey) (payload : List ℕ) (seq : ℕ) (c : Bool) (r : TcpReassembler)
      → Step r (push_payload now key payload seq c r).1
  closed : (key : FlowKey) (c : Bool) (r : TcpReassembler) → Step r (close_flow key c r).1
  removed : (key : FlowKey) (r : TcpReassembler) → Step r (remove_flow key r)
  cleaned : (now : ℕ) (r : TcpReassembler) → Step r (cleanup_stale_flows now r)

-- The tables that calls make of a given one.
pub data Reaches (start : TcpReassembler) : TcpReassembler → Type 0 where
  started : Reaches start start
  stepped : {r t : TcpReassembler} → Reaches start r → Step r t → Reaches start t

push_payload-IsWithinLimits :
    (now : ℕ) (key : FlowKey) (payload : List ℕ) (seq : ℕ) (c : Bool) (r : TcpReassembler)
    → IsWithinLimits r
    → IsWithinLimits (push_payload now key payload seq c r).1
unfolding push_payload
push_payload-IsWithinLimits now key payload seq c r w =
    let y = r.yield_threshold in
    let b = r.max_buffer_size in
    let Both : FlowStream × FlowStream → Type 0 = λ v. IsBounded y b v.0 × IsBounded y b v.1 in
    let fresh : IsBounded y b (new_stream now) = record {
      count_lem = refl;
      below = w.positive;
      within = omega arith;
    } in
    let v = lookup_or (canonical key).0 (new_stream now, new_stream now) r.streams in
    let (first, second) : Both v =
      lookup_or-Values Both (canonical key).0 (new_stream now, new_stream now) r.streams
        (fresh, fresh) w.bounded in
    elim (Bool-cases (is_first c (canonical key).1)) [
      | inl e ↦ rw e record {
        positive = w.positive;
        bounded =
            insert-Values Both (canonical key).0 _ r.streams
              (push-IsBounded now seq y b payload v.0 w.positive first, second) w.bounded;
      }
      | inr e ↦ rw e record {
        positive = w.positive;
        bounded =
            insert-Values Both (canonical key).0 _ r.streams
              (first, push-IsBounded now seq y b payload v.1 w.positive second) w.bounded;
      }
    ]

close_flow-IsWithinLimits :
    (key : FlowKey) (c : Bool) (r : TcpReassembler)
    → IsWithinLimits r
    → IsWithinLimits (close_flow key c r).1
unfolding close_flow
close_flow-IsWithinLimits key c r w =
    let y = r.yield_threshold in
    let b = r.max_buffer_size in
    let Both : FlowStream × FlowStream → Type 0 = λ v. IsBounded y b v.0 × IsBounded y b v.1 in
    elim (lookup-Values Both (canonical key).0 r.streams w.bounded) [
      | inl e ↦ rw (close_flow, e) w
      | inr (v, e, (first, second)) ↦ elim (Bool-cases (is_first c (canonical key).1)) [
        | inl f ↦
            rw (close_flow, e, f)
              record {
                positive = w.positive;
                bounded =
                    insert-Values Both (canonical key).0 _ r.streams
                      (flush-IsBounded y b v.0 w.positive first, second) w.bounded;
              }
        | inr f ↦
            rw (close_flow, e, f)
              record {
                positive = w.positive;
                bounded =
                    insert-Values Both (canonical key).0 _ r.streams
                      (first, flush-IsBounded y b v.1 w.positive second) w.bounded;
              }
      ]
    ]

Step-IsWithinLimits : {r t : TcpReassembler} → Step r t → IsWithinLimits r → IsWithinLimits t
unfolding remove_flow cleanup_stale_flows
Step-IsWithinLimits (pushed now key payload seq c r) w =
    push_payload-IsWithinLimits now key payload seq c r w
Step-IsWithinLimits (closed key c r) w = close_flow-IsWithinLimits key c r w
Step-IsWithinLimits (removed key r) w = record {
  positive = w.positive;
  bounded = remove-Values _ (canonical key).0 r.streams w.bounded;
}
Step-IsWithinLimits (cleaned now r) w = record {
  positive = w.positive;
  bounded = retain-Values _ _ r.streams w.bounded;
}

-- Whatever is called on a reassembler that starts within its limits, in each direction of every
-- connection the bytes that are assembled in order and not yet handed out stay fewer than the threshold and
-- within the cap, and the count of them is right. Segments held back out of order are not among them.
pub Reaches-IsWithinLimits :
    {r t : TcpReassembler} → Reaches r t → IsWithinLimits r → IsWithinLimits t
Reaches-IsWithinLimits started w = w
Reaches-IsWithinLimits (stepped before step) w =
    Step-IsWithinLimits step (Reaches-IsWithinLimits before w)
