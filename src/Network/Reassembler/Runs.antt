-- ===== src/Network/Reassembler/Runs.antt =====
-- crates/thor-agent/src/network/reassembler.rs: the segments of one stream, call by call.
use thor_firewall_smart.Prelude.{ℕ, Option, none, some, List, [], ◌∷◌, ◌++◌}
use thor_firewall_smart.Network.Reassembler.{FlowStream, push}

-- What the calls of `push` hand out.
abbrev pub delivered : Option (List ℕ) → List ℕ
delivered none = []
delivered (some bs) = bs

pub record Arrival : Type 0 where
  pub now : ℕ
  pub seq : ℕ
  pub payload : List ℕ

-- The bytes that a run of calls hands out, and the stream it leaves.
abbrev pub push_all : ℕ → ℕ → List Arrival → FlowStream → List ℕ × FlowStream
push_all yield_at cap [] s = ([], s)
push_all yield_at cap (a ∷ rest) s =
    let r = push a.now a.seq a.payload yield_at cap s in
    let more = push_all yield_at cap rest r.1 in (delivered r.0 ++ more.0, more.1)
