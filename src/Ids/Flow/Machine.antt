-- ===== src/Ids/Flow/Machine.antt =====
-- crates/thor-agent/src/ids/flow.rs: the state machine moves forward only, and passes the
-- handshake only by its two packets.
use thor_firewall_smart.Prelude.{
  or-true, ℕ, ◌≤◌, ◌≡◌, ◌≢◌, refl, Bool, true, false, ◌&&◌, ◌||◌, ◌⊎◌, inl, inr, List, [], ◌∷◌,
  arith,
}
use thor_firewall_smart.Ids.Flow.{
  TcpState, syn_sent, syn_received, established, fin_wait1, fin_wait2, close_wait, closing,
  time_wait, closed, reset, TcpFlags, is_syn_ack, is_ack_only, FlowDir, client_to_server,
  server_to_client, apply_state, apply_all,
}

-- How far a connection has come.
abbrev pub stage : TcpState → ℕ
stage syn_sent = 0
stage syn_received = 1
stage established = 2
stage fin_wait1 = 3
stage close_wait = 3
stage fin_wait2 = 4
stage closing = 4
stage time_wait = 5
stage closed = 6
stage reset = 7

stage-apply_state :
    (s : TcpState) (d : FlowDir) (f : TcpFlags) → stage s ≤ stage (apply_state s d f)
unfolding apply_state
stage-apply_state syn_sent d f = ground arith
stage-apply_state s d f = ground arith

-- No packets ever take a connection back to an earlier stage.
pub stage-apply_all :
    (s : TcpState) (ps : List (FlowDir × TcpFlags)) → stage s ≤ stage (apply_all s ps)
unfolding apply_all
stage-apply_all s [] = omega arith
stage-apply_all s ((d, f) ∷ ps) =
    omega (arith, stage-apply_state s d f, stage-apply_all (apply_state s d f) ps)

-- A packet of the handshake, by the direction and the flags.
abbrev pub answers : FlowDir → TcpFlags → Bool
answers server_to_client f = is_syn_ack f
answers client_to_server f = false

abbrev pub confirms : FlowDir → TcpFlags → Bool
confirms client_to_server f = is_ack_only f
confirms server_to_client f = false

abbrev pub has_ack : List (FlowDir × TcpFlags) → Bool
has_ack [] = false
has_ack ((d, f) ∷ ps) = confirms d f || has_ack ps

-- A SYN-ACK of the server with an ACK of the client behind it.
abbrev pub has_handshake : List (FlowDir × TcpFlags) → Bool
has_handshake [] = false
has_handshake ((d, f) ∷ ps) = answers d f && has_ack ps || has_handshake ps

apply_all-reset : (ps : List (FlowDir × TcpFlags)) → apply_all reset ps ≡ reset
unfolding apply_all apply_state
apply_all-reset [] = refl
apply_all-reset ((d, f) ∷ ps) = ground (arith, apply_all-reset ps)

-- What one packet does before the handshake is complete.
apply_state-syn_sent :
    (d : FlowDir) (f : TcpFlags)
    → (apply_state syn_sent d f ≡ syn_sent)
      ⊎ (apply_state syn_sent d f ≡ reset)
      ⊎ ((apply_state syn_sent d f ≡ syn_received) × (answers d f ≡ true))
unfolding apply_state
apply_state-syn_sent client_to_server f = ground arith
apply_state-syn_sent server_to_client f = ground arith

apply_state-syn_received :
    (d : FlowDir) (f : TcpFlags)
    → (apply_state syn_received d f ≡ syn_received)
      ⊎ (apply_state syn_received d f ≡ reset)
      ⊎ (confirms d f ≡ true)
unfolding apply_state
apply_state-syn_received client_to_server f = ground arith
apply_state-syn_received server_to_client f = ground arith

syn_received-ack :
    (ps : List (FlowDir × TcpFlags))
    → 2 ≤ stage (apply_all syn_received ps)
    → apply_all syn_received ps ≢ reset
    → has_ack ps ≡ true
unfolding apply_all
syn_received-ack [] h n = absurd (omega arith)
syn_received-ack ((d, f) ∷ ps) h n = elim (apply_state-syn_received d f) [
  | inl e ↦ rw (syn_received-ack ps (rw e at h) (rw e at n)) (or-true (confirms d f))
  | inr (inl e) ↦ absurd (n (rw e (apply_all-reset ps)))
  | inr (inr e) ↦ rw e
]

-- A connection that is past the handshake and was not reset has seen a SYN-ACK of the server and,
-- later, an ACK of the client.
pub syn_sent-handshake :
    (ps : List (FlowDir × TcpFlags))
    → 2 ≤ stage (apply_all syn_sent ps)
    → apply_all syn_sent ps ≢ reset
    → has_handshake ps ≡ true
unfolding apply_all
syn_sent-handshake [] h n = absurd (omega arith)
syn_sent-handshake ((d, f) ∷ ps) h n = elim (apply_state-syn_sent d f) [
  | inl e ↦ rw (syn_sent-handshake ps (rw e at h) (rw e at n)) (or-true (answers d f && has_ack ps))
  | inr (inl e) ↦ absurd (n (rw e (apply_all-reset ps)))
  | inr (inr e) ↦ rw (e.1, syn_received-ack ps (rw e.0 at h) (rw e.0 at n))
]
