-- ===== src/ControlPlane/BreakGlass/Replay.antt =====
-- thor-control-plane/crates/thor-control-server/src/break_glass.rs: when a message is executed, and
-- that none is executed twice.
use thor_firewall_smart.Prelude.{
  ℕ, ◌≤◌, ◌≡◌, refl, ◌≢◌, String, string_eq, true, false, some, List, [], ◌∷◌, arith, ltb, ◌==◌,
  if◌then◌else◌, Option-cases, inl, inr, ok, err, eq_iff,
}
use thor_firewall_smart.Prelude.Dict.{insert, contains_key}
use thor_firewall_smart.ControlPlane.BreakGlass.{
  BreakGlassCommand, BreakGlassError, BreakGlassToken, SystemEmergencyState, Crates, apply_command,
  log_activation, process_token, process, process_all,
}
use thor_firewall_smart.ControlPlane.BreakGlass.Executed.{apply_command-nonces, insert-IsConsumed}

abbrev pub IsConsumed : String → SystemEmergencyState → Type 0
IsConsumed n s = contains_key n s.consumed_nonces ≡ true

log_activation-nonces :
    (c : Crates) (now : ℕ) (t : BreakGlassToken) (s : SystemEmergencyState)
    → (log_activation c now t s).consumed_nonces ≡ s.consumed_nonces
unfolding log_activation
log_activation-nonces c now t s = refl

-- What one token does to the set of nonces.
consumed-process_token :
    (c : Crates) (now : ℕ) (t : BreakGlassToken) (s : SystemEmergencyState) (n : String)
    → let u = (process_token c now t s).1 in
      contains_key n u.consumed_nonces ≡ (
        if ltb t.expires_at now
        then contains_key n s.consumed_nonces
        else if contains_key t.nonce s.consumed_nonces
        then contains_key n s.consumed_nonces
        else if t.nonce == n
        then true
        else contains_key n s.consumed_nonces)
unfolding process_token
consumed-process_token c now t s n =
    let fresh = record s { consumed_nonces = insert t.nonce tt s.consumed_nonces } in
    ground (
      arith,
      log_activation-nonces c now t (apply_command t.command fresh),
      apply_command-nonces t.command fresh,
      insert-IsConsumed n t.nonce s.consumed_nonces,
    )

module _ (c : Crates) (now : ℕ) (token_json signature : List ℕ) where
  -- The message is signed, parses to an unexpired token with this command, and its nonce is new.
  pub record IsAccepted (s : SystemEmergencyState) (t : BreakGlassToken) : Type 0 where
    pub signed : c.verify token_json signature ≡ true
    pub parsed : c.from_slice token_json ≡ some t
    pub unexpired : now ≤ t.expires_at
    pub unused : contains_key t.nonce s.consumed_nonces ≡ false

  -- A refused message changes nothing.
  pub process-refused :
      (s : SystemEmergencyState) (e : BreakGlassError)
      → (process c now token_json signature s).0 ≡ err e
      → (process c now token_json signature s).1 ≡ s
  unfolding process process_token
  process-refused s e h = ground arith

  process-IsConsumed :
      (n : String) (s : SystemEmergencyState)
      → IsConsumed n s
      → IsConsumed n (process c now token_json signature s).1
  unfolding process
  process-IsConsumed n s h = elim (Option-cases (c.from_slice token_json)) [
    | inl p ↦ ground arith
    | inr (t, p) ↦ ground (arith, consumed-process_token c now t s n)
  ]

  process-consumes :
      (s : SystemEmergencyState) (t : BreakGlassToken) (cmd : BreakGlassCommand)
      → c.from_slice token_json ≡ some t
      → (process c now token_json signature s).0 ≡ ok cmd
      → IsConsumed t.nonce (process c now token_json signature s).1
  unfolding process process_token
  process-consumes s t cmd p h =
      ground (arith, consumed-process_token c now t s t.nonce, eq_iff t.nonce t.nonce)

  consumed-refuses :
      (s : SystemEmergencyState) (t : BreakGlassToken) (cmd : BreakGlassCommand)
      → c.from_slice token_json ≡ some t
      → IsConsumed t.nonce s
      → (process c now token_json signature s).0 ≢ ok cmd
  unfolding process process_token
  consumed-refuses s t cmd p h e = ground arith

process_all-IsConsumed :
    (c : Crates) (n : String) (calls : List (ℕ × List ℕ × List ℕ)) (s : SystemEmergencyState)
    → IsConsumed n s
    → IsConsumed n (process_all c calls s)
unfolding process_all
process_all-IsConsumed c n [] s h = h
process_all-IsConsumed c n ((now, j, g) ∷ calls) s h =
    process_all-IsConsumed c n calls _ (process-IsConsumed c now j g n s h)

-- After a message has been executed and whatever calls came between, no message whose token has the
-- same nonce is executed, under whatever signature and at whatever time.
pub process_once :
    (c : Crates) (now later : ℕ) (first first_signature again again_signature : List ℕ)
    (t u : BreakGlassToken) (cmd cmd' : BreakGlassCommand) (s : SystemEmergencyState)
    (calls : List (ℕ × List ℕ × List ℕ))
    → c.from_slice first ≡ some t
    → c.from_slice again ≡ some u
    → u.nonce ≡ t.nonce
    → (process c now first first_signature s).0 ≡ ok cmd
    → (process c later again again_signature
        (process_all c calls (process c now first first_signature s).1)).0
      ≢ ok cmd'
process_once c now later first first_signature again again_signature t u cmd cmd' s calls p q n h =
    consumed-refuses c later again again_signature _ u cmd' q (
      rw n (
        process_all-IsConsumed c t.nonce calls _
          (process-consumes c now first first_signature s t cmd p h)))
