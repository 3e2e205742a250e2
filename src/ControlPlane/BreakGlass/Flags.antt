-- ===== src/ControlPlane/BreakGlass/Flags.antt =====
-- thor-control-plane/crates/thor-control-server/src/break_glass.rs: the flags, the log and the
-- nonces stay in step.
use thor_firewall_smart.Prelude.{
  ℕ, suc, ◌≡◌, refl, string_eq, ◌||◌, List, [], ◌∷◌, length, length-append, arith, Bool-cases,
  Option-cases, inl, inr,
}
use thor_firewall_smart.Prelude.Dict.{insert}
use thor_firewall_smart.Prelude.Dict.Laws.{length-insert}
use thor_firewall_smart.ControlPlane.BreakGlass.{
  BreakGlassCommand, BreakGlassToken, SystemEmergencyState, Crates, freeze_ai, new, apply_command,
  log_activation, process_token, process, process_all,
}

-- The system is in an emergency mode exactly when one of the three modes is set, and each consumed
-- nonce has one entry in the log.
pub record IsCoherent (s : SystemEmergencyState) : Type 0 where
  pub active_lem : s.active ≡ (s.ai_frozen || s.block_all || s.allow_all)
  pub logged : length s.consumed_nonces ≡ length s.activation_log

apply_command-active :
    (cmd : BreakGlassCommand) (s : SystemEmergencyState)
    → s.active ≡ (s.ai_frozen || s.block_all || s.allow_all)
    → let t = apply_command cmd s in
      (t.active ≡ (t.ai_frozen || t.block_all || t.allow_all))
      × (t.consumed_nonces ≡ s.consumed_nonces)
      × (t.activation_log ≡ s.activation_log)
unfolding apply_command
apply_command-active freeze_ai s h = ground arith
apply_command-active cmd s h = ground arith

module _ (c : Crates) (now : ℕ) where
  log_activation_lem :
      (t : BreakGlassToken) (s : SystemEmergencyState)
      → let u = log_activation c now t s in
        (u.active ≡ s.active)
        × (u.ai_frozen ≡ s.ai_frozen)
        × (u.block_all ≡ s.block_all)
        × (u.allow_all ≡ s.allow_all)
        × (u.consumed_nonces ≡ s.consumed_nonces)
        × (length u.activation_log ≡ suc (length s.activation_log))
  unfolding log_activation
  log_activation_lem t s =
      (refl, refl, refl, refl, refl, omega (arith, length-append s.activation_log (_ ∷ [])))

  process_token-IsCoherent :
      (t : BreakGlassToken) (s : SystemEmergencyState)
      → IsCoherent s
      → IsCoherent (process_token c now t s).1
  unfolding process_token
  process_token-IsCoherent t s v =
      let fresh = record s { consumed_nonces = insert t.nonce tt s.consumed_nonces } in
      ground (
        arith,
        length-insert t.nonce tt s.consumed_nonces,
        apply_command-active t.command fresh,
        log_activation_lem t (apply_command t.command fresh),
      )

  process-IsCoherent :
      (token_json signature : List ℕ) (s : SystemEmergencyState)
      → IsCoherent s
      → IsCoherent (process c now token_json signature s).1
  unfolding process
  process-IsCoherent token_json signature s v = elim (Bool-cases (c.verify token_json signature)) [
    | inl e ↦ elim (Option-cases (c.from_slice token_json)) [
      | inl n ↦ rw (e, n, process) v
      | inr (t, p) ↦ rw (e, p, process) (process_token-IsCoherent t s v)
    ]
    | inr e ↦ rw (e, process) v
  ]

module _ (c : Crates) where
  process_all-IsCoherent :
      (calls : List (ℕ × List ℕ × List ℕ)) (s : SystemEmergencyState)
      → IsCoherent s
      → IsCoherent (process_all c calls s)
  unfolding process_all
  process_all-IsCoherent [] s v = v
  process_all-IsCoherent ((now, j, g) ∷ calls) s v =
      process_all-IsCoherent calls _ (process-IsCoherent c now j g s v)

  -- After any history of calls the system is in an emergency mode exactly when a mode flag is set,
  -- and the log has one entry for each consumed nonce.
  pub process_all-new-IsCoherent :
      (calls : List (ℕ × List ℕ × List ℕ)) → IsCoherent (process_all c calls new)
  process_all-new-IsCoherent calls =
      process_all-IsCoherent calls new (record { active_lem = refl; logged = refl })
