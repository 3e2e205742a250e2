-- ===== src/ControlPlane/Canary/Metrics.antt =====
-- canary_rollout.rs: the window of alert outcomes of an agent.
use mathlib.Core.List.{append_assoc, append-nil}
use thor_firewall_smart.Prelude.{
  suc, ◌-◌, ◌≡◌, ◌≤◌, ◌<◌, refl, sym, ap, ◌∙◌, min, Bool, true, false, List, [], ◌∷◌, ◌++◌, arith,
  length, drop, leb, ltb, if◌then◌else◌, Bool-cases, inl, inr, filterb, length-drop, length-append,
  drop-append, drop-suc, leb→le,
}
use thor_firewall_smart.Prelude.F64.{F64}
use thor_firewall_smart.ControlPlane.Canary.{
  AgentMetrics, new_metrics, push_back, record_outcome, fpr,
}

-- The outcomes in the order in which they are recorded.
abbrev pub record_all : List Bool → AgentMetrics → AgentMetrics
record_all [] m = m
record_all (b ∷ bs) m = record_all bs (record_outcome b m)

push_back-append : (xs : List Bool) (b : Bool) → push_back xs b ≡ xs ++ (b ∷ [])
unfolding push_back
push_back-append [] b = refl
push_back-append (x ∷ xs) b = ap (◌∷◌ x) (push_back-append xs b)

-- The last outcomes, at most 200 of them.
abbrev pub last_200 : List Bool → List Bool
last_200 xs = drop (length xs - 200) xs

record_outcome-last_200 :
    (xs : List Bool) (b : Bool)
    → record_outcome b (record { alert_outcomes = last_200 xs })
      ≡ record { alert_outcomes = last_200 (xs ++ (b ∷ [])) }
unfolding record_outcome
record_outcome-last_200 xs b =
    let n = length xs in
    let kept = length-drop (n - 200) xs in
    elim (Bool-cases (leb 200 (length (last_200 xs)))) [
      | inl many ↦
          let enough : 200 ≤ n = omega (arith, kept, leb→le _ _ many) in
          let grown : length (xs ++ (b ∷ [])) - 200 ≡ suc (n - 200) =
            omega (arith, length-append xs (b ∷ []), enough) in
          rw (many, push_back-append, drop-suc, grown)
            (ap (λ z. record { alert_outcomes = z })
              (sym (drop-append (suc (n - 200)) xs (b ∷ []) (omega (arith, enough)))))
      | inr few ↦
          let under : n < 200 = ground (arith, kept, few) in
          let none_dropped : n - 200 ≡ 0 = omega (arith, under) in
          let still : length (xs ++ (b ∷ [])) - 200 ≡ 0 =
            omega (arith, length-append xs (b ∷ []), under) in
          rw (few, push_back-append, none_dropped, still) refl
    ]

record_all-last_200 :
    (xs ys : List Bool)
    → record_all ys (record { alert_outcomes = last_200 xs })
      ≡ record { alert_outcomes = last_200 (xs ++ ys) }
record_all-last_200 xs [] = rw append-nil refl
record_all-last_200 xs (y ∷ ys) =
    ap (record_all ys) (record_outcome-last_200 xs y)
    ∙ record_all-last_200 (xs ++ (y ∷ [])) ys
    ∙ ap (λ z. record { alert_outcomes = last_200 z }) (append_assoc xs (y ∷ []) ys)

length-last_200 : (xs : List Bool) → length (last_200 xs) ≡ min 200 (length xs)
length-last_200 xs = omega (arith, length-drop (length xs - 200) xs)

fpr-last_200 :
    (float : F64) (xs : List Bool)
    → fpr float (record { alert_outcomes = last_200 xs }) ≡ (
        if ltb (length xs) 20
        then float.literal 0 0
        else float.div
            (float.of_ℕ (length (filterb (λ x. x) (last_200 xs))))
            (float.of_ℕ (min 200 (length xs))))
unfolding fpr
fpr-last_200 float xs = rw (length-last_200 xs) (elim (Bool-cases (ltb (length xs) 20)) [
  | inl few ↦
      let also : ltb (min 200 (length xs)) 20 ≡ true = ground (arith, few) in rw (few, also) refl
  | inr enough ↦
      let also : ltb (min 200 (length xs)) 20 ≡ false = ground (arith, enough) in
      rw (enough, also) refl
])

-- An agent's window holds its last 200 outcomes; its rate is the share of false positives among
-- them, or 0.0 if there have been fewer than 20 outcomes.
pub record_all-new_metrics :
    (float : F64) (outcomes : List Bool)
    → let m = record_all outcomes new_metrics in
      (m.alert_outcomes ≡ last_200 outcomes)
      × (fpr float m ≡ (
          if ltb (length outcomes) 20
          then float.literal 0 0
          else float.div
              (float.of_ℕ (length (filterb (λ x. x) (last_200 outcomes))))
              (float.of_ℕ (min 200 (length outcomes)))))
record_all-new_metrics float outcomes =
    let window = record_all-last_200 [] outcomes in
    (
      ap (λ (m : AgentMetrics). m.alert_outcomes) window,
      ap (fpr float) window ∙ fpr-last_200 float outcomes,
    )
