-- ===== src/Script/Runtime/Cache.antt =====
-- runtime.rs: the cache of compiled patterns, and conditions that are evaluated with it.
use Prim.Native.String.{String}
use thor_firewall_smart.Prelude.{
  ◌≡◌, ◌⊎◌, inl, inr, refl, sym, ap, ◌∙◌, Bool, true, false, not, ◌&&◌, ◌||◌, Option, none, some,
  Bool-cases, [], if◌then◌else◌, ◌==◌, string_eq, if-both, same→eq,
}
use thor_firewall_smart.Prelude.Dict.{Dict, insert, lookup, contains_key}
use thor_firewall_smart.Prelude.Dict.Laws.{lookup-insert, lookup-insert_self}
use thor_firewall_smart.Script.Syntax.{
  Condition, compare, payload_match, and_cond, or_cond, not_cond, always,
}
use thor_firewall_smart.Script.Runtime.{
  Crates, regex_text, insert_regex, collect_regexes, eval_condition, eval_compare, payload_text,
}
use thor_firewall_smart.Script.Context.{ExecutionContext}

module _ (crates : Crates) where
  -- What a condition means, each pattern compiled where it is used.
  abbrev pub meaning : Condition → ExecutionContext → Bool
  meaning always ctx = true
  meaning (and_cond a b) ctx = meaning a ctx && meaning b ctx
  meaning (or_cond a b) ctx = meaning a ctx || meaning b ctx
  meaning (not_cond c) ctx = not (meaning c ctx)
  meaning (payload_match p ci) ctx = elim (crates.new (regex_text p ci)) [
    | none ↦ false
    | some re ↦ crates.is_match re (payload_text ctx)
  ]
  meaning (compare field op v) ctx = eval_compare crates field op v ctx

  abbrev Cache : Type 0
  Cache = Dict String crates.Regex

  -- The cache says of a pattern what compiling it says.
  abbrev Settled : String → Cache → Type 0
  Settled key cache = lookup key cache ≡ crates.new key

  abbrev IsSound : Cache → Type 0
  IsSound cache = (key : String) → (lookup key cache ≡ none) ⊎ Settled key cache

  Settled-insert :
      (key j : String) (re : crates.Regex) (cache : Cache)
      → crates.new key ≡ some re
      → Settled j cache
      → Settled j (insert key re cache)
  Settled-insert key j re cache e h = elim (Bool-cases (key == j)) [
    | inl same ↦ lookup-insert key j re cache ∙ rw same (sym e ∙ ap crates.new (same→eq key j same))
    | inr differ ↦ lookup-insert key j re cache ∙ rw differ h
  ]

  Settled-insert_regex :
      (key j : String) (o : Option crates.Regex) (cache : Cache)
      → crates.new key ≡ o
      → Settled j cache
      → Settled j (insert_regex crates key o cache)
  Settled-insert_regex key j none cache e h = h
  Settled-insert_regex key j (some re) cache e h = Settled-insert key j re cache e h

  Settled-collect_regexes :
      (c : Condition) (j : String) (cache : Cache)
      → Settled j cache
      → Settled j (collect_regexes crates c cache)
  unfolding collect_regexes
  Settled-collect_regexes (payload_match p ci) j cache h =
      let key = regex_text p ci in
      if-both (Settled j) (contains_key key cache) h
        (Settled-insert_regex key j (crates.new key) cache refl h)
  Settled-collect_regexes (and_cond a b) j cache h =
      Settled-collect_regexes b j (collect_regexes crates a cache)
        (Settled-collect_regexes a j cache h)
  Settled-collect_regexes (or_cond a b) j cache h =
      Settled-collect_regexes b j (collect_regexes crates a cache)
        (Settled-collect_regexes a j cache h)
  Settled-collect_regexes (not_cond c) j cache h = Settled-collect_regexes c j cache h
  Settled-collect_regexes (compare field op v) j cache h = h
  Settled-collect_regexes always j cache h = h

  IsSound-insert_regex :
      (key : String) (o : Option crates.Regex) (cache : Cache)
      → crates.new key ≡ o
      → IsSound cache
      → IsSound (insert_regex crates key o cache)
  IsSound-insert_regex key none cache e sound j = sound j
  IsSound-insert_regex key (some re) cache e sound j = elim (sound j) [
    | inr h ↦ inr (Settled-insert key j re cache e h)
    | inl h ↦ elim (Bool-cases (key == j)) [
      | inl same ↦
          inr (lookup-insert key j re cache ∙ rw same (sym e ∙ ap crates.new (same→eq key j same)))
      | inr differ ↦ inl (lookup-insert key j re cache ∙ rw differ h)
    ]
  ]

  IsSound-collect_regexes :
      (c : Condition) (cache : Cache) → IsSound cache → IsSound (collect_regexes crates c cache)
  unfolding collect_regexes
  IsSound-collect_regexes (payload_match p ci) cache sound =
      let key = regex_text p ci in
      if-both IsSound (contains_key key cache) sound
        (IsSound-insert_regex key (crates.new key) cache refl sound)
  IsSound-collect_regexes (and_cond a b) cache sound =
      IsSound-collect_regexes b (collect_regexes crates a cache)
        (IsSound-collect_regexes a cache sound)
  IsSound-collect_regexes (or_cond a b) cache sound =
      IsSound-collect_regexes b (collect_regexes crates a cache)
        (IsSound-collect_regexes a cache sound)
  IsSound-collect_regexes (not_cond c) cache sound = IsSound-collect_regexes c cache sound
  IsSound-collect_regexes (compare field op v) cache sound = sound
  IsSound-collect_regexes always cache sound = sound

  -- Every pattern of the condition is settled.
  abbrev Covers : Condition → Cache → Type 0
  Covers (payload_match p ci) cache = Settled (regex_text p ci) cache
  Covers (and_cond a b) cache = Covers a cache × Covers b cache
  Covers (or_cond a b) cache = Covers a cache × Covers b cache
  Covers (not_cond c) cache = Covers c cache
  Covers _ cache = Unit

  Covers-collect_regexes :
      (c d : Condition) (cache : Cache) → Covers c cache → Covers c (collect_regexes crates d cache)
  Covers-collect_regexes (payload_match p ci) d cache h =
      Settled-collect_regexes d (regex_text p ci) cache h
  Covers-collect_regexes (and_cond a b) d cache (h, k) =
      (Covers-collect_regexes a d cache h, Covers-collect_regexes b d cache k)
  Covers-collect_regexes (or_cond a b) d cache (h, k) =
      (Covers-collect_regexes a d cache h, Covers-collect_regexes b d cache k)
  Covers-collect_regexes (not_cond c) d cache h = Covers-collect_regexes c d cache h
  Covers-collect_regexes (compare field op v) d cache h = tt
  Covers-collect_regexes always d cache h = tt

  settle :
      (key : String) (o : Option crates.Regex) (cache : Cache)
      → lookup key cache ≡ none
      → crates.new key ≡ o
      → Settled key (insert_regex crates key o cache)
  settle key none cache h e = h ∙ sym e
  settle key (some re) cache h e = lookup-insert_self key re cache ∙ sym e

  is_absent :
      (key : String) (cache : Cache) → lookup key cache ≡ none → contains_key key cache ≡ false
  is_absent key cache e = rw (e, contains_key) refl

  is_held :
      (key : String) (cache : Cache) (re : crates.Regex)
      → lookup key cache ≡ some re
      → contains_key key cache ≡ true
  is_held key cache re e = rw (e, contains_key) refl

  collect_own :
      (key : String) (cache : Cache) (o : Option crates.Regex)
      → IsSound cache
      → lookup key cache ≡ o
      → Settled key
          (if contains_key key cache then cache else insert_regex crates key (crates.new key) cache)
  collect_own key cache none sound e =
      rw (is_absent key cache e) (settle key (crates.new key) cache e refl)
  collect_own key cache (some re) sound e = elim (sound key) [
    | inl absent ↦ absurd (clash (sym e ∙ absent))
    | inr h ↦ rw (is_held key cache re e) h
  ]
    where
      clash : {A : Type 0} {a : A} → some a ≡ none → ⊥
      clash p = cc

  collect_regexes-Covers :
      (c : Condition) (cache : Cache) → IsSound cache → Covers c (collect_regexes crates c cache)
  unfolding collect_regexes
  collect_regexes-Covers (payload_match p ci) cache sound =
      collect_own (regex_text p ci) cache (lookup (regex_text p ci) cache) sound refl
  collect_regexes-Covers (and_cond a b) cache sound =
      let first = collect_regexes crates a cache in
      (
        Covers-collect_regexes a b first (collect_regexes-Covers a cache sound),
        collect_regexes-Covers b first (IsSound-collect_regexes a cache sound),
      )
  collect_regexes-Covers (or_cond a b) cache sound =
      let first = collect_regexes crates a cache in
      (
        Covers-collect_regexes a b first (collect_regexes-Covers a cache sound),
        collect_regexes-Covers b first (IsSound-collect_regexes a cache sound),
      )
  collect_regexes-Covers (not_cond c) cache sound = collect_regexes-Covers c cache sound
  collect_regexes-Covers (compare field op v) cache sound = tt
  collect_regexes-Covers always cache sound = tt

  eval_condition-Covers :
      (c : Condition) (ctx : ExecutionContext) (cache : Cache)
      → Covers c cache
      → eval_condition crates c ctx cache ≡ meaning c ctx
  unfolding eval_condition
  eval_condition-Covers (payload_match p ci) ctx cache h = rw (h, eval_condition) refl
  eval_condition-Covers (and_cond a b) ctx cache (h, k) =
      rw (eval_condition-Covers a ctx cache h, eval_condition-Covers b ctx cache k) refl
  eval_condition-Covers (or_cond a b) ctx cache (h, k) =
      rw (eval_condition-Covers a ctx cache h, eval_condition-Covers b ctx cache k) refl
  eval_condition-Covers (not_cond c) ctx cache h = rw (eval_condition-Covers c ctx cache h) refl
  eval_condition-Covers (compare field op v) ctx cache h = refl
  eval_condition-Covers always ctx cache h = refl

  -- A condition that is evaluated with the patterns compiled beforehand has the value that it has when
  -- each pattern is compiled where it is used; a pattern that does not compile matches nothing.
  pub eval_condition-collect_regexes :
      (c : Condition) (ctx : ExecutionContext)
      → eval_condition crates c ctx (collect_regexes crates c []) ≡ meaning c ctx
  eval_condition-collect_regexes c ctx =
      eval_condition-Covers c ctx (collect_regexes crates c [])
        (collect_regexes-Covers c [] λ key. inl (unfold lookup in refl))
