-- ===== src/Dissectors/Dns/Runs.antt =====
-- dns.rs: the outcomes of a call, and reads of the packet.
use thor_firewall_smart.Prelude.{
  ℕ, zero, suc, ◌-◌, ◌≡◌, ◌≤◌, ◌<◌, true, ◌&&◌, none, some, List, [], ◌∷◌, length, length-take,
  length-drop, arith, refl, take, drop, get_elem?, leb, if◌then◌else◌,
}

pub data Run {ℓ} (A : Type ℓ) : Type ℓ where
  returned : A → Run A
  panicked : Run A
  out_of_fuel : Run A

abbrev pub pure {ℓ} : {A : Type ℓ} → A → Run A
pure a = returned a

infixl 1 ◌>>=◌
abbrev pub ◌>>=◌ {ℓ κ} : {A : Type ℓ} {B : Type κ} → Run A → (A → Run B) → Run B
◌>>=◌ (returned a) f = f a
◌>>=◌ panicked f = panicked
◌>>=◌ out_of_fuel f = out_of_fuel

-- `bytes[pos]`
abbrev pub index : List ℕ → ℕ → Run ℕ
index bytes pos = elim (get_elem? bytes pos) [ none ↦ panicked | some b ↦ returned b ]

-- `&bytes[from..to]`
abbrev pub slice : List ℕ → ℕ → ℕ → Run (List ℕ)
slice bytes from to =
    if leb from to && leb to (length bytes)
    then returned (take (to - from) (drop from bytes))
    else panicked

-- The call returns, and the result is as asked.
abbrev pub Returns {ℓ} : {A : Type ℓ} → Run A → (A → Type 0) → Type 0
Returns (returned a) P = P a
Returns panicked P = ⊥
Returns out_of_fuel P = ⊥

pub bind_lem {ℓ κ} :
    {A : Type ℓ} {B : Type κ} (r : Run A) (f : A → Run B) (P : A → Type 0) (Q : B → Type 0)
    → Returns r P
    → ((a : A) → P a → Returns (f a) Q)
    → Returns (r >>= f) Q
bind_lem (returned a) f P Q h k = k a h
bind_lem panicked f P Q h k = absurd h
bind_lem out_of_fuel f P Q h k = absurd h

abbrev pub Any {ℓ} : {A : Type ℓ} → A → Type 0
Any a = Unit

pub index-Returns : (bytes : List ℕ) (pos : ℕ) → pos < length bytes → Returns (index bytes pos) Any
index-Returns [] pos h = absurd (omega (arith, h))
index-Returns (b ∷ bytes) zero h = tt
index-Returns (b ∷ bytes) (suc pos) h = index-Returns bytes pos (omega (arith, h))

pub slice-Returns :
    (bytes : List ℕ) (from to : ℕ)
    → from ≤ to
    → to ≤ length bytes
    → Returns (slice bytes from to) (λ part. length part ≡ to - from)
slice-Returns bytes from to h k =
    let first : leb from to ≡ true = ground (arith, h) in
    let second : leb to (length bytes) ≡ true = ground (arith, k) in
    rw (first, second)
      (omega (arith, length-take (to - from) (drop from bytes), length-drop from bytes, h, k))

pub get_elem?-in :
    (bytes : List ℕ) (pos : ℕ) → pos < length bytes → (b : ℕ) × (get_elem? bytes pos ≡ some b)
get_elem?-in [] pos h = absurd (omega (arith, h))
get_elem?-in (b ∷ bytes) zero h = (b, refl)
get_elem?-in (b ∷ bytes) (suc pos) h = get_elem?-in bytes pos (omega (arith, h))

pub slice-eq_returned :
    (bytes : List ℕ) (from to : ℕ)
    → from ≤ to
    → to ≤ length bytes
    → slice bytes from to ≡ returned (take (to - from) (drop from bytes))
slice-eq_returned bytes from to h k =
    let first : leb from to ≡ true = ground (arith, h) in
    let second : leb to (length bytes) ≡ true = ground (arith, k) in rw (first, second) refl
