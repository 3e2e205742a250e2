-- ===== src/Ids/RuleText/Finds.antt =====
-- rule_parser.rs: where `find` and `rfind` find a character, by the two sides of another one.
use Prim.Native.Char.{Char, code}
use Prim.Native.String.{String, ◌++◌}
use Prim.Native.String.append
use thor_firewall_smart.Prelude.{
  ℕ, suc, ◌≡◌, ◌<◌, refl, true, false, none, some, arith, ◌==◌, nat_eq, Bool-cases, inl, inr,
}
use thor_firewall_smart.Prelude.Text.{has_char}
use thor_firewall_smart.Prelude.Scan.{count}
use thor_firewall_smart.Ids.RuleText.{find, rfind}

-- The first such character stands behind those that are not.
pub find-first :
    (x : Char) (pre post : String)
    → has_char x pre ≡ false
    → find (code x) (pre ++ String.◌∷◌ x post) ≡ some (count pre)
unfolding find has_char count
find-first x String.[] post h = rw append.nil (ground arith)
find-first x (String.◌∷◌ c pre) post h =
    rw append.cons (ground (arith, find-first x pre post (ground (arith, h)), h))

pub rfind-none : (x : Char) (s : String) → has_char x s ≡ false → rfind (code x) s ≡ none
unfolding rfind has_char
rfind-none x String.[] h = refl
rfind-none x (String.◌∷◌ c s) h =
    let later = rfind-none x s (ground (arith, h)) in
    let here : (code c == code x) ≡ false = ground (arith, h) in rw (later, here) refl

pub rfind-some :
    (x : Char) (s : String)
    → has_char x s ≡ true
    → (n : ℕ) × (rfind (code x) s ≡ some n) × (n < count s)
unfolding rfind has_char count
rfind-some x String.[] h = ground arith
rfind-some x (String.◌∷◌ c s) h = elim (Bool-cases (has_char x s)) [
  | inl e ↦ let (n, found, lt) = rfind-some x s e in (suc n, rw found refl, omega (arith, lt))
  | inr e ↦
      let here : (code c == code x) ≡ true = ground (arith, h, e) in
      (0, rw (rfind-none x s e, here) refl, omega arith)
]

-- A last one behind the mark stands at a later place than it.
pub rfind-behind :
    (x m : Char) (pre post : String)
    → has_char x post ≡ true
    → (n : ℕ) × (rfind (code x) (pre ++ String.◌∷◌ m post) ≡ some n) × (count pre < n)
unfolding rfind count
rfind-behind x m String.[] post h =
    let (n, found, lt) = rfind-some x post h in (suc n, rw (append.nil, found) refl, omega arith)
rfind-behind x m (String.◌∷◌ c pre) post h =
    let (n, found, lt) = rfind-behind x m pre post h in
    (suc n, rw append.cons (rw (rfind, found) refl), omega (arith, lt))

-- With none behind the mark, and the mark another character, the last one of all is the last in front.
pub rfind-front :
    (x m : Char) (pre post : String)
    → (code m == code x) ≡ false
    → has_char x post ≡ false
    → rfind (code x) (pre ++ String.◌∷◌ m post) ≡ rfind (code x) pre
unfolding rfind
rfind-front x m String.[] post ne h = rw (append.nil, rfind-none x post h, ne) refl
rfind-front x m (String.◌∷◌ c pre) post ne h =
    rw append.cons (rw (rfind, rfind-front x m pre post ne h) refl)
