-- ===== src/Dissectors/Dns/Wire.antt =====
-- dns.rs: labels in the wire format, and the loop over them.
use Prim.Native.String.{String}
use mathlib.Core.List.{◌++◌ as append, append_assoc, append-nil}
use thor_firewall_smart.Prelude.{
  ℕ, zero, suc, ◌+◌, ◌-◌, ◌*◌, ◌/◌, ◌%◌, ◌≡◌, ◌≤◌, ◌<◌, refl, sym, ap, ◌∙◌, true, false, Option,
  none, some, List, [], ◌∷◌, length, length-append, length-drop, get_elem?, take, drop, ltb, leb,
  arith, ◌==◌, nat_eq,
}
use thor_firewall_smart.Prelude.Text.{join}
use thor_firewall_smart.Prelude.Utf8.{from_utf8}
use thor_firewall_smart.Dissectors.Dns.Runs.{returned, ◌>>=◌, index, slice, slice-eq_returned}
use thor_firewall_smart.Dissectors.Dns.{set_once, end_of, name_loop}

-- The labels, each behind its length, the end, and what follows.
unfoldable pub encode : List (List ℕ) → List ℕ → List ℕ
encode [] rest = 0 ∷ rest
encode (l ∷ ls) rest = length l ∷ append l (encode ls rest)

abbrev pub encoded_length : List (List ℕ) → ℕ
encoded_length [] = 1
encoded_length (l ∷ ls) = 1 + length l + encoded_length ls

-- The labels have the length of labels, and are the UTF-8 of the texts.
abbrev pub AreLabels : List (List ℕ) → List String → Type 0
AreLabels [] [] = Unit
AreLabels (l ∷ ls) (t ∷ ts) =
    (0 < length l) × (length l < 64) × (from_utf8 l ≡ some t) × AreLabels ls ts
AreLabels [] (t ∷ ts) = ⊥
AreLabels (l ∷ ls) [] = ⊥

pub drop-at :
    (bytes : List ℕ) (pos b : ℕ) (tail : List ℕ)
    → drop pos bytes ≡ b ∷ tail
    → (pos < length bytes) × (get_elem? bytes pos ≡ some b) × (drop (suc pos) bytes ≡ tail)
drop-at [] zero b tail e = absurd (clash e)
  where
    clash : {b : ℕ} {tail : List ℕ} → [] ≡ b ∷ tail → ⊥
    clash p = cc
drop-at [] (suc pos) b tail e = absurd (clash e)
  where
    clash : {b : ℕ} {tail : List ℕ} → [] ≡ b ∷ tail → ⊥
    clash p = cc
drop-at (c ∷ bytes) zero b tail e = (omega arith, cc, cc)
drop-at (c ∷ bytes) (suc pos) b tail e =
    let (lt, at_pos, rest) = drop-at bytes pos b tail e in (omega (arith, lt), at_pos, rest)

pub drop-drop : (k n m : ℕ) (bytes : List ℕ) → k ≡ n + m → drop k bytes ≡ drop m (drop n bytes)
drop-drop k zero m bytes e =
    let same : k ≡ m = omega (arith, e) in ap (λ (i : ℕ). drop i bytes) same
drop-drop zero (suc n) m bytes e = absurd (omega (arith, e))
drop-drop (suc k) (suc n) zero [] e = refl
drop-drop (suc k) (suc n) (suc m) [] e = refl
drop-drop (suc k) (suc n) m (b ∷ bytes) e = drop-drop k n m bytes (omega (arith, e))

pub index-eq_returned :
    (bytes : List ℕ) (pos b : ℕ) → get_elem? bytes pos ≡ some b → index bytes pos ≡ returned b
index-eq_returned bytes pos b e = rw (e, index) refl

take-append : (l rest : List ℕ) → take (length l) (append l rest) ≡ l
take-append [] rest = refl
take-append (b ∷ l) rest = ap (λ t. b ∷ t) (take-append l rest)

drop-append_all : (l rest : List ℕ) → drop (length l) (append l rest) ≡ rest
drop-append_all [] rest = refl
drop-append_all (b ∷ l) rest = drop-append_all l rest

name_loop-label :
    (f : ℕ) (bytes : List ℕ) (pos : ℕ) (labels : List String) (final : Option ℕ) (jumps len : ℕ)
    (label : List ℕ) (text : String)
    → ltb 10 jumps ≡ false
    → leb (length bytes) pos ≡ false
    → index bytes pos ≡ returned len
    → (len == 0) ≡ false
    → (len / 64 % 4 == 3) ≡ false
    → ltb (length bytes) (pos + 1 + len) ≡ false
    → slice bytes (pos + 1) (pos + 1 + len) ≡ returned label
    → from_utf8 label ≡ some text
    → name_loop (suc f) bytes pos labels final jumps
      ≡ name_loop f bytes (pos + 1 + len) (append labels (text ∷ [])) final jumps
unfolding name_loop
name_loop-label f bytes pos labels final jumps len label text few inside at_pos more plain whole
      part decoded =
    rw (few, name_loop, inside, at_pos) (rw (more, ◌>>=◌, plain, whole, part, decoded) refl)

name_loop-end :
    (f : ℕ) (bytes : List ℕ) (pos : ℕ) (labels : List String) (final : Option ℕ) (jumps : ℕ)
    → ltb 10 jumps ≡ false
    → leb (length bytes) pos ≡ false
    → index bytes pos ≡ returned 0
    → name_loop (suc f) bytes pos labels final jumps
      ≡ returned (some (join "." labels, end_of (set_once final (pos + 1)) pos))
unfolding name_loop
name_loop-end f bytes pos labels final jumps few inside at_pos =
    rw (few, name_loop, inside, at_pos) refl

pub name_loop-pointer :
    (f : ℕ) (bytes : List ℕ) (pos : ℕ) (labels : List String) (final : Option ℕ) (jumps len low : ℕ)
    → ltb 10 jumps ≡ false
    → leb (length bytes) pos ≡ false
    → index bytes pos ≡ returned len
    → (len == 0) ≡ false
    → (len / 64 % 4 == 3) ≡ true
    → leb (length bytes) (pos + 1) ≡ false
    → index bytes (pos + 1) ≡ returned low
    → name_loop (suc f) bytes pos labels final jumps
      ≡ name_loop f bytes (len % 64 * 256 + low) labels (set_once final (pos + 2)) (jumps + 1)
unfolding name_loop
name_loop-pointer f bytes pos labels final jumps len low few inside at_pos more pointer whole
      at_next =
    rw (few, name_loop, inside, at_pos) (rw (more, ◌>>=◌, pointer, whole, at_next) refl)

not_more : (j : ℕ) → j ≤ 10 → ltb 10 j ≡ false
not_more j h = ground (arith, h)

pub not_outside : (bytes : List ℕ) (pos : ℕ) → pos < length bytes → leb (length bytes) pos ≡ false
not_outside bytes pos h = ground (arith, h)

pub not_zero : (n : ℕ) → 0 < n → (n == 0) ≡ false
not_zero n h = ground (arith, h)

not_pointer : (n : ℕ) → n < 64 → (n / 64 % 4 == 3) ≡ false
not_pointer n h = ground (arith, h)

not_cut : (n m : ℕ) → m ≤ n → ltb n m ≡ false
not_cut n m h = ground (arith, h)

end_once :
    (final : Option ℕ) (pos : ℕ) → end_of (set_once final (pos + 1)) pos ≡ end_of final (pos + 1)
end_once none pos = refl
end_once (some p) pos = refl

-- The labels of a name at a position, and its end.
pub name_loop-encode :
    (f : ℕ) (bytes : List ℕ) (pos : ℕ) (ls : List (List ℕ)) (ts : List String) (rest : List ℕ)
    (labels : List String) (final : Option ℕ) (jumps : ℕ)
    → AreLabels ls ts
    → drop pos bytes ≡ encode ls rest
    → length ls < f
    → jumps ≤ 10
    → name_loop f bytes pos labels final jumps
      ≡ returned (some (join "." (append labels ts), end_of final (pos + encoded_length ls)))
unfolding encode
name_loop-encode zero bytes pos ls ts rest labels final jumps are here h few =
    absurd (omega (arith, h))
name_loop-encode (suc f) bytes pos [] [] rest labels final jumps are here h few =
    let (lt, at_pos, after) = drop-at bytes pos 0 rest here in
    name_loop-end f bytes pos labels final jumps (not_more jumps few) (not_outside bytes pos lt)
      (index-eq_returned bytes pos 0 at_pos)
    ∙ ap (λ xs. returned (some (xs, end_of (set_once final (pos + 1)) pos)))
        (ap (join ".") (sym (append-nil labels)))
    ∙ ap (λ n. returned (some (join "." (append labels []), n))) (end_once final pos)
name_loop-encode (suc f) bytes pos (l ∷ ls) (t ∷ ts) rest labels final jumps
      (some_byte, short, decoded, are) here h few =
    let tail = append l (encode ls rest) in
    let (lt, at_pos, after) = drop-at bytes pos (length l) tail here in
    let next : drop (pos + 1) bytes ≡ tail =
      drop-drop (pos + 1) (suc pos) 0 bytes (omega arith) ∙ after in
    let fits : pos + 1 + length l ≤ length bytes = omega (
      arith,
      length-drop (pos + 1) bytes,
      ap (λ (xs : List ℕ). length xs) next,
      length-append l (encode ls rest),
      some_byte,
    ) in
    let there : drop (pos + 1 + length l) bytes ≡ encode ls rest =
      drop-drop (pos + 1 + length l) (pos + 1) (length l) bytes refl
      ∙ (ap (λ xs. drop (length l) xs) next ∙ drop-append_all l (encode ls rest)) in
    let width : pos + 1 + length l - (pos + 1) ≡ length l = omega arith in
    let taken : take (pos + 1 + length l - (pos + 1)) (drop (pos + 1) bytes) ≡ l =
      rw (width, next) (take-append l (encode ls rest)) in
    let part : slice bytes (pos + 1) (pos + 1 + length l) ≡ returned l =
      slice-eq_returned bytes (pos + 1) (pos + 1 + length l) (omega arith) fits
      ∙ ap returned taken in
    name_loop-label f bytes pos labels final jumps (length l) l t (not_more jumps few)
      (not_outside bytes pos lt) (index-eq_returned bytes pos (length l) at_pos)
      (not_zero (length l) some_byte) (not_pointer (length l) short)
      (not_cut (length bytes) (pos + 1 + length l) fits) part decoded
    ∙ (name_loop-encode f bytes (pos + 1 + length l) ls ts rest (append labels (t ∷ [])) final jumps
          are there (omega (arith, h)) few
        ∙ (ap
              (λ xs.
                returned
                  (some (join "." xs, end_of final (pos + 1 + length l + encoded_length ls))))
              (append_assoc labels (t ∷ []) ts)
            ∙ ap (λ (n : ℕ). returned (some (join "." (append labels (t ∷ ts)), end_of final n)))
                (omega arith)))
name_loop-encode (suc f) bytes pos [] (t ∷ ts) rest labels final jumps are here h few = absurd are
name_loop-encode (suc f) bytes pos (l ∷ ls) [] rest labels final jumps are here h few = absurd are
