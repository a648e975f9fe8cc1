-- ===== src/Engine/Store/Glob/Ends.antt =====
-- The loop of glob_match in crates/engine/src/store.rs ends.
use kv.Prelude.{
  ℕ, zero, suc, ◌+◌, ◌*◌, ◌≡◌, ◌≤◌, ◌<◌, refl, ap, leb, Bool, true, false, not, ◌&&◌, ◌||◌, [], ◌∷◌,
  Option, none, some, ltb, ◌==◌, if◌then◌else◌, if_elim, length, take, drop, Bytes, bytes_eq, arith,
}
use native.Mathlib.Nat.{mul-le-mul_right}
use kv.Engine.Store.Glob.{
  class_loop, negates, tail, match_bracket, bracket_end, Star, only_stars, Turn, go, fail,
  backtrack, turn, match_loop, first_meta, fuel_for, behind_prefix, glob_match,
}

-- What is behind a class is no longer than the class.
abbrev Within : ℕ → Option (Bool × Bytes) → Type 0
Within n none = Unit
Within n (some (m, rest)) = length rest ≤ n

Within-weaken : (n k : ℕ) (o : Option (Bool × Bytes)) → n ≤ k → Within n o → Within k o
Within-weaken n k none le h = tt
Within-weaken n k (some (m, rest)) le h = omega arith

class_loop-Within :
    (ch : ℕ) (first matched : Bool) (p : Bytes) → Within (length p) (class_loop ch first matched p)
unfolding class_loop
class_loop-Within ch first matched [] = tt
class_loop-Within ch first matched (c ∷ []) =
    if_elim (Within 1) (c == b']' && not first) _ none (λ _. omega arith) (λ _. tt)
class_loop-Within ch first matched (c ∷ d ∷ []) =
    if_elim (Within 2) (c == b']' && not first) _
      (class_loop ch false (matched || ch == c) (d ∷ [])) (λ _. omega arith)
      (λ _.
        Within-weaken 1 2 _ (omega arith)
          (class_loop-Within ch false (matched || ch == c) (d ∷ [])))
class_loop-Within ch first matched (c ∷ d ∷ e ∷ p) =
    let n = length p in
    if_elim (Within (suc (suc (suc n)))) (c == b']' && not first) _ _ (λ _. omega arith)
      (λ _.
        if_elim (Within (suc (suc (suc n)))) (d == b'-' && not (e == b']'))
          (class_loop ch false (matched || (leb c ch && leb ch e)) p)
          (class_loop ch false (matched || ch == c) (d ∷ e ∷ p))
          (λ _.
            Within-weaken n _ _ (omega arith)
              (class_loop-Within ch false (matched || (leb c ch && leb ch e)) p))
          (λ _.
            Within-weaken (suc (suc n)) _ _ (omega arith)
              (class_loop-Within ch false (matched || ch == c) (d ∷ e ∷ p))))

bracket_end-le :
    (negate : Bool) (ch : ℕ) (p : Bytes) (n : ℕ) (o : Option (Bool × Bytes))
    → length p ≤ n
    → Within n o
    → length (bracket_end negate ch p o).1 ≤ n
bracket_end-le negate ch p n none le h = le
bracket_end-le negate ch p n (some (m, rest)) le h = h

length-tail : (p : Bytes) → length (tail p) ≤ length p
length-tail [] = omega arith
length-tail (c ∷ p) = omega arith

match_bracket-le : (p : Bytes) (ch : ℕ) → length (match_bracket p ch).1 ≤ length p
unfolding match_bracket
match_bracket-le p ch =
    let q = if negates p then tail p else p in
    let short : length q ≤ length p = ground (arith, length-tail p) in
    bracket_end-le (negates p) ch p (length p) _ (omega arith)
      (Within-weaken (length q) (length p) _ short (class_loop-Within ch true false q))

-- Less than k bytes are before the loop, and the next star begins at most b bytes from the end.
abbrev Fits : ℕ → ℕ → Bytes → Bytes → Star → Type 0
Fits k b p s none = (length p + length s < k) × (length s ≤ b)
Fits k b p s (some (q, t)) =
    (length p + length s < k) × (length s ≤ b) × (length q + length t < k) × (length t ≡ b)

-- The turn leaves fewer bytes, or a nearer star.
abbrev Less : ℕ → ℕ → ℕ → Turn → Type 0
Less k b n (go p s star) = (c : ℕ) × Fits k c p s star × (c * k + (length p + length s) < n)
Less k b n fail = Unit

module _ (k b n : ℕ) (p : Bytes) (ch : ℕ) (s : Bytes) where
  backtrack-Less :
      (star : Star)
      → Fits k b p (ch ∷ s) star
      → b * k + (length p + suc (length s)) < suc n
      → Less k b n (backtrack star)
  backtrack-Less none f h = tt
  backtrack-Less (some (q, [])) f h = tt
  backtrack-Less (some (q, c ∷ t)) f h =
      let (now, less, later, is) = f in
      let turns : b * k ≡ (length t + 1) * k = ap (λ m. m * k) (omega arith) in
      (length t, (omega arith, omega arith, omega arith, refl), omega (arith, turns))

  -- A byte of the key is matched.
  matched-Less :
      (star : Star) (rest : Bytes)
      → length rest ≤ length p
      → Fits k b p (ch ∷ s) star
      → b * k + (length p + suc (length s)) < suc n
      → Less k b n (go rest s star)
  matched-Less none rest le (now, less) h = (b, (omega arith, omega arith), omega arith)
  matched-Less (some (q, t)) rest le (now, less, later, is) h =
      (b, (omega arith, omega arith, later, is), omega arith)

star-Less :
    (k b n c : ℕ) (p : Bytes) (ch : ℕ) (s : Bytes)
    → length (c ∷ p) + length (ch ∷ s) < k
    → length (ch ∷ s) ≤ b
    → b * k + (length (c ∷ p) + suc (length s)) < suc n
    → Less k b n (go p (ch ∷ s) (some (p, ch ∷ s)))
star-Less k b n c p ch s now less h =
    let turns : suc (length s) * k ≤ b * k = mul-le-mul_right k less in
    (suc (length s), (omega arith, omega arith, omega arith, refl), omega (arith, turns))

turn-Less :
    (k b n : ℕ) (p : Bytes) (ch : ℕ) (s : Bytes) (star : Star)
    → Fits k b p (ch ∷ s) star
    → b * k + (length p + suc (length s)) < suc n
    → Less k b n (turn p ch s star)
unfolding turn
turn-Less k b n [] ch s star f h = backtrack-Less k b n [] ch s star f h
turn-Less k b n (c ∷ p) ch s star f h =
    let back = backtrack-Less k b n (c ∷ p) ch s star f h in
    let onward : (rest : Bytes) → length rest ≤ length p → Less k b n (go rest s star) =
      λ rest le. matched-Less k b n (c ∷ p) ch s star rest (omega arith) f h in
    if_elim (Less k b n) (c == b'[') _ _
      (λ _.
        if_elim (Less k b n) (match_bracket p ch).0 (go (match_bracket p ch).1 s star)
          (backtrack star) (λ _. onward (match_bracket p ch).1 (match_bracket-le p ch)) (λ _. back))
      (λ _.
        if_elim (Less k b n) (c == b'?' || c == ch) (go p s star) _ (λ _. onward p (omega arith))
          (λ _.
            if_elim (Less k b n) (c == b'*') (go p (ch ∷ s) (some (p, ch ∷ s))) (backtrack star)
              (λ _. starred star f h) (λ _. back)))
  where
    starred :
        (star : Star)
        → Fits k b (c ∷ p) (ch ∷ s) star
        → b * k + (length (c ∷ p) + suc (length s)) < suc n
        → Less k b n (go p (ch ∷ s) (some (p, ch ∷ s)))
    starred none (now, less) h = star-Less k b n c p ch s now less h
    starred (some (q, t)) (now, less, later, is) h = star-Less k b n c p ch s now less h

abbrev pub Returns : Option Bool → Type 0
Returns r = (answer : Bool) × (r ≡ some answer)

on_turn :
    (fuel k b : ℕ)
    → ((c : ℕ) (p s : Bytes) (star : Star)
        → Fits k c p s star
        → c * k + (length p + length s) < fuel
        → Returns (match_loop fuel p s star))
    → (t : Turn) → Less k b fuel t
    → Returns (elim t as (λ _. Option Bool) [
      | go p' s' star' ↦ match_loop fuel p' s' star'
      | fail ↦ some false
    ])
on_turn fuel k b again (go p s star) (c, f, less) = again c p s star f less
on_turn fuel k b again fail h = (false, refl)

match_loop-Returns :
    (fuel k b : ℕ) (p s : Bytes) (star : Star)
    → Fits k b p s star
    → b * k + (length p + length s) < fuel
    → Returns (match_loop fuel p s star)
unfolding match_loop
match_loop-Returns zero k b p s star f h = absurd (omega arith)
match_loop-Returns (suc fuel) k b p [] star f h = (only_stars p, refl)
match_loop-Returns (suc fuel) k b p (ch ∷ s) star f h =
    on_turn fuel k b (match_loop-Returns fuel k) (turn p ch s star)
      (turn-Less k b fuel p ch s star f h)

fuel_for-Returns : (p s : Bytes) → Returns (match_loop (fuel_for p s) p s none)
fuel_for-Returns p s =
    match_loop-Returns (fuel_for p s) (length p + length s + 1) (length s) p s none
      (omega arith, omega arith) (omega arith)

-- Glob_match ends with an answer for every pattern and key: the fuel of its loop is enough.
pub glob_match-Returns : (p s : Bytes) → Returns (glob_match p s)
unfolding glob_match
glob_match-Returns p s = on_meta (first_meta p)
  where
    on_meta : (o : Option ℕ) → Returns (behind_prefix p s o)
    on_meta none = (bytes_eq p s, refl)
    on_meta (some n) =
        if_elim Returns (ltb (length s) n || not (bytes_eq (take n s) (take n p))) (some false) _
          (λ _. (false, refl))
          (λ _.
            if_elim Returns ((n + 1 == length p && bytes_eq (drop n p) (b'*' ∷ [])) && not (n == 0))
              (some true) (match_loop (fuel_for (drop n p) (drop n s)) (drop n p) (drop n s) none)
              (λ _. (true, refl)) (λ _. fuel_for-Returns (drop n p) (drop n s)))
