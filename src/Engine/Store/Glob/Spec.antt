-- ===== src/Engine/Store/Glob/Spec.antt =====
-- What the patterns of crates/engine/src/store.rs mean, and that glob_match accepts no key that its
-- pattern does not describe.
use kv.Prelude.{
  ℕ, zero, suc, ◌+◌, ◌≡◌, refl, sym, ap, ◌∙◌, subst, Bool, true, false, not, ◌&&◌, ◌||◌, [], ◌∷◌,
  ◌++◌, Option, none, some, ◌⊎◌, inl, inr, ltb, ◌==◌, if_elim, length, take, drop, take-append-drop,
  Bytes, bytes_eq, eq_of_bytes_eq, arith, Bool-cases,
}
use kv.Engine.Store.Glob.Classes.{Bracket, match_bracket-Bracket}
use kv.Engine.Store.Glob.{
  match_bracket, Star, only_stars, Turn, go, fail, backtrack, turn, match_loop, is_meta, first_meta,
  fuel_for, behind_prefix, glob_match,
}

-- A pattern describes a key: `*` any bytes, `?` one byte, `[` a byte by the class that it opens, and
-- every other byte itself.
pub data Matches : Bytes → Bytes → Type 0 where
  done : Matches [] []
  star_skip : {p s : Bytes} → Matches p s → Matches (b'*' ∷ p) s
  star_take : {p s : Bytes} {c : ℕ} → Matches (b'*' ∷ p) s → Matches (b'*' ∷ p) (c ∷ s)
  any : {p s : Bytes} {c : ℕ} → Matches p s → Matches (b'?' ∷ p) (c ∷ s)
  literal : {p s : Bytes} {c : ℕ} → is_meta c ≡ false → Matches p s → Matches (c ∷ p) (c ∷ s)
  class :
      {p rest s : Bytes} {c : ℕ} → Bracket p c rest → Matches rest s → Matches (b'[' ∷ p) (c ∷ s)

-- The last star describes what is left of the key from where it began.
abbrev Behind : Star → Type 0
Behind none = ⊥
Behind (some (q, t)) = Matches (b'*' ∷ q) t

-- Where the loop goes on accepts, and so does what it left.
abbrev Accepts : Turn → Type 0
Accepts (go p s star) = Matches p s ⊎ Behind star
Accepts fail = ⊥

only_stars-Matches : (p : Bytes) → only_stars p ≡ true → Matches p []
unfolding only_stars
only_stars-Matches [] h = done
only_stars-Matches (c ∷ p) h =
    let c_is : c ≡ b'*' = ground arith in
    subst (λ c. Matches (c ∷ p) []) (sym c_is) (star_skip (only_stars-Matches p (ground arith)))

backtrack-Behind : (star : Star) → Accepts (backtrack star) → Behind star
backtrack-Behind none h = h
backtrack-Behind (some (q, [])) h = absurd h
backtrack-Behind (some (q, c ∷ t)) (inl m) = star_take (star_skip m)
backtrack-Behind (some (q, c ∷ t)) (inr m) = star_take m

number : (a b : ℕ) → (a == b) ≡ true → a ≡ b
number a b h = ground arith

one_byte :
    (c : ℕ) (p : Bytes) (ch : ℕ) (s : Bytes)
    → (c == b'[') ≡ false
    → (c == b'?' || c == ch) ≡ true
    → Matches p s
    → Matches (c ∷ p) (ch ∷ s)
one_byte c p ch s plain same rest = elim (Bool-cases (c == b'?')) [
  | inl any_byte ↦ subst (λ c. Matches (c ∷ p) (ch ∷ s)) (sym (number c b'?' any_byte)) (any rest)
  | inr other ↦ elim (Bool-cases (c == b'*')) [
    | inl is_star ↦
        subst (λ c. Matches (c ∷ p) (ch ∷ s)) (sym (number c b'*' is_star))
          (star_take (star_skip rest))
    | inr not_star ↦
        subst (λ (d : ℕ). Matches (c ∷ p) (d ∷ s)) (number c ch (ground arith))
          (literal (ground arith) rest)
  ]
]

turn-Accepts :
    (p : Bytes) (ch : ℕ) (s : Bytes) (star : Star)
    → Accepts (turn p ch s star)
    → Matches p (ch ∷ s) ⊎ Behind star
unfolding turn
turn-Accepts [] ch s star = λ h. inr (backtrack-Behind star h)
turn-Accepts (c ∷ p) ch s star =
    let Goal : Type 0 = Matches (c ∷ p) (ch ∷ s) ⊎ Behind star in
    let If : Turn → Type 0 = λ t. Accepts t → Goal in
    if_elim If (c == b'[') _ _
      (λ bracket.
        if_elim If (match_bracket p ch).0 (go (match_bracket p ch).1 s star) (backtrack star)
          (λ m h. elim h [
            | inl rest ↦ inl (
                subst (λ c. Matches (c ∷ p) (ch ∷ s)) (sym (number c b'[' bracket))
                  (class (match_bracket-Bracket p ch m) rest))
            | inr behind ↦ inr behind
          ])
          (λ _ h. inr (backtrack-Behind star h)))
      (λ plain.
        if_elim If (c == b'?' || c == ch) (go p s star) _
          (λ same h. elim h [
            | inl rest ↦ inl (one_byte c p ch s plain same rest)
            | inr behind ↦ inr behind
          ])
          (λ _.
            if_elim If (c == b'*') (go p (ch ∷ s) (some (p, ch ∷ s))) (backtrack star)
              (λ is_star h. inl (
                subst (λ c. Matches (c ∷ p) (ch ∷ s)) (sym (number c b'*' is_star))
                  (elim h [ inl rest ↦ star_skip rest | inr rest ↦ rest ])))
              (λ _ h. inr (backtrack-Behind star h))))

gone_on :
    (fuel : ℕ)
    → ((p s : Bytes) (star : Star)
        → match_loop fuel p s star ≡ some true
        → Matches p s ⊎ Behind star)
    → (t : Turn)
    → (elim t as (λ _. Option Bool) [
      | go p' s' star' ↦ match_loop fuel p' s' star'
      | fail ↦ some false
    ])
      ≡ some true
    → Accepts t
gone_on fuel accepts (go p' s' star') h = accepts p' s' star' h
gone_on fuel accepts fail h = cc

match_loop-Accepts :
    (fuel : ℕ) (p s : Bytes) (star : Star)
    → match_loop fuel p s star ≡ some true
    → Matches p s ⊎ Behind star
unfolding match_loop
match_loop-Accepts zero p s star h = absurd cc
match_loop-Accepts (suc fuel) p [] star h = inl (only_stars-Matches p cc)
match_loop-Accepts (suc fuel) p (ch ∷ s) star h =
    turn-Accepts p ch s star (gone_on fuel (match_loop-Accepts fuel) (turn p ch s star) h)

-- A literal prefix describes itself.
no_meta-Matches : (p : Bytes) → first_meta p ≡ none → Matches p p
unfolding first_meta
no_meta-Matches [] h = done
no_meta-Matches (c ∷ p) h = literal (ground arith) (no_meta-Matches p (ground arith))

prefix-Matches :
    (p : Bytes) (n : ℕ) (s : Bytes)
    → first_meta p ≡ some n
    → Matches (drop n p) s
    → Matches p (take n p ++ s)
unfolding first_meta
prefix-Matches [] n s h m = absurd cc
prefix-Matches (c ∷ p) zero s h m = m
prefix-Matches (c ∷ p) (suc n) s h m =
    literal (ground arith) (prefix-Matches p n s (ground arith) m)

star-Matches : (s : Bytes) → Matches (b'*' ∷ []) s
star-Matches [] = star_skip done
star-Matches (c ∷ s) = star_take (star-Matches s)

behind_prefix-Matches :
    (p s : Bytes) (o : Option ℕ) → first_meta p ≡ o → behind_prefix p s o ≡ some true → Matches p s
behind_prefix-Matches p s none plain =
    λ h. subst (Matches p) (eq_of_bytes_eq p s cc) (no_meta-Matches p plain)
behind_prefix-Matches p s (some n) at =
    let rest = match_loop (fuel_for (drop n p) (drop n s)) (drop n p) (drop n s) none in
    let If : Option Bool → Type 0 = λ r. r ≡ some true → Matches p s in
    if_elim If (ltb (length s) n || not (bytes_eq (take n s) (take n p))) (some false) _ (λ _ h. cc)
      (λ starts.
        let same : take n s ≡ take n p = eq_of_bytes_eq _ _ (ground arith) in
        let whole : (take n p ++ drop n s) ≡ s =
          ap (λ (b : Bytes). b ++ drop n s) (sym same) ∙ take-append-drop n s in
        let described : Matches (drop n p) (drop n s) → Matches p s =
          λ m. subst (Matches p) whole (prefix-Matches p n (drop n s) at m) in
        if_elim If ((n + 1 == length p && bytes_eq (drop n p) (b'*' ∷ [])) && not (n == 0))
          (some true) rest
          (λ star _.
            let is_star : drop n p ≡ b'*' ∷ [] = eq_of_bytes_eq _ _ (ground arith) in
            described (subst (λ q. Matches q (drop n s)) (sym is_star) (star-Matches (drop n s))))
          (λ _ h. elim (match_loop-Accepts _ (drop n p) (drop n s) none h) [
            | inl m ↦ described m
            | inr b ↦ absurd b
          ]))

-- Glob_match accepts only keys that the pattern describes, where `*` describes any bytes, `?` one
-- byte, and every byte but `*`, `?` and `[` itself. A `[` that a `]` closes describes one byte: a
-- member of the class, or one that is no member if `^` or `!` stands in front; the members are
-- bytes and ranges, and a `]` in the first place is a member. A `[` that is not closed describes
-- itself.
pub glob_match-Matches : (p s : Bytes) → glob_match p s ≡ some true → Matches p s
unfolding glob_match
glob_match-Matches p s h = behind_prefix-Matches p s (first_meta p) refl h
