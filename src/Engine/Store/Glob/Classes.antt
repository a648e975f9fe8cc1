-- ===== src/Engine/Store/Glob/Classes.antt =====
-- The classes in brackets of the patterns of crates/engine/src/store.rs, as a grammar, and
-- match_bracket against it.
use kv.Prelude.{
  ℕ, ◌≡◌, ◌≢◌, refl, sym, ap, subst, ◌∙◌, Bool, true, false, not, ◌&&◌, ◌||◌, List, [], ◌∷◌, Option,
  none, some, leb, ◌==◌, if◌then◌else◌, Bytes, arith, inl, inr, Bool-cases,
}
use kv.Engine.Store.Glob.{class_loop, negates, tail, bracket_end, match_bracket}

-- A member of a class: a byte, or a range of bytes.
pub data Item : Type 0 where
  byte : ℕ → Item
  range : ℕ → ℕ → Item

unfoldable pub is_in : ℕ → List Item → Bool
is_in ch [] = false
is_in ch (byte c ∷ items) = ch == c || is_in ch items
is_in ch (range low high ∷ items) = (leb low ch && leb ch high) || is_in ch items

-- A `-` and an end of the range that is not `]`.
abbrev pub range_follows : Bytes → Bool
range_follows [] = false
range_follows (d ∷ []) = false
range_follows (d ∷ e ∷ p) = d == b'-' && not (e == b']')

-- The members of a class, and the pattern behind its `]`. In the first place a `]` is a member.
pub data Members : Bool → Bytes → List Item → Bytes → Type 0 where
  close : {c : ℕ} {p : Bytes} → c ≡ b']' → Members false (c ∷ p) [] p
  one :
      {first : Bool} {c : ℕ} {p : Bytes} {items : List Item} {rest : Bytes}
      → (c == b']' && not first) ≡ false
      → range_follows p ≡ false
      → Members false p items rest
      → Members first (c ∷ p) (byte c ∷ items) rest
  span :
      {first : Bool} {c d e : ℕ} {p : Bytes} {items : List Item} {rest : Bytes}
      → (c == b']' && not first) ≡ false
      → range_follows (d ∷ e ∷ p) ≡ true
      → Members false p items rest
      → Members first (c ∷ d ∷ e ∷ p) (range c e ∷ items) rest

-- Whether a class is negated, by a `^` or a `!` in front, and where its members begin.
pub data Opens : Bytes → Bool → Bytes → Type 0 where
  at_end : Opens [] false []
  plain : {c : ℕ} {p : Bytes} → c ≢ b'^' → c ≢ b'!' → Opens (c ∷ p) false (c ∷ p)
  caret : {p : Bytes} → Opens (b'^' ∷ p) true p
  bang : {p : Bytes} → Opens (b'!' ∷ p) true p

-- What is behind a `[` describes a byte, and what is left of the pattern behind that: a class that
-- is closed, or no class at all, and then the byte is the `[`.
pub data Bracket : Bytes → ℕ → Bytes → Type 0 where
  closed :
      {p q rest : Bytes} {negated : Bool} {items : List Item} {ch : ℕ}
      → Opens p negated q
      → Members true q items rest
      → is_in ch items ≡ not negated
      → Bracket p ch rest
  unclosed :
      {p q : Bytes} {negated : Bool} {ch : ℕ}
      → Opens p negated q
      → ((items : List Item) (rest : Bytes) → ¬ Members true q items rest)
      → ch ≡ b'['
      → Bracket p ch p

or_assoc : (a b c : Bool) → ((a || b) || c) ≡ (a || (b || c))
or_assoc true b c = refl
or_assoc false b c = refl

-- One turn of the loop: at the end of the class, at a byte, and at a range.
loop-close :
    (ch c : ℕ) (matched : Bool) (p : Bytes)
    → c ≡ b']'
    → class_loop ch false matched (c ∷ p) ≡ some (matched, p)
unfolding class_loop
loop-close ch c matched [] e = ground arith
loop-close ch c matched (d ∷ []) e = ground arith
loop-close ch c matched (d ∷ f ∷ p) e = ground arith

loop-one :
    (ch : ℕ) (first matched : Bool) (c : ℕ) (p : Bytes)
    → (c == b']' && not first) ≡ false
    → range_follows p ≡ false
    → class_loop ch first matched (c ∷ p) ≡ class_loop ch false (matched || ch == c) p
unfolding class_loop
loop-one ch first matched c [] i r = rw i refl
loop-one ch first matched c (d ∷ []) i r = rw i refl
loop-one ch first matched c (d ∷ e ∷ p) i r = rw (i, r) refl

loop-span :
    (ch : ℕ) (first matched : Bool) (c d e : ℕ) (p : Bytes)
    → (c == b']' && not first) ≡ false
    → range_follows (d ∷ e ∷ p) ≡ true
    → class_loop ch first matched (c ∷ d ∷ e ∷ p)
      ≡ class_loop ch false (matched || (leb c ch && leb ch e)) p
unfolding class_loop
loop-span ch first matched c d e p i r = rw (i, r) refl

-- The loop finds the members of a closed class.
class_loop-of_Members :
    (ch : ℕ) (first matched : Bool) (p : Bytes) (items : List Item) (rest : Bytes)
    → Members first p items rest
    → class_loop ch first matched p ≡ some ((matched || is_in ch items), rest)
unfolding is_in
class_loop-of_Members ch first matched p items rest (close {c = c} e) =
    loop-close ch c matched rest e ∙ ground arith
class_loop-of_Members ch first matched p items rest (one {c = c} {p = q} {items = l} i r m) =
    loop-one ch first matched c q i r
    ∙ class_loop-of_Members ch false (matched || ch == c) q l rest m
    ∙ ap (λ (b : Bool). some (b, rest)) (or_assoc matched (ch == c) (is_in ch l))
class_loop-of_Members ch first matched p items rest
      (span {c = c} {d = d} {e = e} {p = q} {items = l} i r m) =
    loop-span ch first matched c d e q i r
    ∙ class_loop-of_Members ch false (matched || (leb c ch && leb ch e)) q l rest m
    ∙ ap (λ (b : Bool). some (b, rest)) (or_assoc matched (leb c ch && leb ch e) (is_in ch l))

-- What the loop finds is a class.
abbrev Found : ℕ → Bool → Bool → Bytes → Option (Bool × Bytes) → Type 0
Found ch first matched p none = Unit
Found ch first matched p (some (m, rest)) =
    (items : List Item) × Members first p items rest × (m ≡ (matched || is_in ch items))

module _ (ch : ℕ) (first matched : Bool) (c : ℕ) (i : (c == b']' && not first) ≡ false) where
  Found-one :
      (p : Bytes)
      → range_follows p ≡ false
      → (o : Option (Bool × Bytes)) → Found ch false (matched || ch == c) p o
      → Found ch first matched (c ∷ p) o
  unfolding is_in
  Found-one p r none f = tt
  Found-one p r (some (m, rest)) (items, members, e) =
      (byte c ∷ items, one i r members, e ∙ or_assoc matched (ch == c) (is_in ch items))

  Found-span :
      (d e : ℕ) (p : Bytes)
      → range_follows (d ∷ e ∷ p) ≡ true
      → (o : Option (Bool × Bytes)) → Found ch false (matched || (leb c ch && leb ch e)) p o
      → Found ch first matched (c ∷ d ∷ e ∷ p) o
  unfolding is_in
  Found-span d e p r none f = tt
  Found-span d e p r (some (m, rest)) (items, members, eq) = (
    range c e ∷ items,
    span i r members,
    eq ∙ or_assoc matched (leb c ch && leb ch e) (is_in ch items),
  )

Found-close :
    (ch : ℕ) (first matched : Bool) (c : ℕ) (p : Bytes)
    → (c == b']' && not first) ≡ true
    → Found ch first matched (c ∷ p) (class_loop ch first matched (c ∷ p))
unfolding is_in
Found-close ch true matched c p i = absurd (ground arith)
Found-close ch false matched c p i =
    let is_end : c ≡ b']' = ground arith in
    subst (Found ch false matched (c ∷ p)) (sym (loop-close ch c matched p is_end))
      ([], close is_end, ground arith)

-- A turn that is not the end of the class and reads no range.
Found-byte :
    (ch : ℕ) (first matched : Bool) (c : ℕ) (p : Bytes)
    → range_follows p ≡ false
    → Found ch false (matched || ch == c) p (class_loop ch false (matched || ch == c) p)
    → Found ch first matched (c ∷ p) (class_loop ch first matched (c ∷ p))
Found-byte ch first matched c p r f = elim (Bool-cases (c == b']' && not first)) [
  | inl ends ↦ Found-close ch first matched c p ends
  | inr i ↦
      subst (Found ch first matched (c ∷ p)) (sym (loop-one ch first matched c p i r))
        (Found-one ch first matched c i p r _ f)
]

class_loop-Found :
    (ch : ℕ) (first matched : Bool) (p : Bytes)
    → Found ch first matched p (class_loop ch first matched p)
unfolding class_loop
class_loop-Found ch first matched [] = tt
class_loop-Found ch first matched (c ∷ []) = Found-byte ch first matched c [] refl tt
class_loop-Found ch first matched (c ∷ d ∷ []) =
    Found-byte ch first matched c (d ∷ []) refl
      (class_loop-Found ch false (matched || ch == c) (d ∷ []))
class_loop-Found ch first matched (c ∷ d ∷ e ∷ p) = elim (Bool-cases (c == b']' && not first)) [
  | inl ends ↦ Found-close ch first matched c (d ∷ e ∷ p) ends
  | inr i ↦ elim (Bool-cases (range_follows (d ∷ e ∷ p))) [
    | inr r ↦
        Found-byte ch first matched c (d ∷ e ∷ p) r
          (class_loop-Found ch false (matched || ch == c) (d ∷ e ∷ p))
    | inl r ↦
        subst (Found ch first matched (c ∷ d ∷ e ∷ p))
          (sym (loop-span ch first matched c d e p i r))
          (Found-span ch first matched c i d e p r _
            (class_loop-Found ch false (matched || (leb c ch && leb ch e)) p))
  ]
]

opens : (p : Bytes) → Opens p (negates p) (if negates p then tail p else p)
opens [] = at_end
opens (c ∷ p) = elim (Bool-cases (c == b'^')) [
  | inl is ↦
      let c_is : b'^' ≡ c = ground arith in
      subst (λ c. Opens (c ∷ p) (negates (c ∷ p)) (if negates (c ∷ p) then p else c ∷ p)) c_is caret
  | inr not_caret ↦ elim (Bool-cases (c == b'!')) [
    | inl is ↦
        let c_is : b'!' ≡ c = ground arith in
        subst (λ c. Opens (c ∷ p) (negates (c ∷ p)) (if negates (c ∷ p) then p else c ∷ p)) c_is
          bang
    | inr not_bang ↦ rw (not_caret, not_bang) (plain (λ e. ground arith) (λ e. ground arith))
  ]
]

-- match_bracket accepts a byte only as a class, or as a `[` that opens none, describes it.
pub match_bracket-Bracket :
    (p : Bytes) (ch : ℕ) → (match_bracket p ch).0 ≡ true → Bracket p ch (match_bracket p ch).1
unfolding match_bracket
match_bracket-Bracket p ch =
    let q = if negates p then tail p else p in
    read (negates p) q (opens p) (class_loop ch true false q) refl
      (class_loop-Found ch true false q)
  where
    read :
        (negated : Bool) (q : Bytes)
        → Opens p negated q
        → (o : Option (Bool × Bytes)) → class_loop ch true false q ≡ o
        → Found ch true false q o
        → (bracket_end negated ch p o).0 ≡ true
        → Bracket p ch (bracket_end negated ch p o).1
    read negated q o none e f h =
        unclosed o
          (λ items rest m.
            absurd (let found = class_loop-of_Members ch true false q items rest m in cc))
          (ground arith)
    read true q o (some (m, rest)) e (items, members, is) h = closed o members (ground arith)
    read false q o (some (m, rest)) e (items, members, is) h = closed o members (ground arith)
