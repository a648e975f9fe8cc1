-- ===== src/Engine/Store/Glob.antt =====
-- `glob_match` of crates/engine/src/store.rs, the patterns of KEYS and SCAN. Positions in the pattern
-- and in the key are what is left of them from there on.
pub mod Classes
pub mod Spec
pub mod Ends
use kv.Prelude.{
  ℕ, zero, suc, ◌+◌, ◌*◌, ◌≡◌, Bool, true, false, not, ◌&&◌, ◌||◌, List, [], ◌∷◌, Option, none,
  some, leb, ltb, ◌==◌, take, drop, if◌then◌else◌, length, Bytes, bytes_eq,
}

-- The end of a class, if it has one: whether the byte is in it, and the pattern behind it. A `]` in
-- the first place is a member.
unfoldable pub class_loop : ℕ → Bool → Bool → Bytes → Option (Bool × Bytes)
class_loop ch first matched [] = none
class_loop ch first matched (c ∷ []) = if c == b']' && not first then some (matched, []) else none
class_loop ch first matched (c ∷ d ∷ []) =
    let rest = class_loop ch false (matched || ch == c) (d ∷ []) in
    if c == b']' && not first then some (matched, d ∷ []) else rest
class_loop ch first matched (c ∷ d ∷ e ∷ p) =
    let range = class_loop ch false (matched || (leb c ch && leb ch e)) p in
    let one = class_loop ch false (matched || ch == c) (d ∷ e ∷ p) in
    if c == b']' && not first
    then some (matched, d ∷ e ∷ p)
    else if d == b'-' && not (e == b']')
    then range
    else one

-- `^` or `!`
abbrev pub negates : Bytes → Bool
negates [] = false
negates (c ∷ p) = c == b'^' || c == b'!'

abbrev pub tail : Bytes → Bytes
tail [] = []
tail (c ∷ p) = p

abbrev pub bracket_end : Bool → ℕ → Bytes → Option (Bool × Bytes) → Bool × Bytes
bracket_end negate ch p none = (ch == b'[', p)
bracket_end negate ch p (some (matched, rest)) = (if negate then not matched else matched, rest)

-- `match_bracket` on what is behind the `[`, which is a literal if the class does not end.
unfoldable pub match_bracket : Bytes → ℕ → Bool × Bytes
unfolding class_loop
match_bracket p ch =
    bracket_end (negates p) ch p (class_loop ch true false (if negates p then tail p else p))

-- What the loop keeps of the last star: the pattern behind it, and the key from where it began.
abbrev pub Star : Type 0
Star = Option (Bytes × Bytes)

-- Whether the rest of a pattern, behind the end of the key, is stars.
unfoldable pub only_stars : Bytes → Bool
only_stars [] = true
only_stars (c ∷ p) = c == b'*' && only_stars p

-- A turn of the loop, at a byte of the key: where it goes on.
pub data Turn : Type 0 where
  go : Bytes → Bytes → Star → Turn
  fail : Turn

abbrev pub backtrack : Star → Turn
backtrack none = fail
backtrack (some (p, [])) = fail
backtrack (some (p, c ∷ s)) = go p s (some (p, s))

unfoldable pub turn : Bytes → ℕ → Bytes → Star → Turn
unfolding match_bracket
turn [] ch s star = backtrack star
turn (c ∷ p) ch s star =
    if c == b'['
    then (if (match_bracket p ch).0 then go (match_bracket p ch).1 s star else backtrack star)
    else if c == b'?' || c == ch
    then go p s star
    else if c == b'*'
    then go p (ch ∷ s) (some (p, ch ∷ s))
    else backtrack star

unfoldable pub match_loop : ℕ → Bytes → Bytes → Star → Option Bool
match_loop zero p s star = none
match_loop (suc fuel) p [] star = some (only_stars p)
match_loop (suc fuel) p (ch ∷ s) star = elim (turn p ch s star) [
  | go p' s' star' ↦ match_loop fuel p' s' star'
  | fail ↦ some false
]

abbrev pub is_meta : ℕ → Bool
is_meta c = c == b'*' || c == b'?' || c == b'['

-- `memchr3`: where the first `*`, `?` or `[` stands.
unfoldable pub first_meta : Bytes → Option ℕ
first_meta [] = none
first_meta (c ∷ p) =
    let rest = first_meta p in
    if is_meta c then some 0 else (elim rest [ none ↦ none | some n ↦ some (suc n) ])

-- Enough for the loop, whose turns shorten the pattern or the key, or move the last star.
abbrev pub fuel_for : Bytes → Bytes → ℕ
fuel_for p s = (length s + 1) * (length p + length s + 1)

-- The literal prefix of that length, and what it leaves to the loop.
abbrev pub behind_prefix : Bytes → Bytes → Option ℕ → Option Bool
behind_prefix pattern s none = some (bytes_eq pattern s)
behind_prefix pattern s (some n) =
    let p = drop n pattern in
    let rest = match_loop (fuel_for p (drop n s)) p (drop n s) none in
    if ltb (length s) n || not (bytes_eq (take n s) (take n pattern))
    then some false
    else if (n + 1 == length pattern && bytes_eq p (b'*' ∷ [])) && not (n == 0)
    then some true
    else rest

-- `none` would be a loop without an end, which Ends excludes.
unfoldable pub glob_match : Bytes → Bytes → Option Bool
unfolding first_meta match_loop
glob_match pattern s = behind_prefix pattern s (first_meta pattern)
