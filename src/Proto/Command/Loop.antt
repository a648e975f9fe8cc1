-- ===== src/Proto/Command/Loop.antt =====
-- What the option parsers of crates/proto/src/command.rs keep, from what each option keeps.
use Prim.Native.String.{String}
use kv.Prelude.{
  ℕ, ◌+◌, ◌*◌, ◌^◌, ◌<◌, ◌≡◌, refl, subst, zero, suc, Bool, true, ltb, Option_elim, false, List, [],
  ◌∷◌, Option, none, some, leb, ◌==◌, length, Bytes, ok, err, ok_or, ◌>>=◌, All, arith, if_elim,
  ◌++◌,
}
use kv.Proto.Integer.{
  ℤ, pos, negsuc, digits_loop, digit, atoi_u64, negated, signed, magnitude, atoi_i64,
}
use kv.Proto.Command.{
  Value, invalid_integer, invalid_expiry, Result, SetTtl, seconds, millis, unix_secs, unix_millis,
}
use kv.Proto.Command.Options.{
  bulk, parse_u64, parse_i64, lookup, uppercase, OptionKind, flag, valued, read_option, finish,
  option_loop, parse_relative, parse_absolute, ttl_options,
}

-- What a parser returns, if it does not fail.
abbrev pub Returns : {A : Type 0} → (A → Type 0) → Result A → Type 0
Returns P (ok a) = P a
Returns P (err e) = Unit

abbrev pub Any : {A : Type 0} → A → Type 0
Any a = Unit

module _ {A B : Type 0} (P : B → Type 0) where
  pub after :
      (Q : A → Type 0) (m : Result A) (f : A → Result B)
      → Returns Q m
      → ((a : A) → Q a → Returns P (f a))
      → Returns P (m >>= f)
  after Q (ok a) f h k = k a h
  after Q (err e) f h k = tt

  pub after_any :
      (m : Result A) (f : A → Result B) → ((a : A) → Returns P (f a)) → Returns P (m >>= f)
  after_any (ok a) f k = k a
  after_any (err e) f k = tt

pub Returns-ok_or :
    {A : Type 0} (P : A → Type 0) (o : Option A) (e : _)
    → ((a : A) → o ≡ some a → P a)
    → Returns P (ok_or o e)
Returns-ok_or P none e h = tt
Returns-ok_or P (some a) e h = h a refl

-- A row of a table that a lookup finds.
pub lookup-All {ℓ κ} :
    {A : Type ℓ} (P : A → Type κ) (table : List (String × A)) (name : Bytes) (a : A)
    → All (λ (e : String × A). P e.1) table
    → lookup table name ≡ some a
    → P a
unfolding lookup
lookup-All P [] name a all h = cc
lookup-All P ((s, b) ∷ table) name a all h = ground (arith, all.0, lookup-All P table name a all.1)

-- An option keeps a property of the state.
abbrev pub Keeps : {S : Type 0} → (S → Type 0) → OptionKind S → Type 0
Keeps P (flag f) = (s : _) → P s → P (f s)
Keeps P (valued f) = (v : Value) (s : _) → P s → Returns P (f v s)

module _ {S : Type 0} (P : S → Type 0) (cmd : String) (longest : ℕ)
    (table : List (String × OptionKind S))
    (all : All (λ (e : String × OptionKind S). Keeps P e.1) table) where
  read_option-Keeps : (v : Value) → Returns (Keeps P) (read_option longest table v)
  unfolding read_option
  read_option-Keeps v = after_any (Keeps P) (bulk v) _ λ opt.
      if_elim (Returns (Keeps P)) (leb (length opt) longest) _ _
        (λ _.
          Returns-ok_or (Keeps P) (lookup table (uppercase opt)) _
            λ k h. lookup-All (Keeps P) table (uppercase opt) k all h)
        (λ _. tt)

  finish-Keeps : (kind : OptionKind S) (s : S) → Keeps P kind → P s → Returns P (finish cmd kind s)
  finish-Keeps (flag f) s k p = k s p
  finish-Keeps (valued f) s k p = tt

  step-Keeps :
      (kind : OptionKind S) (s : S) (v : Value) (alone with_value : S → Result S)
      → Keeps P kind
      → P s
      → ((s' : S) → P s' → Returns P (alone s'))
      → ((s' : S) → P s' → Returns P (with_value s'))
      → Returns P
          (elim kind as (λ _. Result S) [ flag f ↦ alone (f s) | valued f ↦ f v s >>= with_value ])
  step-Keeps (flag f) s v alone with_value k p h g = h (f s) (k s p)
  step-Keeps (valued f) s v alone with_value k p h g = after P P (f v s) with_value (k v s p) g

  -- The whole loop keeps it, if every option of the table does.
  pub option_loop-Keeps :
      (s : S) (vs : List Value) → P s → Returns P (option_loop cmd longest table s vs)
  unfolding option_loop
  option_loop-Keeps s [] p = p
  option_loop-Keeps s (o ∷ []) p =
      after P (Keeps P) (read_option longest table o) _ (read_option-Keeps o)
        λ kind k. finish-Keeps kind s k p
  option_loop-Keeps s (o ∷ v ∷ rest) p =
      after P (Keeps P) (read_option longest table o) _ (read_option-Keeps o) λ kind k.
        step-Keeps kind s v (λ s'. option_loop cmd longest table s' (v ∷ rest))
          (λ s'. option_loop cmd longest table s' rest) k p
          (λ s' q. option_loop-Keeps s' (v ∷ rest) q) (λ s' q. option_loop-Keeps s' rest q)

-- A number that was parsed is a u64.
digits_loop-u64 : (n : ℕ) (b : Bytes) (m : ℕ) → n < 2 ^ 64 → digits_loop n b ≡ some m → m < 2 ^ 64
unfolding digits_loop
digits_loop-u64 n [] m h e = ground arith
digits_loop-u64 n (c ∷ b) m h e = ground (arith, digits_loop-u64 (n * 10 + digit c) b m)

pub atoi_u64-u64 : (b : Bytes) (m : ℕ) → atoi_u64 b ≡ some m → m < 2 ^ 64
unfolding atoi_u64
atoi_u64-u64 [] m e = cc
atoi_u64-u64 (c ∷ b) m e = digits_loop-u64 0 (c ∷ b) m (omega arith) e

abbrev pub IsU64 : ℕ → Type 0
IsU64 n = n < 2 ^ 64

pub parse_u64-IsU64 : (v : Value) → Returns IsU64 (parse_u64 v)
unfolding parse_u64
parse_u64-IsU64 v =
    after_any IsU64 (bulk v) _ λ b. Returns-ok_or IsU64 (atoi_u64 b) _ λ n e. atoi_u64-u64 b n e

-- An i64.
abbrev pub IsI64 : ℤ → Type 0
IsI64 (pos n) = n < 2 ^ 63
IsI64 (negsuc n) = n < 2 ^ 63

abbrev InI64 : Option ℤ → Type 0
InI64 none = Unit
InI64 (some z) = IsI64 z

negated-IsI64 : (n : ℕ) → ltb (2 ^ 63) n ≡ false → IsI64 (negated n)
negated-IsI64 zero h = omega arith
negated-IsI64 (suc n) h = ground arith

signed-InI64 : (neg : Bool) (n : ℕ) → InI64 (signed neg n)
signed-InI64 true n =
    if_elim InI64 (ltb (2 ^ 63) n) none (some (negated n)) (λ _. tt) (λ h. negated-IsI64 n h)
signed-InI64 false n =
    if_elim InI64 (ltb n (2 ^ 63)) (some (pos n)) none (λ small. ground arith) (λ _. tt)

magnitude-InI64 : (neg : Bool) (b : Bytes) → InI64 (magnitude neg b)
magnitude-InI64 neg [] = tt
magnitude-InI64 neg (c ∷ b) =
    Option_elim InI64 (digits_loop 0 (c ∷ b)) none (signed neg) (λ _. tt)
      (λ n _. signed-InI64 neg n)

atoi_i64-InI64 : (b : Bytes) → InI64 (atoi_i64 b)
unfolding atoi_i64
atoi_i64-InI64 [] = tt
atoi_i64-InI64 (c ∷ b) =
    if_elim InI64 (c == 45) (magnitude true b) _ (λ _. magnitude-InI64 true b)
      (λ _.
        if_elim InI64 (c == 43) (magnitude false b) (magnitude false (c ∷ b))
          (λ _. magnitude-InI64 false b) (λ _. magnitude-InI64 false (c ∷ b)))

pub parse_i64-IsI64 : (v : Value) → Returns IsI64 (parse_i64 v)
unfolding parse_i64
parse_i64-IsI64 v =
    after_any IsI64 (bulk v) _
      λ b. Returns-ok_or IsI64 (atoi_i64 b) _ λ z e. subst InI64 e (atoi_i64-InI64 b)

-- A time to live is a u64, and a relative one is not zero.
abbrev pub IsTtl : SetTtl → Type 0
IsTtl (seconds n) = (0 < n) × (n < 2 ^ 64)
IsTtl (millis n) = (0 < n) × (n < 2 ^ 64)
IsTtl (unix_secs n) = n < 2 ^ 64
IsTtl (unix_millis n) = n < 2 ^ 64

positive_of : (n : ℕ) → (n == 0) ≡ false → 0 < n
positive_of n h = ground arith

pub parse_relative-IsTtl :
    (unit : ℕ → SetTtl)
    → ((n : ℕ) → 0 < n → n < 2 ^ 64 → IsTtl (unit n))
    → (v : Value) → Returns IsTtl (parse_relative unit v)
unfolding parse_relative
parse_relative-IsTtl unit h v = after_any IsTtl (bulk v) _ λ raw.
    after IsTtl IsU64 (ok_or (atoi_u64 raw) (invalid_integer raw)) _
      (Returns-ok_or IsU64 (atoi_u64 raw) _ λ n e. atoi_u64-u64 raw n e)
      λ n small.
        if_elim (Returns IsTtl) (n == 0) (err (invalid_expiry raw)) (ok (unit n)) (λ _. tt)
          λ positive. h n (positive_of n positive) small

pub parse_absolute-IsTtl :
    (unit : ℕ → SetTtl)
    → ((n : ℕ) → n < 2 ^ 64 → IsTtl (unit n))
    → (v : Value) → Returns IsTtl (parse_absolute unit v)
unfolding parse_absolute
parse_absolute-IsTtl unit h v = after IsTtl IsU64 (parse_u64 v) _ (parse_u64-IsU64 v) h

-- The four options keep what storing a time to live keeps.
pub ttl_options-Keeps :
    {S : Type 0} (P : S → Type 0) (put : SetTtl → S → S)
    → ((t : SetTtl) (s : S) → IsTtl t → P s → P (put t s))
    → All (λ (e : String × OptionKind S). Keeps P e.1) (ttl_options put)
unfolding ttl_options
ttl_options-Keeps P put h = (
  (λ v s p.
      after P IsTtl (parse_relative seconds v) _ (parse_relative-IsTtl seconds (λ n a b. (a, b)) v)
        λ t q. h t s q p),
  (
    (λ v s p.
        after P IsTtl (parse_relative millis v) _ (parse_relative-IsTtl millis (λ n a b. (a, b)) v)
          λ t q. h t s q p),
    (
      (λ v s p.
          after P IsTtl (parse_absolute unix_secs v) _ (parse_absolute-IsTtl unix_secs (λ n a. a) v)
            λ t q. h t s q p),
      (
        (λ v s p.
            after P IsTtl (parse_absolute unix_millis v) _
              (parse_absolute-IsTtl unix_millis (λ n a. a) v) λ t q. h t s q p),
        tt,
      ),
    ),
  ),
)

pub All-append {ℓ κ} :
    {A : Type ℓ} (P : A → Type κ) (xs ys : List A) → All P xs → All P ys → All P (xs ++ ys)
All-append P [] ys h g = g
All-append P (x ∷ xs) ys h g = (h.0, All-append P xs ys h.1 g)
