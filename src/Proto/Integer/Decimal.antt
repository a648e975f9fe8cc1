-- ===== src/Proto/Integer/Decimal.antt =====
-- What atoi_u64 and atoi_i64 of crates/proto/src/command.rs accept, against the value of a numeral.
use kv.Prelude.{
  ℕ, zero, suc, ◌+◌, ◌-◌, ◌*◌, ◌^◌, ◌≤◌, ◌<◌, ◌≡◌, refl, Bool, true, false, ◌&&◌, [], ◌∷◌, Option,
  none, some, ltb, leb, ◌==◌, if◌then◌else◌, Bytes, All, arith, tests, inl, inr, Bool-cases,
}
use kv.Proto.Integer.{digits_loop, atoi_u64, atoi_i64, digit, magnitude, signed, ℤ, pos, negsuc}

abbrev pub IsByte : ℕ → Type 0
IsByte b = b < 256

-- The reference: a numeral is decimal digits, and its value counts in tens behind `n`.
abbrev pub is_digit : ℕ → Bool
is_digit c = leb 48 c && leb c 57

abbrev pub all_digits : Bytes → Bool
all_digits [] = true
all_digits (c ∷ b) = is_digit c && all_digits b

abbrev pub value : ℕ → Bytes → ℕ
value n [] = n
value n (c ∷ b) = value (n * 10 + (c - 48)) b

value_grows : (n : ℕ) (b : Bytes) → n ≤ value n b
value_grows n [] = omega arith
value_grows n (c ∷ b) = omega (arith, value_grows (n * 10 + (c - 48)) b)

digit-below : (c : ℕ) → IsByte c → is_digit c ≡ false → ltb 9 (digit c) ≡ true
digit-below c h e = ground arith

digit-value : (c : ℕ) → is_digit c ≡ true → digit c ≡ c - 48
digit-value c e = ground arith

abbrev reference : ℕ → Bytes → Option ℕ
reference n b = if all_digits b && ltb (value n b) (2 ^ 64) then some (value n b) else none

digits_loop-reference :
    (n : ℕ) (b : Bytes) → All IsByte b → n < 2 ^ 64 → digits_loop n b ≡ reference n b
unfolding digits_loop
digits_loop-reference n [] w h = ground arith
digits_loop-reference n (c ∷ b) w h = elim (Bool-cases (is_digit c)) [
  | inl dec ↦ elim (Bool-cases (leb (2 ^ 64) (n * 10 + digit c))) [
    | inl over ↦ ground (arith, digit-value c dec, value_grows (n * 10 + (c - 48)) b, dec)
    | inr fits ↦ ground (
      arith,
      digit-value c dec,
      dec,
      digits_loop-reference (n * 10 + digit c) b w.1 (omega (tests, fits)),
    )
  ]
  | inr nod ↦ ground (arith, digit-below c w.0 nod, nod)
]

-- The text of a numeral: digits, and at least one.
abbrev pub is_numeral : Bytes → Bool
is_numeral [] = false
is_numeral (c ∷ b) = all_digits (c ∷ b)

-- atoi_u64 accepts exactly the non-empty strings of decimal digits whose value is below 2^64, and
-- returns that value. Condition: the input is bytes.
pub atoi_u64_lem :
    (b : Bytes)
    → All IsByte b
    → atoi_u64 b ≡ (if is_numeral b && ltb (value 0 b) (2 ^ 64) then some (value 0 b) else none)
unfolding atoi_u64
atoi_u64_lem [] w = refl
atoi_u64_lem (c ∷ b) w = digits_loop-reference 0 (c ∷ b) w (omega arith)

-- The integer that a signed numeral denotes.
abbrev pub minus : ℕ → ℤ
minus zero = pos 0
minus (suc n) = negsuc n

-- The accepted range of each sign.
abbrev pub in_i64 : Bool → ℕ → Bool
in_i64 true n = leb n (2 ^ 63)
in_i64 false n = ltb n (2 ^ 63)

abbrev pub numeral_value : Bool → Bytes → Option ℤ
numeral_value neg b =
    if is_numeral b && in_i64 neg (value 0 b)
    then some (if neg then minus (value 0 b) else pos (value 0 b))
    else none

-- An optional sign and a numeral.
abbrev pub signed_value : Bytes → Option ℤ
signed_value [] = none
signed_value (c ∷ b) =
    if c == 45
    then numeral_value true b
    else if c == 43
    then numeral_value false b
    else numeral_value false (c ∷ b)

signed-in_i64 :
    (neg t : Bool) (n : ℕ)
    → (elim (if t && ltb n (2 ^ 64) then some n else none) as (λ _. Option ℤ) [
      | none ↦ none
      | some m ↦ signed neg m
    ])
      ≡ (if t && in_i64 neg n then some (if neg then minus n else pos n) else none)
signed-in_i64 true t zero = ground arith
signed-in_i64 true t (suc n) = ground arith
signed-in_i64 false t n = ground arith

magnitude-value : (neg : Bool) (b : Bytes) → All IsByte b → magnitude neg b ≡ numeral_value neg b
magnitude-value neg [] w = refl
magnitude-value neg (c ∷ b) w =
    rw (magnitude, digits_loop-reference 0 (c ∷ b) w (omega arith))
      (signed-in_i64 neg (all_digits (c ∷ b)) (value 0 (c ∷ b)))

-- atoi_i64 accepts exactly a decimal numeral with at most one sign whose value is in the range of
-- an i64, and returns that value. Condition: the input is bytes.
pub atoi_i64_lem : (b : Bytes) → All IsByte b → atoi_i64 b ≡ signed_value b
unfolding atoi_i64
atoi_i64_lem [] w = refl
atoi_i64_lem (c ∷ b) w = ground (
  arith,
  magnitude-value true b w.1,
  magnitude-value false b w.1,
  magnitude-value false (c ∷ b) w,
)
