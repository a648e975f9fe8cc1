-- ===== src/Proto/Integer.antt =====
-- The integers of crates/proto/src/command.rs: atoi_u64 and atoi_i64.
pub mod Decimal
use kv.Prelude.{
  ℕ, zero, suc, ◌+◌, ◌*◌, ◌^◌, ◌%◌, Bool, true, false, [], ◌∷◌, Option, none, some, ltb, leb, ◌==◌,
  if◌then◌else◌, Bytes, codes,
}

-- An i64: `pos n` is n, and `negsuc n` is -(n + 1).
pub data ℤ : Type 0 where
  pos : ℕ → ℤ
  negsuc : ℕ → ℤ

-- `byte.wrapping_sub(b'0')`
abbrev pub digit : ℕ → ℕ
digit byte = (byte + 208) % 256

-- The loop of both functions: `checked_mul(10)` and `checked_add`, on a u64.
unfoldable pub digits_loop : ℕ → Bytes → Option ℕ
digits_loop n [] = some n
digits_loop n (byte ∷ b) =
    let d = digit byte in
    let rest = digits_loop (n * 10 + d) b in
    if ltb 9 d
    then none
    else if leb (2 ^ 64) (n * 10)
    then none
    else if leb (2 ^ 64) (n * 10 + d)
    then none
    else rest

unfoldable pub atoi_u64 : Bytes → Option ℕ
unfolding digits_loop
atoi_u64 [] = none
atoi_u64 (byte ∷ b) = digits_loop 0 (byte ∷ b)

-- `n.wrapping_neg() as i64`, for `n` at most 2^63
abbrev pub negated : ℕ → ℤ
negated zero = pos 0
negated (suc n) = negsuc n

abbrev pub signed : Bool → ℕ → Option ℤ
signed true n = if ltb (2 ^ 63) n then none else some (negated n)
signed false n = if ltb n (2 ^ 63) then some (pos n) else none

-- The digits behind a sign: none is an error.
abbrev pub magnitude : Bool → Bytes → Option ℤ
magnitude neg [] = none
magnitude neg (d ∷ digits) = elim (digits_loop 0 (d ∷ digits)) [
  | none ↦ none
  | some n ↦ signed neg n
]

unfoldable pub atoi_i64 : Bytes → Option ℤ
unfolding digits_loop
atoi_i64 [] = none
atoi_i64 (c ∷ b) =
    if c == 45
    then magnitude true b
    else if c == 43
    then magnitude false b
    else magnitude false (c ∷ b)
