-- ===== src/Engine/Store/Integer.antt =====
-- The integers of incr in crates/engine/src/store.rs: what `str::parse::<i64>`, `checked_add` and
-- `to_string` of the standard library do.
use kv.Prelude.{
  ℕ, zero, suc, ◌+◌, ◌-◌, ◌/◌, ◌%◌, ◌^◌, Bool, [], ◌∷◌, Option, none, some, ltb, leb, if◌then◌else◌,
  Bytes,
}
use kv.Proto.Integer.{ℤ, pos, negsuc}
use kv.Proto.Integer.Decimal.{signed_value}

-- An optional sign and digits, in the range of an i64; bytes that are not UTF-8 are no digits.
abbrev pub parse_i64 : Bytes → Option ℤ
parse_i64 = signed_value

-- a - b
abbrev pub sub_ℕ : ℕ → ℕ → ℤ
sub_ℕ a b = if leb b a then pos (a - b) else negsuc (b - a - 1)

unfoldable pub ◌+ℤ◌ : ℤ → ℤ → ℤ
◌+ℤ◌ (pos a) (pos b) = pos (a + b)
◌+ℤ◌ (pos a) (negsuc b) = sub_ℕ a (b + 1)
◌+ℤ◌ (negsuc a) (pos b) = sub_ℕ b (a + 1)
◌+ℤ◌ (negsuc a) (negsuc b) = negsuc (a + b + 1)

abbrev pub is_i64 : ℤ → Bool
is_i64 (pos n) = ltb n (2 ^ 63)
is_i64 (negsuc n) = ltb n (2 ^ 63)

unfoldable pub checked_add : ℤ → ℤ → Option ℤ
unfolding ◌+ℤ◌
checked_add a b = if is_i64 (◌+ℤ◌ a b) then some (◌+ℤ◌ a b) else none

-- The digits of a number, in front of others: one for each turn, until the rest is zero.
unfoldable pub digits : ℕ → ℕ → Bytes → Bytes
digits zero n acc = acc
digits (suc fuel) n acc =
    let more = digits fuel (n / 10) ((48 + n % 10) ∷ acc) in
    if ltb n 10 then (48 + n) ∷ acc else more

-- The fuel is the number, which is more than it has digits.
unfoldable pub decimal : ℕ → Bytes
unfolding digits
decimal n = digits (suc n) n []

unfoldable pub to_string : ℤ → Bytes
unfolding decimal
to_string (pos n) = decimal n
to_string (negsuc n) = b'-' ∷ decimal (suc n)
