-- ===== src/Proto/Command/Options.antt =====
-- The options of SET, SETREV, GETEX and SCAN: crates/proto/src/command.rs. The four parsers walk
-- the arguments behind the fixed ones in the same way, each with its own table of options.
use Prim.Native.String.{String}
use kv.Prelude.{
  ℕ, ◌-◌, ◌&&◌, List, [], ◌∷◌, map, Option, none, some, leb, ◌==◌, if◌then◌else◌, length, Bytes,
  codes, bytes_eq, ok, err, ok_or, ◌>>=◌,
}
use kv.Proto.Integer.{ℤ, atoi_u64, atoi_i64}
use kv.Proto.Command.{
  Value, bulk_string, simple_string, other, wrong_arity, invalid_integer, invalid_expiry, syntax,
  invalid_format, Result, SetTtl, seconds, millis, unix_secs, unix_millis,
}

abbrev pub bulk : Value → Result Bytes
bulk (bulk_string b) = ok b
bulk (simple_string b) = ok b
bulk other = err (invalid_format "expected bulk string")

unfoldable pub parse_u64 : Value → Result ℕ
parse_u64 v = do b ← bulk v; ok_or (atoi_u64 b) (invalid_integer b)

unfoldable pub parse_i64 : Value → Result ℤ
parse_i64 v = do b ← bulk v; ok_or (atoi_i64 b) (invalid_integer b)

-- `make_ascii_uppercase`
abbrev pub uppercase : Bytes → Bytes
uppercase = map (λ c. if leb 97 c && leb c 122 then c - 32 else c)

-- A `match` on byte string literals.
unfoldable pub lookup {ℓ} : {A : Type ℓ} → List (String × A) → Bytes → Option A
lookup [] name = none
lookup ((s, a) ∷ table) name = if bytes_eq name (codes s) then some a else lookup table name

-- An option that stands alone, or one whose value is the next argument.
pub data OptionKind (S : Type 0) : Type 0 where
  flag : (S → S) → OptionKind S
  valued : (Value → S → Result S) → OptionKind S

-- The option that an argument names: `longest` is the size of the buffer for its upper case.
unfoldable pub read_option :
    {S : Type 0} → ℕ → List (String × OptionKind S) → Value → Result (OptionKind S)
unfolding lookup
read_option longest table v = do
  opt ← bulk v
  if leb (length opt) longest
      then ok_or (lookup table (uppercase opt)) (syntax opt)
      else err (syntax opt)

-- The last argument: an option with a value has none.
abbrev pub finish : {S : Type 0} → String → OptionKind S → S → Result S
finish cmd (flag f) s = ok (f s)
finish cmd (valued f) s = err (wrong_arity cmd)

-- The `while i < args.len()` of the parsers.
unfoldable pub option_loop :
    {S : Type 0} → String → ℕ → List (String × OptionKind S) → S → List Value → Result S
unfolding read_option
option_loop cmd longest table s [] = ok s
option_loop cmd longest table s (o ∷ []) = do kind ← read_option longest table o; finish cmd kind s
option_loop cmd longest table s (o ∷ v ∷ rest) = do
  kind ← read_option longest table o
  elim kind [
    | flag f ↦ option_loop cmd longest table (f s) (v ∷ rest)
    | valued f ↦ (do s' ← f v s; option_loop cmd longest table s' rest)
  ]

-- EX and PX: a time to live, which is not zero.
unfoldable pub parse_relative : (ℕ → SetTtl) → Value → Result SetTtl
parse_relative unit v = do
  raw ← bulk v
  n ← ok_or (atoi_u64 raw) (invalid_integer raw)
  if n == 0 then err (invalid_expiry raw) else ok (unit n)

-- EXAT and PXAT: a point in time.
unfoldable pub parse_absolute : (ℕ → SetTtl) → Value → Result SetTtl
unfolding parse_u64
parse_absolute unit v = do n ← parse_u64 v; ok (unit n)

-- The options that set a time to live, which `put` stores.
unfoldable pub ttl_options : {S : Type 0} → (SetTtl → S → S) → List (String × OptionKind S)
unfolding parse_relative parse_absolute
ttl_options put =
    ("EX", valued λ v s. do t ← parse_relative seconds v; ok (put t s))
    ∷ ("PX", valued λ v s. do t ← parse_relative millis v; ok (put t s))
    ∷ ("EXAT", valued λ v s. do t ← parse_absolute unix_secs v; ok (put t s))
    ∷ ("PXAT", valued λ v s. do t ← parse_absolute unix_millis v; ok (put t s))
    ∷ []
