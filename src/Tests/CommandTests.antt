-- ===== src/Tests/CommandTests.antt =====
-- Commands: crates/proto/src/command.rs.
use kv.Prelude.{
  ◌^◌, ◌≡◌, refl, false, ◌&&◌, [], ◌∷◌, none, some, arith, codes, ltb, if◌then◌else◌, bytes_eq, ok,
  err,
}
use kv.Proto.Integer.{atoi_u64, atoi_i64}
use kv.Proto.Integer.Decimal.{is_numeral, value, signed_value, atoi_u64_lem, atoi_i64_lem}
use kv.Proto.Command.{Command, Message, array, bulk_string, SetCondition, millis, invalid_expiry}
use kv.Proto.Command.Table.{parse, commands, parse_set}
use kv.Proto.Command.Options.{lookup}
use kv.Proto.Command.Requests.{request, parse-request}
use kv.Proto.Command.Loop.{Returns}
use kv.Proto.Command.WellFormed.{IsWellFormed}
use kv.Proto.Command.WellFormed.Parsed.{parse-IsWellFormed}

abbrev set_px : Message
set_px = array (
    bulk_string (codes "set")
    ∷ bulk_string (codes "k")
    ∷ bulk_string (codes "v")
    ∷ bulk_string (codes "px")
    ∷ bulk_string (codes "20")
    ∷ [])

abbrev set_px_zero : Message
set_px_zero = array (
    bulk_string (codes "SET")
    ∷ bulk_string (codes "k")
    ∷ bulk_string (codes "v")
    ∷ bulk_string (codes "PX")
    ∷ bulk_string (codes "0")
    ∷ [])

parse-set_px :
    parse set_px
    ≡ ok (
        Command.set (codes "k") (codes "v") (record {
          ttl = some (millis 20);
          condition = SetCondition.always;
          get = false;
          keep_ttl = false;
          metadata = none;
        }))
unfolding parse lookup commands bytes_eq parse_set atoi_u64
parse-set_px = refl

parse-set_px_zero : parse set_px_zero ≡ err (invalid_expiry (codes "0"))
unfolding parse lookup commands bytes_eq parse_set atoi_u64
parse-set_px_zero = refl

parse-IsWellFormed_example : Returns IsWellFormed (parse set_px)
parse-IsWellFormed_example = parse-IsWellFormed set_px

atoi_u64_lem_example : atoi_u64 (codes "42") ≡ (
    if is_numeral (codes "42") && ltb (value 0 (codes "42")) (2 ^ 64)
    then some (value 0 (codes "42"))
    else none)
atoi_u64_lem_example = atoi_u64_lem (codes "42") (omega arith, (omega arith, tt))

atoi_i64_lem_example : atoi_i64 (codes "-7") ≡ signed_value (codes "-7")
atoi_i64_lem_example = atoi_i64_lem (codes "-7") (omega arith, (omega arith, tt))

abbrev two_pairs : Command
two_pairs = Command.m_set ((codes "a", codes "1") ∷ (codes "b", codes "2") ∷ [])

parse-request_example : parse (array (request two_pairs)) ≡ ok two_pairs
parse-request_example = parse-request two_pairs (omega arith)
