-- ===== src/Proto/Command/WellFormed.antt =====
-- What holds of every command that Command::parse returns: crates/proto/src/command.rs.
pub mod Arms
pub mod WithOptions
pub mod Parsed
use Prim.Native.String.{String}
use kv.Prelude.{
  ℕ, ◌+◌, ◌%◌, ◌^◌, ◌<◌, ◌≤◌, ◌≡◌, refl, Bool, true, false, ◌||◌, not, List, [], ◌∷◌, Option, none,
  some, ltb, ◌==◌, if◌then◌else◌, if_elim, length, Bytes, ok, err, ok_or, ◌>>=◌, All, arith, tests,
  inl, inr, Bool-cases, ensure, ◌>>◌,
}
use kv.Proto.Integer.{ℤ, atoi_u64}
use kv.Proto.Command.{
  Command, Value, Message, invalid_integer, array, scalar, Result, SetTtl, SetArgs, SetCondition,
  ScanArgs, GetExTtl,
}
use kv.Proto.Command.Options.{
  bulk, parse_u64, parse_i64, lookup, uppercase, option_loop, ttl_options, OptionKind,
}
use kv.Proto.Command.Parse.{
  one_key, is_since, key_value, key_u64, key_i64, bulks, many_keys, chunks, parse_m_set, optional,
  parse_hello, parse_select, alone, parse_watch, parse_p_watch, watch_args,
}
use kv.Proto.Command.Table.{
  commands, arm, parse, set_options, get_ex_options, scan_options, no_args, parse_set,
  parse_set_rev, parse_get_ex, parse_scan,
}
use kv.Proto.Command.Loop.{
  Returns, Any, after, after_any, Returns-ok_or, lookup-All, Keeps, option_loop-Keeps, IsU64, IsI64,
  parse_u64-IsU64, atoi_u64-u64, IsTtl, ttl_options-Keeps, All-append,
}

abbrev pub OptionTtl : Option SetTtl → Type 0
OptionTtl none = Unit
OptionTtl (some t) = IsTtl t

abbrev pub GetExTtlOk : Option GetExTtl → Type 0
GetExTtlOk none = Unit
GetExTtlOk (some GetExTtl.persist) = Unit
GetExTtlOk (some (GetExTtl.set t)) = IsTtl t

abbrev pub SinceOk : Option ℕ → Type 0
SinceOk none = Unit
SinceOk (some n) = IsU64 n

abbrev pub ConditionOk : SetCondition → Type 0
ConditionOk (SetCondition.rev n) = IsU64 n
ConditionOk _ = Unit

abbrev pub SetArgsOk : SetArgs → Type 0
SetArgsOk a = OptionTtl a.ttl × ConditionOk a.condition

-- The numbers are machine integers, a relative time to live is not zero, and DEL, EXISTS, MGET and
-- MSET have a key.
abbrev pub IsWellFormed : Command → Type 0
IsWellFormed (Command.set k v args) = SetArgsOk args
IsWellFormed (Command.del ks) = 0 < length ks
IsWellFormed (Command.exists ks) = 0 < length ks
IsWellFormed (Command.m_get ks) = 0 < length ks
IsWellFormed (Command.m_set ps) = 0 < length ps
IsWellFormed (Command.expire k n) = IsU64 n
IsWellFormed (Command.p_expire k n) = IsU64 n
IsWellFormed (Command.expire_at k n) = IsU64 n
IsWellFormed (Command.p_expire_at k n) = IsU64 n
IsWellFormed (Command.scan c args) = IsU64 args.count
IsWellFormed (Command.get_ex k ttl) = GetExTtlOk ttl
IsWellFormed (Command.hello (some n)) = n < 256
IsWellFormed (Command.select n) = IsU64 n
IsWellFormed (Command.watch ks since) = SinceOk since
IsWellFormed (Command.p_watch p since) = SinceOk since
IsWellFormed (Command.incr_by k n) = IsI64 n
IsWellFormed (Command.decr_by k n) = IsI64 n
IsWellFormed (Command.set_rev k v n ttl) = IsU64 n × OptionTtl ttl
IsWellFormed (Command.del_rev k n) = IsU64 n
IsWellFormed _ = Unit

abbrev pub ArmOk : (List Value → Result Command) → Type 0
ArmOk run = (args : List Value) → Returns IsWellFormed (run args)
