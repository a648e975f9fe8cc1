-- ===== src/Proto/Command/Table.antt =====
-- The `match` of Command::parse, and the commands with options: crates/proto/src/command.rs.
use Prim.Native.String.{String}
use kv.Prelude.{
  true, false, List, [], ◌∷◌, ◌++◌, Option, none, some, leb, if◌then◌else◌, length, Bytes, ok, err,
  ◌>>=◌,
}
use kv.Proto.Command.{
  Command, Value, Message, array, wrong_arity, unknown_command, invalid_format, Result, SetTtl,
  SetArgs, SetCondition, ScanArgs, GetExTtl,
}
use kv.Proto.Command.Options.{
  bulk, parse_u64, uppercase, lookup, OptionKind, flag, valued, option_loop, ttl_options,
}
use kv.Proto.Command.Parse.{
  one_key, key_value, key_u64, key_i64, many_keys, parse_m_set, optional, parse_hello, parse_select,
  alone, parse_watch, parse_p_watch,
}

abbrev pub put_ttl : SetTtl → SetArgs → SetArgs
put_ttl t s = record s { ttl = some t }

unfoldable pub set_flags : List (String × OptionKind SetArgs)
set_flags =
    ("NX", flag λ s. record s { condition = SetCondition.nx })
    ∷ ("XX", flag λ s. record s { condition = SetCondition.xx })
    ∷ ("GET", flag λ s. record s { get = true })
    ∷ ("KEEPTTL", flag λ s. record s { keep_ttl = true })
    ∷ ("REV", valued λ v s. do n ← parse_u64 v; ok (record s { condition = SetCondition.rev n }))
    ∷ ("META", valued λ v s. do b ← bulk v; ok (record s { metadata = some b }))
    ∷ []

unfoldable pub set_options : List (String × OptionKind SetArgs)
unfolding ttl_options set_flags
set_options = ttl_options put_ttl ++ set_flags

abbrev pub no_args : SetArgs
no_args = record {
  ttl = none;
  condition = SetCondition.always;
  get = false;
  keep_ttl = false;
  metadata = none;
}

unfoldable pub parse_set : List Value → Result Command
unfolding option_loop set_options
parse_set (k ∷ v ∷ opts) = do
  key ← bulk k
  value ← bulk v
  args ← option_loop "SET" 7 set_options no_args opts
  ok (Command.set key value args)
parse_set args = err (wrong_arity "SET")

unfoldable pub parse_set_rev : List Value → Result Command
unfolding option_loop ttl_options
parse_set_rev (k ∷ v ∷ r ∷ opts) = do
  key ← bulk k
  value ← bulk v
  revision ← parse_u64 r
  ttl ← option_loop "SETREV" 4 (ttl_options (λ t s. some t)) none opts
  ok (Command.set_rev key value revision ttl)
parse_set_rev args = err (wrong_arity "SETREV")

abbrev pub put_get_ex : SetTtl → Option GetExTtl → Option GetExTtl
put_get_ex t s = some (GetExTtl.set t)

abbrev pub get_ex_flags : List (String × OptionKind (Option GetExTtl))
get_ex_flags = ("PERSIST", flag λ s. some GetExTtl.persist) ∷ []

unfoldable pub get_ex_options : List (String × OptionKind (Option GetExTtl))
unfolding ttl_options
get_ex_options = ttl_options put_get_ex ++ get_ex_flags

unfoldable pub parse_get_ex : List Value → Result Command
unfolding option_loop get_ex_options
parse_get_ex (k ∷ opts) = do
  key ← bulk k
  ttl ← option_loop "GETEX" 7 get_ex_options none opts
  ok (Command.get_ex key ttl)
parse_get_ex args = err (wrong_arity "GETEX")

unfoldable pub scan_options : List (String × OptionKind ScanArgs)
scan_options =
    ("MATCH", valued λ v s. do b ← bulk v; ok (record s { pattern' = some b }))
    ∷ ("COUNT", valued λ v s. do n ← parse_u64 v; ok (record s { count = n }))
    ∷ []

unfoldable pub parse_scan : List Value → Result Command
unfolding option_loop scan_options
parse_scan (c ∷ opts) = do
  cursor ← bulk c
  args ← option_loop "SCAN" 5 scan_options (record { pattern' = none; count = 10 }) opts
  ok (Command.scan cursor args)
parse_scan args = err (wrong_arity "SCAN")

-- The arms of the `match` on the name.
unfoldable pub commands : List (String × (List Value → Result Command))
commands =
    ("GET", one_key "GET" Command.get)
    ∷ ("SET", parse_set)
    ∷ ("DEL", many_keys "DEL" Command.del)
    ∷ ("EXISTS", many_keys "EXISTS" Command.exists)
    ∷ ("EXPIRE", key_u64 "EXPIRE" Command.expire)
    ∷ ("PEXPIRE", key_u64 "PEXPIRE" Command.p_expire)
    ∷ ("EXPIREAT", key_u64 "EXPIREAT" Command.expire_at)
    ∷ ("PEXPIREAT", key_u64 "PEXPIREAT" Command.p_expire_at)
    ∷ ("TTL", one_key "TTL" Command.ttl)
    ∷ ("PTTL", one_key "PTTL" Command.p_ttl)
    ∷ ("PERSIST", one_key "PERSIST" Command.persist)
    ∷ ("KEYS", optional Command.keys)
    ∷ ("SCAN", parse_scan)
    ∷ ("MGET", many_keys "MGET" Command.m_get)
    ∷ ("MSET", parse_m_set)
    ∷ ("GETSET", key_value "GETSET" Command.get_set)
    ∷ ("SETNX", key_value "SETNX" Command.set_nx)
    ∷ ("GETDEL", one_key "GETDEL" Command.get_del)
    ∷ ("GETEX", parse_get_ex)
    ∷ ("INCR", one_key "INCR" Command.incr)
    ∷ ("INCRBY", key_i64 "INCRBY" Command.incr_by)
    ∷ ("DECR", one_key "DECR" Command.decr)
    ∷ ("DECRBY", key_i64 "DECRBY" Command.decr_by)
    ∷ ("HELLO", parse_hello)
    ∷ ("PING", optional Command.ping)
    ∷ ("SELECT", parse_select)
    ∷ ("DBSIZE", λ args. ok Command.db_size)
    ∷ ("BGREWRITEAOF", λ args. ok Command.bg_rewrite_aof)
    ∷ ("FLUSHDB", alone "FLUSHDB" Command.flush_db)
    ∷ ("QUIT", λ args. ok Command.quit)
    ∷ ("RESET", λ args. ok Command.reset)
    ∷ ("WATCH", parse_watch)
    ∷ ("PWATCH", parse_p_watch)
    ∷ ("UNWATCH", λ args. ok Command.unwatch)
    ∷ ("REVISION", one_key "REVISION" Command.get_revision)
    ∷ ("SETREV", parse_set_rev)
    ∷ ("DELREV", key_u64 "DELREV" Command.del_rev)
    ∷ ("GETMETA", one_key "GETMETA" Command.get_meta)
    ∷ ("COMMAND", λ args. ok (Command.ping none))
    ∷ []

-- The arm that the name selects: a name of more than 16 bytes has none.
abbrev pub arm : Bytes → Option (List Value → Result Command)
arm name = if leb (length name) 16 then lookup commands (uppercase name) else none

unfoldable pub parse : Message → Result Command
parse (array (n ∷ args)) = do
  name ← bulk n
  elim (arm name) [ some run ↦ run args | none ↦ err (unknown_command name) ]
parse m = err (invalid_format "expected non-empty array")
