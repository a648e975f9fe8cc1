-- ===== src/Proto/Command/WellFormed/Parsed.antt =====
-- The theorem for every command: crates/proto/src/command.rs, Command::parse.
use Prim.Native.String.{String}
use kv.Prelude.{
  ◌≡◌, refl, List, [], ◌∷◌, Option, none, some, if_elim, length, Bytes, err, All, some_of_none, leb,
}
use kv.Proto.Command.{Command, Value, Message, unknown_command, array, scalar, Result}
use kv.Proto.Command.Options.{bulk, lookup, uppercase}
use kv.Proto.Command.Table.{commands, arm, parse}
use kv.Proto.Command.Loop.{Returns, after_any, lookup-All}
use kv.Proto.Command.WellFormed.{IsWellFormed, ArmOk}
use kv.Proto.Command.WellFormed.Arms.{
  one_key-ok, key_value-ok, key_u64-ok, key_i64-ok, many_keys-ok, parse_m_set-ok, optional-ok,
  parse_hello-ok, parse_select-ok, alone-ok, parse_watch-ok, parse_p_watch-ok,
}
use kv.Proto.Command.WellFormed.WithOptions.{
  parse_set-ok, parse_set_rev-ok, parse_get_ex-ok, parse_scan-ok,
}

commands-ok : All (λ (e : String × (List Value → Result Command)). ArmOk e.1) commands
unfolding commands
commands-ok = (
  (one_key-ok "GET" Command.get λ k. tt),
  (
    (parse_set-ok),
    (
      (many_keys-ok "DEL" Command.del λ ks h. h),
      (
        (many_keys-ok "EXISTS" Command.exists λ ks h. h),
        (
          (key_u64-ok "EXPIRE" Command.expire λ k n h. h),
          (
            (key_u64-ok "PEXPIRE" Command.p_expire λ k n h. h),
            (
              (key_u64-ok "EXPIREAT" Command.expire_at λ k n h. h),
              (
                (key_u64-ok "PEXPIREAT" Command.p_expire_at λ k n h. h),
                (
                  (one_key-ok "TTL" Command.ttl λ k. tt),
                  (
                    (one_key-ok "PTTL" Command.p_ttl λ k. tt),
                    (
                      (one_key-ok "PERSIST" Command.persist λ k. tt),
                      (
                        (optional-ok Command.keys λ o. tt),
                        (
                          (parse_scan-ok),
                          (
                            (many_keys-ok "MGET" Command.m_get λ ks h. h),
                            (
                              (parse_m_set-ok),
                              (
                                (key_value-ok "GETSET" Command.get_set λ k v. tt),
                                (
                                  (key_value-ok "SETNX" Command.set_nx λ k v. tt),
                                  (
                                    (one_key-ok "GETDEL" Command.get_del λ k. tt),
                                    (
                                      (parse_get_ex-ok),
                                      (
                                        (one_key-ok "INCR" Command.incr λ k. tt),
                                        (
                                          (key_i64-ok "INCRBY" Command.incr_by λ k n small. small),
                                          (
                                            (one_key-ok "DECR" Command.decr λ k. tt),
                                            (
                                              (key_i64-ok "DECRBY" Command.decr_by
                                                  λ k n small. small),
                                              (
                                                (parse_hello-ok),
                                                (
                                                  (optional-ok Command.ping λ o. tt),
                                                  (
                                                    (parse_select-ok),
                                                    (
                                                      (λ args. tt),
                                                      (
                                                        (λ args. tt),
                                                        (
                                                          (alone-ok "FLUSHDB" Command.flush_db tt),
                                                          (
                                                            (λ args. tt),
                                                            (
                                                            (λ args. tt),
                                                            (
                                                            (parse_watch-ok),
                                                            (
                                                            (parse_p_watch-ok),
                                                            (
                                                            (λ args. tt),
                                                            (
                                                            (one_key-ok "REVISION"
                                                            Command.get_revision λ k. tt),
                                                            (
                                                            (parse_set_rev-ok),
                                                            (
                                                            (key_u64-ok "DELREV" Command.del_rev
                                                            λ k n h. h),
                                                            (
                                                            (one_key-ok "GETMETA" Command.get_meta
                                                            λ k. tt),
                                                            ((λ args. tt), tt),
                                                            ),
                                                            ),
                                                            ),
                                                            ),
                                                            ),
                                                            ),
                                                            ),
                                                            ),
                                                          ),
                                                        ),
                                                      ),
                                                    ),
                                                  ),
                                                ),
                                              ),
                                            ),
                                          ),
                                        ),
                                      ),
                                    ),
                                  ),
                                ),
                              ),
                            ),
                          ),
                        ),
                      ),
                    ),
                  ),
                ),
              ),
            ),
          ),
        ),
      ),
    ),
  ),
)

arm-ok : (name : Bytes) (run : List Value → Result Command) → arm name ≡ some run → ArmOk run
arm-ok name run h =
    if_elim (λ o. o ≡ some run → ArmOk run) (leb (length name) 16)
      (lookup commands (uppercase name)) none
      (λ _ e. lookup-All ArmOk commands (uppercase name) run commands-ok e) (λ _ e. some_of_none e)
      h

run-ok :
    (name : Bytes) (args : List Value) (o : Option (List Value → Result Command))
    → ((run : List Value → Result Command) → o ≡ some run → ArmOk run)
    → Returns IsWellFormed (elim o as (λ _. Result Command) [
      | some run ↦ run args
      | none ↦ err (unknown_command name)
    ])
run-ok name args none h = tt
run-ok name args (some run) h = h run refl args

-- Every command that parse returns is well-formed: DEL, EXISTS, MGET and MSET have at least one
-- key, a relative time to live (EX, PX of SET, SETREV and GETEX) is not zero, and every number is
-- in the range of its machine integer: a u64, the i64 of INCRBY and DECRBY, and the u8 of HELLO.
pub parse-IsWellFormed : (m : Message) → Returns IsWellFormed (parse m)
unfolding parse
parse-IsWellFormed (scalar v) = tt
parse-IsWellFormed (array []) = tt
parse-IsWellFormed (array (n ∷ args)) =
    after_any IsWellFormed (bulk n) _ λ name. run-ok name args (arm name) (arm-ok name)
