-- ===== src/Proto/Command/WellFormed/WithOptions.antt =====
-- The commands with options: crates/proto/src/command.rs.
use Prim.Native.String.{String}
use kv.Prelude.{[], ◌∷◌, Option, none, some, All, arith}
use kv.Proto.Command.{SetArgs, ScanArgs, GetExTtl}
use kv.Proto.Command.Options.{bulk, parse_u64, option_loop, ttl_options, OptionKind}
use kv.Proto.Command.Table.{
  set_options, get_ex_options, scan_options, no_args, put_ttl, set_flags, put_get_ex, get_ex_flags,
  parse_set, parse_set_rev, parse_get_ex, parse_scan,
}
use kv.Proto.Command.Loop.{
  after, after_any, Keeps, option_loop-Keeps, IsU64, parse_u64-IsU64, ttl_options-Keeps, All-append,
}
use kv.Proto.Command.WellFormed.{IsWellFormed, ArmOk, OptionTtl, GetExTtlOk, SetArgsOk}

set_options-Keeps : All (λ (e : String × OptionKind SetArgs). Keeps SetArgsOk e.1) set_options
unfolding set_options set_flags
set_options-Keeps =
    All-append (λ (e : String × OptionKind SetArgs). Keeps SetArgsOk e.1) (ttl_options put_ttl)
      set_flags (ttl_options-Keeps SetArgsOk put_ttl λ t s q p. (q, p.1))
      (
        (λ s p. (p.0, tt)),
        (
          (λ s p. (p.0, tt)),
          (
            (λ s p. p),
            (
              (λ s p. p),
              (
                (λ v s p.
                    after SetArgsOk IsU64 (parse_u64 v) _ (parse_u64-IsU64 v)
                      λ n small. (p.0, small)),
                ((λ v s p. after_any SetArgsOk (bulk v) _ λ b. p), tt),
              ),
            ),
          ),
        ),
      )

pub parse_set-ok : ArmOk parse_set
unfolding parse_set
parse_set-ok [] = tt
parse_set-ok (k ∷ []) = tt
parse_set-ok (k ∷ v ∷ opts) = after_any IsWellFormed (bulk k) _ λ key.
    after_any IsWellFormed (bulk v) _ λ value.
      after IsWellFormed SetArgsOk (option_loop "SET" 7 set_options no_args opts) _
        (option_loop-Keeps SetArgsOk "SET" 7 set_options set_options-Keeps no_args opts (tt, tt))
        λ a h. h

pub parse_set_rev-ok : ArmOk parse_set_rev
unfolding parse_set_rev
parse_set_rev-ok [] = tt
parse_set_rev-ok (k ∷ []) = tt
parse_set_rev-ok (k ∷ v ∷ []) = tt
parse_set_rev-ok (k ∷ v ∷ r ∷ opts) = after_any IsWellFormed (bulk k) _ λ key.
    after_any IsWellFormed (bulk v) _ λ value.
      after IsWellFormed IsU64 (parse_u64 r) _ (parse_u64-IsU64 r) λ n small.
        after IsWellFormed OptionTtl
          (option_loop "SETREV" 4 (ttl_options (λ t s. some t)) none opts) _
          (option_loop-Keeps OptionTtl "SETREV" 4 (ttl_options (λ t s. some t))
            (ttl_options-Keeps OptionTtl (λ t s. some t) λ t s q p. q) none opts tt)
          λ a h. (small, h)

get_ex_options-Keeps :
    All (λ (e : String × OptionKind (Option GetExTtl)). Keeps GetExTtlOk e.1) get_ex_options
unfolding get_ex_options
get_ex_options-Keeps =
    All-append (λ (e : String × OptionKind (Option GetExTtl)). Keeps GetExTtlOk e.1)
      (ttl_options put_get_ex) get_ex_flags (ttl_options-Keeps GetExTtlOk put_get_ex λ t s q p. q)
      ((λ s p. tt), tt)

pub parse_get_ex-ok : ArmOk parse_get_ex
unfolding parse_get_ex
parse_get_ex-ok [] = tt
parse_get_ex-ok (k ∷ opts) = after_any IsWellFormed (bulk k) _ λ key.
    after IsWellFormed GetExTtlOk (option_loop "GETEX" 7 get_ex_options none opts) _
      (option_loop-Keeps GetExTtlOk "GETEX" 7 get_ex_options get_ex_options-Keeps none opts tt)
      λ a h. h

pub parse_scan-ok : ArmOk parse_scan
unfolding parse_scan scan_options
parse_scan-ok [] = tt
parse_scan-ok (c ∷ opts) = after_any IsWellFormed (bulk c) _ λ cursor.
    after IsWellFormed (λ (a : ScanArgs). IsU64 a.count)
      (option_loop "SCAN" 5 scan_options (record { pattern' = none; count = 10 }) opts) _
      (option_loop-Keeps (λ (a : ScanArgs). IsU64 a.count) "SCAN" 5 scan_options
        (
          (λ v s p. after_any (λ (a : ScanArgs). IsU64 a.count) (bulk v) _ λ b. p),
          (
            (λ v s p.
                after (λ (a : ScanArgs). IsU64 a.count) IsU64 (parse_u64 v) _ (parse_u64-IsU64 v)
                  λ n small. small),
            tt,
          ),
        )
        (record { pattern' = none; count = 10 }) opts (omega arith))
      λ a h. h
