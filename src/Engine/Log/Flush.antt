-- ===== src/Engine/Log/Flush.antt =====
-- `flush` of crates/engine/src/log/mod.rs.
use kv.Prelude.{ℕ, Bool, [], if◌then◌else◌, Bytes, ok, err}
use kv.Engine.Error.{Result, io}
use kv.Engine.Index
use kv.Engine.File.{open_file}
use kv.Engine.Log.State.{NamespaceLog, next_tstamp, ticked}

-- What a flush meets: the clock, whether the directory cannot be read or the new file not opened, and
-- what the first data file still holds if it could not be unlinked.
pub record FlushEnv : Type 0 where
  pub now : ℕ
  pub dir_fails : Bool
  pub open_fails : Bool
  pub left : Bytes

-- `flush_inner`: the sealed files and the index go first, also if it fails later.
abbrev pub emptied : NamespaceLog → NamespaceLog
emptied log = record log { sealed = []; index = Index.empty }

unfoldable pub flush_inner : FlushEnv → NamespaceLog → NamespaceLog × Result (Unit {0})
flush_inner env log =
    if env.dir_fails
    then (emptied log, err io)
    else if env.open_fails
    then (emptied log, err io)
    else (record (emptied log) { active = open_file 0 env.left; unsynced_bytes = 0 }, ok tt)

abbrev pub with_revision : ℕ → NamespaceLog × Result (Unit {0}) → NamespaceLog × Result ℕ
with_revision rev (log, ok a) = (log, ok rev)
with_revision rev (log, err e) = (log, err e)

unfoldable pub flush : FlushEnv → NamespaceLog → NamespaceLog × Result ℕ
unfolding flush_inner
flush env log =
    with_revision (next_tstamp log.last_tstamp env.now) (flush_inner env (ticked log env.now))
