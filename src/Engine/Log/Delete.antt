-- ===== src/Engine/Log/Delete.antt =====
-- The deletions and TTL updates of crates/engine/src/log/mod.rs.
use kv.Prelude.{
  ℕ, ◌+◌, Bool, false, [], Option, none, some, ◌==◌, if◌then◌else◌, length, Bytes, ok, and_then,
}
use kv.Engine.Error.{Result}
use kv.Engine.Record.{ttl_update, tombstone, encode_into}
use kv.Engine.Index
use kv.Engine.Index.{NsIndex}
use kv.Engine.File.{append}
use kv.Engine.Log.State.{NamespaceLog, Env, Deps, begin_write, next_tstamp, ticked}
use kv.Engine.Log.Write.{live_rev, unref_hash, expiry_flags, expiry_ms}

-- A record with no value, appended to the active file.
unfoldable pub append_marker :
    Deps → Env → NamespaceLog → ℕ → ℕ → ℕ → Bytes → NamespaceLog × Result (Unit {0})
append_marker d env log tstamp flags expires key =
    and_then {A = Bytes} (log, encode_into d.crc [] tstamp flags expires key [] [])
      λ buf log1.
        let (active, appended) = append env.append log1.active buf in
        and_then {A = ℕ} (record log1 { active = active }, appended)
          λ _ log2. (record log2 { unsynced_bytes = log2.unsynced_bytes + length buf }, ok tt)

-- The body that `tombstone` and `tombstone_cond` share: the index changes before the append.
unfoldable pub drop_key : Deps → Env → NamespaceLog → Bytes → NamespaceLog × Result (Option ℕ)
unfolding append_marker
drop_key d env log key =
    let old_hash = Index.valsep_of log.index key in
    let removed : NamespaceLog = record log { index = (Index.remove log.index key).0 } in
    let tstamp = next_tstamp removed.last_tstamp env.now in
    and_then {A = Unit {0}} (append_marker d env (ticked removed env.now) tstamp tombstone 0 key)
      λ _ log1. (record log1 { values = unref_hash old_hash log1.values }, ok (some tstamp))

unfoldable pub tombstone_key : Deps → Env → NamespaceLog → Bytes → NamespaceLog × Result (Option ℕ)
unfolding drop_key
tombstone_key d env log key = begin_write log (
    if (Index.remove log.index key).1
    then drop_key d env log key
    else (record log { index = (Index.remove log.index key).0 }, ok none))

abbrev pub rev_is : Option ℕ → ℕ → Bool
rev_is none expected = false
rev_is (some r) expected = r == expected

unfoldable pub tombstone_cond :
    Deps → Env → NamespaceLog → Bytes → ℕ → ℕ → NamespaceLog × Result (Option ℕ)
unfolding drop_key
tombstone_cond d env log key expected_rev now = begin_write log (
    if rev_is (live_rev log.index key now) expected_rev
    then drop_key d env log key
    else (log, ok none))

-- The index gets the expiry after the append, whether it holds the key or not.
unfoldable pub ttl_update_key :
    Deps → Env → NamespaceLog → Bytes → Option ℕ → NamespaceLog × Result ℕ
unfolding append_marker
ttl_update_key d env log key expires = begin_write log (
    let tstamp = next_tstamp log.last_tstamp env.now in
    let flags = ttl_update + expiry_flags expires in
    and_then {A = Unit {0}}
      (append_marker d env (ticked log env.now) tstamp flags (expiry_ms expires) key)
      λ _ log1. (record log1 { index = Index.set_ttl log1.index key expires }, ok tstamp))
