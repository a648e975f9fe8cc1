-- ===== src/Engine/Store/Flush.antt =====
-- `flush_db` of crates/engine/src/store.rs.
use kv.Prelude.{ℕ, List, [], ◌∷◌, ◌++◌, if◌then◌else◌, Bytes}
use kv.Prelude.ByteMap.{ByteMap}
use kv.Engine.Values
use kv.Engine.Index
use kv.Engine.Index.{NsIndex, IndexEntry}
use kv.Engine.Cache.Remove.{remove_by_prefix}
use kv.Engine.Log.Flush.{FlushEnv, flush}
use kv.Engine.Store.{Ctx, Exec, del, pure, gets, modify, ◌>>=◌, ◌>>◌, on_log, notify}

-- The keys of the index that have not expired, in order.
unfoldable pub live_in : NsIndex → ℕ → ByteMap IndexEntry → List Bytes
live_in idx now [] = []
live_in idx now ((k, e) ∷ m) =
    let rest = live_in idx now m in if Index.is_expired idx k now then rest else k ∷ rest

module _ (x : Ctx) (ns : Bytes) where
  unfoldable pub notify_deleted : ℕ → List Bytes → Exec (Unit {0})
  unfolding notify ◌>>=◌
  notify_deleted rev [] = pure tt
  notify_deleted rev (key ∷ keys) = do notify ns key (del key rev); notify_deleted rev keys

  unfoldable pub drop_cached : Exec (Unit {0})
  drop_cached = modify (λ s. record s { cache = remove_by_prefix s.cache (ns ++ 0 ∷ []) })

  unfoldable pub clear_values : Exec (Unit {0})
  clear_values =
      modify (λ s. record s { log = record s.log { values = Values.clear s.log.values } })

  unfoldable pub flush_db : FlushEnv → Exec (Unit {0})
  unfolding drop_cached clear_values notify_deleted on_log
  flush_db env = do
    drop_cached
    live_keys ← gets (λ s. live_in s.log.index x.now s.log.index.map)
    revision ← on_log (flush env)
    clear_values
    notify_deleted revision live_keys
