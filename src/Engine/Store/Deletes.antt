-- ===== src/Engine/Store/Deletes.antt =====
-- The deletions and changes of expiry of crates/engine/src/store.rs: del, delrev, getdel, expire,
-- persist.
use kv.Prelude.{
  ℕ, suc, ◌+◌, Bool, true, false, ◌&&◌, List, [], ◌∷◌, Option, none, some, is_some, if◌then◌else◌,
  Bytes, map,
}
use kv.Engine.Error.{Result}
use kv.Engine.Index
use kv.Engine.Log.Delete.{tombstone_cond}
use kv.Engine.Store.{
  Entry, set, del, Ctx, Shard, Exec, pure, lift, gets, ◌>>=◌, ◌>>◌, on_log, cache_remove, notify,
  validate_ttl,
}
use kv.Engine.Store.Reads.{tombstone, ttl_update, get_inline, is_live}

module _ (x : Ctx) (ns : Bytes) where
  -- `join_all` of the tombstones: each runs, and each has its result.
  unfoldable pub tombstone_all : ℕ → List Bytes → Shard → Shard × List (Result (Option ℕ))
  unfolding on_log
  tombstone_all i [] s = (s, [])
  tombstone_all i (key ∷ keys) s =
      let (s1, r) = tombstone x ns i key s in
      let (s2, rs) = tombstone_all (suc i) keys s1 in (s2, r ∷ rs)

  unfoldable pub remove_all : List Bytes → Exec (Unit {0})
  unfolding cache_remove ◌>>=◌
  remove_all [] = pure tt
  remove_all (key ∷ keys) = do cache_remove ns key; remove_all keys

  -- The deletion of a key that was not expired counts, and is told to the watchers.
  abbrev pub count_one : Bytes → Bool → Option ℕ → ℕ → Exec ℕ
  count_one key expired none count = pure count
  count_one key true (some rev) count = pure count
  count_one key false (some rev) count = do notify ns key (del key rev); pure (count + 1)

  unfoldable pub count_deleted : List (Bytes × Bool) → List (Result (Option ℕ)) → ℕ → Exec ℕ
  unfolding notify ◌>>=◌
  count_deleted [] rs count = pure count
  count_deleted (k ∷ keys) [] count = pure count
  count_deleted ((key, expired) ∷ keys) (r ∷ rs) count = do
    tomb ← lift r
    count' ← count_one key expired tomb count
    count_deleted keys rs count'

  abbrev pub del_counted :
      List Bytes → List (Bytes × Bool) → Shard × List (Result (Option ℕ)) → Shard × Result ℕ
  del_counted keys expired (s, rs) = (remove_all keys >>= λ _. count_deleted expired rs 0) s

  unfoldable pub del_keys : List Bytes → Exec ℕ
  unfolding tombstone_all remove_all count_deleted
  del_keys keys s =
      del_counted keys (map (λ k. (k, Index.is_expired s.log.index k x.now)) keys)
        (tombstone_all 0 keys s)

  abbrev pub delrev_written : Bytes → Option ℕ → Exec (Option (Unit {0}))
  delrev_written key none = pure none
  delrev_written key (some rev) = do
    cache_remove ns key
    notify ns key (del key rev)
    pure (some tt)

  unfoldable pub delrev : Bytes → ℕ → Exec (Option (Unit {0}))
  unfolding on_log cache_remove notify
  delrev key expected_rev = do
    r ← on_log (λ log. tombstone_cond x.deps (x.log_env 0) log key expected_rev x.now)
    delrev_written key r

  abbrev pub tell_deleted : Bytes → Option Entry → Option ℕ → Exec (Unit {0})
  tell_deleted key (some e) (some rev) = notify ns key (del key rev)
  tell_deleted key (some e) none = pure tt
  tell_deleted key none r = pure tt

  unfoldable pub getdel : Bytes → Exec (Option Entry)
  unfolding get_inline on_log cache_remove notify
  getdel key = do
    old ← get_inline x ns key
    r ← tombstone x ns 1 key
    cache_remove ns key
    tell_deleted key old r
    pure old

  -- The watchers hear of a new expiry as of a new value.
  abbrev pub tell_expiry : Bytes → Option ℕ → ℕ → Option Entry → Exec (Unit {0})
  tell_expiry key expires rev none = pure tt
  tell_expiry key expires rev (some e) = notify ns key (set key e.value e.metadata expires rev)

  abbrev pub change_expiry : Bytes → Option ℕ → Exec Bool
  change_expiry key expires = do
    entry ← get_inline x ns key
    rev ← ttl_update x ns 1 key expires
    cache_remove ns key
    tell_expiry key expires rev entry
    pure true

  unfoldable pub expire : Bytes → ℕ → Exec Bool
  unfolding get_inline on_log cache_remove notify validate_ttl
  expire key ttl = do
    live ← gets (λ s. is_live x ns s key)
    if live
        then (do new_ms ← lift (validate_ttl ttl x.now); change_expiry key (some new_ms))
        else (do cache_remove ns key; pure false)

  abbrev pub has_ttl : Shard → Bytes → Bool
  has_ttl s key = is_some (Index.ttl_of s.log.index key)

  unfoldable pub persist : Bytes → Exec Bool
  unfolding get_inline on_log cache_remove notify
  persist key = do
    changes ← gets (λ s. is_live x ns s key && has_ttl s key)
    if changes then change_expiry key none else pure false
