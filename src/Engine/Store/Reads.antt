-- ===== src/Engine/Store/Reads.antt =====
-- The reads of crates/engine/src/store.rs: get, get_inline, getex, exists, ttl, pttl, db_size.
use kv.Prelude.{
  ℕ, suc, ◌+◌, ◌-◌, ◌/◌, Bool, true, false, not, ◌&&◌, List, [], ◌∷◌, Option, none, some, is_some,
  if◌then◌else◌, length, Bytes,
}
use kv.Engine.Index
use kv.Engine.Index.{IndexEntry}
use kv.Engine.Log.Delete.{tombstone_key, ttl_update_key}
use kv.Engine.Log.Read.{read_value}
use kv.Engine.Store.{
  Entry, TtlResult, no_expiry, not_found, remaining, GetExOp, set_ttl, persist, Ctx, Shard, Exec,
  pure, lift, gets, modify, ◌>>=◌, ◌>>◌, on_log, index_of, cache_get, cache_remove, cache_insert,
  metadata_from_bytes, validate_ttl, has_expired, entry_from,
}

abbrev pub Hit : Type 0
Hit = Bytes × Option ℕ × Option Bytes × ℕ

module _ (x : Ctx) (ns : Bytes) where
  -- The calls of the log; the number says which one of the operation it is.
  abbrev pub tombstone : ℕ → Bytes → Exec (Option ℕ)
  tombstone i key = on_log (λ log. tombstone_key x.deps (x.log_env i) log key)

  abbrev pub ttl_update : ℕ → Bytes → Option ℕ → Exec ℕ
  ttl_update i key expires = on_log (λ log. ttl_update_key x.deps (x.log_env i) log key expires)

  unfoldable pub read_entry : IndexEntry → Exec (Bytes × Option Bytes × ℕ)
  unfolding read_value ◌>>=◌
  read_entry entry = do
    (value, meta) ← λ s. lift (read_value x.deps s.log entry) s
    metadata ← lift (metadata_from_bytes x.json meta)
    pure (value, metadata, length meta)

  -- A key that is found expired: it is deleted on the read.
  abbrev pub delete_expired : Bytes → Exec (Option Entry)
  delete_expired key = do _ ← tombstone 0 key; cache_remove ns key; pure none

  abbrev pub get_present : Bytes → IndexEntry → Option ℕ → Exec (Option Entry)
  get_present key entry expires = do
    (value, metadata, meta_len) ← read_entry entry
    cache_insert ns key value expires metadata meta_len entry.tstamp_ms
    pure (some (entry_from x (value, expires, metadata, entry.tstamp_ms)))

  abbrev pub get_indexed : Bytes → Option IndexEntry × Option ℕ → Exec (Option Entry)
  get_indexed key (none, expires) = pure none
  get_indexed key (some entry, expires) =
      if has_expired expires x.now then delete_expired key else get_present key entry expires

  abbrev pub hit : Exec (Unit {0})
  hit = modify (λ s. record s { hits = s.hits + 1 })

  abbrev pub miss : Exec (Unit {0})
  miss = modify (λ s. record s { misses = s.misses + 1 })

  abbrev pub get_looked_up : Bytes → Option Hit → Exec (Option Entry)
  get_looked_up key (some c) = do hit; pure (some (entry_from x c))
  get_looked_up key none = do miss; e ← gets (λ s. index_of s key); get_indexed key e

  unfoldable pub get : Bytes → Exec (Option Entry)
  unfolding cache_get cache_remove cache_insert on_log read_entry
  get key = do c ← cache_get ns key x.now; get_looked_up key c

  abbrev pub inline_present : Bytes → IndexEntry → Option ℕ → Exec (Option Entry)
  inline_present key entry expires = do
    (value, metadata, meta_len) ← read_entry entry
    pure (some (entry_from x (value, expires, metadata, entry.tstamp_ms)))

  abbrev pub inline_indexed : Bytes → Option IndexEntry × Option ℕ → Exec (Option Entry)
  inline_indexed key (none, expires) = pure none
  inline_indexed key (some entry, expires) =
      if has_expired expires x.now then delete_expired key else inline_present key entry expires

  abbrev pub inline_looked_up : Bytes → Option Hit → Exec (Option Entry)
  inline_looked_up key (some c) = pure (some (entry_from x c))
  inline_looked_up key none = do e ← gets (λ s. index_of s key); inline_indexed key e

  -- `get_inline`, which does not fill the cache
  unfoldable pub get_inline : Bytes → Exec (Option Entry)
  unfolding cache_get cache_remove on_log read_entry
  get_inline key = do c ← cache_get ns key x.now; inline_looked_up key c

  abbrev pub getex_indexed : Bytes → Option IndexEntry × Option ℕ → Exec (Option Entry)
  getex_indexed key (none, expires) = pure none
  getex_indexed key (some entry, expires) =
      if has_expired expires x.now
      then (do _ ← tombstone 0 key; pure none)
      else get_present key entry expires

  abbrev pub getex_looked_up : Bytes → Option Hit → Exec (Option Entry)
  getex_looked_up key (some c) = pure (some (entry_from x c))
  getex_looked_up key none = do e ← gets (λ s. index_of s key); getex_indexed key e

  abbrev pub getex_update : Bytes → GetExOp → Exec (Unit {0})
  getex_update key (set_ttl d) = do
    new_ms ← lift (validate_ttl d x.now)
    _ ← ttl_update 1 key (some new_ms)
    cache_remove ns key
  getex_update key persist = do _ ← ttl_update 1 key none; cache_remove ns key

  abbrev pub getex_found : Bytes → GetExOp → Option Entry → Exec (Option Entry)
  getex_found key op none = pure none
  getex_found key op (some e) = do getex_update key op; pure (some e)

  unfoldable pub getex : Bytes → Option GetExOp → Exec (Option Entry)
  unfolding get
  getex key none = get key
  getex key (some op) = do
    c ← cache_get ns key x.now
    found ← getex_looked_up key c
    getex_found key op found

  abbrev pub ttl_of_indexed : Option IndexEntry × Option ℕ → TtlResult × Bool
  ttl_of_indexed (none, expires) = (not_found, false)
  ttl_of_indexed (some e, none) = (no_expiry, false)
  ttl_of_indexed (some e, some ms) =
      if has_expired (some ms) x.now then (not_found, true) else (remaining (ms - x.now), false)

  abbrev pub ttl_clean : Bytes → TtlResult × Bool → Exec TtlResult
  ttl_clean key (result, false) = pure result
  ttl_clean key (result, true) = do _ ← tombstone 0 key; cache_remove ns key; pure result

  unfoldable pub ttl_raw : Bytes → Exec TtlResult
  unfolding on_log cache_remove
  ttl_raw key = do e ← gets (λ s. index_of s key); ttl_clean key (ttl_of_indexed e)

  abbrev pub in_seconds : TtlResult → TtlResult
  in_seconds (remaining ms) = remaining (ms / 1000)
  in_seconds no_expiry = no_expiry
  in_seconds not_found = not_found

  unfoldable pub ttl : Bytes → Exec TtlResult
  unfolding ttl_raw
  ttl key = do r ← ttl_raw key; pure (in_seconds r)

  unfoldable pub pttl : Bytes → Exec TtlResult
  unfolding ttl_raw
  pttl key = ttl_raw key

  -- `idx.get(key).is_some() && !idx.is_expired(key, now)`
  abbrev pub is_live : Shard → Bytes → Bool
  is_live s key =
      is_some (Index.get s.log.index key) && not (Index.is_expired s.log.index key x.now)

  unfoldable pub count_live : Shard → List Bytes → ℕ
  count_live s [] = 0
  count_live s (key ∷ keys) =
      let rest = count_live s keys in if is_live s key then suc rest else rest

  unfoldable pub exists : List Bytes → Exec ℕ
  unfolding count_live
  exists keys = gets (λ s. count_live s keys)

  unfoldable pub db_size : Exec ℕ
  db_size = gets (λ s. s.log.index.live_count)
