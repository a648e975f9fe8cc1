-- ===== src/Engine/Store/Writes.antt =====
-- The writes of crates/engine/src/store.rs: set, setnx, setxx, setrev, getset, incr.
use kv.Prelude.{
  ℕ, zero, suc, Bool, true, false, [], Option, none, some, if◌then◌else◌, length, Bytes, err, ok_or,
}
use kv.Engine.Error.{invalid_input, conflict}
use kv.Engine.Index
use kv.Engine.Index.{IndexEntry}
use kv.Engine.Log.Write.{WriteCondition, key_absent, key_present, revision, put_full, put_full_cond}
use kv.Engine.Store.{
  Entry, SetOptions, set, Ctx, Exec, pure, lift, gets, ◌>>=◌, ◌>>◌, on_log, index_of, cache_get,
  cache_remove, upsert_cache, notify, meta_bytes, expiry_of_ttl, has_expired,
}
use kv.Engine.Log.Read.{read_value}
use kv.Engine.Store.Reads.{Hit, tombstone, get_inline}
use kv.Engine.Store.Integer.{parse_i64, checked_add, to_string}
use kv.Proto.Integer.{ℤ, pos}

module _ (x : Ctx) (ns : Bytes) where
  abbrev pub put : ℕ → Bytes → Bytes → Bytes → Option ℕ → Exec ℕ
  put i key value meta expires =
      on_log (λ log. put_full x.deps (x.log_env i) log key value meta expires)

  abbrev pub put_cond : ℕ → Bytes → Bytes → Bytes → Option ℕ → WriteCondition → Exec (Option ℕ)
  put_cond i key value meta expires cond =
      on_log (λ log. put_full_cond x.deps (x.log_env i) log key value meta expires cond x.now)

  -- What every write does once the log has it: the cache, then the watchers.
  unfoldable pub publish : Bytes → Bytes → Option ℕ → Option Bytes → ℕ → ℕ → Exec (Unit {0})
  unfolding upsert_cache notify ◌>>=◌
  publish key value expires metadata meta_len rev = do
    upsert_cache ns key value expires metadata meta_len rev
    notify ns key (set key value metadata expires rev)

  -- KEEPTTL takes the expiry of the index.
  unfoldable pub set_expiry : Bytes → SetOptions → Exec (Option ℕ)
  set_expiry key opts =
      if opts.keep_ttl
      then gets (λ s. Index.ttl_of s.log.index key)
      else lift (expiry_of_ttl opts.ttl x.now)

  unfoldable pub set_key : Bytes → Bytes → SetOptions → Exec (Unit {0})
  unfolding set_expiry on_log publish
  set_key key value opts = do
    expires ← set_expiry key opts
    rev ← put 0 key value (meta_bytes x.json opts.metadata) expires
    publish key value expires opts.metadata (length (meta_bytes x.json opts.metadata)) rev

  -- The end of a conditional write.
  abbrev pub published : Bytes → Bytes → Option ℕ → Option Bytes → Option ℕ → Exec (Option ℕ)
  published key value expires metadata none = pure none
  published key value expires metadata (some rev) = do
    publish key value expires metadata (length (meta_bytes x.json metadata)) rev
    pure (some rev)

  abbrev pub was_written : Option ℕ → Bool
  was_written none = false
  was_written (some rev) = true

  unfoldable pub set_conditional : Bytes → Bytes → SetOptions → Bool → Exec Bool
  unfolding set_expiry on_log publish
  set_conditional key value opts require_live = do
    expires ← set_expiry key opts
    r ←
        put_cond 0 key value (meta_bytes x.json opts.metadata) expires
          (if require_live then key_present else key_absent)
    r' ← published key value expires opts.metadata r
    pure (was_written r')

  abbrev pub setnx : Bytes → Bytes → SetOptions → Exec Bool
  setnx key value opts = set_conditional key value opts false

  abbrev pub setxx : Bytes → Bytes → SetOptions → Exec Bool
  setxx key value opts = set_conditional key value opts true

  -- `keep_ttl` is not looked at.
  unfoldable pub setrev : Bytes → Bytes → SetOptions → ℕ → Exec (Option ℕ)
  unfolding on_log publish
  setrev key value opts expected_rev = do
    expires ← lift (expiry_of_ttl opts.ttl x.now)
    r ← put_cond 0 key value (meta_bytes x.json opts.metadata) expires (revision expected_rev)
    published key value expires opts.metadata r

  unfoldable pub getset : Bytes → Bytes → Exec (Option Entry)
  unfolding get_inline on_log publish
  getset key value = do
    old ← get_inline x ns key
    rev ← put 1 key value [] none
    publish key value none none 0 rev
    pure old

  -- The current value, its expiry, and the condition that the write will have.
  abbrev pub Read : Type 0
  Read = Option Bytes × Option ℕ × WriteCondition

  abbrev pub incr_indexed : Bytes → Option IndexEntry × Option ℕ → Exec Read
  incr_indexed key (none, expires) = pure (none, none, key_absent)
  incr_indexed key (some e, expires) =
      if has_expired expires x.now
      then (do _ ← tombstone x ns 0 key; cache_remove ns key; pure (none, none, key_absent))
      else (do
        (value, meta) ← λ s. lift (read_value x.deps s.log e) s
        pure (some value, expires, revision e.tstamp_ms))

  abbrev pub incr_looked_up : Bytes → Option Hit → Exec Read
  incr_looked_up key (some (value, expires, metadata, rev)) =
      pure (some value, expires, revision rev)
  incr_looked_up key none = do e ← gets (λ s. index_of s key); incr_indexed key e

  unfoldable pub incr_read : Bytes → Exec Read
  unfolding cache_get cache_remove on_log read_value
  incr_read key = do c ← cache_get ns key x.now; incr_looked_up key c

  abbrev pub int_of : Option Bytes → Option ℤ
  int_of none = some (pos 0)
  int_of (some v) = parse_i64 v

  abbrev pub incr_written : Bytes → ℤ → Option ℕ → Option ℕ → Exec (Option ℤ)
  incr_written key new_val expires none = pure none
  incr_written key new_val expires (some rev) = do
    publish key (to_string new_val) expires none 0 rev
    pure (some new_val)

  -- One round of the loop of `incr`; `none` is a race that was lost.
  unfoldable pub incr_round : Bytes → ℤ → Exec (Option ℤ)
  unfolding incr_read checked_add to_string on_log publish
  incr_round key delta = do
    (current, expires, cond) ← incr_read key
    n ← lift (ok_or (int_of current) invalid_input)
    new_val ← lift (ok_or (checked_add n delta) invalid_input)
    r ← put_cond 1 key (to_string new_val) [] expires cond
    incr_written key new_val expires r

-- Each round reads the clock anew. The source makes 64 rounds.
module _ (xs : ℕ → Ctx) (ns : Bytes) where
  abbrev pub next_round : Option ℤ → Exec ℤ → Exec ℤ
  next_round none again = again
  next_round (some n) again = pure n

  unfoldable pub incr_loop : ℕ → Bytes → ℤ → Exec ℤ
  unfolding incr_round
  incr_loop zero key delta = lift (err conflict)
  incr_loop (suc left) key delta = do
    r ← incr_round (xs left) ns key delta
    next_round r (incr_loop left key delta)

  unfoldable pub incr : Bytes → ℤ → Exec ℤ
  unfolding incr_loop
  incr key delta = incr_loop 64 key delta
