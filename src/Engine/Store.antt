-- ===== src/Engine/Store.antt =====
-- crates/engine/src/store.rs and types.rs: what an operation of the store works on once `ensure_ns`
-- has found its namespace, and the steps that the operations share. A JSON value is opaque to the
-- store, and stands as bytes. Times are in milliseconds.
pub mod Names
pub mod Ensures
pub mod Reads
pub mod Integer
pub mod Writes
pub mod Deletes
pub mod Flush
pub mod Shards
pub mod Coherent
pub mod ReadBack
pub mod Glob
pub mod Scan
use kv.Prelude.{
  ℕ, zero, suc, ◌+◌, ◌-◌, ◌^◌, Bool, true, false, List, [], ◌∷◌, ◌++◌, Option, none, some, leb,
  is_some_and, if◌then◌else◌, length, Bytes, ok, err, ◌≡◌, ◌≢◌,
}
use kv.Prelude
use kv.Engine.Error.{EngineError, Result, capacity_exceeded, metadata_json}
use kv.Engine.Index
use kv.Engine.Index.{IndexEntry}
use kv.Engine.Cache
use kv.Engine.Cache.Remove
use kv.Engine.Cache.{MemCache}
use kv.Engine.Log.State.{NamespaceLog, Env, Deps}
use kv.Engine.Store.Names.{cache_key}
pub use kv.Engine.Watch.{WatchEvent, set, del}

pub record Entry : Type 0 where
  pub value : Bytes
  pub expires_at : Option ℕ
  pub metadata : Option Bytes
  pub revision : ℕ

pub record SetOptions : Type 0 where
  pub ttl : Option ℕ
  pub metadata : Option Bytes
  pub keep_ttl : Bool

pub data TtlResult : Type 0 where
  no_expiry : TtlResult
  not_found : TtlResult
  remaining : ℕ → TtlResult

pub data GetExOp : Type 0 where
  set_ttl : ℕ → GetExOp
  persist : GetExOp

-- serde_json: parsing, which can fail, and printing, which gives at least one byte.
pub record Json : Type 0 where
  pub from_slice : Bytes → Option Bytes
  pub to_vec : Bytes → Bytes
  pub to_vec_ne : (v : Bytes) → to_vec v ≢ []

-- What an operation meets outside: `now_ms` and `Instant::now`, read once, and for each of its calls
-- of the log what that call meets.
pub record Ctx : Type 0 where
  pub deps : Deps
  pub json : Json
  pub now : ℕ
  pub now_instant : ℕ
  pub log_env : ℕ → Env

-- The part of a `ShardStore` that an operation on one namespace works on: the log of the namespace,
-- the cache, the counters of hits and misses, and the calls of `WatchRegistry::notify`, in order.
pub record Shard : Type 0 where
  pub log : NamespaceLog
  pub cache : MemCache
  pub hits : ℕ
  pub misses : ℕ
  pub notices : List (Bytes × Bytes × WatchEvent)

-- A method: it returns the store beside its result, also if it fails.
abbrev pub Exec : Type 0 → Type 0
Exec A = Shard → Shard × Result A

abbrev pub pure : {A : Type 0} → A → Exec A
pure a s = (s, ok a)

abbrev pub lift : {A : Type 0} → Result A → Exec A
lift r s = (s, r)

abbrev pub gets : {A : Type 0} → (Shard → A) → Exec A
gets f s = (s, ok (f s))

abbrev pub modify : (Shard → Shard) → Exec (Unit {0})
modify f s = (f s, ok tt)

abbrev pub continue : {A B : Type 0} → Shard × Result A → (A → Exec B) → Shard × Result B
continue (s, ok a) f = f a s
continue (s, err e) f = (s, err e)

infixl 10 ◌>>=◌ ◌>>◌
unfoldable pub ◌>>=◌ : {A B : Type 0} → Exec A → (A → Exec B) → Exec B
◌>>=◌ m f s = continue (m s) f

abbrev pub ◌>>◌ : {A B : Type 0} → Exec A → Exec B → Exec B
m >> n = m >>= λ _. n

-- A call of a method of the log.
abbrev pub with_log : {A : Type 0} → Shard → NamespaceLog × Result A → Shard × Result A
with_log s (log, r) = (record s { log = log }, r)

unfoldable pub on_log : {A : Type 0} → (NamespaceLog → NamespaceLog × Result A) → Exec A
on_log f s = with_log s (f s.log)

-- The cache's loops have fuel, which Cache/Insert shows to be enough; without it nothing would change.
abbrev pub or_same : MemCache → Option MemCache → MemCache
or_same c none = c
or_same c (some c') = c'

abbrev pub index_of : Shard → Bytes → Option IndexEntry × Option ℕ
index_of s key = (Index.get s.log.index key, Index.ttl_of s.log.index key)

module _ (ns : Bytes) where
  abbrev pub found_in_cache :
      Shard
      → MemCache × Option (Bytes × Option ℕ × Option Bytes × ℕ)
      → Shard × Result (Option (Bytes × Option ℕ × Option Bytes × ℕ))
  found_in_cache s (c, found) = (record s { cache = c }, ok found)

  unfoldable pub cache_get : Bytes → ℕ → Exec (Option (Bytes × Option ℕ × Option Bytes × ℕ))
  cache_get key now s = found_in_cache s (Cache.get s.cache (cache_key ns key) now)

  unfoldable pub cache_remove : Bytes → Exec (Unit {0})
  cache_remove key s = (record s { cache = Remove.remove s.cache (cache_key ns key) }, ok tt)

  unfoldable pub cache_insert : Bytes → Bytes → Option ℕ → Option Bytes → ℕ → ℕ → Exec (Unit {0})
  cache_insert key value expires_at_ms metadata meta_len revision s = (
    record s {
      cache =
          or_same s.cache (
            Cache.insert s.cache (cache_key ns key) value expires_at_ms metadata meta_len revision);
    },
    ok tt,
  )

  abbrev pub updated_or :
      Shard → Exec (Unit {0}) → Option (MemCache × Bool) → Shard × Result (Unit {0})
  updated_or s insert none = (s, ok tt)
  updated_or s insert (some (c, true)) = (record s { cache = c }, ok tt)
  updated_or s insert (some (c, false)) = insert (record s { cache = c })

  -- `try_update`, and `insert` if the cache does not hold the key
  unfoldable pub upsert_cache : Bytes → Bytes → Option ℕ → Option Bytes → ℕ → ℕ → Exec (Unit {0})
  unfolding cache_insert
  upsert_cache key value expires_at_ms metadata meta_len revision s =
      updated_or s (cache_insert key value expires_at_ms metadata meta_len revision)
        (Cache.try_update s.cache (cache_key ns key) value expires_at_ms metadata meta_len revision)

  unfoldable pub notify : Bytes → WatchEvent → Exec (Unit {0})
  notify key event s = (record s { notices = s.notices ++ (ns, key, event) ∷ [] }, ok tt)

-- `expires_at_ms.map(…)` with `saturating_sub`
abbrev pub instant_from_ms : Option ℕ → ℕ → ℕ → Option ℕ
instant_from_ms none now now_instant = none
instant_from_ms (some ms) now now_instant = some (now_instant + (ms - now))

abbrev pub metadata_from_bytes : Json → Bytes → Result (Option Bytes)
metadata_from_bytes j [] = ok none
metadata_from_bytes j (b ∷ meta) = elim (j.from_slice (b ∷ meta)) [
  | some v ↦ ok (some v)
  | none ↦ err metadata_json
]

-- `opts.metadata.as_ref().map(to_vec).transpose()?.unwrap_or_default()`
abbrev pub meta_bytes : Json → Option Bytes → Bytes
meta_bytes j none = []
meta_bytes j (some v) = j.to_vec v

-- The relative expiry as an absolute one; both are u64.
unfoldable pub validate_ttl : ℕ → ℕ → Result ℕ
validate_ttl d now =
    if leb (2 ^ 64) d
    then err capacity_exceeded
    else if leb (2 ^ 64) (now + d)
    then err capacity_exceeded
    else ok (now + d)

-- `opts.ttl.map(|d| validate_ttl(d, now)).transpose()?`
abbrev pub expiry_of_ttl : Option ℕ → ℕ → Result (Option ℕ)
expiry_of_ttl none now = ok none
expiry_of_ttl (some d) now = elim (validate_ttl d now) [
  | Prelude.ok ms ↦ ok (some ms)
  | Prelude.err e ↦ err e
]

-- `expires_at_ms.is_some_and(|ms| ms <= now)`
abbrev pub has_expired : Option ℕ → ℕ → Bool
has_expired expires_at_ms now = is_some_and expires_at_ms (λ ms. leb ms now)

abbrev pub entry_from : Ctx → Bytes × Option ℕ × Option Bytes × ℕ → Entry
entry_from x (value, expires_at_ms, metadata, revision) = record {
  value = value;
  expires_at = instant_from_ms expires_at_ms x.now x.now_instant;
  metadata = metadata;
  revision = revision;
}
