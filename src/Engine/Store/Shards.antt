-- ===== src/Engine/Store/Shards.antt =====
-- A ShardStore of crates/engine/src/store.rs, `ensure_ns`, and an operation on one namespace.
use kv.Prelude.{ℕ, List, Option, none, some, leb, if◌then◌else◌, length, Bytes, ok, err}
use kv.Prelude.ByteMap
use kv.Prelude.ByteMap.{ByteMap}
use kv.Engine.Error.{Result, invalid_namespace, capacity_exceeded}
use kv.Engine.Cache.{MemCache}
use kv.Engine.Log.State.{NamespaceLog}
use kv.Engine.Store.{Shard, WatchEvent, Ctx, Exec, SetOptions, GetExOp, pure, ◌>>=◌}
use kv.Engine.Store.Names.{is_valid_ns_name}
use kv.Engine.Store.Reads
use kv.Engine.Store.Writes
use kv.Engine.Store.Deletes
use kv.Engine.Store.Flush
use kv.Engine.Log.Flush.{FlushEnv}
use kv.Proto.Integer.{ℤ}

pub record ShardStore : Type 0 where
  pub namespaces : ByteMap NamespaceLog
  pub cache : MemCache
  pub hits : ℕ
  pub misses : ℕ
  pub notices : List (Bytes × Bytes × WatchEvent)

abbrev pub max_namespaces : ℕ
max_namespaces = 1024

-- The check of the map before and after the file is opened: a namespace that is there, or an error
-- if there is no room for it.
abbrev pub Room : Type 0
Room = Result (Option NamespaceLog)

abbrev pub room_for : ShardStore → Bytes → Room
room_for s ns = elim (ByteMap.get ns s.namespaces) [
  | some log ↦ ok (some log)
  | none ↦ if leb max_namespaces (length s.namespaces) then err capacity_exceeded else ok none
]

abbrev pub opened_ns : ShardStore → Bytes → NamespaceLog → Room → ShardStore × Result NamespaceLog
opened_ns s ns log (ok (some there)) = (s, ok there)
opened_ns s ns log (ok none) =
    (record s { namespaces = ByteMap.insert ns log s.namespaces }, ok log)
opened_ns s ns log (err e) = (s, err e)

abbrev pub open_ns : ShardStore → Bytes → Result NamespaceLog → ShardStore × Result NamespaceLog
open_ns s ns (ok log) = opened_ns s ns log (room_for s ns)
open_ns s ns (err e) = (s, err e)

-- `opened` is the result of `NamespaceLog::open`, and `during` what other tasks do to the store while
-- it is awaited.
abbrev pub ensure_checked :
    (ShardStore → ShardStore)
    → Result NamespaceLog
    → ShardStore
    → Bytes
    → Room
    → ShardStore × Result NamespaceLog
ensure_checked during opened s ns (ok (some log)) = (s, ok log)
ensure_checked during opened s ns (ok none) = open_ns (during s) ns opened
ensure_checked during opened s ns (err e) = (s, err e)

unfoldable pub ensure_ns :
    (ShardStore → ShardStore)
    → Result NamespaceLog
    → ShardStore
    → Bytes
    → ShardStore × Result NamespaceLog
unfolding is_valid_ns_name
ensure_ns during opened s ns =
    if is_valid_ns_name ns
    then ensure_checked during opened s ns (room_for s ns)
    else (s, err invalid_namespace)

-- The operations on the keys of a namespace.
pub data Operation : Type 0 where
  get : Bytes → Operation
  getex : Bytes → Option GetExOp → Operation
  ttl : Bytes → Operation
  pttl : Bytes → Operation
  exists : List Bytes → Operation
  db_size : Operation
  set : Bytes → Bytes → SetOptions → Operation
  setnx : Bytes → Bytes → SetOptions → Operation
  setxx : Bytes → Bytes → SetOptions → Operation
  setrev : Bytes → Bytes → SetOptions → ℕ → Operation
  getset : Bytes → Bytes → Operation
  incr : (ℕ → Ctx) → Bytes → ℤ → Operation
  del : List Bytes → Operation
  delrev : Bytes → ℕ → Operation
  getdel : Bytes → Operation
  expire : Bytes → ℕ → Operation
  persist : Bytes → Operation
  flush_db : FlushEnv → Operation

abbrev pub done : {A : Type 0} → Exec A → Exec (Unit {0})
done m = m >>= λ _. pure tt

-- An operation, without its result.
unfoldable pub perform : Ctx → Bytes → Operation → Exec (Unit {0})
unfolding Reads.get Reads.getex
perform x ns (get key) = done (Reads.get x ns key)
perform x ns (getex key op) = done (Reads.getex x ns key op)
perform x ns (ttl key) = done (Reads.ttl x ns key)
perform x ns (pttl key) = done (Reads.pttl x ns key)
perform x ns (exists keys) = done (Reads.exists x ns keys)
perform x ns db_size = done (Reads.db_size x ns)
perform x ns (set key value opts) = done (Writes.set_key x ns key value opts)
perform x ns (setnx key value opts) = done (Writes.setnx x ns key value opts)
perform x ns (setxx key value opts) = done (Writes.setxx x ns key value opts)
perform x ns (setrev key value opts rev) = done (Writes.setrev x ns key value opts rev)
perform x ns (getset key value) = done (Writes.getset x ns key value)
perform x ns (incr xs key delta) = done (Writes.incr xs ns key delta)
perform x ns (del keys) = done (Deletes.del_keys x ns keys)
perform x ns (delrev key rev) = done (Deletes.delrev x ns key rev)
perform x ns (getdel key) = done (Deletes.getdel x ns key)
perform x ns (expire key d) = done (Deletes.expire x ns key d)
perform x ns (persist key) = done (Deletes.persist x ns key)
perform x ns (flush_db env) = done (Flush.flush_db x ns env)

abbrev pub view : ShardStore → NamespaceLog → Shard
view s log = record {
  log = log;
  cache = s.cache;
  hits = s.hits;
  misses = s.misses;
  notices = s.notices;
}

-- The store after an operation on the namespace.
abbrev pub put_back : ByteMap NamespaceLog → Bytes → Shard → ShardStore
put_back namespaces ns v = record {
  namespaces = ByteMap.insert ns v.log namespaces;
  cache = v.cache;
  hits = v.hits;
  misses = v.misses;
  notices = v.notices;
}

abbrev pub ran : {A : Type 0} → ShardStore → Bytes → Shard × Result A → ShardStore × Result A
ran s ns (v, r) = (put_back s.namespaces ns v, r)

abbrev pub on_found :
    {A : Type 0} → Bytes → Exec A → ShardStore × Result NamespaceLog → ShardStore × Result A
on_found ns op (s, ok log) = ran s ns (op (view s log))
on_found ns op (s, err e) = (s, err e)

unfoldable pub run_op :
    Ctx → Result NamespaceLog → ShardStore → Bytes → Operation → ShardStore × Result (Unit {0})
unfolding ensure_ns perform
run_op x opened s ns op = on_found ns (perform x ns op) (ensure_ns (λ t. t) opened s ns)
