-- ===== src/Tests/StoreTests.antt =====
-- The store: crates/engine/src/store.rs.
use kv.Prelude.{
  ◌<◌, ◌^◌, ◌≡◌, refl, ap, true, false, [], ◌∷◌, Option, none, some, Bytes, ok, arith, bytes_eq,
  to_le,
}
use kv.Prelude.ByteMap
use kv.Prelude.ByteMap.Sum.{sum_of}
use kv.Engine.Error.{Result}
use kv.Engine.Record.{encode_into, fits_u32, record_bytes, header_tail}
use kv.Engine.File.{append}
use kv.Engine.Cache
use kv.Engine.Cache.Valid.{IsValid, in_slots}
use kv.Engine.Index
use kv.Engine.Log.State.{NamespaceLog, next_tstamp}
use kv.Engine.Log.Delete.{tombstone_key}
use kv.Engine.Log.Write.{put_full, put_full_cond, live_rev, check}
use kv.Proto.Integer.{pos, negsuc}
use kv.Engine.Store.{Entry, SetOptions, Json, Ctx, Shard, ◌>>=◌, validate_ttl, entry_from}
use kv.Engine.Store.ReadBack.{set-get}
use kv.Engine.Store.Names.{is_valid_ns_name, all_name_bytes, cache_key, cache_key_inj}
use kv.Engine.Store.Integer.{to_string}
use kv.Engine.Store.Writes.{set_key, set_expiry, setrev, incr, incr_round}
use kv.Engine.Store.Reads
use kv.Engine.Store.Deletes.{getdel, del_keys}
use kv.Engine.Store.Shards.{ShardStore, ensure_ns, Operation, set, run_op}
use kv.Engine.Store.Shards
use kv.Engine.Store.Ensures.{Ensures-ok}
use kv.Engine.Store.Coherent.{Coherent}
use kv.Engine.Store.Coherent.Writes.{set_key-Coherent}
use kv.Engine.Store.Coherent.Cas.{Written, get-setrev, Ends, incr-Ends}
use kv.Engine.Store.Coherent.Results.{get-live_rev, del-Coherent}
use kv.Engine.Store.Coherent.Sound.{
  Sound, OpenedAs, ensure_ns-OpenedAs, here, next, ran_ok, Reach-Sound,
}
use kv.Tests.{deps, env, full_disk, log0, key, value}

abbrev json : Json
json = record {
  from_slice = λ b. elim b [ [] ↦ none | c ∷ v ↦ some v ];
  to_vec = λ v. 34 ∷ v;
  to_vec_ne = λ v e. cc;
}

abbrev x : Ctx
x = record { deps = deps; json = json; now = 5; now_instant = 0; log_env = λ i. env }

abbrev ns : Bytes
ns = 110 ∷ []

ns-valid : is_valid_ns_name ns ≡ true
unfolding is_valid_ns_name all_name_bytes
ns-valid = refl

abbrev shard0 : Shard
shard0 = record { log = log0; cache = Cache.new 100; hits = 0; misses = 0; notices = [] }

abbrev no_others : Bytes → Option NamespaceLog
no_others n = none

empty-IsValid : IsValid (Cache.new 100)
unfolding sum_of in_slots ByteMap.get
empty-IsValid = record { sorted = tt; counted = refl; covered = λ k h. ground (arith, h) }

shard0-Coherent : Coherent no_others ns shard0
unfolding ByteMap.get
shard0-Coherent = (empty-IsValid, λ n k name. tt)

abbrev no_options : SetOptions
no_options = record { ttl = none; metadata = none; keep_ttl = false }

as_pair : {A : Type 0} (a : A) (r : Shard × Result A) → r.1 ≡ ok a → r ≡ (r.0, ok a)
as_pair {A = A} a r e = ap (λ (q : Result A). (r.0, q)) e

abbrev shard1 : Shard
shard1 = (set_key x ns key value no_options shard0).0

set_runs : (set_key x ns key value no_options shard0).1 ≡ ok tt
unfolding set_key put_full encode_into fits_u32 append record_bytes to_le header_tail
    Cache.try_update ByteMap.get
set_runs = refl

shard1-Coherent : Coherent no_others ns shard1
shard1-Coherent =
    Ensures-ok (set_key-Coherent no_others x ns ns-valid key value no_options) shard0-Coherent
      (as_pair tt (set_key x ns key value no_options shard0) set_runs)

abbrev entry1 : Entry
entry1 = record { value = value; expires_at = none; metadata = none; revision = 5 }

get_runs : (Reads.get x ns key shard1).1 ≡ ok (some entry1)
unfolding Reads.get set_key put_full encode_into fits_u32 append record_bytes to_le header_tail
    Cache.try_update Cache.get Cache.insert ByteMap.get ByteMap.insert cache_key bytes_eq
    next_tstamp
get_runs = refl

get-live_rev_example :
    let (s', r) = Reads.get x ns key shard1 in
    Coherent no_others ns s' × (live_rev s'.log.index key 5 ≡ some 5)
get-live_rev_example =
    get-live_rev no_others x ns ns-valid key shard1 (Reads.get x ns key shard1).0 (some entry1)
      shard1-Coherent (as_pair (some entry1) (Reads.get x ns key shard1) get_runs)

abbrev shard2 : Shard
shard2 = (Reads.get x ns key shard1).0

setrev_runs : (setrev x ns key key no_options 5 shard2).1 ≡ ok (some 6)
unfolding setrev Reads.get put_full_cond check live_rev Index.is_expired Index.insert
    Index.set_valsep ByteMap.put set_key put_full encode_into fits_u32 append record_bytes to_le
    header_tail Cache.try_update Cache.get Cache.insert ByteMap.get ByteMap.insert cache_key
    bytes_eq next_tstamp
setrev_runs = refl

get-setrev_example :
    Written no_others x ns ns-valid key (some 6) (setrev x ns key key no_options 5 shard2).0
get-setrev_example =
    get-setrev no_others x ns ns-valid key entry1 key no_options shard1 shard2
      (setrev x ns key key no_options 5 shard2).0 (some 6) shard1-Coherent
      (as_pair (some entry1) (Reads.get x ns key shard1) get_runs)
      (as_pair (some 6) (setrev x ns key key no_options 5 shard2) setrev_runs)

incr-Ends_example : Ends (incr_round x ns key (pos 3) shard0) (incr (λ _. x) ns key (pos 3) shard0)
incr-Ends_example = incr-Ends no_others (λ _. x) ns ns-valid key (pos 3) shard0 shard0-Coherent

incr_counts : (incr_round x ns key (pos 3) shard0).1 ≡ ok (some (pos 3))
unfolding incr_round Cache.get ByteMap.get put_full_cond check live_rev Index.is_expired encode_into
    fits_u32 append record_bytes to_le header_tail Cache.try_update
incr_counts = refl

-- Both keys are tombstoned on a full disk: the deletion fails, and nothing is left in the cache.
abbrev x_full : Ctx
x_full = record { deps = deps; json = json; now = 5; now_instant = 0; log_env = λ i. full_disk }

del-Coherent_example : Coherent no_others ns (del_keys x_full ns (key ∷ value ∷ []) shard1).0
del-Coherent_example =
    del-Coherent no_others x_full ns ns-valid (key ∷ value ∷ []) shard1 shard1-Coherent

-- getdel on a full disk leaves the index without the key and the cache with it.
abbrev shard3 : Shard
shard3 = (getdel x_full ns key shard1).0

getdel_leaves_cached :
    (Index.get shard3.log.index key ≡ none) × ((Reads.get x ns key shard3).1 ≡ ok (some entry1))
unfolding getdel Reads.get Reads.get_inline tombstone_key Index.remove Index.set_valsep Index.insert
    ByteMap.put ByteMap.remove set_key put_full encode_into fits_u32 append record_bytes to_le
    header_tail Cache.try_update Cache.get Cache.insert ByteMap.get ByteMap.insert cache_key
    bytes_eq next_tstamp
getdel_leaves_cached = (refl, refl)

cache_key_inj_example : (ns ≡ ns) × (key ≡ key)
cache_key_inj_example = cache_key_inj ns ns key key ns-valid ns-valid refl

to_string_tests : (to_string (pos 0) ≡ 48 ∷ []) × (to_string (negsuc 119) ≡ 45 ∷ 49 ∷ 50 ∷ 48 ∷ [])
unfolding to_string
to_string_tests = (refl, refl)

abbrev store0 : ShardStore
store0 = record { namespaces = []; cache = Cache.new 100; hits = 0; misses = 0; notices = [] }

store0-Sound : Sound store0
unfolding ByteMap.get
store0-Sound = record {
  sorted = tt;
  bounded = omega arith;
  valid = empty-IsValid;
  agrees = λ n k name. tt;
}

ensure_ns-OpenedAs_example : OpenedAs ns (ensure_ns (λ s. s) (ok log0) store0 ns)
ensure_ns-OpenedAs_example = ensure_ns-OpenedAs (λ s. s) (λ s h. h) (ok log0) store0 ns store0-Sound

abbrev store1 : ShardStore
store1 = (run_op x (ok log0) store0 ns (set key value no_options)).0

abbrev store2 : ShardStore
store2 = (run_op x (ok log0) store1 ns (Shards.get key)).0

run_pair : (r : ShardStore × Result (Unit {0})) → r.1 ≡ ok tt → r ≡ (r.0, ok tt)
run_pair r e = ap (λ (q : Result (Unit {0})). (r.0, q)) e

set_then_get :
    ((run_op x (ok log0) store0 ns (set key value no_options)).1 ≡ ok tt)
    × ((run_op x (ok log0) store1 ns (Shards.get key)).1 ≡ ok tt)
unfolding run_op set_key put_full encode_into fits_u32 append record_bytes to_le header_tail
    Cache.try_update Cache.get Cache.insert ByteMap.get ByteMap.insert cache_key bytes_eq
    next_tstamp
set_then_get = (refl, refl)

Reach-Sound_example : Sound store2
Reach-Sound_example =
    Reach-Sound
      (next
        (next here (
          ran_ok x (ok log0) ns (set key value no_options)
            (run_pair (run_op x (ok log0) store0 ns (set key value no_options)) set_then_get.0)))
        (ran_ok x (ok log0) ns (Shards.get key)
          (run_pair (run_op x (ok log0) store1 ns (Shards.get key)) set_then_get.1)))
      store0-Sound

-- A value with metadata and an expiry at 15, read at 9.
abbrev options1 : SetOptions
options1 = record { ttl = some 10; metadata = some (123 ∷ 125 ∷ []); keep_ttl = false }

options1-expiry : set_expiry x ns key options1 shard0 ≡ (shard0, ok (some 15))
unfolding set_expiry validate_ttl
options1-expiry = refl

options1-fits : fits_u32 key value (34 ∷ 123 ∷ 125 ∷ []) ≡ true
unfolding fits_u32
options1-fits = refl

log0-clock : next_tstamp 3 5 < 2 ^ 64
unfolding next_tstamp
log0-clock = omega arith

set-get_example :
    let reader : Ctx = record x { now = 9; now_instant = 100 } in
    ((set_key x ns key value options1 >>= λ _. Reads.get reader ns key) shard0).1
    ≡ ok (some (entry_from reader (value, some 15, some (123 ∷ 125 ∷ []), next_tstamp 3 5)))
set-get_example =
    set-get x ns key value options1 (some 15) 9 100 shard0 options1-expiry refl refl empty-IsValid
      refl refl (record { healthy = refl; at_end = refl })
      (record { clock = log0-clock; expiry = omega arith; room = omega arith }) options1-fits refl
