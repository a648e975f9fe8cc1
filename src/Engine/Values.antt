-- ===== src/Engine/Values.antt =====
-- crates/engine/src/value_store.rs: the store of separated values, by content hash. The file system
-- is the map from a hash to the bytes of its blob file. BLAKE3 is a parameter. The locks on blob
-- files only order operations that this model runs one after the other.
pub mod Counts
pub mod Release
use kv.Prelude.{
  ℕ, ◌+◌, ◌-◌, ◌^◌, ◌%◌, ◌≡◌, Bool, true, false, List, [], ◌∷◌, ◌++◌, Option, none, some, ◌==◌,
  if◌then◌else◌, length, take, Bytes, ok, err,
}
use kv.Prelude.ByteMap
use kv.Prelude.ByteMap.{ByteMap}
use kv.Engine.Error.{Result, io}
use kv.Engine.File.{Fault}

-- What the engine relies on: the hash of a value has 32 bytes.
pub record Blake3 : Type 0 where
  pub hash : Bytes → Bytes
  pub length-hash : (b : Bytes) → length (hash b) ≡ 32

unfoldable pub content_hash : Blake3 → Bytes → Bytes
content_hash blake3 value = take 16 (blake3.hash value)

pub record ValueStore : Type 0 where
  pub refs : ByteMap ℕ
  pub pending_delete : List Bytes
  pub blobs : ByteMap Bytes

abbrev pub empty : ValueStore
empty = record { refs = []; pending_delete = []; blobs = [] }

unfoldable pub refcount : ValueStore → Bytes → ℕ
refcount vs h = elim (ByteMap.get h vs.refs) [ some n ↦ n | none ↦ 0 ]

-- `*refs.entry(h).or_insert(0) += 1`, on a u32
unfoldable pub incr_ref : ValueStore → Bytes → ValueStore
unfolding refcount
incr_ref vs h = record vs { refs = ByteMap.insert h ((refcount vs h + 1) % 2 ^ 32) vs.refs }

-- The store after the decrement, and whether the count reached zero.
unfoldable pub dec : ValueStore → Bytes → ValueStore × Bool
dec vs h = elim (ByteMap.get h vs.refs) [
  | none ↦ (vs, false)
  | some n ↦
      if n - 1 == 0
      then (record vs { refs = ByteMap.remove h vs.refs }, true)
      else (record vs { refs = ByteMap.insert h (n - 1) vs.refs }, false)
]

-- The blob file is created, cut to nothing and written; a write that fails leaves a part of it.
unfoldable pub write_blob : Fault → ValueStore → Bytes → Bytes → ValueStore
write_blob none vs h value = record vs { blobs = ByteMap.insert h value vs.blobs }
write_blob (some n) vs h value = record vs { blobs = ByteMap.insert h (take n value) vs.blobs }

unfoldable pub put : Blake3 → Fault → ValueStore → Bytes → ValueStore × Result Bytes
unfolding incr_ref dec write_blob content_hash
put blake3 fault vs value =
    let h = content_hash blake3 value in
    let vs' = incr_ref vs h in
    if refcount vs' h == 1
    then elim fault [
      | none ↦ (write_blob none vs' h value, ok h)
      | some n ↦ ((dec (write_blob (some n) vs' h value) h).0, err io)
    ]
    else (vs', ok h)

unfoldable pub get : ValueStore → Bytes → Result Bytes
get vs h = elim (ByteMap.get h vs.blobs) [ some b ↦ ok b | none ↦ err io ]

unfoldable pub unref : ValueStore → Bytes → ValueStore
unfolding dec
unref vs h =
    let (vs', dead) = dec vs h in
    if dead then record vs' { pending_delete = vs'.pending_delete ++ h ∷ [] } else vs'

-- The loop of `collect_garbage` over the queue that it took.
unfoldable pub collect : List Bytes → ValueStore → ValueStore
unfolding refcount
collect [] vs = vs
collect (h ∷ pending) vs =
    let vs' : ValueStore =
      if refcount vs h == 0 then record vs { blobs = ByteMap.remove h vs.blobs } else vs in
    collect pending vs'

unfoldable pub collect_garbage : ValueStore → ValueStore
unfolding collect
collect_garbage vs = collect vs.pending_delete (record vs { pending_delete = [] })

abbrev pub clear : ValueStore → ValueStore
clear vs = empty

-- The blob files whose hash has no count are deleted.
unfoldable pub sweep : ByteMap ℕ → ByteMap Bytes → ByteMap Bytes
sweep refs [] = []
sweep refs ((h, b) ∷ blobs) =
    let rest = sweep refs blobs in if ByteMap.contains_key h refs then (h, b) ∷ rest else rest

unfoldable pub sweep_orphans : ValueStore → ValueStore
unfolding sweep
sweep_orphans vs = record vs { blobs = sweep vs.refs vs.blobs }
