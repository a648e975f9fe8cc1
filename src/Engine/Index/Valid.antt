-- ===== src/Engine/Index/Valid.antt =====
-- The invariant of the index, crates/engine/src/log/index.rs.
use kv.Prelude.{ℕ, ◌≡◌, true, false, Option, none, arith, is_some, length, Bytes, bytes_eq_iff}
use kv.Prelude.ByteMap.{get-insert, get-remove, get-put}
use kv.Prelude.ByteMap.Order.{
  IsSorted, insert-IsSorted, remove-IsSorted, put-IsSorted, length-insert, length-remove,
}
use kv.Engine.Index.{
  NsIndex, IndexEntry, get, ttl_of, valsep_of, insert, set_ttl, set_valsep, remove,
}

-- The maps are in order, the counter is the number of entries, and no sidecar holds a key that
-- the map does not hold.
pub record IsValid (idx : NsIndex) : Type 0 where
  pub map_sorted : IsSorted idx.map
  pub ttl_sorted : IsSorted idx.ttl
  pub valsep_sorted : IsSorted idx.valsep
  pub counted : idx.live_count ≡ length idx.map
  pub ttl_within : (k : Bytes) → is_some (get idx k) ≡ false → ttl_of idx k ≡ none
  pub valsep_within : (k : Bytes) → is_some (get idx k) ≡ false → valsep_of idx k ≡ none

module _ (idx : NsIndex) (v : IsValid idx) where
  pub insert-IsValid :
      (key : Bytes) (entry : IndexEntry) (expires : Option ℕ)
      → IsValid (insert idx key entry expires)
  unfolding insert
  insert-IsValid key entry expires = record {
    map_sorted = insert-IsSorted key entry idx.map v.map_sorted;
    ttl_sorted = put-IsSorted key expires idx.ttl v.ttl_sorted;
    valsep_sorted = v.valsep_sorted;
    counted = ground (arith, length-insert key entry idx.map v.map_sorted, v.counted);
    ttl_within = λ k h.
        ground
          (arith, get-insert k key entry idx.map, get-put k key expires idx.ttl, v.ttl_within k);
    valsep_within = λ k h. ground (arith, get-insert k key entry idx.map, v.valsep_within k);
  }

  pub set_ttl-IsValid :
      (key : Bytes) (expires : Option ℕ)
      → is_some (get idx key) ≡ true
      → IsValid (set_ttl idx key expires)
  unfolding set_ttl
  set_ttl-IsValid key expires held = record {
    map_sorted = v.map_sorted;
    ttl_sorted = put-IsSorted key expires idx.ttl v.ttl_sorted;
    valsep_sorted = v.valsep_sorted;
    counted = v.counted;
    ttl_within =
        λ k h. ground (arith, get-put k key expires idx.ttl, v.ttl_within k, bytes_eq_iff k key);
    valsep_within = v.valsep_within;
  }

  pub set_valsep-IsValid :
      (key : Bytes) (hash : Option Bytes)
      → is_some (get idx key) ≡ true
      → IsValid (set_valsep idx key hash)
  unfolding set_valsep
  set_valsep-IsValid key hash held = record {
    map_sorted = v.map_sorted;
    ttl_sorted = v.ttl_sorted;
    valsep_sorted = put-IsSorted key hash idx.valsep v.valsep_sorted;
    counted = v.counted;
    ttl_within = v.ttl_within;
    valsep_within =
        λ k h. ground (arith, get-put k key hash idx.valsep, v.valsep_within k, bytes_eq_iff k key);
  }

  pub remove-IsValid : (key : Bytes) → IsValid (remove idx key).0
  unfolding remove
  remove-IsValid key = record {
    map_sorted = remove-IsSorted key idx.map v.map_sorted;
    ttl_sorted = remove-IsSorted key idx.ttl v.ttl_sorted;
    valsep_sorted = remove-IsSorted key idx.valsep v.valsep_sorted;
    counted = ground (arith, length-remove key idx.map v.map_sorted, v.counted);
    ttl_within =
        λ k h. ground (arith, get-remove k key idx.map, get-remove k key idx.ttl, v.ttl_within k);
    valsep_within = λ k h.
        ground (arith, get-remove k key idx.map, get-remove k key idx.valsep, v.valsep_within k);
  }
