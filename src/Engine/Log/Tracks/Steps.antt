-- ===== src/Engine/Log/Tracks/Steps.antt =====
-- Each record keeps the recovered index and the one in memory in agreement.
use kv.Prelude.{ℕ, ◌≡◌, false, Option, none, some, arith, is_some, Bytes}
use kv.Prelude.ByteMap.{get-insert, get-put, get-remove, remove_absent}
use kv.Engine.Index
use kv.Engine.Index.{NsIndex, IndexEntry}
use kv.Engine.Log.Write.{insert_entry}
use kv.Engine.Log.Tracks.{Agrees}
use kv.Engine.Log.Tracks.Records.{set_some}

module _ (a b : NsIndex) (h : Agrees a b) (key : Bytes) where
  pub Agrees-put :
      (entry : IndexEntry) (expires : Option ℕ) (sep_hash : Option Bytes)
      → Agrees
          (set_some (Index.insert a key entry expires) key sep_hash)
          (insert_entry b key entry expires sep_hash)
  unfolding Index.insert Index.set_valsep
  Agrees-put entry expires none = record {
    map = ground (arith, h.map);
    ttl = ground (arith, h.ttl);
    live_count = ground (arith, h.map, h.live_count);
    valsep = λ k v e. ground (arith, get-put k key none b.valsep, h.valsep k v);
    within = λ k out. ground (arith, get-insert k key entry a.map, h.within k);
  }
  Agrees-put entry expires (some hash) = record {
    map = ground (arith, h.map);
    ttl = ground (arith, h.ttl);
    live_count = ground (arith, h.map, h.live_count);
    valsep = λ k v e. ground (
      arith,
      get-put k key (some hash) b.valsep,
      get-put k key (some hash) a.valsep,
      h.valsep k v,
    );
    within = λ k out.
        ground
          (arith, get-insert k key entry a.map, get-put k key (some hash) a.valsep, h.within k);
  }

  pub Agrees-remove : Agrees (Index.remove a key).0 (Index.remove b key).0
  unfolding Index.remove
  Agrees-remove = record {
    map = ground (arith, h.map);
    ttl = ground (arith, h.ttl);
    live_count = ground (arith, h.map, h.live_count);
    valsep =
        λ k v e. ground (arith, get-remove k key b.valsep, get-remove k key a.valsep, h.valsep k v);
    within = λ k out. ground (arith, get-remove k key a.map, get-remove k key a.valsep, h.within k);
  }

  pub Agrees-ttl :
      (expires : Option ℕ) → Agrees (Index.set_ttl a key expires) (Index.set_ttl b key expires)
  unfolding Index.set_ttl
  Agrees-ttl expires = record {
    map = h.map;
    ttl = ground (arith, h.ttl);
    live_count = h.live_count;
    valsep = h.valsep;
    within = h.within;
  }

  -- Taking out a key that is not there.
  pub Agrees-absent :
      is_some (Index.get b key) ≡ false
      → Index.ttl_of b key ≡ none
      → Agrees a (Index.remove b key).0
  unfolding Index.remove
  Agrees-absent absent no_ttl = record {
    map = ground (arith, h.map, remove_absent key b.map);
    ttl = ground (arith, h.ttl, remove_absent key b.ttl);
    live_count = ground (arith, h.live_count);
    valsep = λ k v e. ground (arith, get-remove k key b.valsep, h.valsep k v);
    within = h.within;
  }
