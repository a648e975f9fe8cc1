-- ===== src/Engine/Store/Coherent/Results.antt =====
-- What a caller of get, getex, del and expire in crates/engine/src/store.rs may rely on.
use kv.Prelude.{◌≡◌, true, List, Option, Bytes, ok, err}
use kv.Engine.Error.{Result}
use kv.Engine.Log.State.{NamespaceLog}
use kv.Engine.Log.Write.{live_rev}
use kv.Engine.Store.{Entry, Ctx, Shard}
use kv.Engine.Store.Names.{is_valid_ns_name}
use kv.Engine.Store.Reads.{get}
use kv.Engine.Store.Deletes.{del_keys}
use kv.Engine.Store.Ensures.{Post, Ensures-ok}
use kv.Engine.Store.Coherent.{Coherent}
use kv.Engine.Store.Coherent.Reads.{get-Answers, revision_in}
use kv.Engine.Store.Coherent.Del.{del_keys-Coherent}

module _ (others : Bytes → Option NamespaceLog) (x : Ctx) (ns : Bytes)
    (named : is_valid_ns_name ns ≡ true) where
  -- A get that succeeds returns an entry with the live revision of the index, or nothing if the
  -- index has no live one, whether it answers from the cache or from the log, and leaves the cache
  -- in agreement with the indexes. Conditions: the cache agreed with the indexes before, and the
  -- name of the namespace is valid.
  pub get-live_rev :
      (key : Bytes) (s s' : Shard) (r : Option Entry)
      → Coherent others ns s
      → get x ns key s ≡ (s', ok r)
      → Coherent others ns s' × (live_rev s'.log.index key x.now ≡ revision_in r)
  get-live_rev key s s' r h e =
      let a = Ensures-ok (get-Answers others x ns named key) h e in (a.0, a.1.1)

  either_way : {A : Type 0} (P : Shard → Type 0) (r : Shard × Result A) → Post P (λ _. P) r → P r.0
  either_way P (s, ok a) h = h
  either_way P (s, err e) h = h

  -- A del of any list of keys, repeated ones included, leaves the cache in agreement with the
  -- indexes, whether it succeeds or some of its tombstones fail. Conditions: the cache agreed with
  -- the indexes before, and the name of the namespace is valid.
  pub del-Coherent :
      (keys : List Bytes) (s : Shard)
      → Coherent others ns s
      → Coherent others ns (del_keys x ns keys s).0
  del-Coherent keys s h =
      either_way (Coherent others ns) (del_keys x ns keys s)
        ((del_keys-Coherent others x ns named keys).at s h)
