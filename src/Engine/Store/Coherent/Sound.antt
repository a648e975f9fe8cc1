-- ===== src/Engine/Store/Coherent/Sound.antt =====
-- The agreement of the cache with the indexes of all namespaces of a ShardStore, over any sequence of
-- the operations of crates/engine/src/store.rs.
use kv.Prelude.{
  ◌≡◌, ◌≤◌, ◌<◌, refl, sym, ap, subst, ◌∙◌, true, Option, none, some, inl, inr, Option_elim, leb,
  leb_false→lt, if_elim, length, Bytes, bytes_eq, bytes_eq_refl, eq_of_bytes_eq, Bool-cases, ok,
  err, arith,
}
use kv.Prelude.ByteMap
use kv.Prelude.ByteMap.{ByteMap, get-insert}
use kv.Prelude.ByteMap.Order.{IsSorted, insert-IsSorted, length-insert}
use kv.Engine.Error.{Result, invalid_namespace}
use kv.Engine.Cache.Valid.{IsValid, content}
use kv.Engine.Log.State.{NamespaceLog}
use kv.Engine.Store.{Shard, Ctx}
use kv.Engine.Store.Names.{is_valid_ns_name, cache_key}
use kv.Engine.Store.Shards.{
  ShardStore, max_namespaces, Room, room_for, opened_ns, open_ns, ensure_checked, ensure_ns,
  Operation, perform, view, put_back, ran, on_found, run_op,
}
use kv.Engine.Store.Ensures.{Anything, Post}
use kv.Engine.Store.Coherent.{Coherent, Cached, CachedAt, logs}
use kv.Engine.Store.Coherent.Operations.{perform-Coherent}
use kv.Engine.Store.Coherent.Flush.{Cached-none}

-- A store whose map of namespaces is in order and within its limit, whose cache is valid, and whose
-- cache agrees with every namespace.
pub record Sound (s : ShardStore) : Type 0 where
  pub sorted : IsSorted s.namespaces
  pub bounded : length s.namespaces ≤ max_namespaces
  pub valid : IsValid s.cache
  pub agrees :
      (n k : Bytes)
      → is_valid_ns_name n ≡ true
      → CachedAt (λ j. ByteMap.get j s.namespaces) s.cache n k

module _ (ns : Bytes) where
  -- A namespace that ensure_ns returns is in the map.
  abbrev Opened : ShardStore × Result NamespaceLog → Type 0
  Opened (s, ok log) = Sound s × (ByteMap.get ns s.namespaces ≡ some log)
  Opened (s, err e) = Sound s

  opened-Sound :
      (s : ShardStore) (log : NamespaceLog)
      → Sound s
      → ByteMap.get ns s.namespaces ≡ none
      → length s.namespaces < max_namespaces
      → Sound (record s { namespaces = ByteMap.insert ns log s.namespaces })
  opened-Sound s log h absent few = record {
    sorted = insert-IsSorted ns log s.namespaces h.sorted;
    bounded = ground (arith, length-insert ns log s.namespaces h.sorted, absent);
    valid = h.valid;
    agrees = λ n k name. elim (Bool-cases (bytes_eq n ns)) [
      | inl same ↦
          let none_there : ByteMap.get n s.namespaces ≡ none =
            ap (λ j. ByteMap.get j s.namespaces) (eq_of_bytes_eq n ns same) ∙ absent in
          Cached-none (ByteMap.get n (ByteMap.insert ns log s.namespaces)) k
            (content s.cache.entries (cache_key n k))
            (subst
              (λ (l : Option NamespaceLog). Cached l k (content s.cache.entries (cache_key n k)))
              none_there (h.agrees n k name))
      | inr other ↦
          let kept_there : ByteMap.get n (ByteMap.insert ns log s.namespaces)
              ≡ ByteMap.get n s.namespaces =
            get-insert n ns log s.namespaces ∙ rw other refl in
          subst (λ (l : Option NamespaceLog). Cached l k (content s.cache.entries (cache_key n k)))
            (sym kept_there) (h.agrees n k name)
    ];
  }

  -- What the check of the map finds.
  abbrev Checked : ShardStore → Room → Type 0
  Checked s (ok (some log)) = ByteMap.get ns s.namespaces ≡ some log
  Checked s (ok none) =
      (ByteMap.get ns s.namespaces ≡ none) × (length s.namespaces < max_namespaces)
  Checked s (err e) = Unit

  room_for-Checked : (s : ShardStore) → Checked s (room_for s ns)
  room_for-Checked s =
      Option_elim (Checked s) (ByteMap.get ns s.namespaces) _ _
        (λ absent.
          if_elim (Checked s) (leb max_namespaces (length s.namespaces)) _ _ (λ _. tt)
            (λ few. (absent, leb_false→lt max_namespaces (length s.namespaces) few)))
        (λ log found. found)

  opened_ns-Opened :
      (s : ShardStore) (log : NamespaceLog)
      → Sound s
      → (r : Room) → Checked s r
      → Opened (opened_ns s ns log r)
  opened_ns-Opened s log h (ok (some there)) c = (h, c)
  opened_ns-Opened s log h (ok none) c =
      (opened-Sound s log h c.0 c.1, get-insert ns ns log s.namespaces ∙ rw (bytes_eq_refl ns) refl)
  opened_ns-Opened s log h (err e) c = h

  open_ns-Opened : (s : ShardStore) → Sound s → (r : Result NamespaceLog) → Opened (open_ns s ns r)
  open_ns-Opened s h (ok log) = opened_ns-Opened s log h (room_for s ns) (room_for-Checked s)
  open_ns-Opened s h (err e) = h

  ensure_checked-Opened :
      (during : ShardStore → ShardStore)
      → ((s : ShardStore) → Sound s → Sound (during s))
      → (opened : Result NamespaceLog) (s : ShardStore) → Sound s
      → (r : Room) → Checked s r
      → Opened (ensure_checked during opened s ns r)
  ensure_checked-Opened during keeps opened s h (ok (some log)) c = (h, c)
  ensure_checked-Opened during keeps opened s h (ok none) c =
      open_ns-Opened (during s) (keeps s h) opened
  ensure_checked-Opened during keeps opened s h (err e) c = h

-- ensure_ns returns a namespace of the map whose name is valid.
abbrev pub OpenedAs : Bytes → ShardStore × Result NamespaceLog → Type 0
OpenedAs ns (s, ok log) =
    Sound s × (ByteMap.get ns s.namespaces ≡ some log) × (is_valid_ns_name ns ≡ true)
OpenedAs ns (s, err e) = Sound s

opened_as :
    (ns : Bytes)
    → is_valid_ns_name ns ≡ true
    → (r : ShardStore × Result NamespaceLog) → Opened ns r
    → OpenedAs ns r
opened_as ns named (s, ok log) (h, found) = (h, found, named)
opened_as ns named (s, err e) h = h

-- Ensure_ns leaves a sound store, which has at most 1024 namespaces, whatever it returns; a
-- namespace that it returns is in the map under the name asked for, which is valid. Conditions:
-- the store was sound, and what other tasks do while the file is opened keeps it so.
pub ensure_ns-OpenedAs :
    (during : ShardStore → ShardStore)
    → ((s : ShardStore) → Sound s → Sound (during s))
    → (opened : Result NamespaceLog) (s : ShardStore) (ns : Bytes) → Sound s
    → OpenedAs ns (ensure_ns during opened s ns)
unfolding ensure_ns
ensure_ns-OpenedAs during keeps opened s ns h =
    if_elim (OpenedAs ns) (is_valid_ns_name ns) _ (s, err invalid_namespace)
      (λ named.
        opened_as ns named (ensure_checked during opened s ns (room_for s ns)) (
          ensure_checked-Opened ns during keeps opened s h (room_for s ns) (room_for-Checked ns s)))
      (λ _. h)

-- A run that succeeds leaves a sound store.
abbrev SoundIf : ShardStore × Result (Unit {0}) → Type 0
SoundIf (s, ok a) = Sound s
SoundIf (s, err e) = Unit

module _ (x : Ctx) (ns : Bytes) (op : Operation) (named : is_valid_ns_name ns ≡ true) where
  -- The namespaces beside the one that the operation works on.
  abbrev beside : ShardStore → Bytes → Option NamespaceLog
  beside s n = ByteMap.get n s.namespaces

  viewed :
      (s : ShardStore) (log : NamespaceLog)
      → Sound s
      → ByteMap.get ns s.namespaces ≡ some log
      → Coherent (beside s) ns (view s log)
  viewed s log h found = (
    h.valid,
    λ n k name. elim (Bool-cases (bytes_eq n ns)) [
      | inl same ↦
          let there : ByteMap.get n s.namespaces ≡ logs (beside s) ns log n =
            ap (λ j. ByteMap.get j s.namespaces) (eq_of_bytes_eq n ns same)
            ∙ found
            ∙ sym (rw same refl) in
          subst (λ (l : Option NamespaceLog). Cached l k (content s.cache.entries (cache_key n k)))
            there (h.agrees n k name)
      | inr other ↦ rw other (h.agrees n k name)
    ],
  )

  put_back-Sound :
      (s : ShardStore) (log : NamespaceLog)
      → Sound s
      → ByteMap.get ns s.namespaces ≡ some log
      → (v : Shard) → Coherent (beside s) ns v
      → Sound (put_back s.namespaces ns v)
  put_back-Sound s log h found v (valid, agrees) = record {
    sorted = insert-IsSorted ns v.log s.namespaces h.sorted;
    bounded = ground (arith, length-insert ns v.log s.namespaces h.sorted, found, h.bounded);
    valid = valid;
    agrees = λ n k name.
        subst (λ (l : Option NamespaceLog). Cached l k (content v.cache.entries (cache_key n k)))
          (sym (get-insert n ns v.log s.namespaces)) (agrees n k name);
  }

  ran-Sound :
      (s : ShardStore) (log : NamespaceLog)
      → Sound s
      → ByteMap.get ns s.namespaces ≡ some log
      → (r : Shard × Result (Unit {0})) → Post Anything (λ _. Coherent (beside s) ns) r
      → SoundIf (ran s ns r)
  ran-Sound s log h found (v, ok a) c = put_back-Sound s log h found v c
  ran-Sound s log h found (v, err e) c = tt

found-Sound :
    (x : Ctx) (ns : Bytes) (op : Operation) (r : ShardStore × Result NamespaceLog)
    → OpenedAs ns r
    → SoundIf (on_found ns (perform x ns op) r)
found-Sound x ns op (s, ok log) (h, found, named) =
    ran-Sound x ns op named s log h found (perform x ns op (view s log)) (
      (perform-Coherent (beside x ns op named s) x ns named op).at (view s log)
        (viewed x ns op named s log h found))
found-Sound x ns op (s, err e) h = tt

-- A run of an operation that succeeds.
pub data Step (s : ShardStore) : ShardStore → Type 0 where
  ran_ok :
      (x : Ctx) (opened : Result NamespaceLog) (ns : Bytes) (op : Operation) {s' : ShardStore}
      → run_op x opened s ns op ≡ (s', ok tt)
      → Step s s'

pub data Reach (s : ShardStore) : ShardStore → Type 0 where
  here : Reach s s
  next : {t u : ShardStore} → Reach s t → Step t u → Reach s u

run_op-Sound :
    (x : Ctx) (opened : Result NamespaceLog) (s : ShardStore) (ns : Bytes) (op : Operation)
    → Sound s
    → SoundIf (run_op x opened s ns op)
unfolding run_op
run_op-Sound x opened s ns op h =
    found-Sound x ns op (ensure_ns (λ t. t) opened s ns)
      (ensure_ns-OpenedAs (λ t. t) (λ t g. g) opened s ns h)

Step-Sound : {s t : ShardStore} → Step s t → Sound s → Sound t
Step-Sound {s} (ran_ok x opened ns op e) h = subst SoundIf e (run_op-Sound x opened s ns op h)

-- Any sequence of operations that succeed, on any namespaces, from a sound store leads to a sound
-- store: its map of namespaces is in order and has at most 1024, its cache is valid, and for every
-- key of every namespace with a valid name the cache holds nothing, or an entry with the revision
-- and the expiry that the index of that namespace has, and nothing for a namespace that is not
-- open. The operations are get, getex, ttl, pttl, exists, db_size, set, setnx, setxx, setrev,
-- getset, incr, del, delrev, getdel, expire, persist and flush_db. Condition: the operations run
-- one after the other.
pub Reach-Sound : {s t : ShardStore} → Reach s t → Sound s → Sound t
Reach-Sound here h = h
Reach-Sound (next r st) h = Step-Sound st (Reach-Sound r h)
