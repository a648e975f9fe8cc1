-- ===== src/Engine/Values/Release.antt =====
-- The end of a blob: unref and collect_garbage of crates/engine/src/value_store.rs.
use kv.Prelude.{
  ◌-◌, ◌≡◌, refl, Bool, true, false, ◌||◌, List, [], ◌∷◌, ◌++◌, none, some, Option_elim, ◌==◌,
  if◌then◌else◌, if_elim, Bytes, bytes_eq, bytes_eq_iff, arith,
}
use kv.Prelude.ByteMap
use kv.Engine.Values.{ValueStore, Blake3, refcount, dec, unref}
use kv.Engine.Values.Counts.{Backed, refcount-unref, unref-blobs, unref-Backed}

unfoldable pub has_hash : Bytes → List Bytes → Bool
has_hash h [] = false
has_hash h (k ∷ l) = bytes_eq h k || has_hash h l

has_hash-append :
    (h : Bytes) (l m : List Bytes) → has_hash h (l ++ m) ≡ (has_hash h l || has_hash h m)
unfolding has_hash
has_hash-append h [] m = refl
has_hash-append h (k ∷ l) m = ground (arith, has_hash-append h l m)

-- No blob is lost: one whose hash has no count is on the list for the garbage collector.
abbrev pub Queued : List Bytes → ValueStore → Type 0
Queued pending vs =
    (k b : Bytes) → ByteMap.get k vs.blobs ≡ some b → refcount vs k ≡ 0 → has_hash k pending ≡ true

dec-pending : (vs : ValueStore) (h : Bytes) → (dec vs h).0.pending_delete ≡ vs.pending_delete
unfolding dec
dec-pending vs h =
    Option_elim (λ (r : ValueStore × Bool). r.0.pending_delete ≡ vs.pending_delete)
      (ByteMap.get h vs.refs) _ _ (λ _. refl)
      λ n _.
        if_elim (λ (r : ValueStore × Bool). r.0.pending_delete ≡ vs.pending_delete) (n - 1 == 0) _ _
          (λ _. refl) (λ _. refl)

-- The last reference goes.
dec-last : (vs : ValueStore) (h : Bytes) → refcount vs h ≡ 1 → (dec vs h).1 ≡ true
unfolding dec refcount
dec-last vs h =
    Option_elim (λ (r : ValueStore × Bool). refcount vs h ≡ 1 → r.1 ≡ true) (ByteMap.get h vs.refs)
      _ _ (λ absent e. ground (arith, absent)) λ n found e. ground (arith, found)

unref-pending :
    (vs : ValueStore) (h : Bytes)
    → (unref vs h).pending_delete
      ≡ (if (dec vs h).1 then vs.pending_delete ++ h ∷ [] else vs.pending_delete)
unfolding unref
unref-pending vs h = ground (arith, dec-pending vs h)

unref-Queued :
    (vs : ValueStore) (h : Bytes)
    → Queued vs.pending_delete vs
    → Queued (unref vs h).pending_delete (unref vs h)
unfolding has_hash
unref-Queued vs h w k b found zero' = ground (
  arith,
  unref-pending vs h,
  unref-blobs vs h,
  refcount-unref vs h k,
  dec-last vs h,
  bytes_eq_iff k h,
  has_hash-append k vs.pending_delete (h ∷ []),
  w k b,
)

module _ (blake3 : Blake3) where
  -- What is left of a store when a reference to a hash goes.
  abbrev pub Released : ValueStore → Bytes → ValueStore → Type 0
  Released vs h vs' =
      ((k : Bytes) → refcount vs' k ≡ (if bytes_eq k h then refcount vs h - 1 else refcount vs k))
      × (vs'.blobs ≡ vs.blobs)
      × Backed blake3 vs'
      × Queued vs'.pending_delete vs'

  -- Unref takes one off the count of its hash, if that is above zero, and leaves the other counts
  -- and every blob; after it every counted hash has a blob with that content hash, and every blob
  -- without a count is on the list for the garbage collector. Conditions: the last two held
  -- before.
  pub unref-Released :
      (vs : ValueStore) (h : Bytes)
      → Backed blake3 vs
      → Queued vs.pending_delete vs
      → Released vs h (unref vs h)
  unref-Released vs h w q =
      (refcount-unref vs h, unref-blobs vs h, unref-Backed blake3 vs h w, unref-Queued vs h q)

-- The store after the check of one hash of the queue.
abbrev checked : ValueStore → Bytes → ValueStore
checked vs h = if refcount vs h == 0 then record vs { blobs = ByteMap.remove h vs.blobs } else vs

-- The counts are what they were, and of the blobs exactly those with a count are left.
abbrev pub Collected : ValueStore → ValueStore → Type 0
Collected vs vs' =
    ((k : Bytes) → refcount vs' k ≡ refcount vs k)
    × ((k : Bytes)
        → ByteMap.get k vs'.blobs ≡ (if refcount vs k == 0 then none else ByteMap.get k vs.blobs))
