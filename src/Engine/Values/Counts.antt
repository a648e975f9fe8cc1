-- ===== src/Engine/Values/Counts.antt =====
-- Reference counts and blobs: crates/engine/src/value_store.rs.
use kv.Prelude.{
  ℕ, ◌+◌, ◌-◌, ◌^◌, ◌%◌, ◌<◌, ◌≡◌, refl, sym, ap, ◌∙◌, Bool, true, false, List, [], ◌∷◌, none, some,
  Option_elim, take, ◌==◌, if◌then◌else◌, if_elim, inl, inr, Bool-cases, Bytes, bytes_eq,
  bytes_eq_iff, bytes_eq_refl, eq_of_bytes_eq, arith,
}
use kv.Prelude.ByteMap
use kv.Prelude.ByteMap.{ByteMap, get-insert, get-remove}
use kv.Engine.Error.{Result}
use kv.Engine.File.{Fault}
use kv.Engine.Values.{
  ValueStore, Blake3, content_hash, refcount, incr_ref, dec, write_blob, put, unref, collect,
  collect_garbage,
}

pub refcount-incr_ref :
    (vs : ValueStore) (h k : Bytes)
    → refcount (incr_ref vs h) k
      ≡ (if bytes_eq k h then (refcount vs h + 1) % 2 ^ 32 else refcount vs k)
unfolding incr_ref refcount
refcount-incr_ref vs h k = ground (arith, get-insert k h ((refcount vs h + 1) % 2 ^ 32) vs.refs)

-- A decrement takes one off the count of its hash, and leaves the others.
pub refcount-dec :
    (vs : ValueStore) (h k : Bytes)
    → refcount (dec vs h).0 k ≡ (if bytes_eq k h then refcount vs h - 1 else refcount vs k)
unfolding dec refcount
refcount-dec vs h k =
    Option_elim
      (λ (r : ValueStore × Bool).
        refcount r.0 k ≡ (if bytes_eq k h then refcount vs h - 1 else refcount vs k))
      (ByteMap.get h vs.refs) _ _ (λ absent. ground (arith, absent, bytes_eq_iff k h))
      λ n found.
        if_elim
          (λ (r : ValueStore × Bool).
            refcount r.0 k ≡ (if bytes_eq k h then refcount vs h - 1 else refcount vs k))
          (n - 1 == 0) _ _ (λ last. ground (arith, found, get-remove k h vs.refs, bytes_eq_iff k h))
          (λ more. ground (arith, found, get-insert k h (n - 1) vs.refs, bytes_eq_iff k h))

dec-blobs : (vs : ValueStore) (h : Bytes) → (dec vs h).0.blobs ≡ vs.blobs
unfolding dec
dec-blobs vs h =
    Option_elim (λ (r : ValueStore × Bool). r.0.blobs ≡ vs.blobs) (ByteMap.get h vs.refs) _ _
      (λ _. refl)
      λ n _.
        if_elim (λ (r : ValueStore × Bool). r.0.blobs ≡ vs.blobs) (n - 1 == 0) _ _ (λ _. refl)
          (λ _. refl)

unref-refs : (vs : ValueStore) (h : Bytes) → (unref vs h).refs ≡ (dec vs h).0.refs
unfolding unref
unref-refs vs h =
    if_elim (λ (s : ValueStore). s.refs ≡ (dec vs h).0.refs) (dec vs h).1 _ _ (λ _. refl)
      (λ _. refl)

pub unref-blobs : (vs : ValueStore) (h : Bytes) → (unref vs h).blobs ≡ vs.blobs
unfolding unref
unref-blobs vs h =
    if_elim (λ (s : ValueStore). s.blobs ≡ vs.blobs) (dec vs h).1 _ _ (λ _. dec-blobs vs h)
      (λ _. dec-blobs vs h)

pub refcount-unref :
    (vs : ValueStore) (h k : Bytes)
    → refcount (unref vs h) k ≡ (if bytes_eq k h then refcount vs h - 1 else refcount vs k)
unfolding refcount
refcount-unref vs h k =
    ap (λ (m : ByteMap ℕ). elim (ByteMap.get k m) as (λ _. ℕ) [ none ↦ 0 | some n ↦ n ])
      (unref-refs vs h)
    ∙ refcount-dec vs h k

refcount-write_blob :
    (n : ℕ) (vs : ValueStore) (h value k : Bytes)
    → refcount (write_blob (some n) vs h value) k ≡ refcount vs k
unfolding write_blob refcount
refcount-write_blob n vs h value k = refl

get-write_blob :
    (n : ℕ) (vs : ValueStore) (h value k : Bytes)
    → bytes_eq k h ≡ false
    → ByteMap.get k (write_blob (some n) vs h value).blobs ≡ ByteMap.get k vs.blobs
unfolding write_blob
get-write_blob n vs h value k other = ground (arith, get-insert k h (take n value) vs.blobs, other)

-- Every hash that is counted has a blob, and the blob has that hash.
module _ (blake3 : Blake3) where
  abbrev pub HasBlob : ValueStore → Bytes → Type 0
  HasBlob vs h = (b : Bytes) × (ByteMap.get h vs.blobs ≡ some b) × (content_hash blake3 b ≡ h)

  abbrev pub Backed : ValueStore → Type 0
  Backed vs = (h : Bytes) → 0 < refcount vs h → HasBlob vs h

  moved :
      (vs vs' : ValueStore)
      → ((k : Bytes) → 0 < refcount vs' k → 0 < refcount vs k)
      → vs'.blobs ≡ vs.blobs
      → Backed vs
      → Backed vs'
  moved vs vs' counts blobs w k counted =
      let (b, found, hashes) = w k (counts k counted) in
      (b, ap (ByteMap.get k) blobs ∙ found, hashes)

  -- If every counted hash has a blob with that content hash, the same holds after unref of any
  -- hash.
  pub unref-Backed : (vs : ValueStore) (h : Bytes) → Backed vs → Backed (unref vs h)
  unref-Backed vs h =
      moved vs (unref vs h)
        (λ k counted. ground (arith, refcount-unref vs h k, counted, bytes_eq_iff k h))
        (unref-blobs vs h)

  module _ (vs : ValueStore) (value : Bytes) (w : Backed vs) where
    abbrev h : Bytes
    h = content_hash blake3 value

    incr-counted :
        (k : Bytes)
        → (refcount (incr_ref vs h) h == 1) ≡ false
        → 0 < refcount (incr_ref vs h) k
        → 0 < refcount vs k
    incr-counted k many counted = ground (
      arith,
      refcount-incr_ref vs h k,
      refcount-incr_ref vs h h,
      bytes_eq_iff k h,
      bytes_eq_refl h,
      many,
      counted,
    )

    incr-blobs : (incr_ref vs h).blobs ≡ vs.blobs
    unfolding incr_ref
    incr-blobs = refl

    written-Backed : Backed (write_blob none (incr_ref vs h) h value)
    unfolding write_blob incr_ref refcount
    written-Backed k counted = elim (Bool-cases (bytes_eq k h)) [
      | inl same ↦ (
        value,
        ground (arith, get-insert k h value vs.blobs, same),
        sym (eq_of_bytes_eq k h same),
      )
      | inr other ↦
          let (b, found, hashes) = w k (
            ground
              (arith, counted, get-insert k h ((refcount vs h + 1) % 2 ^ 32) vs.refs, other)) in
          (b, ground (arith, get-insert k h value vs.blobs, other, found), hashes)
    ]

    failed-Backed :
        (n : ℕ)
        → (refcount (incr_ref vs h) h == 1) ≡ true
        → Backed (dec (write_blob (some n) (incr_ref vs h) h value) h).0
    failed-Backed n one k counted =
        let part = write_blob (some n) (incr_ref vs h) h value in
        let count = refcount-dec part h k in
        let before = refcount-write_blob n (incr_ref vs h) h value in
        let other : bytes_eq k h ≡ false = ground (arith, count, before h, one, counted) in
        let (b, found, hashes) =
          w k (ground (arith, count, before k, counted, other, refcount-incr_ref vs h k)) in
        (
          b,
          ap (ByteMap.get k) (dec-blobs part h)
              ∙ get-write_blob n (incr_ref vs h) h value k other
              ∙ ap (ByteMap.get k) incr-blobs
              ∙ found,
          hashes,
        )

    -- If every counted hash has a blob with that content hash, the same holds after put of a
    -- value, whether its blob is written, was there already, or is written in part only.
    pub put-Backed : (fault : Fault) → Backed (put blake3 fault vs value).0
    unfolding put
    put-Backed none =
        if_elim (λ (r : ValueStore × Result Bytes). Backed r.0) (refcount (incr_ref vs h) h == 1) _
          _ (λ one. written-Backed)
          (λ many. moved vs (incr_ref vs h) (λ k. incr-counted k many) incr-blobs w)
    put-Backed (some n) =
        if_elim (λ (r : ValueStore × Result Bytes). Backed r.0) (refcount (incr_ref vs h) h == 1) _
          _ (λ one. failed-Backed n one)
          (λ many. moved vs (incr_ref vs h) (λ k. incr-counted k many) incr-blobs w)

  dropped :
      (vs : ValueStore) (h : Bytes)
      → Backed vs
      → (refcount vs h == 0) ≡ true
      → Backed (record vs { blobs = ByteMap.remove h vs.blobs })
  unfolding refcount
  dropped vs h w none' k counted =
      let (b, found, hashes) = w k counted in
      (b, ground (arith, get-remove k h vs.blobs, bytes_eq_iff k h, found, none', counted), hashes)

  collect-Backed :
      (pending : List Bytes) (vs : ValueStore) → Backed vs → Backed (collect pending vs)
  unfolding collect
  collect-Backed [] vs w = w
  collect-Backed (h ∷ pending) vs w = collect-Backed pending _ (
      if_elim Backed (refcount vs h == 0) (record vs { blobs = ByteMap.remove h vs.blobs }) vs
        (λ zero'. dropped vs h w zero') (λ _. w))

  -- If every counted hash has a blob with that content hash, the same holds after collect_garbage,
  -- whatever hashes its queue holds.
  pub collect_garbage-Backed : (vs : ValueStore) → Backed vs → Backed (collect_garbage vs)
  unfolding collect_garbage refcount
  collect_garbage-Backed vs w =
      collect-Backed vs.pending_delete (record vs { pending_delete = [] }) w
