-- ===== src/Engine/Index.antt =====
-- crates/engine/src/log/index.rs: the in-memory index of a namespace.
pub mod Valid
pub mod Scan
use kv.Prelude.{
  ℕ, zero, suc, ◌+◌, ◌-◌, Bool, true, false, ◌&&◌, not, List, [], ◌∷◌, ◌++◌, Option, none, some,
  leb, is_some, if◌then◌else◌, length, Bytes, bytes_lt,
}
use kv.Prelude.ByteMap
use kv.Prelude.ByteMap.{ByteMap}

pub record IndexEntry : Type 0 where
  pub record_offset : ℕ
  pub record_size : ℕ
  pub file_id : ℕ
  pub tstamp_ms : ℕ

-- `map` holds the entries, `ttl` the expiry times, `valsep` the content hashes of separated values.
pub record NsIndex : Type 0 where
  pub map : ByteMap IndexEntry
  pub ttl : ByteMap ℕ
  pub valsep : ByteMap Bytes
  pub live_count : ℕ

abbrev pub empty : NsIndex
empty = record { map = []; ttl = []; valsep = []; live_count = 0 }

abbrev pub get : NsIndex → Bytes → Option IndexEntry
get idx key = ByteMap.get key idx.map

-- `NsIndex::ttl` and `NsIndex::valsep`, the reads of the two sidecars
abbrev pub ttl_of : NsIndex → Bytes → Option ℕ
ttl_of idx key = ByteMap.get key idx.ttl

abbrev pub valsep_of : NsIndex → Bytes → Option Bytes
valsep_of idx key = ByteMap.get key idx.valsep

unfoldable pub set_valsep : NsIndex → Bytes → Option Bytes → NsIndex
set_valsep idx key hash = record idx { valsep = ByteMap.put key hash idx.valsep }

unfoldable pub insert : NsIndex → Bytes → IndexEntry → Option ℕ → NsIndex
insert idx key entry expires_at_ms = record idx {
  ttl = ByteMap.put key expires_at_ms idx.ttl;
  map = ByteMap.insert key entry idx.map;
  live_count = if is_some (get idx key) then idx.live_count else suc idx.live_count;
}

unfoldable pub set_ttl : NsIndex → Bytes → Option ℕ → NsIndex
set_ttl idx key expires_at_ms = record idx { ttl = ByteMap.put key expires_at_ms idx.ttl }

-- The index without the key, and whether it held the key.
unfoldable pub remove : NsIndex → Bytes → NsIndex × Bool
remove idx key =
    let removed = is_some (get idx key) in
    (
      record {
        ttl = ByteMap.remove key idx.ttl;
        valsep = ByteMap.remove key idx.valsep;
        map = ByteMap.remove key idx.map;
        live_count = if removed then idx.live_count - 1 else idx.live_count;
      },
      removed,
    )

unfoldable pub is_expired : NsIndex → Bytes → ℕ → Bool
is_expired idx key now_ms = elim (ttl_of idx key) [ some ms ↦ leb ms now_ms | none ↦ false ]

-- `self.map.range((start, Unbounded))`
unfoldable pub range_after : Option Bytes → ByteMap IndexEntry → ByteMap IndexEntry
range_after none m = m
range_after (some c) [] = []
range_after (some c) ((k, e) ∷ m) =
    let rest = range_after (some c) m in if bytes_lt c k then (k, e) ∷ rest else rest

-- A key that the loop of `scan` yields. `has_ttl` only saves the lookup in an empty map.
unfoldable pub yields : NsIndex → ℕ → (Bytes → Bool) → Bytes → Bool
unfolding is_expired
yields idx now_ms filter k =
    let has_ttl = not (elim idx.ttl [ [] ↦ true | _ ↦ false ]) in
    if has_ttl && is_expired idx k now_ms then false else filter k

-- The loop: `continue` on a key that is not yielded, `break` once `count` keys are.
unfoldable pub scan_loop : (Bytes → Bool) → ℕ → ByteMap IndexEntry → List Bytes → List Bytes
scan_loop keep count [] yielded = yielded
scan_loop keep count ((k, e) ∷ m) yielded =
    let skip = scan_loop keep count m yielded in
    let push = yielded ++ k ∷ [] in
    let next = scan_loop keep count m push in
    if keep k then (if leb count (length push) then push else next) else skip

unfoldable pub last : List Bytes → Option Bytes
last [] = none
last (k ∷ []) = some k
last (k ∷ j ∷ ks) = last (j ∷ ks)

unfoldable pub scan : NsIndex → Option Bytes → ℕ → ℕ → (Bytes → Bool) → List Bytes × Option Bytes
unfolding yields range_after scan_loop last
scan idx cursor count now_ms filter =
    let count' = if leb count 0 then 1 else count in
    let yielded = scan_loop (yields idx now_ms filter) count' (range_after cursor idx.map) [] in
    (yielded, if leb count' (length yielded) then last yielded else none)
