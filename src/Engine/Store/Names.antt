-- ===== src/Engine/Store/Names.antt =====
-- The names of namespaces and the keys of the cache in crates/engine/src/store.rs.
use kv.Prelude.{
  ℕ, ◌≡◌, refl, Bool, true, not, ◌&&◌, ◌||◌, [], ◌∷◌, ◌++◌, leb, ◌==◌, length, Bytes, arith,
}

-- `is_ascii_alphanumeric`, `_` and `-`
abbrev pub name_byte : ℕ → Bool
name_byte b =
    (leb b'0' b && leb b b'9')
    || (leb b'A' b && leb b b'Z')
    || (leb b'a' b && leb b b'z')
    || b == b'_'
    || b == b'-'

unfoldable pub all_name_bytes : Bytes → Bool
all_name_bytes [] = true
all_name_bytes (b ∷ name) = name_byte b && all_name_bytes name

unfoldable pub is_valid_ns_name : Bytes → Bool
unfolding all_name_bytes
is_valid_ns_name name = not (length name == 0) && leb (length name) 64 && all_name_bytes name

-- `ns\x00key`: both `with_cache_key` and `cache_key` build it.
unfoldable pub cache_key : Bytes → Bytes → Bytes
cache_key ns key = ns ++ 0 ∷ key

split_at_zero :
    (ns ns' key key' : Bytes)
    → all_name_bytes ns ≡ true
    → all_name_bytes ns' ≡ true
    → (ns ++ 0 ∷ key) ≡ (ns' ++ 0 ∷ key')
    → (ns ≡ ns') × (key ≡ key')
unfolding all_name_bytes
split_at_zero [] [] key key' v v' e = (refl, cc)
split_at_zero [] (b ∷ ns') key key' v v' e = absurd (ground arith)
split_at_zero (a ∷ ns) [] key key' v v' e = absurd (ground arith)
split_at_zero (a ∷ ns) (b ∷ ns') key key' v v' e =
    let (same, keys) = split_at_zero ns ns' key key' (ground arith) (ground arith) (cc) in
    (cc, keys)

-- Two entries of the cache with the same key are of the same key of the same namespace: no key of
-- one namespace reaches another. Condition: the names of both namespaces are valid.
pub cache_key_inj :
    (ns ns' key key' : Bytes)
    → is_valid_ns_name ns ≡ true
    → is_valid_ns_name ns' ≡ true
    → cache_key ns key ≡ cache_key ns' key'
    → (ns ≡ ns') × (key ≡ key')
unfolding cache_key is_valid_ns_name
cache_key_inj ns ns' key key' v v' e = split_at_zero ns ns' key key' (ground arith) (ground arith) e
