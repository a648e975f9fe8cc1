-- ===== src/Engine/Record/RoundTrip.antt =====
-- Decoding what was encoded: crates/engine/src/log/record.rs.
use mathlib.Core.List.{append_assoc}
use kv.Prelude.{
  ℕ, ◌+◌, ◌%◌, ◌^◌, ◌<◌, ◌≤◌, ◌≡◌, refl, ◌∙◌, ◌++◌, true, length, Bytes, arith, ok, to_le, from_le,
  from_le-to_le,
}
use kv.Engine.Record.{
  Crc, RecordHeader, header_tail, record_bytes, fits_u32, u32_max, parse_header, verify_crc,
}

-- The header that the encoder writes.
abbrev pub header_of : Crc → ℕ → ℕ → ℕ → Bytes → Bytes → Bytes → RecordHeader
header_of c tstamp_ms flags expires_at_ms key value metadata = record {
  crc = c.checksum (
      header_tail tstamp_ms flags expires_at_ms (length key % 2 ^ 32) (length value % 2 ^ 32)
        (length metadata % 2 ^ 32)
      ++ (key ++ (value ++ metadata)));
  tstamp_ms = tstamp_ms;
  flags = flags;
  expires_at_ms = expires_at_ms;
  key_size = length key;
  val_size = length value;
  meta_size = length metadata;
}

-- The first 37 bytes of a record, and the rest.
abbrev pub header_bytes : Crc → ℕ → ℕ → ℕ → Bytes → Bytes → Bytes → Bytes
header_bytes c t f x key value metadata =
    let head =
      header_tail t f x (length key % 2 ^ 32) (length value % 2 ^ 32) (length metadata % 2 ^ 32) in
    to_le 8 (c.checksum (head ++ (key ++ (value ++ metadata)))) ++ head

-- Numbers that fit their words.
pub record Fits (t x : ℕ) (key value metadata : Bytes) : Type 0 where
  pub tstamp : t < 2 ^ 64
  pub expires : x < 2 ^ 64
  pub size : fits_u32 key value metadata ≡ true

word_size : (n : ℕ) → n < 2 ^ 32 → from_le (to_le 4 (n % 2 ^ 32)) ≡ n
word_size n h = from_le-to_le 4 (n % 2 ^ 32) (omega arith) ∙ omega arith

module _ (c : Crc) (t f x : ℕ) (key value metadata : Bytes) where
  pub sizes :
      Fits t x key value metadata → length key + length value + length metadata + 37 ≤ u32_max
  unfolding fits_u32
  sizes h = ground (arith, h.size)

  pub length-header_bytes : length (header_bytes c t f x key value metadata) ≡ 37
  unfolding header_tail
  length-header_bytes = refl

  pub record_bytes-split :
      record_bytes c t f x key value metadata
      ≡ header_bytes c t f x key value metadata ++ (key ++ (value ++ metadata))
  unfolding record_bytes
  record_bytes-split = rw append_assoc

  pub parse-header_bytes :
      Fits t x key value metadata
      → (offset : ℕ)
      → parse_header (header_bytes c t f x key value metadata) offset
        ≡ ok (header_of c t f x key value metadata)
  unfolding parse_header header_tail
  parse-header_bytes h offset =
      let fits : length key + length value + length metadata + 37 ≤ u32_max = sizes h in
      cc (
        from_le-to_le 8 (header_of c t f x key value metadata).crc (c.checksum-lt _),
        from_le-to_le 8 t h.tstamp,
        from_le-to_le 8 x h.expires,
        word_size (length key) (omega arith),
        word_size (length value) (omega arith),
        word_size (length metadata) (omega arith),
      )

  -- The checksum that the encoder writes is the one that the reader computes.
  pub verify-header_bytes :
      (offset : ℕ)
      → verify_crc c
          (header_of c t f x key value metadata)
          (header_bytes c t f x key value metadata)
          (key ++ (value ++ metadata))
          offset
        ≡ ok tt
  unfolding verify_crc to_le
  verify-header_bytes offset = ground arith
