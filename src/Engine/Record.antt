-- ===== src/Engine/Record.antt =====
-- crates/engine/src/log/record.rs: the bytes of one log record. The checksum is `crc_fast`'s
-- CRC-64/NVME, a parameter; the digest of two updates is the checksum of their concatenation.
pub mod RoundTrip
use kv.Prelude.{
  ℕ, ◌+◌, ◌-◌, ◌/◌, ◌%◌, ◌^◌, ◌<◌, Bool, [], ◌∷◌, ◌++◌, ltb, leb, ◌==◌, if◌then◌else◌, length, drop,
  get_elem?, Bytes, to_le, from_le, slice, Option, none, some, ok, err, ok_or, ◌>>=◌,
}
use kv.Engine.Error.{Result, bad_record, crc_mismatch}

-- What the engine relies on: a checksum is a u64.
pub record Crc : Type 0 where
  pub checksum : Bytes → ℕ
  pub checksum-lt : (b : Bytes) → checksum b < 2 ^ 64

-- mod flags: bits 0 to 3 of the flags byte
abbrev pub tombstone : ℕ
tombstone = 1

abbrev pub no_expiry : ℕ
no_expiry = 2

abbrev pub ttl_update : ℕ
ttl_update = 4

abbrev pub value_sep : ℕ
value_sep = 8

-- `flags & bit != 0`, at a power of two
abbrev pub has_flag : ℕ → ℕ → Bool
has_flag flags bit = (flags / bit) % 2 == 1

abbrev pub header_len : ℕ
header_len = 37

abbrev pub u32_max : ℕ
u32_max = 2 ^ 32 - 1

pub record RecordHeader : Type 0 where
  pub crc : ℕ
  pub tstamp_ms : ℕ
  pub flags : ℕ
  pub expires_at_ms : ℕ
  pub key_size : ℕ
  pub val_size : ℕ
  pub meta_size : ℕ

abbrev pub body_len : RecordHeader → ℕ
body_len h = h.key_size + h.val_size + h.meta_size

abbrev pub record_len : RecordHeader → ℕ
record_len h = header_len + body_len h

-- One of `u64_le` and `u32_le`: a little-endian word of `w` bytes.
unfoldable pub word_le : ℕ → Bytes → ℕ → ℕ → Result ℕ
word_le w buf off at = elim (slice buf off w) [
  | some s ↦ ok (from_le s)
  | none ↦ err (bad_record at)
]

unfoldable pub parse_header : Bytes → ℕ → Result RecordHeader
unfolding word_le
parse_header buf offset = if ltb (length buf) header_len then err (bad_record offset) else do
  crc ← word_le 8 buf 0 offset
  tstamp_ms ← word_le 8 buf 8 offset
  flags ← ok_or (get_elem? buf 16) (bad_record offset)
  expires_at_ms ← word_le 8 buf 17 offset
  key_size ← word_le 4 buf 25 offset
  val_size ← word_le 4 buf 29 offset
  meta_size ← word_le 4 buf 33 offset
  ok (record {
    crc = crc;
    tstamp_ms = tstamp_ms;
    flags = flags;
    expires_at_ms = expires_at_ms;
    key_size = key_size;
    val_size = val_size;
    meta_size = meta_size;
  })

unfoldable pub verify_crc : Crc → RecordHeader → Bytes → Bytes → ℕ → Result (Unit {0})
verify_crc c header header_bytes body offset =
    if c.checksum (drop 8 header_bytes ++ body) == header.crc
    then ok tt
    else err (crc_mismatch offset)

-- The header after the checksum field.
unfoldable pub header_tail : ℕ → ℕ → ℕ → ℕ → ℕ → ℕ → Bytes
unfolding to_le
header_tail tstamp_ms flags expires_at_ms key_size val_size meta_size =
    to_le 8 tstamp_ms
    ++ (flags
        ∷ (to_le 8 expires_at_ms ++ (to_le 4 key_size ++ (to_le 4 val_size ++ to_le 4 meta_size))))

-- The record as it stands in the buffer, checksum first.
unfoldable pub record_bytes : Crc → ℕ → ℕ → ℕ → Bytes → Bytes → Bytes → Bytes
record_bytes c tstamp_ms flags expires_at_ms key value metadata =
    let head =
      header_tail tstamp_ms flags expires_at_ms (length key % 2 ^ 32) (length value % 2 ^ 32)
        (length metadata % 2 ^ 32) in
    let tail = head ++ (key ++ (value ++ metadata)) in to_le 8 (c.checksum tail) ++ tail

-- `checked_add` on a usize, and the filter on `u32::MAX`.
unfoldable pub fits_u32 : Bytes → Bytes → Bytes → Bool
fits_u32 key value metadata = leb (header_len + length key + length value + length metadata) u32_max

unfoldable pub encode_into : Crc → Bytes → ℕ → ℕ → ℕ → Bytes → Bytes → Bytes → Result Bytes
encode_into c buf tstamp_ms flags expires_at_ms key value metadata =
    if fits_u32 key value metadata
    then ok (buf ++ record_bytes c tstamp_ms flags expires_at_ms key value metadata)
    else err (bad_record 0)

unfoldable pub encode : Crc → ℕ → ℕ → ℕ → Bytes → Bytes → Bytes → Result Bytes
unfolding encode_into
encode c = encode_into c []
