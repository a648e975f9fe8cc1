-- ===== src/Engine/Footer.antt =====
-- crates/engine/src/log/file.rs: the footer of a sealed file. Its checksum is `crc_fast`'s.
pub mod RoundTrip
pub mod Sealed
use kv.Prelude.{
  ℕ, zero, suc, ◌+◌, ◌-◌, ◌^◌, ◌%◌, Bool, true, false, List, [], ◌∷◌, ◌++◌, Option, none, some, ltb,
  leb, ◌==◌, if◌then◌else◌, length, take, drop, get_elem?, Bytes, to_le, from_le, ok, err, ◌>>=◌,
  and_then,
}
use kv.Engine.Error.{Result, bad_record, crc_mismatch, io}
use kv.Engine.Record.{Crc}
use kv.Engine.File.{LogFile, Fault, append, read_exact}

abbrev pub footer_magic : ℕ
footer_magic = 0x4259_4F4E_445F_4B58

abbrev pub footer_trailer_len : ℕ
footer_trailer_len = 24

pub record FooterEntry : Type 0 where
  pub key : Bytes
  pub record_offset : ℕ
  pub record_size : ℕ
  pub expires_at_ms : Option ℕ
  pub tstamp_ms : ℕ
  pub value_hash : Option Bytes

-- The byte that says whether there is an expiry, and the milliseconds that stand before it.
abbrev pub expiry_word : Option ℕ → ℕ
expiry_word (some ms) = ms
expiry_word none = 0

abbrev pub expiry_flag : Option ℕ → ℕ
expiry_flag (some ms) = 1
expiry_flag none = 0

abbrev pub hash_bytes : Option Bytes → Bytes
hash_bytes (some h) = 1 ∷ h
hash_bytes none = 0 ∷ []

-- `FooterEntry::encode_into`
unfoldable pub encode_entry : FooterEntry → Bytes
unfolding to_le
encode_entry e =
    to_le 4 (length e.key % 2 ^ 32)
    ++ (to_le 8 e.record_offset
        ++ (to_le 4 e.record_size
            ++ (to_le 8 (expiry_word e.expires_at_ms)
                ++ (expiry_flag e.expires_at_ms
                    ∷ (to_le 8 e.tstamp_ms ++ (hash_bytes e.value_hash ++ e.key))))))

abbrev pub word : Bytes → ℕ → ℕ → ℕ
word buf off w = from_le (take w (drop off buf))

abbrev pub byte : Bytes → ℕ → ℕ
byte buf off = elim (get_elem? buf off) [ some b ↦ b | none ↦ 0 ]

-- The rest of `FooterEntry::parse`, from the cursor behind the optional hash.
unfoldable pub parse_key : Bytes → ℕ → Option Bytes → Option (FooterEntry × ℕ)
parse_key buf cursor value_hash =
    let total = cursor + word buf 0 4 in
    if ltb (length buf) total
    then none
    else some (
      record {
        key = take (word buf 0 4) (drop cursor buf);
        record_offset = word buf 4 8;
        record_size = word buf 12 4;
        expires_at_ms = if byte buf 24 == 0 then none else some (word buf 16 8);
        tstamp_ms = word buf 25 8;
        value_hash = value_hash;
      },
      total,
    )

-- `FooterEntry::parse`: the entry, and the bytes used.
unfoldable pub parse_entry : Bytes → Option (FooterEntry × ℕ)
unfolding parse_key
parse_entry buf =
    if ltb (length buf) 34
    then none
    else if byte buf 33 == 0
    then parse_key buf 34 none
    else if ltb (length buf) 50
    then none
    else parse_key buf 50 (some (take 16 (drop 34 buf)))

unfoldable pub encode_entries : List FooterEntry → Bytes
encode_entries [] = []
encode_entries (e ∷ es) = encode_entry e ++ encode_entries es

unfoldable pub trailer : Crc → Bytes → Bytes
trailer c body = to_le 8 (length body) ++ (to_le 8 (c.checksum body) ++ to_le 8 footer_magic)

-- The answers of the kernel to the two writes and the fsync of `write_footer`.
pub record FooterFaults : Type 0 where
  pub body : Fault
  pub trailer : Fault
  pub sync_fails : Bool

abbrev pub no_footer_faults : FooterFaults
no_footer_faults = record { body = none; trailer = none; sync_fails = false }

unfoldable pub write_footer :
    Crc → FooterFaults → LogFile → List FooterEntry → LogFile × Result (Unit {0})
write_footer c faults f entries =
    let body = encode_entries entries in
    and_then (append faults.body f body) λ _ f1.
      and_then (append faults.trailer f1 (trailer c body))
        λ _ f2. (f2, if faults.sync_fails then err io else ok tt)

-- The loop over the entries of the body, on fuel: each entry takes a byte at least.
unfoldable pub parse_entries : ℕ → Bytes → ℕ → Result (List FooterEntry)
parse_entries zero body at = ok []
parse_entries (suc fuel) [] at = ok []
parse_entries (suc fuel) (b ∷ body) at = elim (parse_entry (b ∷ body)) [
  | none ↦ err (bad_record at)
  | some (entry, used) ↦
      parse_entries fuel (drop used (b ∷ body)) (at + used) >>= λ rest. ok (entry ∷ rest)
]

-- The footer whose body starts at `body_offset`.
unfoldable pub read_entries : Crc → LogFile → ℕ → ℕ → ℕ → Result (Option (List FooterEntry))
read_entries c f body_offset body_len stored_crc = do
  body ← read_exact f body_offset body_len
  if c.checksum body == stored_crc
      then (do entries ← parse_entries (suc (length body)) body body_offset; ok (some entries))
      else err (crc_mismatch body_offset)

unfoldable pub read_footer : Crc → LogFile → Result (Option (List FooterEntry))
read_footer c f =
    let total_size = length f.bytes in
    if ltb total_size footer_trailer_len then ok none else do
      tail ← read_exact f (total_size - footer_trailer_len) footer_trailer_len
      let body_len = word tail 0 8
      if word tail 16 8 == footer_magic
          then (if ltb (total_size - footer_trailer_len) body_len
              then err (bad_record (total_size - footer_trailer_len))
              else read_entries c f (total_size - footer_trailer_len - body_len) body_len
                  (word tail 8 8))
          else ok none
